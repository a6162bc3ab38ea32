-- ===== src/Vita/Context/Local.antt =====
-- A context packet is read from the bytes of the datagram only.
use inmarsat_sniffer.Base.{
  ℕ, ◌+◌, ◌*◌, ◌≤◌, ◌<◌, ◌≡◌, refl, ap, arith, ltb, Bool, List, [], ◌∷◌, Option, none, some, inl,
  inr, Bool-cases, ◌∙◌,
}
use inmarsat_sniffer.Vita.Header.{be_32, pkt_size_w, optional_words}
use inmarsat_sniffer.Vita.Context.{
  Report, cif_fields, cif_rf_ref_freq, cif_sample_rate, read_be_64, take_field, read_fields,
  empty_report, context_fields, log_report, vrt_handle_context,
}
use inmarsat_sniffer.Vita.Header.Local.{Agree, be_32-Agree}

-- The two fields that are read are two words long.
data Sized : List (ℕ × ℕ) → Type 0 where
  sized_none : Sized []
  sized_one :
      {bit words : ℕ} {fields : List (ℕ × ℕ)}
      → (bit ≡ cif_rf_ref_freq → words ≡ 2)
      → (bit ≡ cif_sample_rate → words ≡ 2)
      → Sized fields
      → Sized ((bit, words) ∷ fields)

take_field-Agree :
    (p q : ℕ → ℕ) (len off_w bit words : ℕ) (r : Report)
    → Agree p q len
    → (bit ≡ cif_rf_ref_freq → words ≡ 2)
    → (bit ≡ cif_sample_rate → words ≡ 2)
    → (off_w + words) * 4 ≤ len
    → take_field p off_w bit r ≡ take_field q off_w bit r
unfolding take_field read_be_64
take_field-Agree p q len off_w bit words r a freq rate fits =
    let word₀ : words ≡ 2 → be_32 p (off_w * 4) ≡ be_32 q (off_w * 4) =
      λ w. be_32-Agree p q len (off_w * 4) a (omega arith) in
    let word₁ : words ≡ 2 → be_32 p ((off_w + 1) * 4) ≡ be_32 q ((off_w + 1) * 4) =
      λ w. be_32-Agree p q len ((off_w + 1) * 4) a (omega arith) in
    ground (arith, freq, rate, word₀, word₁)

read_fields-Agree :
    (p q : ℕ → ℕ) (len size_w cif0 : ℕ) (fields : List (ℕ × ℕ)) (off_w : ℕ) (r : Report)
    → Agree p q len
    → size_w * 4 ≤ len
    → Sized fields
    → read_fields p size_w cif0 fields off_w r ≡ read_fields q size_w cif0 fields off_w r
unfolding read_fields
read_fields-Agree p q len size_w cif0 [] off_w r a room sized = refl
read_fields-Agree p q len size_w cif0 ((bit, words) ∷ fields) off_w r a room
      (sized_one freq rate sized) =
    let skipped = read_fields-Agree p q len size_w cif0 fields off_w r a room sized in
    let taken =
      read_fields-Agree p q len size_w cif0 fields (off_w + words) (take_field p off_w bit r) a room
        sized in
    let field : off_w + words ≤ size_w → take_field p off_w bit r ≡ take_field q off_w bit r =
      λ h. take_field-Agree p q len off_w bit words r a freq rate (omega arith) in
    let rest : off_w + words ≤ size_w
        → read_fields q size_w cif0 fields (off_w + words) (take_field p off_w bit r)
          ≡ read_fields q size_w cif0 fields (off_w + words) (take_field q off_w bit r) =
      λ h. ap (read_fields q size_w cif0 fields (off_w + words)) (field h) in
    ground (arith, skipped, taken, rest)

cif_fields-Sized : Sized cif_fields
cif_fields-Sized =
    sized_one (λ e. omega arith) (λ e. omega arith)
      (sized_one (λ e. omega arith) (λ e. omega arith)
        (sized_one (λ e. omega arith) (λ e. omega arith)
          (sized_one (λ e. omega arith) (λ e. omega arith)
            (sized_one (λ e. omega arith) (λ e. omega arith)
              (sized_one (λ e. omega arith) (λ e. omega arith)
                (sized_one (λ e. omega arith) (λ e. omega arith)
                  (sized_one (λ e. omega arith) (λ e. omega arith)
                    (sized_one (λ e. omega arith) (λ e. omega arith)
                      (sized_one (λ e. omega arith) (λ e. omega arith)
                        (sized_one (λ e. omega arith) (λ e. omega arith) (sized_none)))))))))))

context_fields-Agree :
    (p q : ℕ → ℕ) (len : ℕ) → Agree p q len → context_fields p len ≡ context_fields q len
unfolding context_fields
context_fields-Agree p q len a = elim (Bool-cases (ltb len 8)) [
  | inl short ↦ ground (arith, short)
  | inr long ↦
      let w : be_32 p 0 ≡ be_32 q 0 = be_32-Agree p q len 0 a (ground (arith, long)) in
      let z : ℕ = be_32 q 0 in
      let off_w : ℕ = 2 + optional_words z in
      let cif : off_w < pkt_size_w z
          → pkt_size_w z * 4 ≤ len
          → be_32 p (off_w * 4) ≡ be_32 q (off_w * 4) =
        λ lt le. be_32-Agree p q len (off_w * 4) a (omega arith) in
      let fields : off_w < pkt_size_w z
          → pkt_size_w z * 4 ≤ len
          → read_fields p (pkt_size_w z) (be_32 p (off_w * 4)) cif_fields (off_w + 1) empty_report
            ≡ read_fields q (pkt_size_w z) (be_32 q (off_w * 4)) cif_fields (off_w + 1)
                empty_report =
        λ lt le.
          ap (λ c. read_fields p (pkt_size_w z) c cif_fields (off_w + 1) empty_report) (cif lt le)
          ∙ read_fields-Agree p q len (pkt_size_w z) (be_32 q (off_w * 4)) cif_fields (off_w + 1)
              empty_report a le cif_fields-Sized in
      rw w (ground (arith, long, fields))
]

pub vrt_handle_context-Agree :
    (p q : ℕ → ℕ) (len : ℕ) (logged : Bool)
    → Agree p q len
    → vrt_handle_context p len logged ≡ vrt_handle_context q len logged
unfolding vrt_handle_context
vrt_handle_context-Agree p q len logged a =
    ap
      (λ (c : Option Report). elim c as (λ x. Bool × Option Report) [
        | none ↦ (logged, none)
        | some r ↦ log_report r logged
      ])
      (context_fields-Agree p q len a)
