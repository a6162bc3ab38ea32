-- ===== src/Vita/Context.antt =====
-- `vrt_handle_context`: the fields of a context packet. Frequencies are the raw 64-bit values, in
-- units of 2^-20 Hz; how they are logged is left out.
pub mod Local
use inmarsat_sniffer.Base.{
  ℕ, zero, suc, ◌+◌, ◌*◌, ◌/◌, ◌%◌, ◌^◌, ◌==◌, ltb, leb, ◌&&◌, ◌||◌, Bool, true, false,
  if◌then◌else◌, List, [], ◌∷◌, Option, none, some,
}
use inmarsat_sniffer.Vita.Header.{be_32, class_id, tsi, tsf, pkt_size_w, optional_words}

-- `cif_fields`: the bit number and the number of words of each field.
abbrev pub cif_fields : List (ℕ × ℕ)
cif_fields =
    (31, 1)
    ∷ (30, 1)
    ∷ (29, 2)
    ∷ (28, 2)
    ∷ (27, 2)
    ∷ (26, 2)
    ∷ (25, 2)
    ∷ (24, 1)
    ∷ (23, 1)
    ∷ (22, 1)
    ∷ (21, 2)
    ∷ []

abbrev pub cif_rf_ref_freq : ℕ
cif_rf_ref_freq = 27

abbrev pub cif_sample_rate : ℕ
cif_sample_rate = 21

-- What a context packet reports: the radio frequency and the sample rate.
pub record Report : Type 0 where
  pub rf_freq : Option ℕ
  pub samp_rate : Option ℕ

-- `read_be64(&words[off_w])`
unfoldable pub read_be_64 : (ℕ → ℕ) → ℕ → ℕ
read_be_64 p off_w = be_32 p (off_w * 4) * 2 ^ 32 + be_32 p ((off_w + 1) * 4)

unfoldable pub take_field : (ℕ → ℕ) → ℕ → ℕ → Report → Report
take_field p off_w bit r =
    if bit == cif_rf_ref_freq
    then record r { rf_freq = some (read_be_64 p off_w) }
    else if bit == cif_sample_rate
    then record r { samp_rate = some (read_be_64 p off_w) }
    else r

-- The loop over the fields; `none` is the early return on a packet that is too short.
unfoldable pub read_fields : (ℕ → ℕ) → ℕ → ℕ → List (ℕ × ℕ) → ℕ → Report → Option Report
read_fields p size_w cif0 [] off_w r = some r
read_fields p size_w cif0 ((bit, words) ∷ fields) off_w r =
    let skipped = read_fields p size_w cif0 fields off_w r in
    let taken = read_fields p size_w cif0 fields (off_w + words) (take_field p off_w bit r) in
    if cif0 / 2 ^ bit % 2 == 0 then skipped else if ltb size_w (off_w + words) then none else taken

abbrev pub empty_report : Report
empty_report = record { rf_freq = none; samp_rate = none }

-- The fields of the packet, `none` where the function returns before it has read them all.
unfoldable pub context_fields : (ℕ → ℕ) → ℕ → Option Report
context_fields vrt vrt_len =
    let w0 = be_32 vrt 0 in
    let off_w = 2 + optional_words w0 in
    if ltb vrt_len 8
    then none
    else if ltb vrt_len (pkt_size_w w0 * 4) || ltb (pkt_size_w w0) 2
    then none
    else if leb (pkt_size_w w0) off_w
    then none
    else read_fields vrt (pkt_size_w w0) (be_32 vrt (off_w * 4)) cif_fields (off_w + 1) empty_report

abbrev pub is_none : Option ℕ → Bool
is_none none = true
is_none (some n) = false

-- `*ctx_logged` after the packet, and the report that is logged.
unfoldable pub log_report : Report → Bool → Bool × Option Report
log_report r logged =
    if is_none r.rf_freq && is_none r.samp_rate
    then (logged, none)
    else if logged
    then (logged, none)
    else (true, some r)

unfoldable pub vrt_handle_context : (ℕ → ℕ) → ℕ → Bool → Bool × Option Report
vrt_handle_context vrt vrt_len logged = elim (context_fields vrt vrt_len) [
  | none ↦ (logged, none)
  | some r ↦ log_report r logged
]
