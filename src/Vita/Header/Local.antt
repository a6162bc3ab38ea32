-- ===== src/Vita/Header/Local.antt =====
-- The header is parsed from the bytes of the datagram only.
use inmarsat_sniffer.Base.{ℕ, ◌+◌, ◌≤◌, ◌<◌, ◌≡◌, refl, ap, arith, ltb, inl, inr, Bool-cases, ◌∙◌}
use inmarsat_sniffer.Vita.Header.{be_32, vrl_strip, vrt_parse_header}

-- The two buffers hold the same datagram.
abbrev pub Agree : (ℕ → ℕ) → (ℕ → ℕ) → ℕ → Type 0
Agree p q len = (i : ℕ) → i < len → p i ≡ q i

pub be_32-Agree : (p q : ℕ → ℕ) (len i : ℕ) → Agree p q len → i + 4 ≤ len → be_32 p i ≡ be_32 q i
unfolding be_32
be_32-Agree p q len i a h = omega (
  arith,
  a i (omega arith),
  a (i + 1) (omega arith),
  a (i + 2) (omega arith),
  a (i + 3) (omega arith),
)

pub vrl_strip-Agree : (p q : ℕ → ℕ) (len : ℕ) → Agree p q len → vrl_strip p len ≡ vrl_strip q len
unfolding vrl_strip
vrl_strip-Agree p q len a =
    let same : 12 ≤ len → be_32 p 0 ≡ be_32 q 0 = λ h. be_32-Agree p q len 0 a (omega arith) in
    ground (arith, same)

vrl_strip-inside : (p : ℕ → ℕ) (len : ℕ) → 4 ≤ len → (vrl_strip p len).0 + 4 ≤ len
unfolding vrl_strip
vrl_strip-inside p len h = ground arith

pub vrt_parse_header-Agree :
    (p q : ℕ → ℕ) (len : ℕ) → Agree p q len → vrt_parse_header p len ≡ vrt_parse_header q len
unfolding vrt_parse_header
vrt_parse_header-Agree p q len a = elim (Bool-cases (ltb len 4)) [
  | inl short ↦ ground (arith, short)
  | inr long ↦
      let strip = vrl_strip-Agree p q len a in
      let word : be_32 p (vrl_strip p len).0 ≡ be_32 q (vrl_strip q len).0 =
        be_32-Agree p q len (vrl_strip p len).0 a (vrl_strip-inside p len (ground (arith, long)))
        ∙ ap (λ (o : ℕ × ℕ). be_32 q o.0) strip in
      rw (word, strip) refl
]

pub vrl_strip-fits :
    (p : ℕ → ℕ) (len : ℕ) → ((vrl_strip p len).1 ≤ len) × ((vrl_strip p len).0 ≤ len)
unfolding vrl_strip
vrl_strip-fits p len = (ground arith, ground arith)
