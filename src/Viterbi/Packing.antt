-- ===== src/Viterbi/Packing.antt =====
-- `bits_out` holds the decoded bits, MSB first.
use inmarsat_sniffer.Base.{
  ℕ, zero, suc, ◌+◌, ◌-◌, ◌/◌, ◌%◌, ◌^◌, ◌<◌, ◌≡◌, refl, ◌∙◌, inl, inr, List, [], ◌∷◌, arith, at,
  at-set, set, length, length-set, length-replicate, ltb, ◌==◌, ==_iff, if◌then◌else◌, Bool-cases,
  replicate, bit_and, bit_or, ◌&&◌, true,
}
use inmarsat_sniffer.Base.Bits.{bit_and-one}
use inmarsat_sniffer.Base.Loops.{for_range_inv}
use inmarsat_sniffer.Base.Table.{all_below, all_below_sound, all_below_sound₂}
use inmarsat_sniffer.Viterbi.{pack_bit, pack_bits, bit_at}
use inmarsat_sniffer.Viterbi.Paths.{AllBits}

-- Bit `j` of a byte, counted from the top.
abbrev bit_of : ℕ → ℕ → ℕ
bit_of x j = bit_and (x / 2 ^ (7 - j)) 1

abbrev put : ℕ → ℕ → ℕ
put x k = bit_or x (0x80 / 2 ^ k)

put_table :
    all_below 256 (λ x. all_below 8 (λ k.
      ltb (put x k) 256
      && all_below 8 (λ j. bit_of (put x k) j == (if j == k then 1 else bit_of x j))))
    ≡ true
unfolding all_below
put_table = refl

put_facts :
    (x k : ℕ)
    → x < 256
    → k < 8
    → (put x k < 256) × ((j : ℕ) → j < 8 → bit_of (put x k) j ≡ (if j == k then 1 else bit_of x j))
put_facts x k hx hk = (
  ground (arith, row),
  λ j hj. (==_iff _ _).0 (
      all_below_sound 8 (λ j. bit_of (put x k) j == (if j == k then 1 else bit_of x j)) j
        (ground (arith, row)) hj),
)
  where
    row :
        (ltb (put x k) 256
          && all_below 8 (λ j. bit_of (put x k) j == (if j == k then 1 else bit_of x j)))
        ≡ true
    row =
        all_below_sound₂ 256 8
          (λ x k.
            ltb (put x k) 256
            && all_below 8 (λ j. bit_of (put x k) j == (if j == k then 1 else bit_of x j)))
          x k put_table hx hk

AllBits-at : (bs : List ℕ) (i : ℕ) → AllBits bs → at bs i < 2
AllBits-at [] i h = omega arith
AllBits-at (b ∷ bs) zero h = h.0
AllBits-at (b ∷ bs) (suc i) h = AllBits-at bs i h.1

at-replicate : (n i : ℕ) → at (replicate n 0) i ≡ 0
at-replicate zero i = refl
at-replicate (suc n) zero = refl
at-replicate (suc n) (suc i) = at-replicate n i

module _ (num_bits : ℕ) (decoded : List ℕ) (bits : AllBits decoded) where
  -- `out` after the bits below `k`.
  record IsPacked (k : ℕ) (out : List ℕ) : Type 0 where
    out_length : length out ≡ (num_bits + 7) / 8
    byte : (i : ℕ) → at out i < 256
    packed : (i : ℕ) → i < num_bits → bit_at out i ≡ (if ltb i k then at decoded i else 0)

  skip_bit : (k : ℕ) (out : List ℕ) → at decoded k ≡ 0 → IsPacked k out → IsPacked (k + 1) out
  skip_bit k out off p = record {
    out_length = p.out_length;
    byte = p.byte;
    packed = λ i hi. ground (arith, p.packed i hi);
  }

  set_bit :
      (k : ℕ) (out : List ℕ)
      → k < num_bits
      → at decoded k ≡ 1
      → IsPacked k out
      → IsPacked (k + 1) (set out (k / 8) (put (at out (k / 8)) (k % 8)))
  unfolding bit_at
  set_bit k out hk on p = record {
    out_length = length-set out (k / 8) _ ∙ p.out_length;
    byte = λ i. ground (arith, changed i, facts.0, p.byte i);
    packed = λ i hi. rw (changed (i / 8)) (elim (Bool-cases (k / 8 == i / 8)) [
      | inl same ↦ rw same (ground (arith, facts.1 (i % 8) (omega arith), p.packed i hi))
      | inr other ↦ rw other (ground (arith, p.packed i hi))
    ]);
  }
    where
      facts :
          (put (at out (k / 8)) (k % 8) < 256)
          × ((j : ℕ)
              → j < 8
              → bit_of (put (at out (k / 8)) (k % 8)) j
                ≡ (if j == k % 8 then 1 else bit_of (at out (k / 8)) j))
      facts = put_facts (at out (k / 8)) (k % 8) (p.byte (k / 8)) (omega arith)

      changed :
          (i : ℕ)
          → at (set out (k / 8) (put (at out (k / 8)) (k % 8))) i
            ≡ (if k / 8 == i then put (at out (k / 8)) (k % 8) else at out i)
      changed i = at-set out (k / 8) i (put (at out (k / 8)) (k % 8)) (omega (arith, p.out_length))

  pack_bit-IsPacked :
      (k : ℕ) (out : List ℕ)
      → k < num_bits
      → IsPacked k out
      → IsPacked (k + 1) (pack_bit decoded k out)
  unfolding pack_bit
  pack_bit-IsPacked k out hk p = elim (Bool-cases (at decoded k == 0)) [
    | inl off ↦ rw off (skip_bit k out (ground arith) p)
    | inr on ↦ rw on (set_bit k out hk (ground (arith, AllBits-at decoded k bits)) p)
  ]

  pack_bits-IsPacked : IsPacked num_bits (pack_bits num_bits decoded)
  unfolding pack_bits bit_at
  pack_bits-IsPacked =
      for_range_inv IsPacked (pack_bit decoded) num_bits 0 num_bits _ (omega arith)
        (λ k out lo hi p. pack_bit-IsPacked k out hi p)
        (record {
          out_length = length-replicate {A = ℕ} ((num_bits + 7) / 8) 0;
          byte = λ i. rw (at-replicate ((num_bits + 7) / 8) i) (omega arith);
          packed = λ i hi.
              rw (at-replicate ((num_bits + 7) / 8) (i / 8))
                (ground (arith, bit_and-one (0 / 2 ^ (7 - i % 8))));
        })

  -- Bit `i` of the packed bytes, MSB first, is the decoded bit `i`.
  pub bit_at-pack_bits :
      (i : ℕ) → i < num_bits → bit_at (pack_bits num_bits decoded) i ≡ at decoded i
  bit_at-pack_bits i hi = ground (arith, pack_bits-IsPacked.packed i hi)

  pub length-pack_bits : length (pack_bits num_bits decoded) ≡ (num_bits + 7) / 8
  length-pack_bits = pack_bits-IsPacked.out_length

  pub pack_bits-byte : (i : ℕ) → at (pack_bits num_bits decoded) i < 256
  pack_bits-byte = pack_bits-IsPacked.byte
