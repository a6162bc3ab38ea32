-- ===== src/Stdc/Scramble/Involution.antt =====
-- Descrambling undoes scrambling, byte by byte.
use inmarsat_sniffer.Base.{
  ℕ, zero, suc, ◌+◌, ◌*◌, ◌/◌, ◌≤◌, ◌<◌, ◌≡◌, ◌≢◌, refl, ◌∙◌, ap, subst, arith, dec_lt, ℕ_discrete,
  at, ltb, ◌==◌, ◌&&◌, true, false, if◌then◌else◌, bit_xor,
}
use inmarsat_sniffer.Base.Loops.{for_range_inv}
use inmarsat_sniffer.Base.Table.{all_below, all_below_sound}
use inmarsat_sniffer.Stdc.Interleave.{store}
use inmarsat_sniffer.Stdc.Scramble.{
  scramble_seq, reverse_bits, descramble_byte, descramble_group, descramble,
}

-- What the sender makes of a byte of group `i`.
unfoldable pub scramble_byte : ℕ → ℕ → ℕ
scramble_byte i b = reverse_bits (if at scramble_seq i == 0 then b else bit_xor b 0xFF)

reverse_table :
    all_below 256 (λ b.
      (reverse_bits (reverse_bits b) == b)
      && (bit_xor (reverse_bits (reverse_bits (bit_xor b 0xFF))) 0xFF == b)
      && (ltb (reverse_bits b) 256 && ltb (reverse_bits (bit_xor b 0xFF)) 256))
    ≡ true
unfolding all_below reverse_bits
reverse_table = refl

reverse_facts :
    (b : ℕ)
    → b < 256
    → (reverse_bits (reverse_bits b) ≡ b)
      × (bit_xor (reverse_bits (reverse_bits (bit_xor b 0xFF))) 0xFF ≡ b)
      × (reverse_bits b < 256)
      × (reverse_bits (bit_xor b 0xFF) < 256)
reverse_facts b h = ground (arith, row)
  where
    row :
        ((reverse_bits (reverse_bits b) == b)
          && (bit_xor (reverse_bits (reverse_bits (bit_xor b 0xFF))) 0xFF == b)
          && (ltb (reverse_bits b) 256 && ltb (reverse_bits (bit_xor b 0xFF)) 256))
        ≡ true
    row =
        all_below_sound 256
          (λ b.
            (reverse_bits (reverse_bits b) == b)
            && (bit_xor (reverse_bits (reverse_bits (bit_xor b 0xFF))) 0xFF == b)
            && (ltb (reverse_bits b) 256 && ltb (reverse_bits (bit_xor b 0xFF)) 256))
          b reverse_table h

-- For either flag of the scrambling sequence.
unflag :
    (flag b : ℕ)
    → b < 256
    → (if flag == 0
        then reverse_bits (reverse_bits (if flag == 0 then b else bit_xor b 0xFF))
        else bit_xor (reverse_bits (reverse_bits (if flag == 0 then b else bit_xor b 0xFF))) 0xFF)
      ≡ b
unflag zero b h = (reverse_facts b h).0
unflag (suc f) b h = let e : (suc f == 0) ≡ false = ground arith in rw e (reverse_facts b h).1

descramble_byte-scramble_byte : (i b : ℕ) → b < 256 → descramble_byte i (scramble_byte i b) ≡ b
unfolding scramble_byte descramble_byte
descramble_byte-scramble_byte i b h = unflag (at scramble_seq i) b h

flag_set : (f : ℕ) → f ≢ 0 → (f == 0) ≡ false
flag_set f h = ground arith

pub scramble_byte-lt : (i b : ℕ) → b < 256 → scramble_byte i b < 256
unfolding scramble_byte
scramble_byte-lt i b h = elim (ℕ_discrete (at scramble_seq i) 0) [
  | yes e ↦ rw e (reverse_facts b h).2
  | no n ↦
      let e : (at scramble_seq i == 0) ≡ false = flag_set (at scramble_seq i) n in
      rw e (reverse_facts b h).3
]

-- `out` has the bytes below `k` descrambled and the others as in `pkt`.
abbrev DoneBelow : (ℕ → ℕ) → ℕ → (ℕ → ℕ) → Type 0
DoneBelow pkt k out =
    ((i : ℕ) → i < k → out i ≡ descramble_byte (i / 4) (pkt i)) × ((i : ℕ) → k ≤ i → out i ≡ pkt i)

store_one :
    (pkt : ℕ → ℕ) (g j : ℕ) (out : ℕ → ℕ)
    → j < 4
    → DoneBelow pkt (g * 4 + j) out
    → DoneBelow pkt (g * 4 + (j + 1)) (store out (g * 4 + j) (descramble_byte g (out (g * 4 + j))))
store_one pkt g j out hj (done, rest) = (
  λ i lt. elim (dec_lt i (g * 4 + j)) [
    | yes lt' ↦ ground (arith, done i lt')
    | no ge ↦
        let e : i ≡ g * 4 + j = omega arith in
        let group : (g * 4 + j) / 4 ≡ g = omega arith in
        rw (e, group) (ground (arith, rest (g * 4 + j)))
  ],
  λ i le. ground (arith, rest i),
)

group_done :
    (pkt : ℕ → ℕ) (g : ℕ) (out : ℕ → ℕ)
    → DoneBelow pkt (g * 4) out
    → DoneBelow pkt ((g + 1) * 4) (descramble_group g out)
unfolding descramble_group
group_done pkt g out p =
    subst (λ k. DoneBelow pkt k (descramble_group g out)) (omega arith)
      (for_range_inv (λ j out. DoneBelow pkt (g * 4 + j) out)
        (λ j pkt. store pkt (g * 4 + j) (descramble_byte g (pkt (g * 4 + j)))) 4 0 4 out
        (omega arith) (λ j out lo hi q. store_one pkt g j out hi q)
        (subst (λ k. DoneBelow pkt k out) (omega arith) p))

-- `descramble` works on each of the 640 bytes by the flag of its own group.
pub descramble-at :
    (pkt : ℕ → ℕ) (i : ℕ) → i < 640 → descramble pkt i ≡ descramble_byte (i / 4) (pkt i)
unfolding descramble
descramble-at pkt i h =
    (for_range_inv (λ g out. DoneBelow pkt (g * 4) out) descramble_group 160 0 160 pkt (omega arith)
        (λ g out lo hi p. group_done pkt g out p)
        ((λ j lt. absurd (omega arith)), (λ j le. refl))).0
      i h

-- Descrambling the scrambled frame gives the frame back.
pub descramble-scramble :
    (frame pkt : ℕ → ℕ)
    → ((i : ℕ) → frame i < 256)
    → ((i : ℕ) → i < 640 → pkt i ≡ scramble_byte (i / 4) (frame i))
    → (i : ℕ) → i < 640
    → descramble pkt i ≡ frame i
descramble-scramble frame pkt byte e i h =
    descramble-at pkt i h
    ∙ ap (descramble_byte (i / 4)) (e i h)
    ∙ descramble_byte-scramble_byte (i / 4) (frame i) (byte i)
