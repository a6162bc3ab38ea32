-- ===== src/Stdc/Scramble.antt =====
-- `reverse_bits` and `descramble` of stdc_decode.c.
pub mod Involution
use inmarsat_sniffer.Base.{
  ℕ, ◌+◌, ◌*◌, ◌/◌, ◌^◌, bit_and, bit_or, bit_xor, List, [], ◌∷◌, at, ◌==◌, if◌then◌else◌,
}
use inmarsat_sniffer.Base.Loops.{for_range}
use inmarsat_sniffer.Stdc.Interleave.{store}

-- One flag for each group of four bytes.
abbrev pub scramble_seq : List ℕ
scramble_seq =
    0 ∷ 0 ∷ 0 ∷ 0 ∷ 0 ∷ 0 ∷ 0 ∷ 1 ∷ 0 ∷ 0 ∷ 0 ∷ 1 ∷ 1 ∷ 1 ∷ 0 ∷ 0 ∷ 0 ∷ 1 ∷ 0 ∷ 0 ∷ 1 ∷ 0 ∷ 1 ∷ 1
    ∷ 1 ∷ 0 ∷ 0 ∷ 0 ∷ 0 ∷ 0 ∷ 0 ∷ 1 ∷ 1 ∷ 0 ∷ 0 ∷ 1 ∷ 0 ∷ 0 ∷ 1 ∷ 0 ∷ 0 ∷ 1 ∷ 1 ∷ 0 ∷ 1 ∷ 1 ∷ 1 ∷ 0
    ∷ 0 ∷ 1 ∷ 0 ∷ 0 ∷ 0 ∷ 0 ∷ 0 ∷ 1 ∷ 0 ∷ 1 ∷ 0 ∷ 1 ∷ 1 ∷ 0 ∷ 1 ∷ 1 ∷ 0 ∷ 1 ∷ 0 ∷ 1 ∷ 1 ∷ 0 ∷ 0 ∷ 1
    ∷ 0 ∷ 1 ∷ 1 ∷ 0 ∷ 0 ∷ 0 ∷ 0 ∷ 1 ∷ 1 ∷ 1 ∷ 1 ∷ 1 ∷ 0 ∷ 1 ∷ 1 ∷ 0 ∷ 1 ∷ 1 ∷ 1 ∷ 1 ∷ 0 ∷ 1 ∷ 0 ∷ 1
    ∷ 1 ∷ 1 ∷ 0 ∷ 1 ∷ 0 ∷ 0 ∷ 0 ∷ 1 ∷ 0 ∷ 0 ∷ 0 ∷ 0 ∷ 1 ∷ 1 ∷ 0 ∷ 1 ∷ 1 ∷ 0 ∷ 0 ∷ 0 ∷ 1 ∷ 1 ∷ 1 ∷ 1
    ∷ 0 ∷ 0 ∷ 1 ∷ 1 ∷ 1 ∷ 0 ∷ 0 ∷ 1 ∷ 1 ∷ 0 ∷ 0 ∷ 0 ∷ 1 ∷ 0 ∷ 1 ∷ 1 ∷ 0 ∷ 1 ∷ 0 ∷ 0 ∷ 1 ∷ 0 ∷ 0 ∷ 0
    ∷ 1 ∷ 0 ∷ 1 ∷ 0 ∷ 0 ∷ 1 ∷ 0 ∷ 1 ∷ 0 ∷ 1 ∷ 0 ∷ 0 ∷ 1 ∷ 1 ∷ 1 ∷ 0 ∷ []

unfoldable pub reverse_bits : ℕ → ℕ
reverse_bits b =
    let b1 = bit_or (bit_and (b / 2) 0x55) (bit_and b 0x55 * 2) in
    let b2 = bit_or (bit_and (b1 / 2 ^ 2) 0x33) (bit_and b1 0x33 * 2 ^ 2) in
    bit_or (bit_and (b2 / 2 ^ 4) 0x0F) (bit_and b2 0x0F * 2 ^ 4)

-- What becomes of a byte of group `i`.
unfoldable pub descramble_byte : ℕ → ℕ → ℕ
unfolding reverse_bits
descramble_byte i b = let r = reverse_bits b in if at scramble_seq i == 0 then r else bit_xor r 0xFF

unfoldable pub descramble_group : ℕ → (ℕ → ℕ) → ℕ → ℕ
descramble_group i pkt =
    for_range 4 0 (λ j pkt. store pkt (i * 4 + j) (descramble_byte i (pkt (i * 4 + j)))) pkt

unfoldable pub descramble : (ℕ → ℕ) → ℕ → ℕ
descramble pkt = for_range 160 0 descramble_group pkt
