-- ===== src/Viterbi/RoundTrip.antt =====
-- Without noise the decoder gives back what the encoder was given.
use mathlib.Core.List.{reverse, reverse-reverse}
use native.Mathlib.Nat.{le_refl}
use inmarsat_sniffer.Base.{
  ℕ, zero, suc, ◌+◌, ◌*◌, ◌/◌, ◌%◌, ◌^◌, ◌-◌, ◌<◌, ◌≡◌, refl, sym, ◌∙◌, ap, List, [], ◌∷◌, arith,
  at, at_ext, length, length-reverse, bit_and,
}
use inmarsat_sniffer.Base.Int.{ℤ}
use inmarsat_sniffer.Base.Bits.{bit_and-one}
use inmarsat_sniffer.Viterbi.{
  unreached, hard_soft, bit_at, encode_from, sym_g1, sym_g2, viterbi_encode, decode_bits,
  viterbi_decode, viterbi_ber, symbol_errors,
}
use inmarsat_sniffer.Viterbi.Edges.{IsInt8}
use inmarsat_sniffer.Viterbi.Paths.{AllBits, AllBits-reverse, path_cost}
use inmarsat_sniffer.Viterbi.Decode.{
  viterbi_decode-least, length-decode_bits, decode_bits-AllBits, decode_bits-cost,
}
use inmarsat_sniffer.Viterbi.Packing.{bit_at-pack_bits, length-pack_bits, pack_bits-byte}
use inmarsat_sniffer.Viterbi.Sent.{
  sent, length-sent, sent-AllBits, at-reverse-sent, viterbi_encode-at, IsClean, path_cost-sent,
  free-sent,
}

module _ (bytes : List ℕ) (n : ℕ) (soft : ℕ → ℤ) (int8 : (i : ℕ) → IsInt8 (soft i))
    (clean : IsClean bytes n soft) (room : 510 * n < unreached) where
  clean_metric : (viterbi_decode soft n).0 ≡ 0
  clean_metric =
      let least = viterbi_decode-least soft int8 n room in
      let len = length-reverse (sent bytes n) ∙ length-sent bytes n in
      omega (
        arith,
        least (reverse (sent bytes n)) len (AllBits-reverse (sent bytes n) (sent-AllBits bytes n)),
        ap (path_cost soft) (reverse-reverse (sent bytes n)),
        path_cost-sent bytes n soft clean n (le_refl n),
      )

  clean_bits : decode_bits soft n ≡ reverse (sent bytes n)
  clean_bits =
      let len = length-decode_bits soft int8 n room in
      let bits = decode_bits-AllBits soft int8 n room in
      let cost = decode_bits-cost soft int8 n room in
      sym (reverse-reverse (decode_bits soft n))
      ∙ ap reverse (
          free-sent bytes n soft clean (reverse (decode_bits soft n)) n (le_refl n)
            (length-reverse (decode_bits soft n) ∙ len) (AllBits-reverse (decode_bits soft n) bits)
            (cost ∙ clean_metric))

  clean_AllBits : AllBits (decode_bits soft n)
  clean_AllBits = decode_bits-AllBits soft int8 n room

  bit_at-clean : (i : ℕ) → i < n → bit_at (viterbi_decode soft n).1 i ≡ bit_at bytes i
  unfolding viterbi_decode
  bit_at-clean i h =
      bit_at-pack_bits n (decode_bits soft n) clean_AllBits i h
      ∙ ap (λ bs. at bs i) clean_bits
      ∙ at-reverse-sent bytes n i h

-- A byte is its eight bits.
byte_ext :
    (x y : ℕ)
    → x < 256
    → y < 256
    → ((j : ℕ) → j < 8 → bit_and (x / 2 ^ (7 - j)) 1 ≡ bit_and (y / 2 ^ (7 - j)) 1)
    → x ≡ y
byte_ext x y hx hy h = omega (
  arith,
  bit 0 (omega arith),
  bit 1 (omega arith),
  bit 2 (omega arith),
  bit 3 (omega arith),
  bit 4 (omega arith),
  bit 5 (omega arith),
  bit 6 (omega arith),
  bit 7 (omega arith),
)
  where
    bit : (j : ℕ) → j < 8 → x / 2 ^ (7 - j) % 2 ≡ y / 2 ^ (7 - j) % 2
    bit j hj = sym (bit_and-one (x / 2 ^ (7 - j))) ∙ h j hj ∙ bit_and-one (y / 2 ^ (7 - j))

-- Decoding noiseless symbols of whole bytes gives those bytes back at metric 0, for any message short
-- enough for the path metrics and whatever follows its symbols in the buffer.
pub viterbi_decode-viterbi_encode :
    (bytes : List ℕ) (n : ℕ) (soft : ℕ → ℤ)
    → n ≡ 8 * length bytes
    → ((i : ℕ) → at bytes i < 256)
    → 510 * n < unreached
    → ((i : ℕ) → IsInt8 (soft i))
    → ((i : ℕ) → i < n * 2 → soft i ≡ hard_soft (at (viterbi_encode bytes n) i))
    → viterbi_decode soft n ≡ (0, bytes)
unfolding bit_at viterbi_decode
viterbi_decode-viterbi_encode bytes n soft whole small room int8 received =
    λ k. (clean_metric bytes n soft int8 clean room k, same k)
  where
    clean : IsClean bytes n soft
    clean t h =
        let (e1, e2) = viterbi_encode-at bytes n t h in
        (
          received (t * 2) (omega arith) ∙ ap hard_soft e1,
          received (t * 2 + 1) (omega arith) ∙ ap hard_soft e2,
        )

    bits : AllBits (decode_bits soft n)
    bits = clean_AllBits bytes n soft int8 clean room

    out : List ℕ
    out = (viterbi_decode soft n).1

    len : length out ≡ length bytes
    len = omega (arith, length-pack_bits n (decode_bits soft n) bits)

    same_bit :
        (i j : ℕ)
        → i < length bytes
        → j < 8
        → bit_and (at out i / 2 ^ (7 - j)) 1 ≡ bit_and (at bytes i / 2 ^ (7 - j)) 1
    same_bit i j hi hj =
        let byte : (i * 8 + j) / 8 ≡ i = omega arith in
        let place : (i * 8 + j) % 8 ≡ j = omega arith in
        rw (byte, place) at (bit_at-clean bytes n soft int8 clean room (i * 8 + j) (omega arith))

    same : out ≡ bytes
    same = at_ext out bytes len (λ i hi.
        byte_ext (at out i) (at bytes i) (pack_bits-byte n (decode_bits soft n) bits i) (small i)
          (λ j hj. same_bit i j (omega (arith, len)) hj))

symbol_errors-clean :
    (syms : List ℕ) (i : ℕ) (soft : ℕ → ℤ)
    → ((j : ℕ) → j < length syms → soft (i + j) ≡ hard_soft (at syms j))
    → ((j : ℕ) → at syms j < 2)
    → symbol_errors soft i syms ≡ 0
unfolding symbol_errors
symbol_errors-clean [] i soft h k = refl
symbol_errors-clean (x ∷ xs) i soft h k =
    let rest =
      symbol_errors-clean xs (i + 1) soft (λ j lt. ap soft (omega arith) ∙ h (suc j) (omega arith))
        (λ j. k (suc j)) in
    let now : soft i ≡ hard_soft x = ap soft (omega arith) ∙ h 0 (omega arith) in
    rw (rest, now) (ground (arith, k 0))

encode_from-lt : (bytes : List ℕ) (n i state j : ℕ) → at (encode_from bytes n i state) j < 2
unfolding encode_from sym_g1 sym_g2
encode_from-lt bytes zero i state j = omega arith
encode_from-lt bytes (suc n) i state zero = omega (arith, bit_and-one)
encode_from-lt bytes (suc n) i state (suc zero) = omega (arith, bit_and-one)
encode_from-lt bytes (suc n) i state (suc (suc j)) = encode_from-lt bytes n (i + 1) _ j

length-encode_from : (bytes : List ℕ) (n i state : ℕ) → length (encode_from bytes n i state) ≡ n * 2
unfolding encode_from
length-encode_from bytes zero i state = refl
length-encode_from bytes (suc n) i state = omega (arith, length-encode_from bytes n (i + 1))

-- Noiseless symbols show no channel error against the message that was sent.
pub viterbi_ber-clean :
    (bytes : List ℕ) (n : ℕ) (soft : ℕ → ℤ)
    → 0 < n
    → ((i : ℕ) → i < n * 2 → soft i ≡ hard_soft (at (viterbi_encode bytes n) i))
    → viterbi_ber bytes n soft ≡ (0, n * 2)
unfolding viterbi_ber viterbi_encode
viterbi_ber-clean bytes n soft h received = ground (
  arith,
  symbol_errors-clean (encode_from bytes n 0 0) 0 soft
      (λ j lt. ap soft (omega arith) ∙ received j (omega (arith, length-encode_from bytes n 0 0)))
      (encode_from-lt bytes n 0 0),
)

pub viterbi_encode-lt : (bytes : List ℕ) (n i : ℕ) → at (viterbi_encode bytes n) i < 2
unfolding viterbi_encode
viterbi_encode-lt bytes n i = encode_from-lt bytes n 0 0 i
