-- ===== src/Stdc/Feed/FrameRoundTrip.antt =====
-- A frame that is sent without noise is recognised and decoded.
use native.Mathlib.Nat.{add_assoc}
use inmarsat_sniffer.Base.{
  ℕ, zero, suc, ◌+◌, ◌-◌, ◌*◌, ◌/◌, ◌%◌, ◌≤◌, ◌<◌, ◌≡◌, refl, ◌∙◌, ap, sym, subst, arith, at-past,
  dec_lt, Bool, true, false, at, length, ◌==◌, ltb, if◌then◌else◌,
}
use inmarsat_sniffer.Base.Int.{neg_ℤ}
use inmarsat_sniffer.Viterbi.{hard_soft, viterbi_decode, viterbi_ber}
use inmarsat_sniffer.Viterbi.Edges.{IsInt8}
use inmarsat_sniffer.Viterbi.RoundTrip.{viterbi_decode-viterbi_encode, viterbi_ber-clean}
use inmarsat_sniffer.Stdc.Interleave.{
  Buffer, encoded_size, data_size, frame_rows, frame_cols, sync_word, depermute, deinterleave,
  invert, check_sync, hard_bit,
}
use inmarsat_sniffer.Stdc.Interleave.Inverse.{
  depermute-at, deinterleave-at, deinterleave-rest, invert-at, eq_test, ne_test,
}
use inmarsat_sniffer.Stdc.Interleave.Sync.{matches, row_matches, check_sync-matches, sync_word-lt}
use inmarsat_sniffer.Stdc.Scramble.Involution.{scramble_byte, scramble_byte-lt, descramble-scramble}
use inmarsat_sniffer.Stdc.Scramble.{descramble}
use inmarsat_sniffer.Stdc.Types.{Env, Decoder, decoded_frame, frame_bytes}
use inmarsat_sniffer.Stdc.Parse.{parse_packets}
use inmarsat_sniffer.Stdc.Feed.{
  recover, frame_ber, decoded_bits, descramble_frame, count_ber, process_frame,
}
use inmarsat_sniffer.Stdc.Feed.FrameTest.{
  scrambled, encoded, frame_to_symbols, frame_to_symbols-data, frame_to_symbols-sync, length-fill,
  at-fill, fill,
}

-- The register holds the sent frame at full scale, negated when the carrier is.
abbrev pub IsReceived : (ℕ → ℕ) → (ℕ → ℕ) → Bool → Buffer → Type 0
IsReceived frame out inverted reg =
    (i : ℕ)
    → i < encoded_size
    → reg i ≡ (
        if inverted
        then neg_ℤ (hard_soft (frame_to_symbols frame out i))
        else hard_soft (frame_to_symbols frame out i))

neg-neg_hard : (g : ℕ) → neg_ℤ (neg_ℤ (hard_soft g)) ≡ hard_soft g
neg-neg_hard g = ground arith

-- The register once it is inverted, if it was.
upright :
    (frame out : ℕ → ℕ) (inverted : Bool) (reg : Buffer)
    → IsReceived frame out inverted reg
    → (i : ℕ) → i < encoded_size
    → (if inverted then invert reg else reg) i ≡ hard_soft (frame_to_symbols frame out i)
upright frame out true reg received i h =
    invert-at reg i h ∙ ap neg_ℤ (received i h) ∙ neg-neg_hard (frame_to_symbols frame out i)
upright frame out false reg received i h = received i h

hard_bit-hard : (w : ℕ) → w < 2 → hard_bit (hard_soft w) ≡ w
hard_bit-hard w h = ground arith

hard_bit-neg_hard : (w : ℕ) → w < 2 → hard_bit (neg_ℤ (hard_soft w)) ≡ 1 - w
hard_bit-neg_hard w h = ground arith

-- Every sync bit comes as sent, or none does.
all_match :
    (reg : Buffer) (k : ℕ)
    → k ≤ frame_rows
    → ((r : ℕ)
        → r < frame_rows
        → (hard_bit (reg (r * frame_cols)) ≡ at sync_word r)
          × (hard_bit (reg (r * frame_cols + 1)) ≡ at sync_word r))
    → matches reg k ≡ 2 * k
unfolding matches row_matches
all_match reg zero h e = omega arith
all_match reg (suc k) h e =
    let one : (at sync_word k == at sync_word k) ≡ true = eq_test (at sync_word k) in
    rw ((e k h).0, (e k h).1, one) (omega (arith, all_match reg k (omega arith) e))

none_match :
    (reg : Buffer) (k : ℕ)
    → k ≤ frame_rows
    → ((r : ℕ)
        → r < frame_rows
        → (hard_bit (reg (r * frame_cols)) ≡ 1 - at sync_word r)
          × (hard_bit (reg (r * frame_cols + 1)) ≡ 1 - at sync_word r))
    → matches reg k ≡ 0
unfolding matches row_matches
none_match reg zero h e = refl
none_match reg (suc k) h e =
    let w = at sync_word k in
    let other : (1 - w == w) ≡ false = ne_test w (1 - w) (omega (arith, sync_word-lt k h)) in
    rw ((e k h).0, (e k h).1, other) (omega (arith, none_match reg k (omega arith) e))

pub full_score :
    (frame out : ℕ → ℕ) (inverted : Bool) (reg : Buffer)
    → IsReceived frame out inverted reg
    → check_sync reg ≡ (128, inverted)
full_score frame out false reg received =
    check_sync-matches reg
    ∙ ap (λ (m : ℕ). if ltb m 64 then (128 - m, true) else (m, false))
        (all_match reg frame_rows (omega arith) (λ r hr. (
          ap hard_bit (
                received (r * frame_cols) (omega arith)
                ∙ ap hard_soft (frame_to_symbols-sync frame out r hr).0)
              ∙ hard_bit-hard (at sync_word r) (sync_word-lt r hr),
          ap hard_bit (
                received (r * frame_cols + 1) (omega arith)
                ∙ ap hard_soft (frame_to_symbols-sync frame out r hr).1)
              ∙ hard_bit-hard (at sync_word r) (sync_word-lt r hr),
        )))
full_score frame out true reg received =
    check_sync-matches reg
    ∙ ap (λ (m : ℕ). if ltb m 64 then (128 - m, true) else (m, false))
        (none_match reg frame_rows (omega arith) (λ r hr. (
          ap hard_bit (
                received (r * frame_cols) (omega arith)
                ∙ ap (λ g. neg_ℤ (hard_soft g)) (frame_to_symbols-sync frame out r hr).0)
              ∙ hard_bit-neg_hard (at sync_word r) (sync_word-lt r hr),
          ap hard_bit (
                received (r * frame_cols + 1) (omega arith)
                ∙ ap (λ g. neg_ℤ (hard_soft g)) (frame_to_symbols-sync frame out r hr).1)
              ∙ hard_bit-neg_hard (at sync_word r) (sync_word-lt r hr),
        )))

hard-IsInt8 : (g : ℕ) → IsInt8 (hard_soft g)
hard-IsInt8 g = ground arith

at-scrambled-lt : (frame : ℕ → ℕ) (i : ℕ) → ((i : ℕ) → frame i < 256) → at (scrambled frame) i < 256
unfolding scrambled
at-scrambled-lt frame i byte = elim (dec_lt i frame_bytes) [
  | yes lt ↦
      rw (at-fill frame_bytes (λ k. scramble_byte (k / 4) (frame k)) i lt)
        (scramble_byte-lt (i / 4) (frame i) (byte i))
  | no ge ↦ omega (
    arith,
    at-past (fill frame_bytes (λ k. scramble_byte (k / 4) (frame k))) i
        (omega (arith, length-fill frame_bytes (λ k. scramble_byte (k / 4) (frame k)))),
  )
]

module _ (frame out : ℕ → ℕ) (byte : (i : ℕ) → frame i < 256) (d : Decoder)
    (int8 : (i : ℕ) → IsInt8 (d.deinterleaved i)) (inverted : Bool)
    (received : IsReceived frame out inverted d.shift_reg) where
  soft_symbols :
      (k : ℕ)
      → k < data_size
      → (recover d inverted).deinterleaved k ≡ hard_soft (at (encoded frame) k)
  unfolding recover
  soft_symbols k h =
      let c = k / frame_rows in
      let r = k % frame_rows in
      let place : k ≡ c * frame_rows + r = omega arith in
      let reg = if inverted then invert d.shift_reg else d.shift_reg in
      let rows = depermute reg d.depermuted in
      ap (deinterleave rows d.deinterleaved) place
      ∙ deinterleave-at rows d.deinterleaved r c (omega arith) (omega arith)
      ∙ ap rows (add_assoc (r * frame_cols) c 2)
      ∙ depermute-at reg d.depermuted r (c + 2) (omega arith) (omega arith)
      ∙ upright frame out inverted d.shift_reg received ((r * 23) % 64 * frame_cols + (c + 2))
          (omega arith)
      ∙ ap hard_soft (frame_to_symbols-data frame out r c (omega arith) (omega arith))
      ∙ ap (λ k. hard_soft (at (encoded frame) k)) (sym place)

  soft-IsInt8 : (k : ℕ) → IsInt8 ((recover d inverted).deinterleaved k)
  soft-IsInt8 k = elim (dec_lt k data_size) [
    | yes lt ↦ subst IsInt8 (sym (soft_symbols k lt)) (hard-IsInt8 (at (encoded frame) k))
    | no ge ↦
        unfold recover in
        subst IsInt8 (sym (deinterleave-rest _ d.deinterleaved k (omega arith))) (int8 k)
  ]

  decoded_bytes :
      viterbi_decode (recover d inverted).deinterleaved decoded_bits ≡ (0, scrambled frame)
  decoded_bytes =
      let len : length (scrambled frame) ≡ frame_bytes =
        unfold scrambled in length-fill frame_bytes (λ k. scramble_byte (k / 4) (frame k)) in
      viterbi_decode-viterbi_encode (scrambled frame) decoded_bits
        (recover d inverted).deinterleaved (omega (arith, len)) (λ i. at-scrambled-lt frame i byte)
        (omega arith) soft-IsInt8 (λ i lt. unfold encoded in soft_symbols i lt)

  no_errors : frame_ber (recover d inverted) ≡ (0, data_size)
  unfolding frame_ber
  no_errors =
      ap (λ v. viterbi_ber v decoded_bits (recover d inverted).deinterleaved)
        (λ k. (decoded_bytes k).1)
      ∙ viterbi_ber-clean (scrambled frame) decoded_bits (recover d inverted).deinterleaved
          (omega arith) (λ i lt. unfold encoded in soft_symbols i lt)

  recovered : (i : ℕ) → i < frame_bytes → descramble (recover d inverted).decoded i ≡ frame i
  recovered i h =
      descramble-scramble frame (recover d inverted).decoded byte
        (λ j hj.
          unfold recover scrambled in
          ap (λ bytes. at bytes j) (λ k. (decoded_bytes k).1)
          ∙ at-fill frame_bytes (λ k. scramble_byte (k / 4) (frame k)) j hj)
        i h

  -- A frame sent without noise, of either polarity, scores 128 of 128 with its polarity recognised;
  -- `process_frame` finds no symbol error in it and parses it, and each byte that it parses is the byte
  -- of the sent frame.
  pub process_frame-frame_to_symbols :
      (depth : ℕ) (env : Env) (i : ℕ)
      → i < frame_bytes
      → let d' = descramble_frame (count_ber (0, data_size) (recover d inverted)) in
        (check_sync d.shift_reg ≡ (128, inverted))
        × (process_frame depth env d inverted
            ≡ parse_packets depth env d' decoded_frame frame_bytes)
        × (d'.decoded i ≡ frame i)
  unfolding process_frame descramble_frame count_ber
  process_frame-frame_to_symbols depth env i h =
      (full_score frame out inverted d.shift_reg received, rw no_errors, recovered i h)
