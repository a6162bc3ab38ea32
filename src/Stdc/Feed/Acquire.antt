-- ===== src/Stdc/Feed/Acquire.antt =====
-- A clean frame that is fed to a decoder at a frame boundary is acquired and parsed.
use inmarsat_sniffer.Base.{
  ℕ, ◌+◌, ◌-◌, ◌<◌, ◌≡◌, refl, ◌∙◌, ap, sym, subst, arith, Bool, true, false, ltb, if◌then◌else◌,
  [], ◌∷◌, Option, some, none,
}
use inmarsat_sniffer.Base.Int.{ℤ}
use inmarsat_sniffer.Viterbi.Edges.{IsInt8}
use inmarsat_sniffer.Stdc.Interleave.{encoded_size, data_size, check_sync}
use inmarsat_sniffer.Stdc.Types.{Env, Decoder, decoded_frame, frame_bytes}
use inmarsat_sniffer.Stdc.Parse.{parse_packets}
use inmarsat_sniffer.Stdc.Feed.{
  quantize, feed_bit, check_frame, stdc_decoder_feed, reset_pos, process_frame, set_synced, recover,
  count_ber, descramble_frame,
}
use inmarsat_sniffer.Stdc.Feed.Chunks.{then_feed, stdc_decoder_feed-append}
use inmarsat_sniffer.Stdc.Feed.FrameRoundTrip.{
  IsReceived, full_score, process_frame-frame_to_symbols,
}
use inmarsat_sniffer.Stdc.Feed.Shift.{
  soft_run, shift_run, soft_run-snoc, shift_run-IsShifted, shift_run-reg, feed-quiet,
  shift_run-snoc,
}

-- The state that `process_frame` is called in: all symbols shifted in, and the lock noted.
frame_held : Decoder → (ℕ → ℤ) → Decoder
frame_held d s =
    let full = shift_run d s 0 encoded_size in if d.synced then full else set_synced true full

-- Noting the lock changes nothing else that matters here.
record IsLocked (full held : Decoder) : Type 0 where
  locked : held.synced ≡ true
  same_reg : held.shift_reg ≡ full.shift_reg
  same_deinterleaved : held.deinterleaved ≡ full.deinterleaved
  same_out : held.out ≡ full.out
  same_count : held.frame_count ≡ full.frame_count

lock-IsLocked :
    (b : Bool) (full : Decoder)
    → full.synced ≡ b
    → IsLocked full (if b then full else set_synced true full)
lock-IsLocked true full on = record {
  locked = on;
  same_reg = refl;
  same_deinterleaved = refl;
  same_out = refl;
  same_count = refl;
}
lock-IsLocked false full off = record {
  locked = refl;
  same_reg = refl;
  same_deinterleaved = refl;
  same_out = refl;
  same_count = refl;
}

-- One bit in a call of its own.
feed_one :
    (depth : ℕ) (env : Env) (d : Decoder) (v : ℤ)
    → stdc_decoder_feed depth env d (v ∷ []) ≡ feed_bit depth env d v
unfolding stdc_decoder_feed
feed_one depth env d v = go (feed_bit depth env d v)
  where
    go :
        (r : Option Decoder)
        → (elim r as (λ x. Option Decoder) [ none ↦ none | some d' ↦ some d' ]) ≡ r
    go none = refl
    go (some d') = refl

check_frame-full :
    (depth : ℕ) (env : Env) (d : Decoder) (inverted : Bool)
    → d.shift_pos ≡ encoded_size
    → check_sync d.shift_reg ≡ (128, inverted)
    → check_frame depth env d
      ≡ reset_pos (process_frame depth env (if d.synced then d else set_synced true d) inverted)
unfolding check_frame
check_frame-full depth env d inverted at_end score = ground (arith, at_end, score)

module _ (frame out : ℕ → ℕ) (byte : (i : ℕ) → frame i < 256) (d : Decoder)
    (int8 : (i : ℕ) → IsInt8 (d.deinterleaved i)) (inverted : Bool) (s : ℕ → ℤ)
    (received : IsReceived frame out inverted (λ i. quantize (s i)))
    (boundary : d.shift_pos ≡ 0) where
  full-IsReceived : IsReceived frame out inverted (shift_run d s 0 encoded_size).shift_reg
  full-IsReceived i h =
      shift_run-reg d s 0 encoded_size i h (omega arith)
      ∙ (let past : ltb (i + encoded_size) encoded_size ≡ false = ground arith in
          rw past (ap (λ j. quantize (s j)) (omega arith)))
      ∙ received i h

  full-pos : (shift_run d s 0 encoded_size).shift_pos ≡ encoded_size
  full-pos = omega (arith, (shift_run-IsShifted d s 0 encoded_size).moved, boundary)

  -- The last bit of the frame starts its decoding.
  feed-full :
      (depth : ℕ) (env : Env)
      → stdc_decoder_feed depth env d (soft_run s 0 encoded_size)
        ≡ reset_pos (process_frame depth env (frame_held d s) inverted)
  unfolding frame_held feed_bit
  feed-full depth env =
      let n : ℕ = encoded_size - 1 in
      let full = shift_run d s 0 encoded_size in
      let held : (if full.synced then full else set_synced true full)
          ≡ (if d.synced then full else set_synced true full) =
        ap (λ b. if b then full else set_synced true full)
          (shift_run-IsShifted d s 0 encoded_size).same_synced in
      ap (stdc_decoder_feed depth env d) (soft_run-snoc s 0 n)
      ∙ stdc_decoder_feed-append depth env (soft_run s 0 n) (s (0 + n) ∷ []) d
      ∙ ap (then_feed depth env (s (0 + n) ∷ []))
          (feed-quiet depth env d s 0 n (omega (arith, boundary)))
      ∙ feed_one depth env (shift_run d s 0 n) (s (0 + n))
      ∙ ap (check_frame depth env) (sym (shift_run-snoc d s 0 n))
      ∙ check_frame-full depth env full inverted full-pos
          (full_score frame out inverted full.shift_reg full-IsReceived)
      ∙ ap (λ h. reset_pos (process_frame depth env h inverted)) held

  abbrev parsed : Decoder
  parsed = descramble_frame (count_ber (0, data_size) (recover (frame_held d s) inverted))

  held-IsLocked : IsLocked (shift_run d s 0 encoded_size) (frame_held d s)
  unfolding frame_held
  held-IsLocked =
      let full = shift_run d s 0 encoded_size in
      lock-IsLocked d.synced full (shift_run-IsShifted d s 0 encoded_size).same_synced

  held-IsInt8 : (i : ℕ) → IsInt8 ((frame_held d s).deinterleaved i)
  held-IsInt8 i =
      let same =
        held-IsLocked.same_deinterleaved
        ∙ (shift_run-IsShifted d s 0 encoded_size).same_deinterleaved in
      subst (λ b. IsInt8 (b i)) (sym same) (int8 i)

  held-IsReceived : IsReceived frame out inverted (frame_held d s).shift_reg
  held-IsReceived i h = ap (λ b. b i) held-IsLocked.same_reg ∙ full-IsReceived i h

  parsed-synced : parsed.synced ≡ true
  unfolding descramble_frame count_ber recover
  parsed-synced = held-IsLocked.locked

  parsed-frame_count : parsed.frame_count ≡ d.frame_count + 1
  unfolding descramble_frame count_ber recover
  parsed-frame_count =
      ap (λ (n : ℕ). n + 1)
        (held-IsLocked.same_count ∙ (shift_run-IsShifted d s 0 encoded_size).same_count)

  parsed-out : parsed.out ≡ d.out
  unfolding descramble_frame count_ber recover
  parsed-out = held-IsLocked.same_out ∙ (shift_run-IsShifted d s 0 encoded_size).same_out

  -- Feeding the soft bits of one clean frame of either polarity to a decoder at a frame boundary,
  -- whether it is in sync or still searching, locks it and hands exactly the bytes that were sent to
  -- the parser; the decoder then stands at a frame boundary again.
  pub stdc_decoder_feed-frame_to_symbols :
      (depth : ℕ) (env : Env)
      → (d' : Decoder) × (stdc_decoder_feed depth env d (soft_run s 0 encoded_size)
          ≡ reset_pos (parse_packets depth env d' decoded_frame frame_bytes))
        × (d'.synced ≡ true)
        × (d'.frame_count ≡ d.frame_count + 1)
        × (d'.out ≡ d.out)
        × ((i : ℕ) → i < frame_bytes → d'.decoded i ≡ frame i)
  stdc_decoder_feed-frame_to_symbols depth env =
      let r =
        process_frame-frame_to_symbols frame out byte (frame_held d s) held-IsInt8 inverted
          held-IsReceived depth env in
      (
        parsed,
        feed-full depth env ∙ ap reset_pos (r 0 (omega arith)).1,
        parsed-synced,
        parsed-frame_count,
        parsed-out,
        λ i h. (r i h).2,
      )
