-- ===== src/Stdc/Feed/Shift.antt =====
-- A run of soft bits shifted into the register.
use inmarsat_sniffer.Base.{
  ℕ, zero, suc, ◌+◌, ◌-◌, ◌≤◌, ◌<◌, ◌≡◌, refl, ◌∙◌, ap, arith, ltb, if◌then◌else◌, List, [], ◌∷◌,
  ◌++◌, Option, some, none,
}
use inmarsat_sniffer.Base.Int.{ℤ}
use inmarsat_sniffer.Stdc.Interleave.{encoded_size}
use inmarsat_sniffer.Stdc.Types.{Env, Decoder}
use inmarsat_sniffer.Stdc.Feed.{quantize, shift_in, feed_bit, check_frame, stdc_decoder_feed}

-- The soft bits `s k`, `s (k + 1)`, ..., `n` of them.
unfoldable pub soft_run : (ℕ → ℤ) → ℕ → ℕ → List ℤ
soft_run s k zero = []
soft_run s k (suc n) = s k ∷ soft_run s (k + 1) n

-- All of them shifted in, and nothing else done.
unfoldable pub shift_run : Decoder → (ℕ → ℤ) → ℕ → ℕ → Decoder
shift_run d s k zero = d
shift_run d s k (suc n) = shift_run (shift_in d (quantize (s k))) s (k + 1) n

pub soft_run-snoc :
    (s : ℕ → ℤ) (k n : ℕ) → soft_run s k (suc n) ≡ soft_run s k n ++ (s (k + n) ∷ [])
unfolding soft_run
soft_run-snoc s k zero = ap (λ i. s i ∷ []) (omega arith)
soft_run-snoc s k (suc n) =
    ap (λ xs. s k ∷ xs)
      (soft_run-snoc s (k + 1) n ∙ ap (λ i. soft_run s (k + 1) n ++ (s i ∷ [])) (omega arith))

-- What shifting leaves alone, and how far it moves.
pub record IsShifted (d d' : Decoder) (n : ℕ) : Type 0 where
  pub moved : d'.shift_pos ≡ d.shift_pos + n
  pub same_synced : d'.synced ≡ d.synced
  pub same_deinterleaved : d'.deinterleaved ≡ d.deinterleaved
  pub same_out : d'.out ≡ d.out
  pub same_count : d'.frame_count ≡ d.frame_count

pub shift_run-IsShifted : (d : Decoder) (s : ℕ → ℤ) (k n : ℕ) → IsShifted d (shift_run d s k n) n
unfolding shift_run shift_in
shift_run-IsShifted d s k zero = record {
  moved = omega arith;
  same_synced = refl;
  same_deinterleaved = refl;
  same_out = refl;
  same_count = refl;
}
shift_run-IsShifted d s k (suc n) =
    let i = shift_run-IsShifted (shift_in d (quantize (s k))) s (k + 1) n in
    record {
      moved = omega (arith, i.moved);
      same_synced = i.same_synced;
      same_deinterleaved = i.same_deinterleaved;
      same_out = i.same_out;
      same_count = i.same_count;
    }

-- One shift, seen after `n` more.
pub shift_in-reg :
    (d : Decoder) (s : ℕ → ℤ) (k n j : ℕ)
    → j < encoded_size
    → (if ltb (j + n) encoded_size
        then (shift_in d (quantize (s k))).shift_reg (j + n)
        else quantize (s (k + 1 + (j + n - encoded_size))))
      ≡ (if ltb (j + suc n) encoded_size
          then d.shift_reg (j + suc n)
          else quantize (s (k + (j + suc n - encoded_size))))
unfolding shift_in
shift_in-reg d s k n j hj =
    let next : j + n + 1 ≡ j + suc n = omega arith in
    let past : encoded_size ≤ j + n
        → k + 1 + (j + n - encoded_size) ≡ k + (j + suc n - encoded_size) =
      λ h. omega arith in
    let last : j + n ≡ encoded_size - 1 → k + (j + suc n - encoded_size) ≡ k = λ h. omega arith in
    ground (arith, next, past, last)

-- The register after a run no longer than itself.
pub shift_run-reg :
    (d : Decoder) (s : ℕ → ℤ) (k n j : ℕ)
    → j < encoded_size
    → n ≤ encoded_size
    → (shift_run d s k n).shift_reg j ≡ (
        if ltb (j + n) encoded_size
        then d.shift_reg (j + n)
        else quantize (s (k + (j + n - encoded_size))))
unfolding shift_run
shift_run-reg d s k zero j hj hn = ground arith
shift_run-reg d s k (suc n) j hj hn =
    shift_run-reg (shift_in d (quantize (s k))) s (k + 1) n j hj (omega arith)
    ∙ shift_in-reg d s k n j hj

-- Fewer bits than fill the frame are only shifted in.
pub feed-quiet :
    (depth : ℕ) (env : Env) (d : Decoder) (s : ℕ → ℤ) (k n : ℕ)
    → d.shift_pos + n < encoded_size
    → stdc_decoder_feed depth env d (soft_run s k n) ≡ some (shift_run d s k n)
unfolding stdc_decoder_feed soft_run shift_run
feed-quiet depth env d s k zero h = refl
feed-quiet depth env d s k (suc n) h =
    let quiet : feed_bit depth env d (s k) ≡ some (shift_in d (quantize (s k))) =
      unfold feed_bit check_frame shift_in in ground arith in
    ap
      (λ (r : Option Decoder). elim r as (λ x. Option Decoder) [
        | none ↦ none
        | some d' ↦ stdc_decoder_feed depth env d' (soft_run s (k + 1) n)
      ])
      quiet
    ∙ feed-quiet depth env (shift_in d (quantize (s k))) s (k + 1) n
        (unfold shift_in in omega arith)

pub shift_run-snoc :
    (d : Decoder) (s : ℕ → ℤ) (k n : ℕ)
    → shift_run d s k (suc n) ≡ shift_in (shift_run d s k n) (quantize (s (k + n)))
unfolding shift_run
shift_run-snoc d s k zero = ap (λ i. shift_in d (quantize (s i))) (omega arith)
shift_run-snoc d s k (suc n) =
    shift_run-snoc (shift_in d (quantize (s k))) s (k + 1) n
    ∙ ap (λ i. shift_in (shift_run (shift_in d (quantize (s k))) s (k + 1) n) (quantize (s i)))
        (omega arith)
