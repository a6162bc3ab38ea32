-- ===== src/Stdc/Interleave/Sync.antt =====
-- What the frame-sync score counts.
use inmarsat_sniffer.Base.{
  ℕ, zero, suc, ◌+◌, ◌-◌, ◌*◌, ◌≤◌, ◌<◌, ◌≡◌, refl, ◌∙◌, ap, true, false, arith, at, ltb, not, ◌==◌,
  if◌then◌else◌, ◌≢◌,
}
use inmarsat_sniffer.Base.Int.{ℤ, pos, negsuc, neg_ℤ}
use inmarsat_sniffer.Base.Loops.{for_range, for_range_inv}
use inmarsat_sniffer.Base.Table.{all_below, all_below_sound}
use inmarsat_sniffer.Stdc.Interleave.{
  Buffer, check_sync, check_row, hard_bit, sync_word, frame_cols, frame_rows, tally,
}

-- How many of the two sync bits of row `i` come as sent.
unfoldable pub row_matches : Buffer → ℕ → ℕ
row_matches buf i =
    (if hard_bit (buf (i * frame_cols)) == at sync_word i then 1 else 0)
    + (if hard_bit (buf (i * frame_cols + 1)) == at sync_word i then 1 else 0)

unfoldable pub matches : Buffer → ℕ → ℕ
matches buf zero = 0
matches buf (suc k) = matches buf k + row_matches buf k

record IsCounted (buf : Buffer) (k : ℕ) (m : ℕ × ℕ) : Type 0 where
  normal : m.0 ≡ matches buf k
  total : m.0 + m.1 ≡ 2 * k

-- Two comparisons count two bits in all.
tally_twice :
    (b b' w : ℕ) (m : ℕ × ℕ)
    → ((tally b' w (tally b w m)).0
        ≡ m.0 + ((if b == w then 1 else 0) + (if b' == w then 1 else 0)))
      × ((tally b' w (tally b w m)).0 + (tally b' w (tally b w m)).1 ≡ m.0 + m.1 + 2)
tally_twice b b' w (nrm, inv) = ground arith

check_row-IsCounted :
    (buf : Buffer) (i : ℕ) (m : ℕ × ℕ)
    → IsCounted buf i m
    → IsCounted buf (i + 1) (check_row buf i m)
unfolding check_row
check_row-IsCounted buf i m c =
    let e : i + 1 ≡ suc i = omega arith in
    let (nrm, all) =
      tally_twice (hard_bit (buf (i * frame_cols))) (hard_bit (buf (i * frame_cols + 1)))
        (at sync_word i) m in
    rw e (record {
      normal = unfold matches row_matches in nrm ∙ ap (λ x. x + row_matches buf i) c.normal;
      total = all ∙ omega (arith, c.total);
    })

counted : (buf : Buffer) → IsCounted buf frame_rows (for_range frame_rows 0 (check_row buf) (0, 0))
counted buf =
    for_range_inv (IsCounted buf) (check_row buf) frame_rows 0 frame_rows (0, 0) (omega arith)
      (λ i m lo hi c. check_row-IsCounted buf i m c)
      (record { normal = unfold matches in refl; total = omega arith })

-- The score is the number of the 128 sync bits that match, or that do not, whichever is larger; the
-- stream counts as inverted when fewer than half match.
pub check_sync-matches :
    (buf : Buffer)
    → let m = matches buf frame_rows in
      check_sync buf ≡ (if ltb m 64 then (128 - m, true) else (m, false))
unfolding check_sync
check_sync-matches buf = ground (arith, counted buf)

-- No sync bit is an erasure.
abbrev pub IsDecided : Buffer → Type 0
IsDecided buf =
    (i : ℕ) → i < frame_rows → (buf (i * frame_cols) ≢ pos 0) × (buf (i * frame_cols + 1) ≢ pos 0)

hard_bit-neg : (v : ℤ) → v ≢ pos 0 → hard_bit (neg_ℤ v) + hard_bit v ≡ 1
hard_bit-neg (pos zero) h = absurd (h refl)
hard_bit-neg (pos (suc n)) h = ground arith
hard_bit-neg (negsuc n) h = ground arith

sync_word-lt_table : all_below 64 (λ i. ltb (at sync_word i) 2) ≡ true
unfolding all_below
sync_word-lt_table = refl

pub sync_word-lt : (i : ℕ) → i < 64 → at sync_word i < 2
sync_word-lt i h =
    ground (arith, all_below_sound 64 (λ i. ltb (at sync_word i) 2) i sync_word-lt_table h)

flipped :
    (b b' w : ℕ) → b + b' ≡ 1 → w < 2 → (if b == w then 1 else 0) + (if b' == w then 1 else 0) ≡ 1
flipped b b' w e h = ground arith

matches-neg :
    (buf : Buffer) (k : ℕ)
    → k ≤ frame_rows
    → IsDecided buf
    → matches (λ i. neg_ℤ (buf i)) k + matches buf k ≡ 2 * k
unfolding matches row_matches
matches-neg buf zero h d = omega arith
matches-neg buf (suc k) h d = omega (
  arith,
  matches-neg buf k (omega arith) d,
  flipped (hard_bit (neg_ℤ (buf (k * frame_cols)))) (hard_bit (buf (k * frame_cols)))
      (at sync_word k) (hard_bit-neg (buf (k * frame_cols)) (d k h).0) (sync_word-lt k h),
  flipped (hard_bit (neg_ℤ (buf (k * frame_cols + 1)))) (hard_bit (buf (k * frame_cols + 1)))
      (at sync_word k) (hard_bit-neg (buf (k * frame_cols + 1)) (d k h).1) (sync_word-lt k h),
)

-- Negating a stream whose sync bits are all decided, and of which not exactly half match, leaves the
-- score and turns the polarity round.
pub check_sync-neg :
    (buf : Buffer)
    → IsDecided buf
    → matches buf frame_rows ≢ 64
    → ((check_sync (λ i. neg_ℤ (buf i))).0 ≡ (check_sync buf).0)
      × ((check_sync (λ i. neg_ℤ (buf i))).1 ≡ not (check_sync buf).1)
check_sync-neg buf d h =
    let sum = matches-neg buf frame_rows (omega arith) d in
    ground (arith, check_sync-matches buf, check_sync-matches (λ i. neg_ℤ (buf i)), sum)
