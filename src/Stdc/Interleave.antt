-- ===== src/Stdc/Interleave.antt =====
-- Frame sync, row permutation and de-interleaving of stdc_decode.c. A buffer of soft bits is the
-- function from the index.
pub mod Sync
pub mod Inverse
use inmarsat_sniffer.Base.{
  ℕ, ◌+◌, ◌*◌, ◌/◌, ◌%◌, ◌-◌, Bool, true, false, ◌&&◌, List, [], ◌∷◌, at, ltb, leb, ◌==◌,
  if◌then◌else◌,
}
use inmarsat_sniffer.Base.Int.{ℤ, pos, ltb_ℤ, neg_ℤ}
use inmarsat_sniffer.Base.Loops.{for_range}

abbrev pub frame_rows : ℕ
frame_rows = 64

abbrev pub frame_cols : ℕ
frame_cols = 162

abbrev pub encoded_size : ℕ
encoded_size = 10368

abbrev pub data_size : ℕ
data_size = 10240

-- One sync bit for each row, sent twice at its start.
abbrev pub sync_word : List ℕ
sync_word =
    0 ∷ 0 ∷ 0 ∷ 0 ∷ 0 ∷ 1 ∷ 1 ∷ 1 ∷ 1 ∷ 1 ∷ 1 ∷ 0 ∷ 1 ∷ 0 ∷ 1 ∷ 0 ∷ 1 ∷ 1 ∷ 0 ∷ 0 ∷ 1 ∷ 1 ∷ 0 ∷ 1
    ∷ 1 ∷ 1 ∷ 0 ∷ 1 ∷ 1 ∷ 0 ∷ 1 ∷ 0 ∷ 0 ∷ 1 ∷ 0 ∷ 0 ∷ 1 ∷ 1 ∷ 1 ∷ 0 ∷ 0 ∷ 0 ∷ 1 ∷ 0 ∷ 1 ∷ 1 ∷ 1 ∷ 1
    ∷ 0 ∷ 0 ∷ 1 ∷ 0 ∷ 1 ∷ 0 ∷ 0 ∷ 0 ∷ 1 ∷ 1 ∷ 0 ∷ 0 ∷ 0 ∷ 0 ∷ 1 ∷ 0 ∷ []

abbrev pub Buffer : Type 0
Buffer = ℕ → ℤ

-- `memcpy(dst + to, src + from, n)`
abbrev pub copy {ℓ} : {A : Type ℓ} → (ℕ → A) → ℕ → (ℕ → A) → ℕ → ℕ → ℕ → A
copy dst to src from n i = if leb to i && ltb i (to + n) then src (from + (i - to)) else dst i

-- `dst[to] = v`
abbrev pub store {ℓ} : {A : Type ℓ} → (ℕ → A) → ℕ → A → ℕ → A
store dst to v i = if i == to then v else dst i

-- `buf[pos] > 0 ? 1 : 0`
abbrev pub hard_bit : ℤ → ℕ
hard_bit v = if ltb_ℤ (pos 0) v then 1 else 0

-- One comparison with the sync bit: `(match_nrm, match_inv)`.
abbrev pub tally : ℕ → ℕ → ℕ × ℕ → ℕ × ℕ
tally bit want (nrm, inv) = if bit == want then (nrm + 1, inv) else (nrm, inv + 1)

unfoldable pub check_row : Buffer → ℕ → ℕ × ℕ → ℕ × ℕ
check_row buf i m =
    let p = i * frame_cols in
    tally (hard_bit (buf (p + 1))) (at sync_word i) (tally (hard_bit (buf p)) (at sync_word i) m)

-- The score and `*inverted`.
unfoldable pub check_sync : Buffer → ℕ × Bool
check_sync buf =
    let (match_nrm, match_inv) = for_range frame_rows 0 (check_row buf) (0, 0) in
    if ltb match_nrm match_inv then (match_inv, true) else (match_nrm, false)

unfoldable pub depermute : Buffer → Buffer → Buffer
depermute src out =
    for_range frame_rows 0
      (λ i out. copy out (i * frame_cols) src ((i * 23) % 64 * frame_cols) frame_cols) out

unfoldable pub deinterleave_row : Buffer → ℕ → Buffer → Buffer
deinterleave_row src row out =
    for_range 160 0
      (λ col out. store out (col * frame_rows + row) (src (row * frame_cols + col + 2))) out

unfoldable pub deinterleave : Buffer → Buffer → Buffer
deinterleave src out = for_range frame_rows 0 (deinterleave_row src) out

unfoldable pub invert : Buffer → Buffer
invert buf = for_range encoded_size 0 (λ i buf. store buf i (neg_ℤ (buf i))) buf
