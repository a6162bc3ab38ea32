-- ===== src/Stdc/Feed/FrameTest.antt =====
-- `frame_to_symbols` of tools/test_stdc.c, the sender of the loopback test.
use inmarsat_sniffer.Base.{
  ℕ, zero, suc, ◌+◌, ◌*◌, ◌/◌, ◌%◌, ◌<◌, ◌≡◌, ◌≢◌, refl, ◌∙◌, ap, arith, dec_lt, List, [], ◌∷◌,
  ◌++◌, at, at-append, at-append_end, length, length-append,
}
use inmarsat_sniffer.Base.Loops.{for_range, for_range_inv}
use inmarsat_sniffer.Viterbi.{viterbi_encode}
use inmarsat_sniffer.Stdc.Interleave.{store, sync_word, frame_rows, frame_cols, data_size}
use inmarsat_sniffer.Stdc.Interleave.Inverse.{ne_test, eq_test}
use inmarsat_sniffer.Stdc.Scramble.Involution.{scramble_byte}
use inmarsat_sniffer.Stdc.Types.{frame_bytes}

-- The array that a loop fills in the order of the index.
unfoldable pub fill : ℕ → (ℕ → ℕ) → List ℕ
fill zero g = []
fill (suc n) g = fill n g ++ (g n ∷ [])

-- `scr`
unfoldable pub scrambled : (ℕ → ℕ) → List ℕ
scrambled frame = fill frame_bytes (λ k. scramble_byte (k / 4) (frame k))

unfoldable pub encoded : (ℕ → ℕ) → List ℕ
encoded frame = viterbi_encode (scrambled frame) (data_size / 2)

unfoldable pub data_row : List ℕ → ℕ → (ℕ → ℕ) → ℕ → ℕ
data_row enc i out =
    for_range 160 0
      (λ col out.
        store out ((i * 23) % 64 * frame_cols + (col + 2)) (at enc (col * frame_rows + i)))
      out

unfoldable pub sync_row : ℕ → (ℕ → ℕ) → ℕ → ℕ
sync_row r out =
    store (store out (r * frame_cols) (at sync_word r)) (r * frame_cols + 1) (at sync_word r)

unfoldable pub frame_to_symbols : (ℕ → ℕ) → (ℕ → ℕ) → ℕ → ℕ
frame_to_symbols frame out =
    for_range frame_rows 0 sync_row (for_range frame_rows 0 (data_row (encoded frame)) out)

pub length-fill : (n : ℕ) (g : ℕ → ℕ) → length (fill n g) ≡ n
unfolding fill
length-fill zero g = refl
length-fill (suc n) g = omega (arith, length-append (fill n g) (g n ∷ []), length-fill n g)

pub at-fill : (n : ℕ) (g : ℕ → ℕ) (i : ℕ) → i < n → at (fill n g) i ≡ g i
unfolding fill
at-fill zero g i h = absurd (omega arith)
at-fill (suc n) g i h = elim (dec_lt i n) [
  | yes lt ↦ at-append (fill n g) (g n ∷ []) i (omega (arith, length-fill n g)) ∙ at-fill n g i lt
  | no ge ↦ at-append_end (fill n g) (g n) i (omega (arith, length-fill n g)) ∙ ap g (omega arith)
]

module _ (enc : List ℕ) where
  abbrev Placed : ℕ → (ℕ → ℕ) → Type 0
  Placed k out =
      (i c : ℕ)
      → i < k
      → c < 160
      → out ((i * 23) % 64 * frame_cols + (c + 2)) ≡ at enc (c * frame_rows + i)

  abbrev RowPlaced : ℕ → ℕ → (ℕ → ℕ) → Type 0
  RowPlaced row k out =
      ((c : ℕ)
        → c < k
        → out ((row * 23) % 64 * frame_cols + (c + 2)) ≡ at enc (c * frame_rows + row))
      × Placed row out

  -- Two rows of the frame are sent in different places.
  apart :
      (i row c col : ℕ)
      → i < row
      → row < frame_rows
      → c < 160
      → col < 160
      → (i * 23) % 64 * frame_cols + (c + 2) ≢ (row * 23) % 64 * frame_cols + (col + 2)
  apart i row c col hi hrow hc hcol = omega arith

  place_row :
      (row : ℕ) (out : ℕ → ℕ)
      → row < frame_rows
      → Placed row out
      → RowPlaced row 160 (data_row enc row out)
  unfolding data_row
  place_row row out hrow p =
      for_range_inv (RowPlaced row)
        (λ col out.
          store out ((row * 23) % 64 * frame_cols + (col + 2)) (at enc (col * frame_rows + row)))
        160 0 160 out (omega arith)
        (λ col out lo hi q. (
          λ c hc. elim (dec_lt c col) [
            | yes lt ↦
                rw
                  (ne_test ((row * 23) % 64 * frame_cols + (col + 2))
                    ((row * 23) % 64 * frame_cols + (c + 2)) (omega arith))
                  (q.0 c lt)
            | no ge ↦
                let e : c ≡ col = omega arith in
                rw (e, eq_test ((row * 23) % 64 * frame_cols + (col + 2)))
          ],
          λ i c hi' hc.
              rw
                (ne_test ((row * 23) % 64 * frame_cols + (col + 2))
                  ((i * 23) % 64 * frame_cols + (c + 2)) (apart i row c col hi' hrow hc hi))
                (q.1 i c hi' hc),
        ))
        ((λ c hc. absurd (omega arith)), p)

  next_row :
      (row : ℕ) (out : ℕ → ℕ)
      → row < frame_rows
      → Placed row out
      → Placed (row + 1) (data_row enc row out)
  next_row row out hrow p i c hi hc = elim (dec_lt i row) [
    | yes lt ↦ (place_row row out hrow p).1 i c lt hc
    | no ge ↦ let e : i ≡ row = omega arith in rw e ((place_row row out hrow p).0 c hc)
  ]

-- The sync bits of the rows below `k` are in place, and the rest of the frame is as in `data`.
abbrev Synced : (ℕ → ℕ) → ℕ → (ℕ → ℕ) → Type 0
Synced base k out =
    ((r : ℕ)
      → r < k
      → (out (r * frame_cols) ≡ at sync_word r) × (out (r * frame_cols + 1) ≡ at sync_word r))
    × ((r c : ℕ) → c < 160 → out (r * frame_cols + (c + 2)) ≡ base (r * frame_cols + (c + 2)))

sync_row-Synced :
    (base : ℕ → ℕ) (k : ℕ) (out : ℕ → ℕ) → Synced base k out → Synced base (k + 1) (sync_row k out)
unfolding sync_row
sync_row-Synced base k out (done, rest) = (
  λ r hr. elim (dec_lt r k) [
    | yes lt ↦ (
      rw
          (
            ne_test (k * frame_cols + 1) (r * frame_cols) (omega arith),
            ne_test (k * frame_cols) (r * frame_cols) (omega arith),
          )
          (done r lt).0,
      rw
          (
            ne_test (k * frame_cols + 1) (r * frame_cols + 1) (omega arith),
            ne_test (k * frame_cols) (r * frame_cols + 1) (omega arith),
          )
          (done r lt).1,
    )
    | no ge ↦
        let e : r ≡ k = omega arith in
        rw e (
          rw (
            ne_test (k * frame_cols + 1) (k * frame_cols) (omega arith),
            eq_test (k * frame_cols),
          ),
          rw (eq_test (k * frame_cols + 1)),
        )
  ],
  λ r c hc.
      rw
        (
          ne_test (k * frame_cols + 1) (r * frame_cols + (c + 2)) (omega arith),
          ne_test (k * frame_cols) (r * frame_cols + (c + 2)) (omega arith),
        )
        (rest r c hc),
)

module _ (frame out : ℕ → ℕ) where
  abbrev rows_sent : ℕ → ℕ
  rows_sent = for_range frame_rows 0 (data_row (encoded frame)) out

  all-Synced : Synced rows_sent frame_rows (frame_to_symbols frame out)
  unfolding frame_to_symbols
  all-Synced =
      for_range_inv (Synced rows_sent) sync_row frame_rows 0 frame_rows rows_sent (omega arith)
        (λ k cur lo hi q. sync_row-Synced rows_sent k cur q)
        ((λ r hr. absurd (omega arith)), (λ r c hc. refl))

  all-Placed : Placed (encoded frame) frame_rows rows_sent
  all-Placed =
      for_range_inv (Placed (encoded frame)) (data_row (encoded frame)) frame_rows 0 frame_rows out
        (omega arith) (λ k cur lo hi q. next_row (encoded frame) k cur hi q)
        (λ i c hi hc. absurd (omega arith))

  -- The data symbols of the sent frame.
  pub frame_to_symbols-data :
      (i c : ℕ)
      → i < frame_rows
      → c < 160
      → frame_to_symbols frame out ((i * 23) % 64 * frame_cols + (c + 2))
        ≡ at (encoded frame) (c * frame_rows + i)
  frame_to_symbols-data i c hi hc = all-Synced.1 ((i * 23) % 64) c hc ∙ all-Placed i c hi hc

  -- Its sync symbols.
  pub frame_to_symbols-sync :
      (r : ℕ)
      → r < frame_rows
      → (frame_to_symbols frame out (r * frame_cols) ≡ at sync_word r)
        × (frame_to_symbols frame out (r * frame_cols + 1) ≡ at sync_word r)
  frame_to_symbols-sync r hr = all-Synced.0 r hr
