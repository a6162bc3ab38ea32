-- ===== src/Stdc/Interleave/Inverse.antt =====
-- Which received symbol each de-interleaved bit is.
use native.Mathlib.Nat.{add_assoc}
use inmarsat_sniffer.Base.{
  ℕ, ◌+◌, ◌-◌, ◌*◌, ◌%◌, ◌≤◌, ◌<◌, ◌≡◌, refl, ◌∙◌, ap, arith, dec_lt, true, false, ◌≢◌, ◌==◌,
}
use inmarsat_sniffer.Base.Int.{neg_ℤ}
use inmarsat_sniffer.Base.Loops.{for_range, for_range_inv}
use inmarsat_sniffer.Stdc.Interleave.{
  Buffer, copy, store, depermute, deinterleave_row, deinterleave, invert, frame_rows, frame_cols,
  encoded_size, data_size,
}

pub eq_test : (k : ℕ) → (k == k) ≡ true
eq_test k = ground arith

pub ne_test : (k j : ℕ) → j ≢ k → (j == k) ≡ false
ne_test k j h = ground arith

module _ (src : Buffer) where
  abbrev Permuted : ℕ → Buffer → Type 0
  Permuted k out =
      (r c : ℕ)
      → r < k
      → c < frame_cols
      → out (r * frame_cols + c) ≡ src ((r * 23) % 64 * frame_cols + c)

  keep :
      (i : ℕ) (out : Buffer)
      → Permuted i out
      → Permuted (i + 1) (copy out (i * frame_cols) src ((i * 23) % 64 * frame_cols) frame_cols)
  keep i out p r c hr hc = elim (dec_lt r i) [
    | yes lt ↦ ground (arith, p r c lt hc)
    | no ge ↦
        let e : r ≡ i = omega arith in
        let off : r * frame_cols + c - r * frame_cols ≡ c = omega arith in
        rw (← e) (ground (arith, off))
  ]

  pub depermute-at :
      (out : Buffer) (r c : ℕ)
      → r < frame_rows
      → c < frame_cols
      → depermute src out (r * frame_cols + c) ≡ src ((r * 23) % 64 * frame_cols + c)
  unfolding depermute
  depermute-at out =
      for_range_inv Permuted
        (λ i out. copy out (i * frame_cols) src ((i * 23) % 64 * frame_cols) frame_cols) frame_rows
        0 frame_rows out (omega arith) (λ i out lo hi p r c hr hc. keep i out p r c hr hc)
        (λ r c hr hc. absurd (omega arith))

  abbrev Readout : ℕ → Buffer → Type 0
  Readout k out =
      (r c : ℕ) → r < k → c < 160 → out (c * frame_rows + r) ≡ src (r * frame_cols + c + 2)

  abbrev RowReadout : ℕ → ℕ → Buffer → Type 0
  RowReadout row k out =
      ((c : ℕ) → c < k → out (c * frame_rows + row) ≡ src (row * frame_cols + c + 2))
      × Readout row out

  row-Readout :
      (row : ℕ) (out : Buffer)
      → row < frame_rows
      → Readout row out
      → Readout (row + 1) (deinterleave_row src row out)
  unfolding deinterleave_row
  row-Readout row out hrow p r c hr hc = elim (dec_lt r row) [
    | yes lt ↦ loop.1 r c lt hc
    | no ge ↦ let e : r ≡ row = omega arith in rw e (loop.0 c hc)
  ]
    where
      write :
          (col : ℕ) (out : Buffer)
          → 0 ≤ col
          → col < 160
          → RowReadout row col out
          → RowReadout row
              (col + 1)
              (store out (col * frame_rows + row) (src (row * frame_cols + col + 2)))
      write col out lo hi (own, others) = (
        λ c hc. elim (dec_lt c col) [
          | yes lt ↦ ground (arith, own c lt)
          | no ge ↦ let e : c ≡ col = omega arith in rw e (ground arith)
        ],
        λ r c hr hc. ground (arith, others r c hr hc),
      )

      loop : RowReadout row 160 (
          for_range 160 0
            (λ col out. store out (col * frame_rows + row) (src (row * frame_cols + col + 2)))
            out)
      loop =
          for_range_inv (RowReadout row)
            (λ col out. store out (col * frame_rows + row) (src (row * frame_cols + col + 2))) 160 0
            160 out (omega arith) write ((λ c hc. absurd (omega arith)), p)

  pub deinterleave-at :
      (out : Buffer) (r c : ℕ)
      → r < frame_rows
      → c < 160
      → deinterleave src out (c * frame_rows + r) ≡ src (r * frame_cols + c + 2)
  unfolding deinterleave
  deinterleave-at out =
      for_range_inv Readout (deinterleave_row src) frame_rows 0 frame_rows out (omega arith)
        (λ row out lo hi p. row-Readout row out hi p) (λ r c hr hc. absurd (omega arith))

-- Row `r` of the received frame, past its two sync bits, is column-wise the read-out row
-- `39 * r % 64`: 39 is the inverse of 23 modulo 64. So every data symbol of the frame has its own
-- place in the read-out, whatever the two output buffers held before.
pub deinterleave-depermute :
    (src out₁ out₂ : Buffer) (r c : ℕ)
    → r < frame_rows
    → c < 160
    → deinterleave (depermute src out₁) out₂ (c * frame_rows + (39 * r) % 64)
      ≡ src (r * frame_cols + c + 2)
deinterleave-depermute src out₁ out₂ r c hr hc =
    let back : 39 * r % 64 * 23 % 64 ≡ r = omega arith in
    deinterleave-at (depermute src out₁) out₂ (39 * r % 64) c (omega arith) hc
    ∙ ap (depermute src out₁) (add_assoc (39 * r % 64 * frame_cols) c 2)
    ∙ depermute-at src out₁ (39 * r % 64) (c + 2) (omega arith) (omega arith)
    ∙ ap (λ k. src (k * frame_cols + (c + 2))) back
    ∙ ap src (omega arith)

-- Inversion negates each symbol of the frame.
pub invert-at : (buf : Buffer) (i : ℕ) → i < encoded_size → invert buf i ≡ neg_ℤ (buf i)
unfolding invert
invert-at buf i h =
    (for_range_inv
        (λ k out. ((j : ℕ) → j < k → out j ≡ neg_ℤ (buf j)) × ((j : ℕ) → k ≤ j → out j ≡ buf j))
        (λ i buf. store buf i (neg_ℤ (buf i))) encoded_size 0 encoded_size buf (omega arith) step
        ((λ j lt. absurd (omega arith)), (λ j le. refl))).0
      i h
  where
    step :
        (k : ℕ) (out : Buffer)
        → 0 ≤ k
        → k < encoded_size
        → ((j : ℕ) → j < k → out j ≡ neg_ℤ (buf j)) × ((j : ℕ) → k ≤ j → out j ≡ buf j)
        → ((j : ℕ) → j < k + 1 → store out k (neg_ℤ (out k)) j ≡ neg_ℤ (buf j))
          × ((j : ℕ) → k + 1 ≤ j → store out k (neg_ℤ (out k)) j ≡ buf j)
    step k out lo hi (done, rest) = (
      λ j lt. elim (dec_lt j k) [
        | yes lt' ↦ rw (ne_test k j (omega arith)) (done j lt')
        | no ge ↦ let e : j ≡ k = omega arith in rw (e, eq_test k) (ap neg_ℤ (rest k (omega arith)))
      ],
      λ j le. rw (ne_test k j (omega arith)) (rest j (omega arith)),
    )

-- Nothing is written past the data symbols.
pub deinterleave-rest : (src out : Buffer) (i : ℕ) → data_size ≤ i → deinterleave src out i ≡ out i
unfolding deinterleave
deinterleave-rest src out i h =
    for_range_inv (λ k cur. cur i ≡ out i) (deinterleave_row src) frame_rows 0 frame_rows out
      (omega arith) row refl
  where
    cell :
        (r c : ℕ) (cur : Buffer)
        → r < frame_rows
        → c < 160
        → cur i ≡ out i
        → store cur (c * frame_rows + r) (src (r * frame_cols + c + 2)) i ≡ out i
    cell r c cur hr hc e = rw (ne_test (c * frame_rows + r) i (omega arith)) e

    row :
        (r : ℕ) (cur : Buffer)
        → 0 ≤ r
        → r < frame_rows
        → cur i ≡ out i
        → deinterleave_row src r cur i ≡ out i
    row r cur lo hr e =
        unfold deinterleave_row in
        for_range_inv (λ k cur. cur i ≡ out i)
          (λ c cur. store cur (c * frame_rows + r) (src (r * frame_cols + c + 2))) 160 0 160 cur
          (omega arith) (λ c cur lo' hc e'. cell r c cur hr hc e') e
