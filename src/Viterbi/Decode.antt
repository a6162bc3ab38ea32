-- ===== src/Viterbi/Decode.antt =====
-- `viterbi_decode` returns a path of least cost (maximum likelihood), and its cost.
use mathlib.Core.List.{reverse, reverse-reverse, append-nil}
use inmarsat_sniffer.Base.{
  ℕ, ◌+◌, ◌*◌, ◌≤◌, ◌<◌, ◌≡◌, refl, sym, ◌∙◌, subst, ◌⊎◌, inl, inr, List, [], arith, at, length,
  replicate, length-reverse, length-replicate,
}
use inmarsat_sniffer.Base.Int.{ℤ}
use inmarsat_sniffer.Base.Loops.{for_range_inv}
use inmarsat_sniffer.Viterbi.{
  viterbi_states, unreached, max_metric, forward, better, best, decode_bits, viterbi_decode,
}
use inmarsat_sniffer.Viterbi.Edges.{IsInt8}
use inmarsat_sniffer.Viterbi.Paths.{
  AllBits, end_state, path_cost, end_state-lt, path_cost-le, AllBits-reverse, AllBits-replicate,
}
use inmarsat_sniffer.Viterbi.Survivors.{survivor, length-survivor, survivor-AllBits, traceback-eq}
use inmarsat_sniffer.Viterbi.Optimal.{IsOptimal, forward-IsOptimal}

-- The running minimum after the states below `k`.
record IsBest (metric : List ℕ) (k : ℕ) (acc : ℕ × ℕ) : Type 0 where
  state_lt : acc.1 < viterbi_states
  value : (acc.0 ≡ max_metric) ⊎ (acc.0 ≡ at metric acc.1)
  least : (s : ℕ) → s < k → acc.0 ≤ at metric s

better-IsBest :
    (metric : List ℕ) (s : ℕ) (acc : ℕ × ℕ)
    → s < viterbi_states
    → IsBest metric s acc
    → IsBest metric (s + 1) (better metric s acc)
unfolding better
better-IsBest metric s (m, st) hs b = record {
  state_lt = ground arith;
  value = ground arith;
  least = λ s' h. ground (arith, b.least s');
}

best-IsBest : (metric : List ℕ) → IsBest metric viterbi_states (best metric)
unfolding best
best-IsBest metric =
    for_range_inv (IsBest metric) (better metric) viterbi_states 0 viterbi_states _ (omega arith)
      (λ s acc lo hi b. better-IsBest metric s acc hi b)
      (record { state_lt = omega arith; value = inl refl; least = λ s h. absurd (omega arith) })

module _ (soft : ℕ → ℤ) (int8 : (i : ℕ) → IsInt8 (soft i)) (num_bits : ℕ)
    (room : 510 * num_bits < unreached) where
  -- The survivor of the best final state.
  abbrev pub winner : List ℕ
  winner = survivor (forward soft num_bits).1 (best (forward soft num_bits).0).1

  optimal : IsOptimal soft int8 num_bits (forward soft num_bits)
  optimal = forward-IsOptimal soft int8 num_bits room

  best_below : (best (forward soft num_bits).0).0 < unreached
  best_below =
      let b = best-IsBest (forward soft num_bits).0 in
      let zeros : List ℕ = replicate num_bits 0 in
      let len = length-replicate {A = ℕ} num_bits 0 in
      let bits = AllBits-replicate num_bits in
      omega (
        arith,
        len,
        b.least (end_state zeros) (end_state-lt zeros bits),
        optimal.lower zeros len bits,
        path_cost-le soft zeros int8,
      )

  best_value :
      (best (forward soft num_bits).0).0
      ≡ at (forward soft num_bits).0 (best (forward soft num_bits).0).1
  best_value = elim (best-IsBest (forward soft num_bits).0).value [
    | inl dead ↦ absurd (omega (arith, dead, best_below))
    | inr e ↦ e
  ]

  winner_cost : path_cost soft winner ≡ (best (forward soft num_bits).0).0
  winner_cost =
      let b = best-IsBest (forward soft num_bits).0 in
      let live = subst (λ v. v < unreached) best_value best_below in
      (optimal.attained (best (forward soft num_bits).0).1 b.state_lt live).1 ∙ sym best_value

  pub decode_bits-eq : decode_bits soft num_bits ≡ reverse winner
  unfolding decode_bits
  decode_bits-eq = traceback-eq (forward soft num_bits).1 _ [] ∙ append-nil (reverse winner)

  best-lower :
      (bs : List ℕ)
      → length bs ≡ num_bits
      → AllBits bs
      → (best (forward soft num_bits).0).0 ≤ path_cost soft (reverse bs)
  best-lower bs len bits =
      let b = best-IsBest (forward soft num_bits).0 in
      let bits' = AllBits-reverse bs bits in
      omega (
        arith,
        b.least (end_state (reverse bs)) (end_state-lt (reverse bs) bits'),
        optimal.lower (reverse bs) (length-reverse bs ∙ len) bits',
      )

  pub viterbi_decode-least :
      (bs : List ℕ)
      → length bs ≡ num_bits
      → AllBits bs
      → (viterbi_decode soft num_bits).0 ≤ path_cost soft (reverse bs)
  unfolding viterbi_decode
  viterbi_decode-least = best-lower

  pub length-decode_bits : length (decode_bits soft num_bits) ≡ num_bits
  length-decode_bits =
      rw decode_bits-eq (
        length-reverse winner
        ∙ length-survivor (forward soft num_bits).1 _
        ∙ optimal.history_length)

  pub decode_bits-AllBits : AllBits (decode_bits soft num_bits)
  decode_bits-AllBits =
      rw decode_bits-eq (AllBits-reverse winner (survivor-AllBits (forward soft num_bits).1 _))

  pub decode_bits-cost :
      path_cost soft (reverse (decode_bits soft num_bits)) ≡ (viterbi_decode soft num_bits).0
  unfolding viterbi_decode
  decode_bits-cost = rw (decode_bits-eq, reverse-reverse) winner_cost

  -- For `int8_t` soft symbols and few enough steps for the metrics to stay below the mark of an
  -- unreached state, the decoded bits are a path of `num_bits` zeros and ones whose cost is the
  -- returned metric, and no input sequence `bs` of that length costs less.
  pub viterbi_decode-optimal :
      (bs : List ℕ)
      → length bs ≡ num_bits
      → AllBits bs
      → (length (decode_bits soft num_bits) ≡ num_bits)
        × AllBits (decode_bits soft num_bits)
        × (path_cost soft (reverse (decode_bits soft num_bits)) ≡ (viterbi_decode soft num_bits).0)
        × ((viterbi_decode soft num_bits).0 ≤ path_cost soft (reverse bs))
  viterbi_decode-optimal bs len bits =
      (length-decode_bits, decode_bits-AllBits, decode_bits-cost, viterbi_decode-least bs len bits)
