-- ===== src/Viterbi/Optimal.antt =====
-- The forward pass finds the cheapest path into each state.
use inmarsat_sniffer.Base.{
  ℕ, zero, suc, ◌+◌, ◌*◌, ◌/◌, ◌%◌, ◌≤◌, ◌<◌, ◌≡◌, refl, sym, ◌∙◌, inl, inr, List, [], ◌∷◌, arith,
  at, length, get_or-replicate,
}
use inmarsat_sniffer.Base.Int.{ℤ}
use inmarsat_sniffer.Base.Loops.{for_range_inv}
use inmarsat_sniffer.Viterbi.{viterbi_states, unreached, acs, forward_step, forward, init_metric}
use inmarsat_sniffer.Viterbi.Edges.{IsInt8, edge_metric-le}
use inmarsat_sniffer.Viterbi.Step.{Relaxed, IsEdge, acs-Relaxed}
use inmarsat_sniffer.Viterbi.Paths.{AllBits, end_state, path_cost, end_state-lt, path_cost-le}
use inmarsat_sniffer.Viterbi.Survivors.{survivor, length-survivor}

-- At the start only state 0 is reached, at no cost.
init_reached :
    (n : ℕ) → n < viterbi_states → at init_metric n < unreached → (n ≡ 0) × (at init_metric n ≡ 0)
unfolding init_metric
init_reached zero hn live = (refl, refl)
init_reached (suc n) hn live =
    absurd (omega (arith, get_or-replicate 63 n unreached 0 (omega arith)))

module _ (soft : ℕ → ℤ) (int8 : (i : ℕ) → IsInt8 (soft i)) where
  -- After `t` steps each metric is the least cost of a path into its state, and the survivor of a
  -- reached state is such a path.
  pub record IsOptimal (t : ℕ) (acc : List ℕ × List (List ℕ)) : Type 0 where
    pub history_length : length acc.1 ≡ t
    pub small : (n : ℕ) → n < viterbi_states → at acc.0 n < unreached → at acc.0 n ≤ 510 * t
    pub lower :
        (bs : List ℕ) → length bs ≡ t → AllBits bs → at acc.0 (end_state bs) ≤ path_cost soft bs
    pub attained :
        (n : ℕ)
        → n < viterbi_states
        → at acc.0 n < unreached
        → (end_state (survivor acc.1 n) ≡ n) × (path_cost soft (survivor acc.1 n) ≡ at acc.0 n)

  module _ (t : ℕ) (metric new row : List ℕ) (history : List (List ℕ))
      (o : IsOptimal t (metric, history))
      (r : Relaxed metric (soft (t * 2)) (soft (t * 2 + 1)) (viterbi_states * 2) (new, row)) where
    -- The edge that a reached state keeps.
    kept :
        (n : ℕ)
        → n < viterbi_states
        → at new n < unreached
        → IsEdge metric (soft (t * 2)) (soft (t * 2 + 1)) n (at new n) (at row n)
    kept n hn live = elim (r.sound n hn) [
      | inl dead ↦ absurd (omega (arith, dead))
      | inr edge ↦ edge
    ]

    next_small : (n : ℕ) → n < viterbi_states → at new n < unreached → at new n ≤ 510 * (t + 1)
    next_small n hn live =
        let edge = kept n hn live in
        omega (
          arith,
          edge.value,
          o.small (at row n / 2) edge.from_lt edge.reached,
          edge_metric-le (soft (t * 2)) (soft (t * 2 + 1)) (at row n / 2) (at row n % 2)
              (int8 (t * 2)) (int8 (t * 2 + 1)),
        )

    next_lower :
        510 * (t + 1) < unreached
        → (bs : List ℕ) → length bs ≡ t + 1
        → AllBits bs
        → at new (end_state bs) ≤ path_cost soft bs
    unfolding end_state path_cost
    next_lower room [] e h = absurd (omega arith)
    next_lower room (b ∷ bs) e h =
        let len : length bs ≡ t = omega arith in
        let below = o.lower bs len h.1 in
        let before = end_state-lt bs h.1 in
        let live : at metric (end_state bs) < unreached =
          omega (arith, below, path_cost-le soft bs int8) in
        rw len (omega (arith, below, r.complete (end_state bs) b before h.0 (omega arith) live))

    next_attained :
        (n : ℕ)
        → n < viterbi_states
        → at new n < unreached
        → (end_state (survivor (row ∷ history) n) ≡ n)
          × (path_cost soft (survivor (row ∷ history) n) ≡ at new n)
    unfolding end_state path_cost survivor
    next_attained n hn live =
        let edge = kept n hn live in
        let (ends, costs) = o.attained (at row n / 2) edge.from_lt edge.reached in
        let len = length-survivor history (at row n / 2) ∙ o.history_length in
        (rw ends edge.leads, rw (len, ends, costs) (sym edge.value))

    step_keeps : 510 * (t + 1) < unreached → IsOptimal (t + 1) (new, row ∷ history)
    step_keeps room = record {
      history_length = omega (arith, o.history_length);
      small = next_small;
      lower = next_lower room;
      attained = next_attained;
    }

  forward_step-IsOptimal :
      (t : ℕ) (acc : List ℕ × List (List ℕ))
      → 510 * (t + 1) < unreached
      → IsOptimal t acc
      → IsOptimal (t + 1) (forward_step soft t acc)
  unfolding forward_step
  forward_step-IsOptimal t (metric, history) room o =
      let s0 = soft (t * 2) in
      let s1 = soft (t * 2 + 1) in
      let (new, row) = acs metric s0 s1 in
      step_keeps t metric new row history o
        (acs-Relaxed metric s0 s1 (int8 (t * 2)) (int8 (t * 2 + 1))) room

  init_lower : (bs : List ℕ) → length bs ≡ 0 → at init_metric (end_state bs) ≤ path_cost soft bs
  unfolding init_metric end_state path_cost
  init_lower [] e = omega arith
  init_lower (b ∷ bs) e = absurd (omega arith)

  init-IsOptimal : IsOptimal 0 (init_metric, [])
  unfolding end_state path_cost survivor
  init-IsOptimal = record {
    history_length = refl;
    small = λ n hn live. omega (arith, (init_reached n hn live).1);
    lower = λ bs e h. init_lower bs e;
    attained = λ n hn live.
        let (zero_state, no_cost) = init_reached n hn live in (sym zero_state, sym no_cost);
  }

  -- After the forward pass over `num_bits` steps.
  pub forward-IsOptimal :
      (num_bits : ℕ) → 510 * num_bits < unreached → IsOptimal num_bits (forward soft num_bits)
  unfolding forward
  forward-IsOptimal num_bits room =
      for_range_inv IsOptimal (forward_step soft) num_bits 0 num_bits _ (omega arith)
        (λ t acc lo hi o. forward_step-IsOptimal t acc (omega arith) o) init-IsOptimal
