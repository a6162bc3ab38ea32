-- ===== src/Viterbi/Paths.antt =====
-- What the decoder searches: the paths through the trellis from state 0, and what each one costs.
-- A path is the list of its input bits, newest first.
use mathlib.Core.List.{reverse, reverse-cons}
use inmarsat_sniffer.Base.{
  ℕ, zero, suc, replicate, ◌++◌, ◌+◌, ◌*◌, ◌≤◌, ◌<◌, List, [], ◌∷◌, arith, length,
}
use inmarsat_sniffer.Base.Int.{ℤ}
use inmarsat_sniffer.Viterbi.{viterbi_states, next_state, edge_metric}
use inmarsat_sniffer.Viterbi.Edges.{IsInt8, edge_metric-le, next_state-lt}

abbrev pub AllBits : List ℕ → Type 0
AllBits [] = Unit
AllBits (b ∷ bs) = (b < 2) × AllBits bs

AllBits-append : (xs ys : List ℕ) → AllBits xs → AllBits ys → AllBits (xs ++ ys)
AllBits-append [] ys h k = k
AllBits-append (x ∷ xs) ys h k = (h.0, AllBits-append xs ys h.1 k)

pub AllBits-reverse : (xs : List ℕ) → AllBits xs → AllBits (reverse xs)
AllBits-reverse [] h = tt
AllBits-reverse (x ∷ xs) h =
    rw reverse-cons (AllBits-append (reverse xs) (x ∷ []) (AllBits-reverse xs h.1) (h.0, tt))

pub AllBits-replicate : (n : ℕ) → AllBits (replicate n 0)
AllBits-replicate zero = tt
AllBits-replicate (suc n) = (omega arith, AllBits-replicate n)

unfoldable pub end_state : List ℕ → ℕ
end_state [] = 0
end_state (b ∷ bs) = next_state (end_state bs) b

unfoldable pub path_cost : (ℕ → ℤ) → List ℕ → ℕ
path_cost soft [] = 0
path_cost soft (b ∷ bs) =
    path_cost soft bs
    + edge_metric (soft (length bs * 2)) (soft (length bs * 2 + 1)) (end_state bs) b

pub end_state-lt : (bs : List ℕ) → AllBits bs → end_state bs < viterbi_states
unfolding end_state
end_state-lt [] h = omega arith
end_state-lt (b ∷ bs) h = next_state-lt (end_state bs) b (end_state-lt bs h.1) h.0

pub path_cost-le :
    (soft : ℕ → ℤ) (bs : List ℕ) → ((i : ℕ) → IsInt8 (soft i)) → path_cost soft bs ≤ 510 * length bs
unfolding path_cost
path_cost-le soft [] h = omega arith
path_cost-le soft (b ∷ bs) h = omega (
  arith,
  path_cost-le soft bs h,
  edge_metric-le (soft (length bs * 2)) (soft (length bs * 2 + 1)) (end_state bs) b
      (h (length bs * 2)) (h (length bs * 2 + 1)),
)
