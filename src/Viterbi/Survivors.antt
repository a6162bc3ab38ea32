-- ===== src/Viterbi/Survivors.antt =====
-- The path that the decisions of the forward pass record for each state, newest bit first.
use inmarsat_sniffer.Base.{ℕ, suc, ◌/◌, ◌%◌, ◌≡◌, refl, ap, List, [], ◌∷◌, ◌++◌, arith, at, length}
use mathlib.Core.List.{reverse, append_assoc, reverse-cons}
use inmarsat_sniffer.Base.Bits.{bit_and-one}
use inmarsat_sniffer.Viterbi.{traceback}
use inmarsat_sniffer.Viterbi.Paths.{AllBits}

unfoldable pub survivor : List (List ℕ) → ℕ → List ℕ
survivor [] state = []
survivor (row ∷ rows) state = at row state % 2 ∷ survivor rows (at row state / 2)

pub length-survivor : (rows : List (List ℕ)) (s : ℕ) → length (survivor rows s) ≡ length rows
unfolding survivor
length-survivor [] s = refl
length-survivor (row ∷ rows) s = ap suc (length-survivor rows (at row s / 2))

pub survivor-AllBits : (rows : List (List ℕ)) (s : ℕ) → AllBits (survivor rows s)
unfolding survivor
survivor-AllBits [] s = tt
survivor-AllBits (row ∷ rows) s = (omega arith, survivor-AllBits rows (at row s / 2))

-- The traceback writes the survivor in the order of time.
pub traceback-eq :
    (rows : List (List ℕ)) (s : ℕ) (acc : List ℕ)
    → traceback rows s acc ≡ reverse (survivor rows s) ++ acc
unfolding traceback survivor
traceback-eq [] s acc = refl
traceback-eq (row ∷ rows) s acc = simp (bit_and-one, traceback-eq rows, reverse-cons, append_assoc)
