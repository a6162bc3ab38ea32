-- ===== src/Base/Sorting.antt =====
-- Comparison functions, `strcmp`, and what the C library documents of `qsort` and `bsearch`. An array is
-- a function from the index, with the number of its elements beside it.
pub mod Small
use Prim.Native.Nat.{ℕ, zero, suc, ◌<◌}
use mathlib.Core.Path.{◌≡◌, refl, ap, ap₂}
use mathlib.Core.Logic.{◌≢◌, ◌⊎◌, inl, inr}
use mathlib.Core.Option.{Option, none, some}
use mathlib.Core.List.{List, [], ◌∷◌}
use native.Mathlib.Omega.{arith}
use inmarsat_sniffer.Base.Tests.{ltb, if◌then◌else◌}

-- The sign of an `int` result.
pub data Sign : Type 0 where
  less same greater : Sign

unfoldable pub strcmp : List ℕ → List ℕ → Sign
strcmp [] [] = same
strcmp [] (d ∷ t) = less
strcmp (c ∷ s) [] = greater
strcmp (c ∷ s) (d ∷ t) =
    let rest = strcmp s t in if ltb c d then less else if ltb d c then greater else rest

pub strcmp-same : (s t : List ℕ) → strcmp s t ≡ same → s ≡ t
unfolding strcmp
strcmp-same [] [] e = refl
strcmp-same [] (d ∷ t) e = cc e
strcmp-same (c ∷ s) [] e = cc e
strcmp-same (c ∷ s) (d ∷ t) e =
    let head : c ≡ d = ground (arith, e) in
    let rest : strcmp s t ≡ same = ground (arith, e) in
    ap₂ (λ x xs. x ∷ xs) head (strcmp-same s t rest)

pub strcmp_self : (s : List ℕ) → strcmp s s ≡ same
unfolding strcmp
strcmp_self [] = refl
strcmp_self (c ∷ s) = ground (arith, strcmp_self s)

pub strcmp-swap : (s t : List ℕ) → strcmp s t ≡ less → strcmp t s ≡ greater
unfolding strcmp
strcmp-swap [] [] e = cc e
strcmp-swap [] (d ∷ t) e = refl
strcmp-swap (c ∷ s) [] e = cc e
strcmp-swap (c ∷ s) (d ∷ t) e = ground (arith, e, strcmp-swap s t)

-- No element is above a later one.
abbrev pub IsSorted : {A : Type 0} → (A → A → Sign) → ℕ → (ℕ → A) → Type 0
IsSorted cmp n a = (i j : ℕ) → i < j → j < n → cmp (a i) (a j) ≢ greater

abbrev pub Qsort : Type 1
Qsort = (A : Type 0) → (A → A → Sign) → ℕ → (ℕ → A) → ℕ → A

-- What `qsort` leaves in `b` of the `n` elements of `a`: the same elements, in order.
pub record Sorts {A : Type 0} (cmp : A → A → Sign) (n : ℕ) (a b : ℕ → A) : Type 0 where
  pub ordered : IsSorted cmp n b
  pub kept : (i : ℕ) → i < n → (j : ℕ) × (j < n) × (b j ≡ a i)
  pub nothing_new : (i : ℕ) → i < n → (j : ℕ) × (j < n) × (b i ≡ a j)

-- `bsearch` gives the index of the element it points to.
abbrev pub Bsearch : Type 1
Bsearch = (A : Type 0) → (A → A → Sign) → A → ℕ → (ℕ → A) → Option ℕ

-- What `bsearch` answers for `key` among the `n` elements of `a`, if they are in order.
pub record Finds {A : Type 0} (cmp : A → A → Sign) (key : A) (n : ℕ) (a : ℕ → A) (r : Option ℕ)
    : Type 0 where
  pub hit : (i : ℕ) → r ≡ some i → (i < n) × (cmp key (a i) ≡ same)
  pub miss : IsSorted cmp n a → r ≡ none → (i : ℕ) → i < n → cmp key (a i) ≢ same

pub Sign-cases : (s : Sign) → (s ≡ same) ⊎ ((s ≡ less) ⊎ (s ≡ greater))
Sign-cases less = inr (inl refl)
Sign-cases same = inl refl
Sign-cases greater = inr (inr refl)
