-- ===== src/Base/Loops.antt =====
-- Counted loops, and the rule that carries an invariant through one.
use Prim.Native.Nat.{ℕ, zero, suc, ◌+◌, ◌≤◌, ◌<◌}
use mathlib.Core.Path.{◌≡◌, ◌∙◌, ap, subst, sym}
use mathlib.Core.Bool.{Bool, true, false}
use mathlib.Core.Option.{Option, none, some}
use mathlib.Core.Logic.{inl, inr}
use native.Mathlib.Decide.{dec_lt}
use inmarsat_sniffer.Base.Tests.{Bool-cases}
use native.Mathlib.Omega.{arith}

-- for (k = i; k < i + n; k++) s = body k s
unfoldable pub for_range {ℓ} :
    {State : Type ℓ} → (rounds from : ℕ) → (ℕ → State → State) → State → State
for_range zero from round now = now
for_range (suc left) from round now = for_range left (from + 1) round (round from now)

-- The end `j` is a variable with an equation, since `i + 0` is stuck.
pub for_range_inv {ℓ κ} :
    {State : Type ℓ} (P : ℕ → State → Type κ) (body : ℕ → State → State) (n i j : ℕ) (s : State)
    → i + n ≡ j
    → ((k : ℕ) (t : State) → i ≤ k → k < j → P k t → P (k + 1) (body k t))
    → P i s
    → P j (for_range n i body s)
unfolding for_range
for_range_inv P body zero i j s e keep h = subst (λ k. P k s) (omega arith) h
for_range_inv P body (suc n) i j s e keep h =
    for_range_inv P body n (i + 1) j (body i s) (omega arith)
      (λ k t lo hi p. keep k t (omega arith) hi p) (keep i s (omega arith) (omega arith) h)

-- The last round of a loop.
pub for_range-snoc {ℓ} :
    {S : Type ℓ} (n i : ℕ) (body : ℕ → S → S) (s : S)
    → for_range (suc n) i body s ≡ body (i + n) (for_range n i body s)
unfolding for_range
for_range-snoc zero i body s = ap (λ k. body k s) (omega arith)
for_range-snoc (suc n) i body s =
    for_range-snoc n (i + 1) body (body i s)
    ∙ ap (λ k. body k (for_range (suc n) i body s)) (omega arith)

-- for (k = i; k < i + n; k++) if (test(k)) return k
unfoldable pub search_first : (ℕ → Bool) → ℕ → ℕ → Option ℕ
search_first test zero i = none
search_first test (suc n) i =
    let rest = search_first test n (i + 1) in elim (test i) [ true ↦ some i | false ↦ rest ]

-- Where the search of a range ends: at the first hit, or with none.
pub record IsFirst (test : ℕ → Bool) (i n j : ℕ) : Type 0 where
  pub after : i ≤ j
  pub before : j < i + n
  pub hit : test j ≡ true
  pub misses : (k : ℕ) → i ≤ k → k < j → test k ≡ false

pub search_first-IsFirst :
    (test : ℕ → Bool) (n i j : ℕ) → search_first test n i ≡ some j → IsFirst test i n j
unfolding search_first
search_first-IsFirst test zero i j e = cc e
search_first-IsFirst test (suc n) i j e = elim (Bool-cases (test i)) [
  | inl yes' ↦
      let here : i ≡ j = ground (arith, yes', e) in
      record {
        after = omega (arith, here);
        before = omega (arith, here);
        hit = subst (λ k. test k ≡ true) here yes';
        misses = λ k lo hi. absurd (omega (arith, here));
      }
  | inr no' ↦
      let r = search_first-IsFirst test n (i + 1) j (ground (arith, no', e)) in
      record {
        after = omega (arith, r.after);
        before = omega (arith, r.before);
        hit = r.hit;
        misses = λ k lo hi. elim (dec_lt i k) [
          | yes lt ↦ r.misses k (omega arith) hi
          | no ge ↦ subst (λ m. test m ≡ false) (omega arith) no'
        ];
      }
]

pub search_first-hit :
    (test : ℕ → Bool) (n i j : ℕ) → IsFirst test i n j → search_first test n i ≡ some j
unfolding search_first
search_first-hit test zero i j f = absurd (omega (arith, f.after, f.before))
search_first-hit test (suc n) i j f = elim (dec_lt i j) [
  | yes lt ↦
      let miss : test i ≡ false = f.misses i (omega arith) lt in
      let later : search_first test n (i + 1) ≡ some j = search_first-hit test n (i + 1) j (record {
        after = omega arith;
        before = omega (arith, f.before);
        hit = f.hit;
        misses = λ k lo hi. f.misses k (omega arith) hi;
      }) in
      ground (arith, miss, later)
  | no ge ↦
      let here : i ≡ j = omega (arith, f.after) in
      let hit : test i ≡ true = subst (λ k. test k ≡ true) (sym here) f.hit in
      ground (arith, here, hit)
]

pub search_first-none :
    (test : ℕ → Bool) (n i k : ℕ)
    → search_first test n i ≡ none
    → i ≤ k
    → k < i + n
    → test k ≡ false
unfolding search_first
search_first-none test zero i k e lo hi = absurd (omega arith)
search_first-none test (suc n) i k e lo hi = elim (dec_lt i k) [
  | yes lt ↦ search_first-none test n (i + 1) k (ground (arith, e)) (omega arith) (omega arith)
  | no ge ↦
      let here : i ≡ k = omega arith in
      let miss : test i ≡ false = ground (arith, e) in subst (λ m. test m ≡ false) here miss
]
