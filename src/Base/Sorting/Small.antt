-- ===== src/Base/Sorting/Small.antt =====
-- Functions that do what is documented of `qsort` and `bsearch`, for the tests: a sort of two elements,
-- and a search one element after the other.
use inmarsat_sniffer.Base.{List, [], ◌∷◌, ℕ, ◌-◌, ◌≡◌, ◌≢◌, refl, ap, arith, Bool, true, false}
use inmarsat_sniffer.Base.Loops.{search_first, search_first-IsFirst, search_first-none}
use inmarsat_sniffer.Base.Sorting.{Sign, less, same, greater, strcmp, Qsort, Bsearch, Sorts, Finds}

abbrev pub order_two : {A : Type 0} → Sign → (ℕ → A) → ℕ → A
order_two less a i = a i
order_two same a i = a i
order_two greater a i = a (1 - i)

abbrev pub sort_two : Qsort
sort_two A cmp n a = order_two (cmp (a 0) (a 1)) a

order_two-Sorts :
    {A : Type 0} (cmp : A → A → Sign) (a : ℕ → A) (s : Sign)
    → cmp (a 0) (a 1) ≡ s
    → (s ≡ greater → cmp (a 1) (a 0) ≢ greater)
    → Sorts cmp 2 a (order_two s a)
order_two-Sorts cmp a less e swap = record {
  ordered = λ i j lt h gt.
      let first : i ≡ 0 = omega arith in
      let second : j ≡ 1 = omega arith in cc (e, gt, ap a first, ap a second);
  kept = λ i h. (i, h, refl);
  nothing_new = λ i h. (i, h, refl);
}
order_two-Sorts cmp a same e swap = record {
  ordered = λ i j lt h gt.
      let first : i ≡ 0 = omega arith in
      let second : j ≡ 1 = omega arith in cc (e, gt, ap a first, ap a second);
  kept = λ i h. (i, h, refl);
  nothing_new = λ i h. (i, h, refl);
}
order_two-Sorts cmp a greater e swap = record {
  ordered = λ i j lt h gt.
      let first : 1 - i ≡ 1 = omega arith in
      let second : 1 - j ≡ 0 = omega arith in swap refl (cc (gt, ap a first, ap a second));
  kept = λ i h. (1 - i, omega arith, ap a (omega arith));
  nothing_new = λ i h. (1 - i, omega arith, refl);
}

pub sort_two-Sorts :
    {A : Type 0} (cmp : A → A → Sign) (a : ℕ → A)
    → (cmp (a 0) (a 1) ≡ greater → cmp (a 1) (a 0) ≢ greater)
    → Sorts cmp 2 a (sort_two A cmp 2 a)
sort_two-Sorts cmp a swap = order_two-Sorts cmp a (cmp (a 0) (a 1)) refl swap

pub strcmp-swap_greater : (s t : List ℕ) → strcmp s t ≡ greater → strcmp t s ≢ greater
unfolding strcmp
strcmp-swap_greater [] [] e f = cc e
strcmp-swap_greater [] (d ∷ t) e f = cc e
strcmp-swap_greater (c ∷ s) [] e f = cc f
strcmp-swap_greater (c ∷ s) (d ∷ t) e f = ground (arith, e, f, strcmp-swap_greater s t)

abbrev is_same : Sign → Bool
is_same less = false
is_same same = true
is_same greater = false

abbrev pub linear_search : Bsearch
linear_search A cmp key n a = search_first (λ i. is_same (cmp key (a i))) n 0

is_same-eq : (s : Sign) → is_same s ≡ true → s ≡ same
is_same-eq less e = cc e
is_same-eq same e = refl
is_same-eq greater e = cc e

pub linear_search-Finds :
    {A : Type 0} (cmp : A → A → Sign) (key : A) (n : ℕ) (a : ℕ → A)
    → Finds cmp key n a (linear_search A cmp key n a)
linear_search-Finds cmp key n a = record {
  hit = λ i e.
      let f = search_first-IsFirst (λ k. is_same (cmp key (a k))) n 0 i e in
      (omega (arith, f.before), is_same-eq (cmp key (a i)) f.hit);
  miss = λ sorted e i h equal. cc (
    ap is_same equal,
    search_first-none (λ k. is_same (cmp key (a k))) n 0 i e (omega arith) (omega arith),
  );
}
