-- ===== src/Acars/Altitude/Range.antt =====
-- Which altitudes `acars_extract_text_altitude` returns.
use inmarsat_sniffer.Base.{
  ℕ, zero, suc, ◌+◌, ◌-◌, ◌*◌, ◌<◌, ◌≡◌, ◌≢◌, refl, ◌⊎◌, inl, inr, arith, ap, ◌∙◌, true, List, none,
  some, length, Option-cases, at, ◌≤◌, ◌==◌, ◌&&◌,
}
use inmarsat_sniffer.Base.Loops.{
  search_first, IsFirst, search_first-IsFirst, search_first-hit, search_first-none,
}
use inmarsat_sniffer.Base.Text.{codes}
use inmarsat_sniffer.Text.{strstr, starts_with, is_digit}
use inmarsat_sniffer.Acars.Altitude.{
  Strtol, three_digits, flight_level, level_ok, is_level, find_level, is_suffixed, find_suffixed,
  find_tagged, is_feet, find_feet, acars_extract_text_altitude,
}

abbrev InRange : ℕ → Type 0
InRange a = (0 < a) × (a < 60000)

find_level-InRange :
    (fuel : ℕ) (text : List ℕ) (p a : ℕ) → find_level fuel text p ≡ some a → InRange a
unfolding find_level is_level level_ok
find_level-InRange zero text p a e = cc e
find_level-InRange (suc fuel) text p a e = elim (Option-cases (strstr text p (codes "FL"))) [
  | inl no_more ↦ absurd (ground (arith, e, no_more))
  | inr (i, at_i) ↦ ground (arith, e, at_i, find_level-InRange fuel text (i + 2) a)
]

find_suffixed-InRange : (text : List ℕ) (a : ℕ) → find_suffixed text ≡ some a → InRange a
unfolding find_suffixed is_suffixed level_ok
find_suffixed-InRange text a e =
    elim (Option-cases (search_first (is_suffixed text) (length text - 3) 0)) [
      | inl none_found ↦ absurd (ground (arith, e, none_found))
      | inr (i, found) ↦
          let f = search_first-IsFirst (is_suffixed text) (length text - 3) 0 i found in
          ground (arith, e, found, f.hit)
    ]

find_feet-InRange : (text : List ℕ) (a : ℕ) → find_feet text ≡ some a → InRange a
unfolding find_feet is_feet
find_feet-InRange text a e = elim (Option-cases (search_first (is_feet text) (length text - 5) 0)) [
  | inl none_found ↦ absurd (ground (arith, e, none_found))
  | inr (i, found) ↦
      let f = search_first-IsFirst (is_feet text) (length text - 5) 0 i found in
      ground (arith, e, found, f.hit)
]

find_tagged-InRange :
    (strtol : Strtol) (text : List ℕ) (a : ℕ) → find_tagged strtol text ≡ some a → InRange a
unfolding find_tagged
find_tagged-InRange strtol text a e = elim (Option-cases (strstr text 0 (codes "ALT"))) [
  | inl untagged ↦ absurd (ground (arith, e, untagged))
  | inr (i, tagged) ↦ ground (arith, e, tagged)
]

-- Whatever the text and whatever `strtol` reads, an altitude that is returned is above 0 and below
-- 60,000 feet.
pub acars_extract_text_altitude-InRange :
    (strtol : Strtol) (text : List ℕ) (a : ℕ)
    → acars_extract_text_altitude strtol text ≡ some a
    → (0 < a) × (a < 60000)
unfolding acars_extract_text_altitude
acars_extract_text_altitude-InRange strtol text a e = ground (
  arith,
  find_level-InRange (length text + 1) text 0 a,
  find_suffixed-InRange text a,
  find_tagged-InRange strtol text a,
  find_feet-InRange text a,
)

-- A flight level with its suffix, or an altitude in feet with its unit, anywhere in the text is not
-- passed over: some altitude is returned.
pub acars_extract_text_altitude-found :
    (strtol : Strtol) (text : List ℕ) (i : ℕ)
    → ((i + 3 < length text) × (is_suffixed text i ≡ true))
      ⊎ ((i + 5 < length text) × (is_feet text i ≡ true))
    → acars_extract_text_altitude strtol text ≢ none
unfolding acars_extract_text_altitude find_suffixed find_feet
acars_extract_text_altitude-found strtol text i (inl (within, hit)) e =
    let missed : search_first (is_suffixed text) (length text - 3) 0 ≡ none = ground (arith, e) in
    cc (
      hit,
      search_first-none (is_suffixed text) (length text - 3) 0 i missed (omega arith) (omega arith),
    )
acars_extract_text_altitude-found strtol text i (inr (within, hit)) e =
    let missed : search_first (is_feet text) (length text - 5) 0 ≡ none = ground (arith, e) in
    cc (
      hit,
      search_first-none (is_feet text) (length text - 5) 0 i missed (omega arith) (omega arith),
    )

find_level-hit :
    (fuel : ℕ) (text : List ℕ) (p i : ℕ)
    → strstr text p (codes "FL") ≡ some i
    → is_level text i ≡ true
    → find_level (suc fuel) text p ≡ some (flight_level text (i + 2) * 100)
unfolding find_level
find_level-hit fuel text p i at_i level = ground (arith, at_i, level)

-- The first `FL` of the text stands at `i`, with the digits `h`, `t` and `o` behind it and no fourth.
pub record IsLevelAt (text : List ℕ) (i h t o : ℕ) : Type 0 where
  pub within : i < length text
  pub f : at text i ≡ b'F'
  pub l : at text (i + 1) ≡ b'L'
  pub first : (j : ℕ) → j < i → ¬ ((at text j ≡ b'F') × (at text (j + 1) ≡ b'L'))
  pub hundreds : (h ≤ 9) × (at text (i + 2) ≡ b'0' + h)
  pub tens : (t ≤ 9) × (at text (i + 3) ≡ b'0' + t)
  pub ones : (o ≤ 9) × (at text (i + 4) ≡ b'0' + o)
  pub last : (at text (i + 5) < b'0') ⊎ (b'9' < at text (i + 5))

starts_with-level :
    (text : List ℕ) (j : ℕ)
    → starts_with text j (codes "FL") ≡ (at text j == b'F' && at text (j + 1) == b'L')
unfolding starts_with
starts_with-level text j = ground arith

IsLevelAt-IsFirst :
    (text : List ℕ) (i h t o : ℕ)
    → IsLevelAt text i h t o
    → IsFirst (λ k. starts_with text k (codes "FL")) 0 (length text) i
IsLevelAt-IsFirst text i h t o here = record {
  after = omega arith;
  before = omega (arith, here.within);
  hit = ground (arith, starts_with-level text i, here.f, here.l);
  misses = λ k lo lt. ground (arith, starts_with-level text k, here.first k lt);
}

IsLevelAt-value :
    (text : List ℕ) (i h t o : ℕ)
    → IsLevelAt text i h t o
    → flight_level text (i + 2) ≡ 100 * h + 10 * t + o
unfolding flight_level
IsLevelAt-value text i h t o here =
    let ones : at text (i + 2 + 2) ≡ b'0' + o = ap (at text) (omega arith) ∙ here.ones.1 in
    let tens : at text (i + 2 + 1) ≡ b'0' + t = ap (at text) (omega arith) ∙ here.tens.1 in
    omega (arith, here.hundreds.1, tens, ones)

IsLevelAt-is_level :
    (text : List ℕ) (i h t o : ℕ)
    → IsLevelAt text i h t o
    → 0 < 100 * h + 10 * t + o
    → 100 * h + 10 * t + o < 600
    → is_level text i ≡ true
unfolding is_level three_digits level_ok is_digit
IsLevelAt-is_level text i h t o here some_feet low =
    rw (IsLevelAt-value text i h t o here)
      (ground (arith, here.hundreds, here.tens, here.ones, here.last))

-- Where the first `FL` of the text has exactly three digits behind it, and they read as a level above 0
-- and below 600, a hundred times this level is the result, whatever else the text holds.
pub find_level-first :
    (strtol : Strtol) (text : List ℕ) (i h t o : ℕ)
    → IsLevelAt text i h t o
    → 0 < 100 * h + 10 * t + o
    → 100 * h + 10 * t + o < 600
    → acars_extract_text_altitude strtol text ≡ some ((100 * h + 10 * t + o) * 100)
unfolding acars_extract_text_altitude
find_level-first strtol text i h t o here some_feet low =
    let whole : length text - 0 ≡ length text = omega arith in
    let at_i : strstr text 0 (codes "FL") ≡ some i =
      unfold strstr in
      rw whole (
        search_first-hit (λ k. starts_with text k (codes "FL")) (length text) 0 i
          (IsLevelAt-IsFirst text i h t o here)) in
    let found : find_level (length text + 1) text 0 ≡ some ((100 * h + 10 * t + o) * 100) =
      ap (λ n. find_level n text 0) (omega arith)
      ∙ find_level-hit (length text) text 0 i at_i
          (IsLevelAt-is_level text i h t o here some_feet low)
      ∙ ap (λ n. some (n * 100)) (IsLevelAt-value text i h t o here) in
    rw found refl
