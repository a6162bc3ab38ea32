-- ===== src/Learned/Coord.antt =====
-- `parse_dm_coord` of learned_waypoints.c. `s i` is the byte at `s + i`; reading stops at the first
-- byte that does not fit, so never after the NUL.
use inmarsat_sniffer.Base.{
  ℕ, zero, suc, ◌+◌, ◌-◌, ◌*◌, ◌==◌, ltb, leb, if◌then◌else◌, Bool, true, not, ◌&&◌, ◌||◌, Option,
  none, some,
}
use inmarsat_sniffer.Base.Int.{ℤ, pos, neg_ℤ}
use inmarsat_sniffer.Base.Loops.{for_range}

-- Degrees are multiplied by this.
abbrev pub degree : ℕ
degree = 600

-- The codes of `N`, `S`, `E` and `W`.
unfoldable pub is_dir : ℕ → Bool
is_dir c = c == 78 || c == 83 || c == 69 || c == 87

unfoldable pub is_digit : ℕ → Bool
is_digit c = leb 48 c && leb c 57

unfoldable pub all_digits : (ℕ → ℕ) → ℕ → ℕ → Bool
all_digits s i zero = true
all_digits s i (suc n) = is_digit (s i) && all_digits s (i + 1) n

-- The decimal number of `n` digits from `i` on.
unfoldable pub number : (ℕ → ℕ) → ℕ → ℕ → ℕ
number s i n = for_range n 0 (λ k acc. acc * 10 + (s (i + k) - 48)) 0

abbrev pub deg_digits : Bool → ℕ
deg_digits lon_width = if lon_width then 3 else 2

abbrev pub limit : Bool → ℕ
limit lon_width = if lon_width then 180 * degree else 90 * degree

unfoldable pub parse_dm_coord : (ℕ → ℕ) → Bool → Option ℤ
parse_dm_coord s lon_width =
    let dir = s 0 in
    let deg = number s 1 (deg_digits lon_width) in
    let min10 = number s (1 + deg_digits lon_width) 3 in
    let val = deg * degree + min10 in
    if not (is_dir dir)
    then none
    else if not (all_digits s 1 (deg_digits lon_width + 3))
    then none
    else if leb 600 min10
    then none
    else if ltb (limit lon_width) val
    then none
    else if dir == 83 || dir == 87
    then some (neg_ℤ (pos val))
    else some (pos val)
