-- ===== src/Acars/Altitude.antt =====
-- `acars_extract_text_altitude`: four formats, tried in order. The result is in feet.
pub mod Range
use inmarsat_sniffer.Base.{
  ℕ, zero, suc, ◌+◌, ◌-◌, ◌*◌, ◌==◌, ltb, if◌then◌else◌, Bool, not, ◌&&◌, ◌||◌, List, Option, none,
  some, at, length,
}
use mathlib.Core.Option
use inmarsat_sniffer.Base.Loops.{search_first}
use inmarsat_sniffer.Base.Text.{codes}
use inmarsat_sniffer.Text.{strstr, is_digit, digit}

-- Three digits at `i`.
unfoldable pub three_digits : List ℕ → ℕ → Bool
three_digits text i =
    is_digit (at text i) && is_digit (at text (i + 1)) && is_digit (at text (i + 2))

unfoldable pub flight_level : List ℕ → ℕ → ℕ
flight_level text i = digit text i * 100 + digit text (i + 1) * 10 + digit text (i + 2)

-- `fl > 0 && fl < 600`
unfoldable pub level_ok : ℕ → Bool
level_ok fl = ltb 0 fl && ltb fl 600

-- `FLnnn` at `i`, and no fourth digit.
unfoldable pub is_level : List ℕ → ℕ → Bool
is_level text i =
    three_digits text (i + 2)
    && not (is_digit (at text (i + 5)))
    && level_ok (flight_level text (i + 2))

-- The loop over the places where `FL` stands, with fuel: each round moves two bytes on.
unfoldable pub find_level : ℕ → List ℕ → ℕ → Option ℕ
find_level zero text p = none
find_level (suc fuel) text p = elim (strstr text p (codes "FL")) [
  | none ↦ none
  | some i ↦
      if is_level text i
      then some (flight_level text (i + 2) * 100)
      else find_level fuel text (i + 2)
]

-- A byte that may follow the suffix: the end, or a delimiter.
unfoldable pub ends_token : ℕ → Bool
ends_token c = c == 0 || c == b'.' || c == b',' || c == b' ' || c == 13 || c == 10 || c == b'/'

-- No digit before the place `i`.
unfoldable pub fresh_start : List ℕ → ℕ → Bool
fresh_start text i = i == 0 || not (is_digit (at text (i - 1)))

-- `nnnF` at `i`, as a token's end.
unfoldable pub is_suffixed : List ℕ → ℕ → Bool
is_suffixed text i =
    three_digits text i
    && at text (i + 3) == b'F'
    && fresh_start text i
    && ends_token (at text (i + 4))
    && level_ok (flight_level text i)

-- The loop over the places with three more bytes.
unfoldable pub find_suffixed : List ℕ → Option ℕ
find_suffixed text =
    Option.map (λ i. flight_level text i * 100)
      (search_first (is_suffixed text) (length text - 3) 0)

-- `while (*p == ' ' || *p == '\t') p++`
unfoldable pub skip_blanks : ℕ → List ℕ → ℕ → ℕ
skip_blanks zero text p = p
skip_blanks (suc room) text p =
    let rest = skip_blanks room text (p + 1) in
    if at text p == b' ' || at text p == 9 then rest else p

-- `strtol(text + p, &end, 10)` where a digit stands at `p`: the value and the end.
abbrev pub Strtol : Type 0
Strtol = List ℕ → ℕ → ℕ × ℕ

unfoldable pub find_tagged : Strtol → List ℕ → Option ℕ
find_tagged strtol text = elim (strstr text 0 (codes "ALT")) [
  | none ↦ none
  | some i ↦
      let p = skip_blanks (length text) text (i + 3) in
      let v = (strtol text p).0 in
      let end = (strtol text p).1 in
      if is_digit (at text p) && not (end == p) && ltb 0 v && ltb v 60000 then some v else none
]

unfoldable pub feet : List ℕ → ℕ → ℕ
feet text i =
    digit text i * 10000
    + digit text (i + 1) * 1000
    + digit text (i + 2) * 100
    + digit text (i + 3) * 10
    + digit text (i + 4)

-- `nnnnnFT` at `i`.
unfoldable pub is_feet : List ℕ → ℕ → Bool
is_feet text i =
    three_digits text i
    && is_digit (at text (i + 3))
    && is_digit (at text (i + 4))
    && at text (i + 5) == b'F'
    && at text (i + 6) == b'T'
    && fresh_start text i
    && ltb 0 (feet text i)
    && ltb (feet text i) 60000

-- The loop over the places with five more bytes.
unfoldable pub find_feet : List ℕ → Option ℕ
find_feet text = Option.map (feet text) (search_first (is_feet text) (length text - 5) 0)

abbrev pub or_else {ℓ} : {A : Type ℓ} → Option A → Option A → Option A
or_else none b = b
or_else (some a) b = some a

unfoldable pub acars_extract_text_altitude : Strtol → List ℕ → Option ℕ
acars_extract_text_altitude strtol text =
    or_else (find_level (length text + 1) text 0)
      (or_else (find_suffixed text) (or_else (find_tagged strtol text) (find_feet text)))
