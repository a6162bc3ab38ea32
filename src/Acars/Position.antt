-- ===== src/Acars/Position.antt =====
-- `acars_extract_text_position`: three formats, tried in order. Coordinates are `double`s, of which the
-- type and what the code computes with them are parameters.
pub mod Range
use inmarsat_sniffer.Base.{
  ℕ, zero, suc, ◌+◌, ◌*◌, ◌==◌, ltb, leb, if◌then◌else◌, Bool, not, ◌&&◌, ◌||◌, List, Option, none,
  some, at, length,
}
use mathlib.Core.Option
use inmarsat_sniffer.Base.Loops.{search_first}
use inmarsat_sniffer.Base.Text.{codes}
use inmarsat_sniffer.Text.{strstr, is_digit, digit, count_digits}
use inmarsat_sniffer.Learned.Coord.{number}
use inmarsat_sniffer.Acars.Label.{is_position_report}
use inmarsat_sniffer.Acars.Altitude.{flight_level, or_else}

-- `thousandths n` is `n / 1000.0`, `degrees d m` is `d + m / 600.0`, `within v n` is
-- `v >= 0 && v <= n`, and `strtod` gives the value and the end.
pub record Real : Type 1 where
  pub F : Type 0
  pub thousandths : ℕ → F
  pub degrees : ℕ → ℕ → F
  pub neg : F → F
  pub within : F → ℕ → Bool
  pub strtod : List ℕ → ℕ → F × ℕ

abbrev pub is_lat_dir : ℕ → Bool
is_lat_dir c = c == b'N' || c == b'S'

abbrev pub is_lon_dir : ℕ → Bool
is_lon_dir c = c == b'E' || c == b'W'

-- `while (*p == ' ') p++`
unfoldable pub skip_spaces : ℕ → List ℕ → ℕ → ℕ
skip_spaces zero text p = p
skip_spaces (suc room) text p =
    let rest = skip_spaces room text (p + 1) in if at text p == b' ' then rest else p

-- `if (p) { ... }`, with `p` from `strstr`.
abbrev pub after_tag {ℓ} : {A : Type ℓ} → Option ℕ → (ℕ → Option A) → Option A
after_tag none read = none
after_tag (some i) read = read i

module _ (r : Real) where
  open r use {F, thousandths, degrees, neg, within, strtod}

  -- The signs of the two directions.
  abbrev pub signed : ℕ → F → ℕ → F → F × F
  signed lat_dir la lon_dir lo =
      (if lat_dir == b'S' then neg la else la, if lon_dir == b'W' then neg lo else lo)

  -- Format 1 behind a `POS` at `i`: five and six digits, in thousandths of a degree.
  unfoldable pub pos_at : List ℕ → ℕ → Option (F × F)
  pos_at text i =
      let la = thousandths (number (at text) (i + 4) 5) in
      let lo = thousandths (number (at text) (i + 10) 6) in
      if is_lat_dir (at text (i + 3))
        && count_digits text 5 (i + 4) == 5
        && is_lon_dir (at text (i + 9))
        && count_digits text 6 (i + 10) == 6
        && within la 90
        && within lo 180
      then some (signed (at text (i + 3)) la (at text (i + 9)) lo)
      else none

  unfoldable pub find_pos : List ℕ → Option (F × F)
  find_pos text = after_tag (strstr text 0 (codes "POS")) (pos_at text)

  -- Format 2 at `i`: a direction, five digits, a direction, six digits, no more and no fewer.
  unfoldable pub is_dm : List ℕ → ℕ → Bool
  is_dm text i =
      is_lat_dir (at text i)
      && count_digits text (length text) (i + 1) == 5
      && is_lon_dir (at text (i + 6))
      && count_digits text (length text) (i + 7) == 6
      && leb (number (at text) (i + 1) 2) 90
      && ltb (number (at text) (i + 3) 3) 600
      && leb (number (at text) (i + 7) 3) 180
      && ltb (number (at text) (i + 10) 3) 600

  unfoldable pub read_dm : List ℕ → ℕ → F × F
  read_dm text i =
      signed (at text i) (degrees (number (at text) (i + 1) 2) (number (at text) (i + 3) 3))
        (at text (i + 6)) (degrees (number (at text) (i + 7) 3) (number (at text) (i + 10) 3))

  -- The loop over the text.
  unfoldable pub find_dm : List ℕ → Option (F × F)
  find_dm text = Option.map (read_dm text) (search_first (is_dm text) (length text) 0)

  -- Format 3 behind a `LON` at `j`, once the latitude is read.
  unfoldable pub lon_at : List ℕ → ℕ → F → ℕ → Option (F × F)
  lon_at text lat_dir la j =
      let q = skip_spaces (length text) text (j + 3) in
      let q' = skip_spaces (length text) text (q + 1) in
      let lo = strtod text q' in
      if is_lon_dir (at text q) && not (lo.1 == q') && within lo.0 180
      then some (signed lat_dir la (at text q) lo.0)
      else none

  -- Format 3 behind a `LAT` at `i`: a direction and a decimal number, and `LON` after them.
  unfoldable pub lat_at : List ℕ → ℕ → Option (F × F)
  lat_at text i =
      let p = skip_spaces (length text) text (i + 3) in
      let p' = skip_spaces (length text) text (p + 1) in
      let la = strtod text p' in
      let lon = after_tag (strstr text la.1 (codes "LON")) (lon_at text (at text p) la.0) in
      if is_lat_dir (at text p) && not (la.1 == p') && within la.0 90 then lon else none

  unfoldable pub find_lat : List ℕ → Option (F × F)
  find_lat text = after_tag (strstr text 0 (codes "LAT")) (lat_at text)

  unfoldable pub acars_extract_text_position : List ℕ → List ℕ → Option (F × F)
  acars_extract_text_position label text =
      let found = or_else (find_pos text) (or_else (find_dm text) (find_lat text)) in
      if is_position_report label text then found else none
