-- ===== src/Acars/Tests.antt =====
-- Runs of acars_position.c, and the theorems of this folder at concrete inputs.
use inmarsat_sniffer.Base.{
  ℕ, zero, suc, at, inl, arith, ◌+◌, ◌*◌, ◌<◌, leb, ◌&&◌, not, ◌≡◌, refl, Bool, true, false, List,
  Option, some, none, if◌then◌else◌,
}
use inmarsat_sniffer.Base.Text.{codes}
use inmarsat_sniffer.Base.Loops.{search_first, for_range}
use inmarsat_sniffer.Text.{starts_with, strstr, is_digit, is_upper, count_digits}
use inmarsat_sniffer.Learned.Coord.{number}
use inmarsat_sniffer.Learned.Parse.{copy_name}
use inmarsat_sniffer.Acars.Label.{label_ok, is_position_report}
use inmarsat_sniffer.Acars.Altitude.{
  Strtol, three_digits, flight_level, level_ok, is_level, find_level, ends_token, fresh_start,
  is_suffixed, find_suffixed, find_tagged, feet, is_feet, find_feet, acars_extract_text_altitude,
}
use inmarsat_sniffer.Acars.Altitude.Range.{
  acars_extract_text_altitude-InRange, IsLevelAt, find_level-first,
}
use inmarsat_sniffer.Acars.Position.{Real, pos_at, find_pos, acars_extract_text_position}
use inmarsat_sniffer.Acars.Position.Range.{IsPosition, acars_extract_text_position-IsPosition}
use inmarsat_sniffer.Acars.Waypoint.{
  is_delimiter, skip_token, skip_delimiters, ends_name, is_name, name_at, scan_names,
  acars_extract_waypoint_position,
}
use inmarsat_sniffer.Acars.Waypoint.Found.{IsNamed, acars_extract_waypoint_position-IsNamed}

abbrev no_strtol : Strtol
no_strtol text p = (0, p)

altitude_suffixed : acars_extract_text_altitude no_strtol (codes "TUPAC289F, 123456") ≡ some 28900
unfolding acars_extract_text_altitude find_level find_suffixed is_suffixed three_digits flight_level
    level_ok ends_token fresh_start is_level strstr starts_with is_digit search_first
altitude_suffixed = refl

altitude_level : acars_extract_text_altitude no_strtol (codes "FL FL350") ≡ some 35000
unfolding acars_extract_text_altitude find_level is_level three_digits flight_level level_ok strstr
    starts_with is_digit search_first
altitude_level = refl

altitude_feet : acars_extract_text_altitude no_strtol (codes "AT 35000FT") ≡ some 35000
unfolding acars_extract_text_altitude find_level find_suffixed is_suffixed three_digits flight_level
    level_ok ends_token fresh_start is_level strstr starts_with is_digit search_first find_tagged
    find_feet is_feet feet
altitude_feet = refl

abbrev suffixed_text : List ℕ
suffixed_text = codes "TUPAC289F, 123456"

acars_extract_text_altitude-InRange_example : (0 < 28900) × (28900 < 60000)
acars_extract_text_altitude-InRange_example =
    acars_extract_text_altitude-InRange no_strtol suffixed_text 28900 altitude_suffixed

abbrev level_text : List ℕ
level_text = codes "AT FL350 35000FT"

not_before : (j : ℕ) → j < 3 → ¬ ((at level_text j ≡ b'F') × (at level_text (j + 1) ≡ b'L'))
not_before zero lt both = absurd (omega (arith, both.0))
not_before (suc zero) lt both = absurd (omega (arith, both.0))
not_before (suc (suc zero)) lt both = absurd (omega (arith, both.0))
not_before (suc (suc (suc j))) lt both = absurd (omega arith)

level_text-IsLevelAt : IsLevelAt level_text 3 3 5 0
level_text-IsLevelAt = record {
  within = omega arith;
  f = refl;
  l = refl;
  first = not_before;
  hundreds = (omega arith, refl);
  tens = (omega arith, refl);
  ones = (omega arith, refl);
  last = inl (omega arith);
}

find_level-first_example : acars_extract_text_altitude no_strtol level_text ≡ some 35000
find_level-first_example =
    find_level-first no_strtol level_text 3 3 5 0 level_text-IsLevelAt (omega arith) (omega arith)

-- Degrees in units of 1/6000, with their sign.
abbrev fixed : Real
fixed = record {
  F = Bool × ℕ;
  thousandths = λ n. (false, n * 6);
  degrees = λ d m. (false, d * 6000 + m * 10);
  neg = λ v. (not v.0, v.1);
  within = λ v n. not v.0 && leb v.1 (n * 6000);
  strtod = λ text p. ((false, 0), p);
}

-- The example of the source: 43.312 north, 123.174 west.
position_pos :
    acars_extract_text_position fixed (codes "H1") (codes "POSN43312W123174")
    ≡ some ((false, 259872), (true, 739044))
unfolding acars_extract_text_position is_position_report label_ok find_pos pos_at strstr starts_with
    search_first number for_range count_digits is_digit
position_pos = refl

acars_extract_text_position-IsPosition_example : IsPosition fixed ((false, 259872), (true, 739044))
acars_extract_text_position-IsPosition_example =
    acars_extract_text_position-IsPosition fixed (codes "H1") (codes "POSN43312W123174")
      ((false, 259872), (true, 739044)) position_pos

-- A database of one waypoint, at 5 and 7.
abbrev tupac_db : List ℕ → Option (ℕ × ℕ)
tupac_db ident = if starts_with ident 0 (codes "TUPAC") then some (5, 7) else none

abbrev nothing_learned : List ℕ → Option (ℕ × ℕ)
nothing_learned ident = none

waypoint_found :
    acars_extract_waypoint_position tupac_db nothing_learned (codes "H1") (codes "POS1234,TUPAC,9")
    ≡ some (some (5, 7))
unfolding acars_extract_waypoint_position is_position_report label_ok scan_names skip_token
    skip_delimiters name_at is_name ends_name is_delimiter is_upper copy_name starts_with
waypoint_found = refl

acars_extract_waypoint_position-IsNamed_example :
    (r : Option (ℕ × ℕ)) × (acars_extract_waypoint_position tupac_db nothing_learned
        (codes "H1")
        (codes "POS1234,TUPAC,9")
      ≡ some r)
    × ((c : ℕ × ℕ) → r ≡ some c → IsNamed tupac_db nothing_learned (codes "POS1234,TUPAC,9") c)
acars_extract_waypoint_position-IsNamed_example =
    acars_extract_waypoint_position-IsNamed tupac_db nothing_learned (codes "POS1234,TUPAC,9")
      (codes "H1")
