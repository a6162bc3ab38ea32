-- ===== src/Acars/Waypoint.antt =====
-- `acars_extract_waypoint_position`: a waypoint's name in the text, looked up in the database and then
-- among the learned waypoints. `C` is a pair of coordinates.
pub mod Found
pub mod Loaded
use inmarsat_sniffer.Base.{
  ℕ, zero, suc, ◌+◌, ◌-◌, ◌==◌, if◌then◌else◌, Bool, not, ◌&&◌, ◌||◌, List, Option, none, some, at,
  length,
}
use inmarsat_sniffer.Base.Text.{codes}
use inmarsat_sniffer.Text.{starts_with, is_upper}
use inmarsat_sniffer.Learned.Parse.{copy_name}
use inmarsat_sniffer.Acars.Label.{is_position_report}
use inmarsat_sniffer.Acars.Altitude.{or_else}

unfoldable pub is_delimiter : ℕ → Bool
is_delimiter c = c == b',' || c == b' ' || c == b'/' || c == b'.'

-- `while (*scan && ...) scan++` up to a delimiter.
unfoldable pub skip_token : ℕ → List ℕ → ℕ → ℕ
skip_token zero text i = i
skip_token (suc room) text i =
    let rest = skip_token room text (i + 1) in
    if at text i == 0 || is_delimiter (at text i) then i else rest

unfoldable pub skip_delimiters : ℕ → List ℕ → ℕ → ℕ
skip_delimiters zero text i = i
skip_delimiters (suc room) text i =
    let rest = skip_delimiters room text (i + 1) in if is_delimiter (at text i) then rest else i

unfoldable pub ends_name : ℕ → Bool
ends_name c = is_delimiter c || c == 0 || c == 13 || c == 10

-- Five capital letters at `i`, and then the end of the name.
unfoldable pub is_name : List ℕ → ℕ → Bool
is_name text i =
    is_upper (at text i)
    && is_upper (at text (i + 1))
    && is_upper (at text (i + 2))
    && is_upper (at text (i + 3))
    && is_upper (at text (i + 4))
    && ends_name (at text (i + 5))

module _ {C : Type 0} (waypoint_db_lookup learned_wp_lookup : List ℕ → Option C) where
  -- What the scan finds at `i`.
  unfoldable pub name_at : List ℕ → ℕ → Option C
  name_at text i =
      let ident = copy_name text i 5 in
      let found = or_else (waypoint_db_lookup ident) (learned_wp_lookup ident) in
      if is_name text i then found else none

  -- The loop, with fuel; the outer `none` is fuel that ran out.
  unfoldable pub scan_names : ℕ → List ℕ → ℕ → Option (Option C)
  scan_names zero text i = none
  scan_names (suc fuel) text i =
      let room = length text in
      let name = skip_delimiters room text (skip_token room text i) in
      let rest = scan_names fuel text (skip_token room text name) in
      if at text i == 0
      then some none
      else elim (name_at text name) [ some c ↦ some (some c) | none ↦ rest ]

  unfoldable pub acars_extract_waypoint_position : List ℕ → List ℕ → Option (Option C)
  acars_extract_waypoint_position label text =
      let start = if starts_with text 0 (codes "POS") then 3 else 0 in
      let found = scan_names (length text + 1) text start in
      if is_position_report label text then found else some none
