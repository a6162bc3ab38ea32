-- ===== src/Waypoints/Tests.antt =====
-- A run of waypoint_db.c, and theorems on a loaded table at a concrete input.
use inmarsat_sniffer.Base.{ℕ, ◌≡◌, refl, List, [], ◌∷◌, Option, some, none, length}
use inmarsat_sniffer.Base.Text.{codes}
use inmarsat_sniffer.Base.Loops.{search_first}
use inmarsat_sniffer.Base.Sorting.{strcmp}
use inmarsat_sniffer.Base.Sorting.Small.{
  sort_two, sort_two-Sorts, strcmp-swap_greater, linear_search, linear_search-Finds,
}
use inmarsat_sniffer.Text.{cut_at}
use inmarsat_sniffer.Waypoints.{
  at_comma, strip_end, WpEntry, WpDb, wp_cmp, parse_wp, load_wp, load_wps, ident_key, as_array,
  waypoint_db_load, waypoint_db_lookup,
}
use inmarsat_sniffer.Acars.Waypoint.{acars_extract_waypoint_position}
use inmarsat_sniffer.Acars.Waypoint.Loaded.{
  in_table, IsFrom, acars_extract_waypoint_position-IsFrom,
}
use inmarsat_sniffer.Waypoints.Loaded.{Sorted, Searched, IsAnswer, waypoint_db_lookup-IsAnswer}

-- Two accepted lines out of order, one without a second comma, and one with a long name.
abbrev file : List (List ℕ)
file =
    codes "TUPAC,1.5,2.5\r\n" ∷ codes "ABCDE,7\n" ∷ codes "ABCDEF,7,8\n" ∷ codes "BNJEE,3,4\n" ∷ []

-- A number is kept as its text.
abbrev as_text : List ℕ → List ℕ
as_text s = s

abbrev table : WpDb (List ℕ)
table = waypoint_db_load as_text sort_two file

tupac_found :
    waypoint_db_lookup as_text linear_search table (codes "TUPAC") ≡ some (codes "1.5", codes "2.5")
unfolding waypoint_db_lookup waypoint_db_load load_wps load_wp parse_wp at_comma strip_end cut_at
    strcmp search_first
tupac_found = refl

abcde_missing : waypoint_db_lookup as_text linear_search table (codes "ABCDE") ≡ none
unfolding waypoint_db_lookup waypoint_db_load load_wps load_wp parse_wp at_comma strip_end cut_at
    strcmp search_first
abcde_missing = refl

abbrev read : List (WpEntry (List ℕ))
read = load_wps as_text [] file

file-Sorted : Sorted as_text sort_two linear_search file
unfolding load_wps load_wp parse_wp at_comma strip_end cut_at
file-Sorted =
    sort_two-Sorts wp_cmp (as_array as_text read)
      (strcmp-swap_greater (as_array as_text read 0).ident (as_array as_text read 1).ident)

file-Searched : (ident : List ℕ) → Searched as_text sort_two linear_search file ident
file-Searched ident =
    linear_search-Finds wp_cmp (ident_key as_text ident) (length read)
      (sort_two (WpEntry (List ℕ)) wp_cmp (length read) (as_array as_text read))

waypoint_db_lookup-IsAnswer_example :
    IsAnswer as_text sort_two linear_search file
      (codes "TUPAC")
      (waypoint_db_lookup as_text linear_search table (codes "TUPAC"))
waypoint_db_lookup-IsAnswer_example =
    waypoint_db_lookup-IsAnswer as_text sort_two linear_search file file-Sorted (codes "TUPAC")
      (file-Searched (codes "TUPAC"))

abbrev none_learned : List ℕ → Option (List ℕ × List ℕ)
none_learned ident = none

acars_extract_waypoint_position-IsFrom_example :
    (r : Option (List ℕ × List ℕ)) × (acars_extract_waypoint_position
        (in_table as_text sort_two linear_search file none_learned)
        none_learned
        (codes "H1")
        (codes "POS1234,TUPAC,9")
      ≡ some r)
    × ((c : List ℕ × List ℕ)
        → r ≡ some c
        → IsFrom as_text sort_two linear_search file none_learned (codes "POS1234,TUPAC,9") c)
acars_extract_waypoint_position-IsFrom_example =
    acars_extract_waypoint_position-IsFrom as_text sort_two linear_search file none_learned
      file-Sorted file-Searched (codes "H1") (codes "POS1234,TUPAC,9")
