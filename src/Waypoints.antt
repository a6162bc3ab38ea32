-- ===== src/Waypoints.antt =====
-- The table of waypoint_db.c. `malloc` and `realloc` are taken to succeed, and the file is the list of
-- the lines that `fgets` delivers. `F` is the type `double`, and `atof` a parameter.
pub mod Loaded
mod Tests
use inmarsat_sniffer.Base.{
  ℕ, zero, suc, ◌==◌, leb, if◌then◌else◌, Bool, true, false, ◌&&◌, ◌||◌, List, [], ◌∷◌, ◌++◌,
  Option, none, some, length, take, get_or,
}
use mathlib.Core.Option
use inmarsat_sniffer.Base.Chain.{◌>>=◌, ◌>>◌, guard}
use inmarsat_sniffer.Base.Sorting.{Sign, strcmp, Qsort, Bsearch}
use inmarsat_sniffer.Text.{cut_at, c_string}

-- `c = strchr(s, ','); if (!c) continue; *c = '\0';`: what stands before the comma and after it.
unfoldable pub at_comma : List ℕ → Option (List ℕ × List ℕ)
at_comma [] = none
at_comma (c ∷ s) =
    let rest = at_comma s in
    if c == b',' then some ([], s) else Option.map (λ parts. (c ∷ parts.0, parts.1)) rest

abbrev pub strip_one : ℕ → List ℕ → List ℕ
strip_one c [] = if c == 10 || c == 13 then [] else c ∷ []
strip_one c (d ∷ s) = c ∷ d ∷ s

-- The loop that strips newlines and carriage returns from the end.
unfoldable pub strip_end : List ℕ → List ℕ
strip_end [] = []
strip_end (c ∷ s) = strip_one c (strip_end s)

-- `wp_entry_t`
pub record WpEntry (F : Type 0) : Type 0 where
  pub ident : List ℕ
  pub lat : F
  pub lon : F

-- `wpdb` and `wpdb_count`
pub record WpDb (F : Type 0) : Type 0 where
  pub wpdb : ℕ → WpEntry F
  pub wpdb_count : ℕ

abbrev pub wp_cmp : {F : Type 0} → WpEntry F → WpEntry F → Sign
wp_cmp a b = strcmp a.ident b.ident

module _ {F : Type 0} (atof : List ℕ → F) where
  -- One line of the file.
  unfoldable pub parse_wp : List ℕ → Option (WpEntry F)
  parse_wp line = do
    (id, rest) ← at_comma line
    (lat_s, lon_s) ← at_comma rest
    guard (leb 2 (length id) && leb (length id) 5)
    some (record { ident = take 5 id; lat = atof lat_s; lon = atof (strip_end lon_s) })

  unfoldable pub load_wp : List (WpEntry F) → List ℕ → List (WpEntry F)
  load_wp wpdb line = elim (parse_wp (c_string line)) [ none ↦ wpdb | some w ↦ wpdb ++ (w ∷ []) ]

  -- The loop of `waypoint_db_load`; `wpdb_count` is the length.
  unfoldable pub load_wps : List (WpEntry F) → List (List ℕ) → List (WpEntry F)
  load_wps wpdb [] = wpdb
  load_wps wpdb (line ∷ lines) = load_wps (load_wp wpdb line) lines

  -- The key of the search: the identifier is copied, the coordinates are not read.
  abbrev pub ident_key : List ℕ → WpEntry F
  ident_key ident = record { ident = take 5 ident; lat = atof []; lon = atof [] }

  abbrev pub as_array : List (WpEntry F) → ℕ → WpEntry F
  as_array wpdb i = get_or wpdb i (ident_key [])

  unfoldable pub waypoint_db_load : Qsort → List (List ℕ) → WpDb F
  waypoint_db_load qsort lines =
      let read = load_wps [] lines in
      record {
        wpdb = qsort (WpEntry F) wp_cmp (length read) (as_array read);
        wpdb_count = length read;
      }

  unfoldable pub waypoint_db_lookup : Bsearch → WpDb F → List ℕ → Option (F × F)
  waypoint_db_lookup bsearch d ident =
      let found = bsearch (WpEntry F) wp_cmp (ident_key ident) d.wpdb_count d.wpdb in
      if d.wpdb_count == 0 || length ident == 0
      then none
      else Option.map (λ i. ((d.wpdb i).lat, (d.wpdb i).lon)) found
