-- ===== src/Learned/Cache.antt =====
-- The cache of learned_waypoints.c: its entries, adding a sighting, and the lookup. A C string is the
-- list of its bytes before the NUL. Coordinates are counted in units of 1/600 degree, a tenth of a
-- minute, in which every parsed value is whole.
pub mod Lookup
pub mod Inv
use inmarsat_sniffer.Base.{
  ℕ, ◌+◌, ◌==◌, ltb, leb, if◌then◌else◌, Bool, true, false, ◌&&◌, List, [], ◌∷◌, ◌++◌, Option, none,
  some, length, take,
}
use inmarsat_sniffer.Base.Int.{ℤ}

abbrev pub learned_wp_max : ℕ
learned_wp_max = 4096

-- `learned_entry_t`
pub record Entry : Type 0 where
  pub ident : List ℕ
  pub lat : ℤ
  pub lon : ℤ
  pub sightings : ℕ

-- The static variables of the file; `cache_count` is the length of `cache`.
pub record Learned : Type 0 where
  pub cache : List Entry
  pub stat_fpn_parsed : ℕ
  pub stat_sightings : ℕ

-- `strcmp(s, t) == 0`
unfoldable pub same_string : List ℕ → List ℕ → Bool
same_string [] [] = true
same_string [] (c ∷ t) = false
same_string (c ∷ s) [] = false
same_string (c ∷ s) (c' ∷ t) = c == c' && same_string s t

-- The first entry of that name, seen once more; `none` if there is no such entry.
unfoldable pub count_sighting : List ℕ → List Entry → Option (List Entry)
count_sighting name [] = none
count_sighting name (e ∷ es) =
    let rest = count_sighting name es in
    if same_string e.ident name
    then some (record e { sightings = e.sightings + 1 } ∷ es)
    else elim rest [ none ↦ none | some es' ↦ some (e ∷ es') ]

abbrev pub new_entry : List ℕ → ℤ → ℤ → Entry
new_entry name lat lon = record { ident = take 5 name; lat = lat; lon = lon; sightings = 1 }

unfoldable pub cache_add_locked : List ℕ → ℤ → ℤ → Learned → Learned
cache_add_locked name lat lon l = elim (count_sighting name l.cache) [
  | some es ↦ record l { cache = es; stat_sightings = l.stat_sightings + 1 }
  | none ↦
      if ltb (length l.cache) learned_wp_max
      then record l {
        cache = l.cache ++ (new_entry name lat lon ∷ []);
        stat_sightings = l.stat_sightings + 1;
      }
      else l
]

unfoldable pub lookup_entry : List ℕ → List Entry → Option (ℤ × ℤ)
lookup_entry ident [] = none
lookup_entry ident (e ∷ es) =
    let rest = lookup_entry ident es in
    if same_string e.ident ident then some (e.lat, e.lon) else rest

-- The coordinates where the result is 1; an empty name finds nothing.
unfoldable pub learned_wp_lookup : List ℕ → Learned → Option (ℤ × ℤ)
learned_wp_lookup ident l = if length ident == 0 then none else lookup_entry ident l.cache

abbrev pub learned_wp_count : Learned → ℕ
learned_wp_count l = length l.cache

unfoldable pub learned_wp_destroy : Learned → Learned
learned_wp_destroy l = record { cache = []; stat_fpn_parsed = 0; stat_sightings = 0 }
