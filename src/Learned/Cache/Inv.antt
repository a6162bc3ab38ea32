-- ===== src/Learned/Cache/Inv.antt =====
-- The invariant of the waypoint cache, and that adding a sighting keeps it.
use inmarsat_sniffer.Base.{
  ℕ, ◌+◌, ◌*◌, ◌≤◌, ◌<◌, at, ◌≡◌, refl, ap, ◌∙◌, arith, false, ltb, List, [], ◌∷◌, ◌++◌, none,
  length, take, Bool-cases, Option-cases, inl, inr, subst,
}
use inmarsat_sniffer.Base.Int.{ℤ, pos_part, neg_part}
use inmarsat_sniffer.Learned.Coord.{degree}
use inmarsat_sniffer.Learned.Cache.{
  Entry, Learned, same_string, count_sighting, new_entry, cache_add_locked, lookup_entry,
  learned_wp_max,
}
use inmarsat_sniffer.Learned.Cache.Lookup.{
  Counted, here, there, count_sighting-Counted, count_sighting-none, Counted-length, Counted-lookup,
  same_string_comm, take-short, lookup_entry-append,
}

abbrev pub magnitude : ℤ → ℕ
magnitude v = pos_part v + neg_part v

-- Every byte is one of the 26 from "A" to "Z".
abbrev pub IsLetters : List ℕ → Type 0
IsLetters name = (i : ℕ) → i < length name → (b'A' ≤ at name i) × (at name i ≤ b'Z')

-- A name of two to five capital letters at a latitude and longitude on the globe.
pub record IsPlace (name : List ℕ) (lat lon : ℤ) : Type 0 where
  pub letters : IsLetters name
  pub short : length name ≤ 5
  pub long : 2 ≤ length name
  pub lat_range : magnitude lat ≤ 90 * degree
  pub lon_range : magnitude lon ≤ 180 * degree

-- Every entry is a place, and no name stands twice.
pub data Places : List Entry → Type 0 where
  nothing : Places []
  place :
      {e : Entry} {es : List Entry}
      → IsPlace e.ident e.lat e.lon
      → lookup_entry e.ident es ≡ none
      → Places es
      → Places (e ∷ es)

unfoldable pub total_sightings : List Entry → ℕ
total_sightings [] = 0
total_sightings (e ∷ es) = e.sightings + total_sightings es

-- The cache holds at most `LEARNED_WP_MAX` places, each once, and `stat_sightings` is the sum of
-- their sightings.
pub record IsLearned (l : Learned) : Type 0 where
  pub bounded : length l.cache ≤ learned_wp_max
  pub places : Places l.cache
  pub counted : total_sightings l.cache ≡ l.stat_sightings

Counted-Places :
    {name : List ℕ} {es es' : List Entry} → Counted name es es' → Places es → Places es'
Counted-Places (here same) (place p new rest) = place p new rest
Counted-Places (there {e} other c) (place p new rest) =
    place p (Counted-lookup c e.ident ∙ new) (Counted-Places c rest)

Counted-total :
    {name : List ℕ} {es es' : List Entry}
    → Counted name es es'
    → total_sightings es' ≡ total_sightings es + 1
unfolding total_sightings
Counted-total (here same) = omega arith
Counted-total (there other c) = omega (arith, Counted-total c)

append-Places :
    (es : List Entry) (e : Entry)
    → Places es
    → IsPlace e.ident e.lat e.lon
    → lookup_entry e.ident es ≡ none
    → Places (es ++ (e ∷ []))
unfolding lookup_entry
append-Places [] e nothing p new = place p refl nothing
append-Places (e' ∷ es) e (place p' new' rest) p new =
    let other : same_string e'.ident e.ident ≡ false = ground (arith, new) in
    let other' : same_string e.ident e'.ident ≡ false = same_string_comm e.ident e'.ident ∙ other in
    place p' (lookup_entry-append e'.ident es e ∙ ground (arith, new', other'))
      (append-Places es e rest p (ground (arith, new, other)))

append-total :
    (es : List Entry) (e : Entry)
    → total_sightings (es ++ (e ∷ [])) ≡ total_sightings es + e.sightings
unfolding total_sightings
append-total [] e = omega arith
append-total (e' ∷ es) e = omega (arith, append-total es e)

length-append_one : (es : List Entry) (e : Entry) → length (es ++ (e ∷ [])) ≡ length es + 1
length-append_one [] e = refl
length-append_one (e' ∷ es) e = omega (arith, length-append_one es e)

-- Adding a place keeps the invariant, whether it is new, known, or the cache is full.
pub cache_add_locked-IsLearned :
    (name : List ℕ) (lat lon : ℤ) (l : Learned)
    → IsPlace name lat lon
    → IsLearned l
    → IsLearned (cache_add_locked name lat lon l)
cache_add_locked-IsLearned name lat lon l p inv =
    elim (Option-cases (count_sighting name l.cache)) [
      | inr (es, found) ↦
          let c = count_sighting-Counted name l.cache es found in
          let l' : Learned = record l { cache = es; stat_sightings = l.stat_sightings + 1 } in
          let seen : l' ≡ cache_add_locked name lat lon l =
            unfold cache_add_locked in ground (arith, found) in
          subst IsLearned seen (record {
            bounded = rw (Counted-length c) inv.bounded;
            places = Counted-Places c inv.places;
            counted = Counted-total c ∙ ap (λ n. n + 1) inv.counted;
          })
      | inl missing ↦ elim (Bool-cases (ltb (length l.cache) learned_wp_max)) [
        | inl room ↦
            let e = new_entry name lat lon in
            let full : take 5 name ≡ name = take-short 5 name p.short in
            let l' : Learned = record l {
              cache = l.cache ++ (e ∷ []);
              stat_sightings = l.stat_sightings + 1;
            } in
            let grown : l' ≡ cache_add_locked name lat lon l =
              unfold cache_add_locked in ground (arith, missing, room) in
            subst IsLearned grown (record {
              bounded = rw (length-append_one l.cache e) (ground (arith, room));
              places =
                  append-Places l.cache e inv.places (rw full p)
                    (rw full (count_sighting-none name l.cache missing));
              counted = append-total l.cache e ∙ ap (λ n. n + 1) inv.counted;
            })
        | inr full ↦
            let same : l ≡ cache_add_locked name lat lon l =
              unfold cache_add_locked in ground (arith, missing, full) in
            subst IsLearned same inv
      ]
    ]
