-- ===== src/Station/Track.antt =====
-- `bs_derive_track` and its cache of last positions. The coordinates, speeds and angles are `double`s, of
-- which the type and what is computed with them are parameters.
pub mod Inv
pub mod Fixes
use inmarsat_sniffer.Base.{
  ℕ, zero, suc, ◌+◌, ◌-◌, ◌*◌, ◌%◌, ◌^◌, ◌==◌, ltb, if◌then◌else◌, Bool, true, false, ◌&&◌, List,
  [], ◌∷◌, ◌++◌, Option, none, some, length, take, set, get_or,
}
use inmarsat_sniffer.Base.Loops.{for_range, search_first}
use inmarsat_sniffer.Base.Sorting.{Sign, less, same, greater, strcmp}

-- `knots dist dt` is the speed for a distance in a time in nanoseconds, and `plausible` is
-- `speed > 0.5 && speed < 700.0`.
pub record Geo : Type 1 where
  pub F : Type 0
  pub zero_f : F
  pub bs_distance_nm : F → F → F → F → F
  pub knots : F → ℕ → F
  pub plausible : F → Bool
  pub bs_bearing : F → F → F → F → F

abbrev pub bs_track_max : ℕ
bs_track_max = 64

abbrev pub uint64_max : ℕ
uint64_max = 2 ^ 64 - 1

module _ (g : Geo) where
  open g use {F, zero_f, bs_distance_nm, knots, plausible, bs_bearing}

  -- `bs_track_t`; `bs_track_count` is the length of the cache.
  pub record BsTrack : Type 0 where
    pub hex : List ℕ
    pub lat : F
    pub lon : F
    pub timestamp_ns : ℕ

  abbrev pub track_at : List BsTrack → ℕ → BsTrack
  track_at cache i =
      get_or cache i (record { hex = []; lat = zero_f; lon = zero_f; timestamp_ns = 0 })

  abbrev pub is_equal : Sign → Bool
  is_equal less = false
  is_equal same = true
  is_equal greater = false

  unfoldable pub find_track : List BsTrack → List ℕ → Option ℕ
  find_track cache hex =
      search_first (λ i. is_equal (strcmp (track_at cache i).hex hex)) (length cache) 0

  -- One round of the search for the oldest entry: the oldest time so far, and its index.
  unfoldable pub older : List BsTrack → ℕ → ℕ × ℕ → ℕ × ℕ
  older cache i (oldest, idx) =
      if ltb (track_at cache i).timestamp_ns oldest
      then ((track_at cache i).timestamp_ns, i)
      else (oldest, idx)

  unfoldable pub oldest_track : List BsTrack → ℕ
  oldest_track cache = (for_range bs_track_max 0 (older cache) (uint64_max, 0)).1

  -- Speed and heading from the fix `b` to a later one, more than 10 s and less than 2 h later. The
  -- difference of the times wraps.
  unfoldable pub derived : BsTrack → F → F → ℕ → Option (F × F)
  derived b lat lon timestamp_ns =
      let dt = (timestamp_ns + 2 ^ 64 - b.timestamp_ns) % 2 ^ 64 in
      let speed = knots (bs_distance_nm b.lat b.lon lat lon) dt in
      if ltb 10000000000 dt && ltb dt 7200000000000 && plausible speed
      then some (speed, bs_bearing b.lat b.lon lat lon)
      else none

  -- A fix of a new aircraft, at the end or in place of the oldest.
  unfoldable pub add_track : List BsTrack → BsTrack → List BsTrack
  add_track cache b =
      if ltb (length cache) bs_track_max
      then cache ++ (b ∷ [])
      else set cache (oldest_track cache) b

  unfoldable pub bs_derive_track : List BsTrack → List ℕ → F → F → ℕ → List BsTrack × Option (F × F)
  bs_derive_track cache hex lat lon timestamp_ns = elim (find_track cache hex) [
    | some idx ↦
        let b = track_at cache idx in
        (
          set cache idx (record b { lat = lat; lon = lon; timestamp_ns = timestamp_ns }),
          derived b lat lon timestamp_ns,
        )
    | none ↦ (
      add_track cache
          (record { hex = take 6 hex; lat = lat; lon = lon; timestamp_ns = timestamp_ns }),
      none,
    )
  ]
