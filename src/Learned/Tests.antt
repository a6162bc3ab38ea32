-- ===== src/Learned/Tests.antt =====
-- Runs of learned_waypoints.c, and the theorems of this folder at concrete inputs.
use inmarsat_sniffer.Base.{
  Option, ltb, ◌&&◌, if◌then◌else◌, length, arith, ℕ, ◌≡◌, refl, List, [], ◌∷◌, some, none,
}
use inmarsat_sniffer.Base.Int.{ℤ, pos, negsuc}
use inmarsat_sniffer.Base.Text.{codes}
use inmarsat_sniffer.Base.Loops.{for_range}
use inmarsat_sniffer.Learned.Cache.{
  Learned, learned_wp_max, learned_wp_lookup, cache_add_locked, count_sighting, same_string,
}
use inmarsat_sniffer.Learned.Cache.Lookup.{cache_add_locked-lookup}
use inmarsat_sniffer.Learned.Cache.Inv.{IsLearned, nothing, total_sightings}
use inmarsat_sniffer.Learned.Parse.Inv.{learned_wp_parse_fpn-IsLearned}
use inmarsat_sniffer.Learned.Coord.{parse_dm_coord, number, all_digits, is_digit, is_dir}
use inmarsat_sniffer.Learned.Parse.{
  find_comma, is_upper, name_length, copy_name, read_pair, is_zero, learn, scan,
  learned_wp_parse_fpn,
}

abbrev empty : Learned
empty = record { cache = []; stat_fpn_parsed = 0; stat_sightings = 0 }

abbrev plan : List ℕ
plan = codes "FPN/RI:DA KATL,X:F:MGMXX,N34288W083591,QQ,ABC,N01000E1800004MGMXX,S00000W000001"

parse_plan :
    learned_wp_parse_fpn plan empty
    ≡ some (
      record {
        cache =
            record { ident = codes "MGMXX"; lat = pos 20688; lon = negsuc 50390; sightings = 2 }
            ∷ record { ident = codes "ABC"; lat = pos 600; lon = pos 108000; sightings = 1 }
            ∷ [];
        stat_fpn_parsed = 1;
        stat_sightings = 3;
      },
      3,
    )
unfolding learned_wp_parse_fpn scan learn is_zero read_pair copy_name name_length is_upper
    find_comma parse_dm_coord number all_digits is_digit is_dir cache_add_locked count_sighting
    same_string for_range
parse_plan = refl

empty-IsLearned : IsLearned empty
unfolding total_sightings
empty-IsLearned = record { bounded = omega arith; places = nothing; counted = refl }

learned_wp_parse_fpn-IsLearned_example :
    (acc : Learned × ℕ) × (learned_wp_parse_fpn plan empty ≡ some acc) × IsLearned acc.0
learned_wp_parse_fpn-IsLearned_example = learned_wp_parse_fpn-IsLearned plan empty empty-IsLearned

cache_add_locked-lookup_example :
    learned_wp_lookup
      (codes "MGMXX")
      (cache_add_locked (codes "MGMXX") (pos 20688) (negsuc 50390) empty)
    ≡ elim (learned_wp_lookup (codes "MGMXX") empty) as (λ x. Option (ℤ × ℤ)) [
      | some c ↦ some c
      | none ↦
          if ltb (length empty.cache) learned_wp_max && same_string (codes "MGMXX") (codes "MGMXX")
          then some (pos 20688, negsuc 50390)
          else none
    ]
cache_add_locked-lookup_example =
    cache_add_locked-lookup (codes "MGMXX") (codes "MGMXX") (pos 20688) (negsuc 50390) empty
      (omega arith) (omega arith)
