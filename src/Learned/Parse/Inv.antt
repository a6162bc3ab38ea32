-- ===== src/Learned/Parse/Inv.antt =====
-- The scan of a flight plan message ends, and keeps the invariant of the cache.
use inmarsat_sniffer.Base.{
  ℕ, zero, suc, ◌+◌, ◌-◌, ◌*◌, ◌≤◌, ◌<◌, ◌≡◌, refl, sym, ap, ◌∙◌, arith, Bool, true, false, ltb,
  leb, not, ◌||◌, ◌==◌, if◌then◌else◌, List, Option, none, some, at, length,
}
use inmarsat_sniffer.Base.Int.{ℤ}
use inmarsat_sniffer.Learned.Cache.{Learned, cache_add_locked}
use inmarsat_sniffer.Learned.Cache.Inv.{
  IsLearned, IsLetters, IsPlace, magnitude, cache_add_locked-IsLearned,
}
use inmarsat_sniffer.Learned.Coord.{parse_dm_coord, limit, degree}
use inmarsat_sniffer.Learned.Parse.{
  find_comma, name_length, copy_name, Found, skip, read_lon, read_pair, learn, scan, count_parsed,
  learned_wp_parse_fpn, is_zero, is_upper,
}

-- A parsed coordinate is on the globe.
parse_dm_coord-range :
    (s : ℕ → ℕ) (lon_width : Bool) (v : ℤ)
    → parse_dm_coord s lon_width ≡ some v
    → magnitude v ≤ limit lon_width
unfolding parse_dm_coord
parse_dm_coord-range s lon_width v h = ground arith

length-copy_name : (text : List ℕ) (from n : ℕ) → length (copy_name text from n) ≡ n
unfolding copy_name
length-copy_name text from zero = refl
length-copy_name text from (suc n) = ap suc (length-copy_name text (from + 1) n)

name_length-at_most : (text : List ℕ) (room stop : ℕ) → name_length text room stop ≤ room
unfolding name_length
name_length-at_most text zero stop = omega arith
name_length-at_most text (suc room) stop = ground (arith, name_length-at_most text room (stop - 1))

at-copy_name :
    (text : List ℕ) (from n i : ℕ) → i < n → at (copy_name text from n) i ≡ at text (from + i)
unfolding copy_name
at-copy_name text from zero i h = absurd (omega arith)
at-copy_name text from (suc n) zero h = ap (at text) (omega arith)
at-copy_name text from (suc n) (suc i) h =
    at-copy_name text (from + 1) n i (omega arith) ∙ ap (at text) (omega arith)

-- The bytes that are counted are capital letters.
name_length-letters :
    (text : List ℕ) (room stop k : ℕ)
    → k < name_length text room stop
    → (b'A' ≤ at text (stop - 1 - k)) × (at text (stop - 1 - k) ≤ b'Z')
unfolding name_length is_upper
name_length-letters text zero stop k h = absurd (omega arith)
name_length-letters text (suc room) stop zero h =
    let here : stop - 1 - 0 ≡ stop - 1 = omega arith in rw here (ground arith)
name_length-letters text (suc room) stop (suc k) h =
    let back : stop - 1 - suc k ≡ stop - 1 - 1 - k = omega arith in
    rw back (name_length-letters text room (stop - 1) k (ground arith))

copy_name-IsLetters :
    (text : List ℕ) (room stop : ℕ)
    → room ≤ stop
    → IsLetters (copy_name text (stop - name_length text room stop) (name_length text room stop))
copy_name-IsLetters text room stop h i lt =
    let n = name_length text room stop in
    let most = name_length-at_most text room stop in
    let within : i < n = omega (arith, lt, length-copy_name text (stop - n) n) in
    let same : stop - 1 - (n - 1 - i) ≡ stop - n + i = omega (arith, most, within) in
    rw (at-copy_name text (stop - n) n i within, sym same)
      (name_length-letters text room stop (n - 1 - i) (omega (arith, within)))

find_comma-range :
    (text : List ℕ) (left p c : ℕ) → find_comma text left p ≡ some c → (p ≤ c) × (c < p + left)
unfolding find_comma
find_comma-range text zero p c h = cc h
find_comma-range text (suc left) p c h = ground (arith, find_comma-range text left (p + 1) c)

-- What is found is a place, or nothing.
data IsPair : Option (List ℕ × (ℤ × ℤ)) → Type 0 where
  no_pair : IsPair none
  one_pair : {name : List ℕ} {lat lon : ℤ} → IsPlace name lat lon → IsPair (some (name, (lat, lon)))

-- The scan goes on past the comma.
record IsFound (comma : ℕ) (f : Found) : Type 0 where
  past : comma < f.next
  found : IsPair f.pair

skip-IsFound : (comma : ℕ) → IsFound comma (skip comma)
skip-IsFound comma = record { past = omega arith; found = no_pair }

if-IsFound :
    {comma : ℕ} (b : Bool) {f g : Found}
    → (b ≡ true → IsFound comma f)
    → (b ≡ false → IsFound comma g)
    → IsFound comma (if b then f else g)
if-IsFound true holds fails = holds refl
if-IsFound false holds fails = fails refl

module _ (text : List ℕ) (comma : ℕ) where
  read_lon-IsFound :
      (name : List ℕ) (lat : ℤ)
      → IsLetters name
      → 2 ≤ length name
      → length name ≤ 5
      → magnitude lat ≤ 90 * degree
      → IsFound comma (read_lon text comma name lat)
  read_lon-IsFound name lat letters long short range =
      if-IsFound (c == 69 || c == 87)
        (λ e. go (parse_dm_coord (λ i. at text (comma + 1 + 6 + i)) true) refl)
        (λ e. skip-IsFound comma)
    where
      c : ℕ
      c = at text (comma + 1 + 6)

      go :
          (r : Option ℤ)
          → parse_dm_coord (λ i. at text (comma + 1 + 6 + i)) true ≡ r
          → IsFound comma (elim r [
            | none ↦ skip comma
            | some lon ↦ record { next = comma + 1 + 6 + 7; pair = some (name, (lat, lon)) }
          ])
      go none e = skip-IsFound comma
      go (some lon) e = record {
        past = omega arith;
        found = one_pair (record {
          letters = letters;
          short = short;
          long = long;
          lat_range = range;
          lon_range = parse_dm_coord-range _ true lon e;
        });
      }

  read_pair-IsFound : (p : ℕ) → IsFound comma (read_pair text p comma)
  unfolding read_pair
  read_pair-IsFound p =
      if-IsFound (ltb n 2 || ltb 5 n) (λ e. skip-IsFound comma)
        (λ fits.
          if-IsFound (not (c == 78 || c == 83)) (λ e. skip-IsFound comma)
            (λ e.
              go (ground (arith, fits)) (ground (arith, fits))
                (parse_dm_coord (λ i. at text (comma + 1 + i)) false) refl))
    where
      n : ℕ
      n = name_length text (comma - p) comma

      c : ℕ
      c = at text (comma + 1)

      name : List ℕ
      name = copy_name text (comma - n) n

      go :
          2 ≤ n
          → n ≤ 5
          → (r : Option ℤ) → parse_dm_coord (λ i. at text (comma + 1 + i)) false ≡ r
          → IsFound comma (elim r [ none ↦ skip comma | some lat ↦ read_lon text comma name lat ])
      go long short none e = skip-IsFound comma
      go long short (some lat) e =
          let whole : length name ≡ n = length-copy_name text (comma - n) n in
          read_lon-IsFound name lat (copy_name-IsLetters text (comma - p) comma (omega arith))
            (rw whole long) (rw whole short) (parse_dm_coord-range _ false lat e)

learn-IsLearned :
    {pair : Option (List ℕ × (ℤ × ℤ))} (acc : Learned × ℕ)
    → IsPair pair
    → IsLearned acc.0
    → IsLearned (learn pair acc).0
unfolding learn
learn-IsLearned (l, n) no_pair inv = inv
learn-IsLearned (l, n) (one_pair {name} {lat} {lon} p) inv =
    go (not (is_zero lat) || not (is_zero lon))
  where
    go :
        (b : Bool)
        → let acc' : Learned × ℕ = if b then (cache_add_locked name lat lon l, n + 1) else (l, n) in
          IsLearned acc'.0
    go true = cache_add_locked-IsLearned name lat lon l p inv
    go false = inv

-- The scan has come to an end, and its cache satisfies the invariant.
abbrev Scanned : Option (Learned × ℕ) → Type 0
Scanned r = (acc : Learned × ℕ) × (r ≡ some acc) × IsLearned acc.0

scan-Scanned :
    (fuel : ℕ) (text : List ℕ) (p : ℕ) (acc : Learned × ℕ)
    → length text - p < fuel
    → IsLearned acc.0
    → Scanned (scan fuel text p acc)
unfolding scan
scan-Scanned zero text p acc enough inv = absurd (omega arith)
scan-Scanned (suc fuel) text p acc enough inv = at_end (leb (length text) p) (
    next (find_comma text (length text - p) p) refl
      (λ q acc' room inv'. scan-Scanned fuel text q acc' room inv'))
  where
    go_on : ℕ → Option (Learned × ℕ)
    go_on comma =
        scan fuel text (read_pair text p comma).next (learn (read_pair text p comma).pair acc)

    next :
        (r : Option ℕ)
        → find_comma text (length text - p) p ≡ r
        → ((q : ℕ) (acc' : Learned × ℕ)
            → length text - q < fuel
            → IsLearned acc'.0
            → Scanned (scan fuel text q acc'))
        → Scanned (elim r [ none ↦ some acc | some comma ↦ go_on comma ])
    next none e rest = (acc, refl, inv)
    next (some comma) e rest =
        let f = read_pair-IsFound text comma p in
        let range = find_comma-range text (length text - p) p comma e in
        rest (read_pair text p comma).next (learn (read_pair text p comma).pair acc)
          (omega (arith, f.past, range.0, range.1)) (learn-IsLearned acc f.found inv)

    at_end : (b : Bool) {r : Option (Learned × ℕ)} → Scanned r → Scanned (if b then some acc else r)
    at_end true more = (acc, refl, inv)
    at_end false more = more

count_parsed-IsLearned : (acc : Learned × ℕ) → IsLearned acc.0 → IsLearned (count_parsed acc).0
count_parsed-IsLearned (l, n) inv = go (ltb 0 n)
  where
    go :
        (b : Bool)
        → let acc' : Learned × ℕ =
            if b then (record l { stat_fpn_parsed = l.stat_fpn_parsed + 1 }, n) else (l, n) in
          IsLearned acc'.0
    go true = record { bounded = inv.bounded; places = inv.places; counted = inv.counted }
    go false = inv

-- Parsing any message from a cache that satisfies the invariant returns, and keeps it: at most
-- `LEARNED_WP_MAX` entries, each a name of two to five letters from A to Z, none twice, at a position on
-- the globe, with their sightings adding up to the statistics.
pub learned_wp_parse_fpn-IsLearned :
    (text : List ℕ) (l : Learned)
    → IsLearned l
    → (acc : Learned × ℕ) × (learned_wp_parse_fpn text l ≡ some acc) × IsLearned acc.0
unfolding learned_wp_parse_fpn
learned_wp_parse_fpn-IsLearned text l inv =
    let (acc, e, inv') = scan-Scanned (length text + 1) text 0 (l, 0) (omega arith) inv in
    (
      count_parsed acc,
      ap
          (λ (r : Option (Learned × ℕ)). elim r as (λ x. Option (Learned × ℕ)) [
            | none ↦ none
            | some a ↦ some (count_parsed a)
          ])
          e,
      count_parsed-IsLearned acc inv',
    )
