-- ===== src/Learned/Parse.antt =====
-- `learned_wp_parse_fpn`: the scan of a flight plan message for names with coordinates.
pub mod Inv
use inmarsat_sniffer.Base.{
  ℕ, zero, suc, ◌+◌, ◌-◌, ◌==◌, ltb, leb, if◌then◌else◌, Bool, true, false, not, ◌&&◌, ◌||◌, List,
  [], ◌∷◌, Option, none, some, at, length,
}
use inmarsat_sniffer.Base.Int.{ℤ, pos}
use inmarsat_sniffer.Learned.Cache.{Learned, cache_add_locked}
use inmarsat_sniffer.Learned.Coord.{parse_dm_coord}

-- `strchr(p, ',') - text`, where `left` bytes stand before the NUL.
unfoldable pub find_comma : List ℕ → ℕ → ℕ → Option ℕ
find_comma text zero p = none
find_comma text (suc left) p =
    let rest = find_comma text left (p + 1) in if at text p == 44 then some p else rest

unfoldable pub is_upper : ℕ → Bool
is_upper c = leb 65 c && leb c 90

-- The number of capital letters that end at `stop`, at most `room`.
unfoldable pub name_length : List ℕ → ℕ → ℕ → ℕ
name_length text zero stop = 0
name_length text (suc room) stop =
    let rest = name_length text room (stop - 1) in
    if is_upper (at text (stop - 1)) then suc rest else 0

-- `memcpy(name, text + from, n)`
unfoldable pub copy_name : List ℕ → ℕ → ℕ → List ℕ
copy_name text from zero = []
copy_name text from (suc n) = at text from ∷ copy_name text (from + 1) n

-- What follows one comma: the position to go on from, and the name with its coordinates if there
-- is such a pair.
pub record Found : Type 0 where
  pub next : ℕ
  pub pair : Option (List ℕ × (ℤ × ℤ))

abbrev pub skip : ℕ → Found
skip comma = record { next = comma + 1; pair = none }

abbrev pub read_lon : List ℕ → ℕ → List ℕ → ℤ → Found
read_lon text comma name lat =
    let lon_start = comma + 1 + 6 in
    let c = at text lon_start in
    if c == 69 || c == 87
    then elim (parse_dm_coord (λ i. at text (lon_start + i)) true) [
      | none ↦ skip comma
      | some lon ↦ record { next = lon_start + 7; pair = some (name, (lat, lon)) }
    ]
    else skip comma

-- The body of the loop, from `p` with the comma found.
unfoldable pub read_pair : List ℕ → ℕ → ℕ → Found
read_pair text p comma =
    let name_len = name_length text (comma - p) comma in
    let c = at text (comma + 1) in
    if ltb name_len 2 || ltb 5 name_len
    then skip comma
    else if not (c == 78 || c == 83)
    then skip comma
    else elim (parse_dm_coord (λ i. at text (comma + 1 + i)) false) [
      | none ↦ skip comma
      | some lat ↦ read_lon text comma (copy_name text (comma - name_len) name_len) lat
    ]

unfoldable pub is_zero : ℤ → Bool
is_zero (pos zero) = true
is_zero (pos (suc n)) = false
is_zero (ℤ.negsuc n) = false

-- The pair into the cache, unless it is (0, 0), and the number learned.
unfoldable pub learn : Option (List ℕ × (ℤ × ℤ)) → Learned × ℕ → Learned × ℕ
learn none (l, learned) = (l, learned)
learn (some (name, (lat, lon))) (l, learned) =
    if not (is_zero lat) || not (is_zero lon)
    then (cache_add_locked name lat lon l, learned + 1)
    else (l, learned)

-- The loop, with fuel; `none` is fuel that ran out.
unfoldable pub scan : ℕ → List ℕ → ℕ → Learned × ℕ → Option (Learned × ℕ)
scan zero text p acc = none
scan (suc fuel) text p acc =
    if leb (length text) p then some acc else elim (find_comma text (length text - p) p) [
      | none ↦ some acc
      | some comma ↦
          let found = read_pair text p comma in scan fuel text found.next (learn found.pair acc)
    ]

-- `if (learned > 0) stat_fpn_parsed++`
abbrev pub count_parsed : Learned × ℕ → Learned × ℕ
count_parsed (l, learned) =
    if ltb 0 learned
    then (record l { stat_fpn_parsed = l.stat_fpn_parsed + 1 }, learned)
    else (l, learned)

unfoldable pub learned_wp_parse_fpn : List ℕ → Learned → Option (Learned × ℕ)
learned_wp_parse_fpn text l = elim (scan (length text + 1) text 0 (l, 0)) [
  | none ↦ none
  | some acc ↦ some (count_parsed acc)
]
