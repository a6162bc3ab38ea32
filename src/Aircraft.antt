-- ===== src/Aircraft.antt =====
-- The static variables of aircraft_db.c and its operations on them. `malloc` and `realloc` are taken to
-- succeed, and the file is the list of the lines that `fgets` delivers.
pub mod Line
pub mod Strings
pub mod Search
pub mod Key
pub mod Address
pub mod Stored
pub mod Inv
pub mod Lookup
mod Tests
use inmarsat_sniffer.Base.{
  ℕ, zero, suc, ◌+◌, ◌-◌, ◌*◌, ◌/◌, ◌%◌, ◌^◌, ◌==◌, ltb, if◌then◌else◌, Bool, true, false, ◌||◌,
  List, [], ◌∷◌, ◌++◌, Option, none, some, length, map, take, drop,
}
use mathlib.Core.Option
use inmarsat_sniffer.Base.Int.{ℤ, negsuc}
use inmarsat_sniffer.Base.Sorting.{Sign, less, same, greater, strcmp, Qsort, Bsearch}
use inmarsat_sniffer.Text.{cut_at, c_string, toupper}
use inmarsat_sniffer.Aircraft.Line.{Fields, parse_line, normalize_reg}
use inmarsat_sniffer.Aircraft.Strings.{strings_add, strings_get}

-- `db_entry_t`; an index of -1 is no string.
pub record Entry : Type 0 where
  pub reg : List ℕ
  pub hex : List ℕ
  pub type_idx : ℤ
  pub desc_idx : ℤ
  pub op_idx : ℤ

-- The static variables; `strings_len` is the length of `strings`.
pub record Db : Type 0 where
  pub db : ℕ → Entry
  pub db_count : ℕ
  pub strings : List ℕ
  pub by_hex : ℕ → ℕ

abbrev pub entry_cmp : Entry → Entry → Sign
entry_cmp a b = strcmp a.reg b.reg

abbrev pub by_hex_cmp : (ℕ → Entry) → ℕ → ℕ → Sign
by_hex_cmp db ai bi = strcmp (db ai).hex (db bi).hex

-- After `aircraft_db_destroy`.
abbrev pub destroyed : Db
destroyed = record {
  db = λ i. record {
    reg = [];
    hex = [];
    type_idx = negsuc 0;
    desc_idx = negsuc 0;
    op_idx = negsuc 0;
  };
  db_count = 0;
  strings = [];
  by_hex = λ i. 0;
}

-- The three strings are added in turn.
unfoldable pub add_entry : Db → Fields → Db
add_entry d f =
    let (type_idx, s1) = strings_add d.strings f.type in
    let (desc_idx, s2) = strings_add s1 f.desc in
    let (op_idx, s3) = strings_add s2 f.op in
    let e : Entry = record {
      reg = f.reg;
      hex = map toupper f.hex;
      type_idx = type_idx;
      desc_idx = desc_idx;
      op_idx = op_idx;
    } in
    record d {
      db = λ i. if i == d.db_count then e else d.db i;
      db_count = d.db_count + 1;
      strings = s3;
    }

-- A line that is not accepted is passed over.
unfoldable pub load_line : Db → List ℕ → Db
load_line d line = elim (parse_line (c_string line)) [ none ↦ d | some f ↦ add_entry d f ]

-- The loop of `aircraft_db_load`.
unfoldable pub load_lines : Db → List (List ℕ) → Db
load_lines d [] = d
load_lines d (line ∷ lines) = load_lines (load_line d line) lines

-- `aircraft_info_t`
pub record Info : Type 0 where
  pub registration : List ℕ
  pub type : Option (List ℕ)
  pub description : Option (List ℕ)
  pub operator : Option (List ℕ)

unfoldable pub info : Db → Entry → Info
info d e = record {
  registration = e.reg;
  type = strings_get d.strings e.type_idx;
  description = strings_get d.strings e.desc_idx;
  operator = strings_get d.strings e.op_idx;
}

-- The loop over the window from `lo` to `hi`, with fuel. `top` is `hi + 1`, so that no number is
-- negative; the outer `none` is fuel that ran out.
unfoldable pub search : ℕ → Db → List ℕ → ℕ → ℕ → Option (Option ℕ)
search zero d key lo top = none
search (suc fuel) d key lo top =
    let mid = (lo + (top - 1)) / 2 in
    elim (ltb lo top) [
      | false ↦ some none
      | true ↦ elim (strcmp (d.db (d.by_hex mid)).hex key) [
        | same ↦ some (some (d.by_hex mid))
        | less ↦ search fuel d key (mid + 1) top
        | greater ↦ search fuel d key lo mid
      ]
    ]

-- `key_hex`, of which the bytes that `hex6` is too short for hold what was on the stack.
unfoldable pub key_hex : List ℕ → List ℕ → List ℕ
key_hex stack hex6 = c_string (take 6 (map toupper (take 6 hex6) ++ drop (length hex6) stack))

unfoldable pub aircraft_db_lookup_by_hex : List ℕ → Db → List ℕ → Option (Option Info)
aircraft_db_lookup_by_hex stack d hex6 =
    Option.map (Option.map (λ i. info d (d.db i)))
      (search (d.db_count + 1) d (key_hex stack hex6) 0 d.db_count)

-- The digit that `%X` prints.
unfoldable pub hex_digit : ℕ → ℕ
hex_digit n = if ltb n 10 then b'0' + n else b'A' + (n - 10)

-- `%06X` of the lower 24 bits.
unfoldable pub hex_24 : ℕ → List ℕ
hex_24 aes_id = map (λ k. hex_digit (aes_id / 16 ^ k % 16)) (5 ∷ 4 ∷ 3 ∷ 2 ∷ 1 ∷ 0 ∷ [])

unfoldable pub aircraft_db_lookup_by_aes : List ℕ → Db → ℕ → Option (Option Info)
aircraft_db_lookup_by_aes stack d aes_id = aircraft_db_lookup_by_hex stack d (hex_24 aes_id)

module _ (qsort : Qsort) where
  -- Both sorts; the static arrays are new.
  unfoldable pub aircraft_db_load : List (List ℕ) → Db
  aircraft_db_load lines =
      let d = load_lines destroyed lines in
      let db = qsort Entry entry_cmp d.db_count d.db in
      record d { db = db; by_hex = qsort ℕ (by_hex_cmp db) d.db_count (λ i. i) }

-- The key of the search has the registration only.
abbrev pub reg_key : List ℕ → Entry
reg_key reg = record {
  reg = reg;
  hex = [];
  type_idx = negsuc 0;
  desc_idx = negsuc 0;
  op_idx = negsuc 0;
}

module _ (bsearch : Bsearch) where
  unfoldable pub aircraft_db_lookup : Db → List ℕ → Option (List ℕ)
  aircraft_db_lookup d registration =
      let norm = normalize_reg 12 registration in
      let found = bsearch Entry entry_cmp (reg_key norm) d.db_count d.db in
      if d.db_count == 0 || length registration == 0 || length norm == 0
      then none
      else Option.map (λ i. (d.db i).hex) found
