-- ===== src/Aircraft/Lookup.antt =====
-- What the lookups answer after a load.
use inmarsat_sniffer.Base.{
  ℕ, ◌%◌, ◌^◌, ◌≤◌, ◌<◌, ◌==◌, ◌≡◌, ◌≢◌, refl, sym, ap, ◌∙◌, subst, arith, inl, inr, Bool, true,
  ◌||◌, List, [], ◌∷◌, Option, none, some, map, length, Bool-cases,
}
use mathlib.Core.Option
use inmarsat_sniffer.Base.Sorting.{
  same, strcmp, strcmp-same, strcmp_self, Qsort, Bsearch, Sorts, Finds,
}
use inmarsat_sniffer.Text.{c_string, toupper}
use inmarsat_sniffer.Aircraft.Line.{Fields, parse_line, normalize_reg, skip_dots, copy_reg, all_hex}
use inmarsat_sniffer.Aircraft.Address.{
  hex_value, length-hex_24, all_hex-hex_24, upper-hex_24, hex_24_iff,
}
use inmarsat_sniffer.Aircraft.Key.{key_hex-full}
use inmarsat_sniffer.Aircraft.Search.{IsAnswer, search-all}
use inmarsat_sniffer.Aircraft.Stored.{Stored, Stored-info, info_of}
use inmarsat_sniffer.Aircraft.Inv.{Accepted, load_lines-Has, load_lines-Accepted}
use inmarsat_sniffer.Aircraft.{
  Entry, Db, Info, info, entry_cmp, by_hex_cmp, destroyed, load_lines, key_hex, aircraft_db_load,
  aircraft_db_lookup_by_hex, hex_24, aircraft_db_lookup_by_aes, reg_key, aircraft_db_lookup,
}

-- An accepted line has an address of six digits.
parse_line-hex :
    (line : List ℕ) (f : Fields)
    → parse_line line ≡ some f
    → (length f.hex ≡ 6) × (all_hex f.hex ≡ true)
unfolding parse_line
parse_line-hex line f e = (ground (arith, e), ground (arith, e))

-- An accepted line has a registration.
parse_line-reg : (line : List ℕ) (f : Fields) → parse_line line ≡ some f → 0 < length f.reg
unfolding parse_line
parse_line-reg line f e = ground (arith, e)

normalize_reg-nil :
    (registration : List ℕ) → length registration ≡ 0 → length (normalize_reg 12 registration) ≡ 0
unfolding normalize_reg skip_dots copy_reg
normalize_reg-nil [] e = refl
normalize_reg-nil (c ∷ registration) e = absurd (omega (arith, e))

module _ (qsort : Qsort) (lines : List (List ℕ)) where
  -- The table before it is sorted, and after.
  abbrev read : Db
  read = load_lines destroyed lines

  abbrev sorted_db : ℕ → Entry
  sorted_db = qsort Entry entry_cmp read.db_count read.db

  -- The two calls of `qsort` do what the library says.
  abbrev pub Sorted : Type 0
  Sorted =
      Sorts entry_cmp read.db_count read.db sorted_db
      × Sorts (by_hex_cmp sorted_db) read.db_count (λ i. i)
          (qsort ℕ (by_hex_cmp sorted_db) read.db_count (λ i. i))

  abbrev loaded : Db
  loaded = aircraft_db_load qsort lines

  module _ (by_reg : Sorts entry_cmp read.db_count read.db sorted_db) where
    sorted-Accepted :
        (i : ℕ)
        → i < read.db_count
        → (f : Fields) × Accepted lines f × Stored read.strings (sorted_db i) f
    sorted-Accepted i h =
        let (j, j_lt, e) = by_reg.nothing_new i h in
        let (f, accepted, s) = load_lines-Accepted lines j j_lt in
        (f, accepted, subst (λ x. Stored read.strings x f) (sym e) s)

    sorted-Has :
        (f : Fields)
        → Accepted lines f
        → (i : ℕ) × (i < read.db_count) × Stored read.strings (sorted_db i) f
    sorted-Has f accepted =
        let (j, j_lt, s) = load_lines-Has destroyed lines f accepted in
        let (i, i_lt, e) = by_reg.kept j j_lt in
        (i, i_lt, subst (λ x. Stored read.strings x f) (sym e) s)

  -- The report on an address: that of a line with this address, or none if no line has it.
  abbrev pub IsReport : List ℕ → Option Info → Type 0
  IsReport hex none = (f : Fields) → Accepted lines f → map toupper f.hex ≢ hex
  IsReport hex (some i) =
      (f : Fields) × Accepted lines f × (map toupper f.hex ≡ hex) × (i ≡ info_of f)

  module _ (sorted : Sorted) (fits : length read.strings ≤ 2 ^ 31) where
    answer-IsReport :
        (key : List ℕ) (r : Option ℕ)
        → IsAnswer loaded key r
        → IsReport key (Option.map (λ i. info loaded (loaded.db i)) r)
    unfolding aircraft_db_load
    answer-IsReport key none missing = λ f accepted e.
        let (i, i_lt, s) = sorted-Has sorted.0 f accepted in
        let (j, j_lt, row) = sorted.1.kept i i_lt in
        missing j j_lt (ap (λ k. (sorted_db k).hex) row ∙ s.hex ∙ e)
    answer-IsReport key (some e) (i, i_lt, row, equal) =
        let (k, k_lt, index) = sorted.1.nothing_new i i_lt in
        let in_table : e < read.db_count = subst (λ x. x < read.db_count) (sym index ∙ row) k_lt in
        let (f, accepted, s) = sorted-Accepted sorted.0 e in_table in
        (
          f,
          accepted,
          sym s.hex ∙ ap (λ x. (sorted_db x).hex) (sym row) ∙ equal,
          Stored-info loaded (sorted_db e) f s fits,
        )

    by_hex-IsReport :
        (stack hex6 : List ℕ)
        → (r : Option Info) × (aircraft_db_lookup_by_hex stack loaded hex6 ≡ some r)
          × IsReport (key_hex stack hex6) r
    unfolding aircraft_db_lookup_by_hex aircraft_db_load
    by_hex-IsReport stack hex6 =
        let key = key_hex stack hex6 in
        let (r, e, right) = search-all loaded key sorted.1.ordered in
        (
          Option.map (λ i. info loaded (loaded.db i)) r,
          ap (Option.map (Option.map (λ i. info loaded (loaded.db i)))) e,
          answer-IsReport key r right,
        )

    -- After a load of at most 2 GiB of strings, for an address of six hexadecimal digits of either case: the
    -- search ends, whatever the stack holds; it finds nothing only if no accepted line has the address, and what it reports
    -- otherwise are the registration, type, description and operator of an accepted line that has it.
    pub aircraft_db_lookup_by_hex-IsReport :
        (stack hex6 : List ℕ)
        → length hex6 ≡ 6
        → all_hex hex6 ≡ true
        → (r : Option Info) × (aircraft_db_lookup_by_hex stack loaded hex6 ≡ some r)
          × IsReport (map toupper hex6) r
    aircraft_db_lookup_by_hex-IsReport stack hex6 six digits =
        let (r, e, right) = by_hex-IsReport stack hex6 in
        (r, e, subst (λ key. IsReport key r) (key_hex-full stack hex6 six digits) right)

  -- The report on the lower 24 bits of a number.
  abbrev pub IsAesReport : ℕ → Option Info → Type 0
  IsAesReport aes_id none = (f : Fields) → Accepted lines f → hex_value f.hex ≢ aes_id % 2 ^ 24
  IsAesReport aes_id (some i) =
      (f : Fields) × Accepted lines f × (hex_value f.hex ≡ aes_id % 2 ^ 24) × (i ≡ info_of f)

  IsReport-aes : (aes_id : ℕ) (r : Option Info) → IsReport (hex_24 aes_id) r → IsAesReport aes_id r
  IsReport-aes aes_id none missing = λ f accepted value.
      let (six, digits) = parse_line-hex (c_string accepted.0) f accepted.2 in
      missing f accepted ((hex_24_iff f.hex aes_id six digits).1 value)
  IsReport-aes aes_id (some i) (f, accepted, equal, reported) =
      let (six, digits) = parse_line-hex (c_string accepted.0) f accepted.2 in
      (f, accepted, (hex_24_iff f.hex aes_id six digits).0 equal, reported)

  -- After a load of at most 2 GiB of strings, for an AES number: the search ends; it finds nothing only if the address of no accepted
  -- line has the value of the number's lower 24 bits, and what it reports otherwise are the fields of an
  -- accepted line whose address has this value.
  pub aircraft_db_lookup_by_aes-IsAesReport :
      Sorted
      → length read.strings ≤ 2 ^ 31
      → (stack : List ℕ) (aes_id : ℕ)
      → (r : Option Info) × (aircraft_db_lookup_by_aes stack loaded aes_id ≡ some r)
        × IsAesReport aes_id r
  unfolding aircraft_db_lookup_by_aes
  aircraft_db_lookup_by_aes-IsAesReport sorted fits stack aes_id =
      let (r, e, right) =
        aircraft_db_lookup_by_hex-IsReport sorted fits stack (hex_24 aes_id) (length-hex_24 aes_id)
          (all_hex-hex_24 aes_id) in
      (r, e, IsReport-aes aes_id r (subst (λ key. IsReport key r) (upper-hex_24 aes_id) right))

  -- The address of an aircraft by its registration: that of a line with the same normal form, or none if
  -- no line has it.
  abbrev pub IsAddress : List ℕ → Option (List ℕ) → Type 0
  IsAddress norm none = (f : Fields) → Accepted lines f → f.reg ≢ norm
  IsAddress norm (some h) =
      (f : Fields) × Accepted lines f × (f.reg ≡ norm) × (h ≡ map toupper f.hex)

  module _ (bsearch : Bsearch) (by_reg : Sorts entry_cmp read.db_count read.db sorted_db) where
    found-IsAddress :
        (norm : List ℕ) (r : Option ℕ)
        → Finds entry_cmp (reg_key norm) read.db_count sorted_db r
        → IsAddress norm (Option.map (λ i. (sorted_db i).hex) r)
    found-IsAddress norm none finds = λ f accepted e.
        let (i, i_lt, s) = sorted-Has by_reg f accepted in
        let equal : strcmp norm (sorted_db i).reg ≡ same =
          ap (strcmp norm) (s.reg ∙ e) ∙ strcmp_self norm in
        finds.miss by_reg.ordered refl i i_lt equal
    found-IsAddress norm (some i) finds =
        let (i_lt, equal) = finds.hit i refl in
        let (f, accepted, s) = sorted-Accepted by_reg i i_lt in
        (f, accepted, sym s.reg ∙ sym (strcmp-same norm (sorted_db i).reg equal), s.hex)

    -- After a load, by a registration: nothing is found only if no accepted line has the same
    -- normalized registration, and the address found is that of an accepted line that has it.
    pub aircraft_db_lookup-IsAddress :
        (registration : List ℕ)
        → Finds entry_cmp (reg_key (normalize_reg 12 registration)) read.db_count sorted_db (
            bsearch Entry entry_cmp
              (reg_key (normalize_reg 12 registration))
              read.db_count
              sorted_db)
        → IsAddress (normalize_reg 12 registration) (aircraft_db_lookup bsearch loaded registration)
    unfolding aircraft_db_lookup aircraft_db_load
    aircraft_db_lookup-IsAddress registration finds =
        let norm = normalize_reg 12 registration in
        let empty : Bool = read.db_count == 0 || length registration == 0 || length norm == 0 in
        elim (Bool-cases empty) [
          | inl nothing ↦ rw nothing (λ f accepted e.
              let (i, i_lt, s) = load_lines-Has destroyed lines f accepted in
              let named = parse_line-reg (c_string accepted.0) f accepted.2 in
              let same_length : length f.reg ≡ length norm = ap length e in
              absurd
                (ground (arith, nothing, i_lt, named, same_length, normalize_reg-nil registration)))
          | inr full ↦ rw full (found-IsAddress norm _ finds)
        ]
