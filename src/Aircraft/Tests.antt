-- ===== src/Aircraft/Tests.antt =====
-- Runs of aircraft_db.c, and the theorems of this folder at concrete inputs.
use inmarsat_sniffer.Base.{
  ℕ, ◌-◌, ◌^◌, ◌≤◌, arith, length, ◌≡◌, refl, true, List, [], ◌∷◌, ◌++◌, Option, some, none, map,
}
use inmarsat_sniffer.Base.Int.{negsuc}
use inmarsat_sniffer.Base.Text.{codes}
use inmarsat_sniffer.Base.Loops.{search_first}
use inmarsat_sniffer.Base.Sorting.{strcmp, Sorts}
use inmarsat_sniffer.Base.Sorting.Small.{
  sort_two, sort_two-Sorts, strcmp-swap_greater, linear_search, linear_search-Finds,
}
use inmarsat_sniffer.Text.{cut_at, toupper}
use inmarsat_sniffer.Aircraft.Line.{
  skip_dots, copy_reg, normalize_reg, split_fields, strip_last, is_hex, all_hex, parse_line,
}
use inmarsat_sniffer.Aircraft.Strings.{
  to_int, append_text, strings_add, strings_get, said, strings_get-strings_add,
}
use inmarsat_sniffer.Aircraft.{
  Entry, Db, Info, info, entry_cmp, by_hex_cmp, destroyed, add_entry, load_line, load_lines, search,
  key_hex, aircraft_db_load, aircraft_db_lookup_by_hex, hex_digit, hex_24,
  aircraft_db_lookup_by_aes, reg_key, aircraft_db_lookup,
}
use inmarsat_sniffer.Aircraft.Lookup.{
  Sorted, IsReport, IsAesReport, IsAddress, aircraft_db_lookup_by_hex-IsReport,
  aircraft_db_lookup_by_aes-IsAesReport, aircraft_db_lookup-IsAddress,
}

-- Two accepted lines out of order, and one that is refused.
abbrev file : List (List ℕ)
file =
    (codes "a98539;N712TW;B752;00;BOEING 757;1996;DELTA;\n")
    ∷ (codes "nothex;N1;;;;;;\n")
    ∷ (codes "3C6444;D-AIBD;A319;00;AIRBUS;;\n")
    ∷ []

abbrev table : Db
table = aircraft_db_load sort_two file

abbrev read : Db
read = load_lines destroyed file

found_by_hex :
    aircraft_db_lookup_by_hex [] table (codes "3c6444")
    ≡ some (
        some (record {
          registration = codes "DAIBD";
          type = some (codes "A319");
          description = some (codes "AIRBUS");
          operator = none;
        }))
unfolding to_int aircraft_db_lookup_by_hex aircraft_db_load load_lines load_line add_entry
    parse_line split_fields strip_last normalize_reg skip_dots copy_reg all_hex is_hex strings_add
    append_text strings_get cut_at toupper search key_hex strcmp info
found_by_hex = refl

not_found_by_aes : aircraft_db_lookup_by_aes [] table 5 ≡ some none
unfolding aircraft_db_lookup_by_aes hex_24 hex_digit aircraft_db_lookup_by_hex aircraft_db_load
    load_lines load_line add_entry parse_line split_fields strip_last normalize_reg skip_dots
    copy_reg all_hex is_hex strings_add append_text strings_get cut_at toupper search key_hex strcmp
    info
not_found_by_aes = refl

found_by_reg : aircraft_db_lookup linear_search table (codes ".d-aibd") ≡ some (codes "3C6444")
unfolding aircraft_db_lookup aircraft_db_load load_lines load_line add_entry parse_line split_fields
    strip_last normalize_reg skip_dots copy_reg all_hex is_hex strings_add append_text cut_at
    toupper strcmp search_first
found_by_reg = refl

strings_get-strings_add_example :
    strings_get
      ((strings_add (codes "B738") (some (codes "DELTA"))).1 ++ codes "A319")
      (strings_add (codes "B738") (some (codes "DELTA"))).0
    ≡ said (some (codes "DELTA"))
strings_get-strings_add_example =
    strings_get-strings_add (codes "B738") (some (codes "DELTA")) (codes "A319") (omega arith)

-- Past 2 GiB the index is negative, and from 4 GiB on it starts again.
wrapped : to_int (2 ^ 31) ≡ negsuc (2 ^ 31 - 1)
unfolding to_int
wrapped = refl

file-fits : length read.strings ≤ 2 ^ 31
unfolding load_lines load_line add_entry parse_line split_fields strip_last normalize_reg skip_dots
    copy_reg all_hex is_hex strings_add append_text cut_at toupper
file-fits = omega arith

abbrev by_reg : ℕ → Entry
by_reg = sort_two Entry entry_cmp 2 read.db

by_reg-Sorts :
    Sorts entry_cmp read.db_count read.db (sort_two Entry entry_cmp read.db_count read.db)
unfolding load_lines load_line add_entry parse_line split_fields strip_last normalize_reg skip_dots
    copy_reg all_hex is_hex strings_add append_text cut_at toupper
by_reg-Sorts =
    sort_two-Sorts entry_cmp read.db (strcmp-swap_greater (read.db 0).reg (read.db 1).reg)

by_hex-Sorts :
    Sorts
      (by_hex_cmp by_reg)
      read.db_count
      (λ i. i)
      (sort_two ℕ (by_hex_cmp by_reg) read.db_count (λ i. i))
unfolding load_lines load_line add_entry parse_line split_fields strip_last normalize_reg skip_dots
    copy_reg all_hex is_hex strings_add append_text cut_at toupper
by_hex-Sorts =
    sort_two-Sorts (by_hex_cmp by_reg) (λ i. i) (strcmp-swap_greater (by_reg 0).hex (by_reg 1).hex)

file-Sorted : Sorted sort_two file
file-Sorted = (by_reg-Sorts, by_hex-Sorts)

known_hex : all_hex (codes "3c6444") ≡ true
unfolding all_hex is_hex
known_hex = refl

aircraft_db_lookup_by_hex-IsReport_example :
    (r : Option Info) × (aircraft_db_lookup_by_hex [] table (codes "3c6444") ≡ some r)
    × IsReport sort_two file (map toupper (codes "3c6444")) r
aircraft_db_lookup_by_hex-IsReport_example =
    aircraft_db_lookup_by_hex-IsReport sort_two file file-Sorted file-fits [] (codes "3c6444") refl
      known_hex

aircraft_db_lookup_by_aes-IsAesReport_example :
    (r : Option Info) × (aircraft_db_lookup_by_aes [] table 3957828 ≡ some r)
    × IsAesReport sort_two file 3957828 r
aircraft_db_lookup_by_aes-IsAesReport_example =
    aircraft_db_lookup_by_aes-IsAesReport sort_two file file-Sorted file-fits [] 3957828

aircraft_db_lookup-IsAddress_example :
    IsAddress sort_two file
      (normalize_reg 12 (codes ".d-aibd"))
      (aircraft_db_lookup linear_search table (codes ".d-aibd"))
aircraft_db_lookup-IsAddress_example =
    aircraft_db_lookup-IsAddress sort_two file linear_search by_reg-Sorts (codes ".d-aibd") (
      linear_search-Finds entry_cmp (reg_key (normalize_reg 12 (codes ".d-aibd"))) read.db_count
        by_reg)
