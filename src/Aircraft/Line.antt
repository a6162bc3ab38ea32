-- ===== src/Aircraft/Line.antt =====
-- One line of the file: its fields, and whether it is accepted.
use inmarsat_sniffer.Base.{
  ℕ, zero, suc, ◌-◌, ◌==◌, leb, if◌then◌else◌, Bool, true, false, not, ◌&&◌, ◌||◌, List, [], ◌∷◌,
  Option, none, some, length, get_elem?,
}
use inmarsat_sniffer.Text.{cut_at, toupper}

-- `while (*src == '.') src++`
unfoldable pub skip_dots : List ℕ → List ℕ
skip_dots [] = []
skip_dots (c ∷ src) = let rest = skip_dots src in if c == b'.' then rest else c ∷ src

-- The loop of `normalize_reg`, with room for so many bytes more.
unfoldable pub copy_reg : ℕ → List ℕ → List ℕ
copy_reg room [] = []
copy_reg zero (c ∷ src) = []
copy_reg (suc room) (c ∷ src) = elim (c == b'-' || c == b' ') [
  | true ↦ copy_reg (suc room) src
  | false ↦ toupper c ∷ copy_reg room src
]

unfoldable pub normalize_reg : ℕ → List ℕ → List ℕ
normalize_reg dstlen src = copy_reg (dstlen - 1) (skip_dots src)

-- The byte goes in front of the first field.
abbrev pub extend : ℕ → List (List ℕ) → List (List ℕ)
extend c [] = (c ∷ []) ∷ []
extend c (field ∷ fields) = (c ∷ field) ∷ fields

-- The loop that splits the line at `;`, with room for so many fields more.
unfoldable pub split_fields : ℕ → List ℕ → List (List ℕ)
split_fields room [] = [] ∷ []
split_fields zero (c ∷ line) = (c ∷ line) ∷ []
split_fields (suc room) (c ∷ line) = elim (c == b';') [
  | true ↦ [] ∷ split_fields room line
  | false ↦ extend c (split_fields (suc room) line)
]

-- The newline and the carriage return are cut off the last field.
unfoldable pub strip_last : List (List ℕ) → List (List ℕ)
strip_last [] = []
strip_last (field ∷ []) = cut_at 13 (cut_at 10 field) ∷ []
strip_last (field ∷ next ∷ fields) = field ∷ strip_last (next ∷ fields)

unfoldable pub is_hex : ℕ → Bool
is_hex c = (leb b'0' c && leb c b'9') || (leb b'A' c && leb c b'F') || (leb b'a' c && leb c b'f')

unfoldable pub all_hex : List ℕ → Bool
all_hex [] = true
all_hex (c ∷ s) = is_hex c && all_hex s

-- What the loop stores of an accepted line.
pub record Fields : Type 0 where
  pub hex : List ℕ
  pub reg : List ℕ
  pub type : Option (List ℕ)
  pub desc : Option (List ℕ)
  pub op : Option (List ℕ)

-- A field that the line does not have is null, which is not told from an empty one below.
abbrev pub or_empty : Option (List ℕ) → List ℕ
or_empty none = []
or_empty (some s) = s

unfoldable pub parse_line : List ℕ → Option Fields
parse_line line =
    let fields = strip_last (split_fields 7 line) in
    let hex_field = or_empty (get_elem? fields 0) in
    let reg_field = or_empty (get_elem? fields 1) in
    let reg = normalize_reg 12 reg_field in
    if not (length hex_field == 6)
      || not (all_hex hex_field)
      || length reg_field == 0
      || length reg == 0
    then none
    else some (record {
      hex = hex_field;
      reg = reg;
      type = get_elem? fields 2;
      desc = get_elem? fields 4;
      op = get_elem? fields 6;
    })
