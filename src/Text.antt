-- ===== src/Text.antt =====
-- The functions of the C library on strings that the text parsers use. A string is the list of its
-- bytes before the NUL, and reading the list past its end gives the NUL.
use inmarsat_sniffer.Base.{
  ℕ, zero, suc, ◌+◌, ◌-◌, ◌==◌, leb, if◌then◌else◌, Bool, true, ◌&&◌, List, [], ◌∷◌, Option, at,
  length,
}
use inmarsat_sniffer.Base.Loops.{search_first}

-- `strncmp(text + i, pattern, n) == 0`, with `n` the length of the pattern.
unfoldable pub starts_with : List ℕ → ℕ → List ℕ → Bool
starts_with text i [] = true
starts_with text i (c ∷ pattern) = at text i == c && starts_with text (i + 1) pattern

-- `strstr(text + i, pattern)`, as a position in `text`.
unfoldable pub strstr : List ℕ → ℕ → List ℕ → Option ℕ
strstr text i pattern = search_first (λ k. starts_with text k pattern) (length text - i) i

unfoldable pub is_digit : ℕ → Bool
is_digit c = leb b'0' c && leb c b'9'

unfoldable pub is_upper : ℕ → Bool
is_upper c = leb b'A' c && leb c b'Z'

-- `text[i] - '0'`
abbrev pub digit : List ℕ → ℕ → ℕ
digit text i = at text i - b'0'

-- How many digits stand from `i` on, at most `room`.
unfoldable pub count_digits : List ℕ → ℕ → ℕ → ℕ
count_digits text zero i = 0
count_digits text (suc room) i =
    let rest = count_digits text room (i + 1) in if is_digit (at text i) then suc rest else 0

unfoldable pub toupper : ℕ → ℕ
toupper c = if leb b'a' c && leb c b'z' then c - 32 else c

-- `nl = strchr(s, c); if (nl) *nl = '\0';`
unfoldable pub cut_at : ℕ → List ℕ → List ℕ
cut_at c [] = []
cut_at c (d ∷ s) = let rest = cut_at c s in if d == c then [] else d ∷ rest

-- The C string in a buffer: its bytes before the first NUL.
abbrev pub c_string : List ℕ → List ℕ
c_string s = cut_at 0 s
