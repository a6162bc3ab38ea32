-- ===== src/Stdc/Text/Filter.antt =====
-- What the text loops keep of a payload.
use inmarsat_sniffer.Base.{
  ℕ, zero, suc, ◌+◌, ◌-◌, ◌≤◌, ◌≡◌, ◌≢◌, refl, ap, bit_and, Bool, List, [], ◌∷◌, ◌==◌,
  if◌then◌else◌, take, length, arith, ltb, not, ◌||◌,
}
use inmarsat_sniffer.Stdc.Text.{is_ia5, extract_ia5_text, is_short_text, extract_short_text}

-- The payload with the top bit of each byte cleared.
unfoldable pub seven_bit : (ℕ → ℕ) → ℕ → ℕ → List ℕ
seven_bit read src zero = []
seven_bit read src (suc len) = bit_and (read src) 0x7F ∷ seven_bit read (src + 1) len

-- What stands before the first ETX.
unfoldable pub before_etx : List ℕ → List ℕ
before_etx [] = []
before_etx (c ∷ cs) = if c == 3 then [] else c ∷ before_etx cs

unfoldable pub keep : (ℕ → Bool) → List ℕ → List ℕ
keep test [] = []
keep test (c ∷ cs) = if test c then c ∷ keep test cs else keep test cs

-- A 7-bit code that is no control character, or is a tab, a line feed or a carriage return.
abbrev pub is_text : ℕ → Bool
is_text c = not (ltb c 32) || (c == 9 || c == 10 || c == 13)

is_ia5-is_text : (c : ℕ) → is_ia5 c ≡ is_text c
unfolding is_ia5
is_ia5-is_text c = ground arith

take-zero : (xs : List ℕ) → take 0 xs ≡ []
take-zero xs = refl

take-room : (room c : ℕ) (cs : List ℕ) → room ≢ 0 → take room (c ∷ cs) ≡ c ∷ take (room - 1) cs
take-room zero c cs h = absurd (h refl)
take-room (suc n) c cs h = ap (λ k. c ∷ take k cs) (omega arith)

-- `extract_ia5_text` keeps, of the 7-bit codes that stand before the first ETX, those from 0x20 on and the
-- tabs, line feeds and carriage returns, in order, as many as there is room for.
pub extract_ia5_text-eq :
    (read : ℕ → ℕ) (src len room : ℕ)
    → extract_ia5_text read src len room
      ≡ take room (keep is_text (before_etx (seven_bit read src len)))
unfolding extract_ia5_text seven_bit before_etx keep
extract_ia5_text-eq read src zero zero = refl
extract_ia5_text-eq read src zero (suc room) = refl
extract_ia5_text-eq read src (suc len) zero = refl
extract_ia5_text-eq read src (suc len) (suc room) = ground (
  arith,
  is_ia5-is_text (bit_and (read src) 0x7F),
  extract_ia5_text-eq read (src + 1) len room,
  extract_ia5_text-eq read (src + 1) len (suc room),
)

pub extract_short_text-eq :
    (read : ℕ → ℕ) (src len room : ℕ)
    → extract_short_text read src len room ≡ take room (keep is_short_text (seven_bit read src len))
unfolding extract_short_text seven_bit keep is_short_text
extract_short_text-eq read src zero zero = refl
extract_short_text-eq read src zero (suc room) = refl
extract_short_text-eq read src (suc len) zero = refl
extract_short_text-eq read src (suc len) (suc room) = ground (
  arith,
  extract_short_text-eq read (src + 1) len room,
  extract_short_text-eq read (src + 1) len (suc room),
)

-- The text fits the room that it is given.
pub length-extract_ia5_text :
    (read : ℕ → ℕ) (src len room : ℕ) → length (extract_ia5_text read src len room) ≤ room
unfolding extract_ia5_text
length-extract_ia5_text read src zero room = omega arith
length-extract_ia5_text read src (suc len) room = ground (
  arith,
  length-extract_ia5_text read (src + 1) len room,
  length-extract_ia5_text read (src + 1) len (room - 1),
)
