-- ===== src/Stdc/Text.antt =====
-- The text loops of stdc_decode.c: `extract_ia5_text`, and the one that `decode_individual_poll` and
-- `decode_confirmation` both write out. A buffer is the function that reads it; `room` is the space
-- left in the output, its final NUL not counted. The result is what is written before the NUL.
pub mod Filter
use inmarsat_sniffer.Base.{
  ℕ, zero, suc, ◌+◌, ◌-◌, bit_and, Bool, ◌||◌, List, [], ◌∷◌, leb, ◌==◌, if◌then◌else◌,
}

unfoldable pub is_ia5 : ℕ → Bool
is_ia5 c = leb 0x20 c || c == 10 || c == 13 || c == 9

unfoldable pub extract_ia5_text : (ℕ → ℕ) → ℕ → ℕ → ℕ → List ℕ
extract_ia5_text read src zero room = []
extract_ia5_text read src (suc len) room =
    let c = bit_and (read src) 0x7F in
    let rest = extract_ia5_text read (src + 1) len (if is_ia5 c then room - 1 else room) in
    if room == 0 then [] else if is_ia5 c then c ∷ rest else if c == 3 then [] else rest

unfoldable pub is_short_text : ℕ → Bool
is_short_text c = leb 0x20 c || c == 10 || c == 13

unfoldable pub extract_short_text : (ℕ → ℕ) → ℕ → ℕ → ℕ → List ℕ
extract_short_text read src zero room = []
extract_short_text read src (suc len) room =
    let c = bit_and (read src) 0x7F in
    let rest = extract_short_text read (src + 1) len (if is_short_text c then room - 1 else room) in
    if room == 0 then [] else if is_short_text c then c ∷ rest else rest
