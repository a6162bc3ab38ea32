-- ===== src/Aircraft/Strings.antt =====
-- The buffer of strings: a text that is added is read back, whatever is added later.
use inmarsat_sniffer.Base.{
  ℕ, ◌-◌, ◌%◌, ◌^◌, ◌<◌, ltb, if◌then◌else◌, ◌≡◌, refl, sym, ap, ◌∙◌, arith, List, [], ◌∷◌, ◌++◌,
  Option, none, some, length, drop, ◌≤◌, length-append,
}
use mathlib.Core.List.{append_assoc, append-nil}
use inmarsat_sniffer.Base.Int.{ℤ, pos, negsuc}
use inmarsat_sniffer.Text.{cut_at, c_string}

-- `(int) n`: the lower 32 bits, in two's complement.
unfoldable pub to_int : ℕ → ℤ
to_int n = if ltb (n % 2 ^ 32) (2 ^ 31) then pos (n % 2 ^ 32) else negsuc (2 ^ 32 - 1 - n % 2 ^ 32)

-- The index of the text, which is the `int` of the length before it or -1, and the buffer after it.
unfoldable pub append_text : List ℕ → List ℕ → ℤ × List ℕ
append_text strings [] = (negsuc 0, strings)
append_text strings (c ∷ text) = (to_int (length strings), strings ++ ((c ∷ text) ++ (0 ∷ [])))

unfoldable pub strings_add : List ℕ → Option (List ℕ) → ℤ × List ℕ
strings_add strings none = (negsuc 0, strings)
strings_add strings (some s) = append_text strings (c_string s)

-- `strings`, once a file is loaded, is not `NULL`.
unfoldable pub strings_get : List ℕ → ℤ → Option (List ℕ)
strings_get strings (pos i) = some (c_string (drop i strings))
strings_get strings (negsuc n) = none

-- A text that is not empty.
abbrev pub non_empty : List ℕ → Option (List ℕ)
non_empty [] = none
non_empty (c ∷ text) = some (c ∷ text)

-- What a field says: a missing and an empty one say nothing.
unfoldable pub said : Option (List ℕ) → Option (List ℕ)
said none = none
said (some s) = non_empty (c_string s)

drop-append : (s t : List ℕ) → drop (length s) (s ++ t) ≡ t
drop-append [] t = refl
drop-append (c ∷ s) t = drop-append s t

c_string-again : (s t : List ℕ) → c_string (c_string s ++ (0 ∷ t)) ≡ c_string s
unfolding cut_at
c_string-again [] t = refl
c_string-again (c ∷ s) t = ground (arith, c_string-again s t)

to_int-fits : (n : ℕ) → n < 2 ^ 31 → to_int n ≡ pos n
unfolding to_int
to_int-fits n h = let whole : n % 2 ^ 32 ≡ n = omega arith in rw whole (ground (arith, h))

append_text-get :
    (strings text later : List ℕ)
    → length strings < 2 ^ 31
    → ((t : List ℕ) → c_string (text ++ (0 ∷ t)) ≡ text)
    → strings_get ((append_text strings text).1 ++ later) (append_text strings text).0
      ≡ non_empty text
unfolding strings_get append_text
append_text-get strings [] later fits clean = refl
append_text-get strings (c ∷ text) later fits clean =
    let there : drop (length strings) (strings ++ ((c ∷ text) ++ (0 ∷ [])) ++ later)
        ≡ (c ∷ text) ++ (0 ∷ later) =
      ap (drop (length strings)) (append_assoc strings ((c ∷ text) ++ (0 ∷ [])) later)
      ∙ drop-append strings (((c ∷ text) ++ (0 ∷ [])) ++ later)
      ∙ append_assoc (c ∷ text) (0 ∷ []) later in
    rw (to_int-fits (length strings) fits)
      (ap (λ s. some (c_string s)) there ∙ ap some (clean later))

-- A field that is added where the buffer holds less than 2 GiB is read back, whatever is added after it.
pub strings_get-strings_add :
    (strings : List ℕ) (field : Option (List ℕ)) (later : List ℕ)
    → length strings < 2 ^ 31
    → strings_get ((strings_add strings field).1 ++ later) (strings_add strings field).0
      ≡ said field
unfolding strings_add said
strings_get-strings_add strings none later fits = unfold strings_get in refl
strings_get-strings_add strings (some s) later fits =
    append_text-get strings (c_string s) later fits (c_string-again s)

append_text-grows :
    (strings text : List ℕ) → (more : List ℕ) × ((append_text strings text).1 ≡ strings ++ more)
unfolding append_text
append_text-grows strings [] = ([], sym (append-nil strings))
append_text-grows strings (c ∷ text) = ((c ∷ text) ++ (0 ∷ []), refl)

-- The buffer only grows.
pub strings_add-grows :
    (strings : List ℕ) (field : Option (List ℕ))
    → (more : List ℕ) × ((strings_add strings field).1 ≡ strings ++ more)
unfolding strings_add
strings_add-grows strings none = ([], sym (append-nil strings))
strings_add-grows strings (some s) = append_text-grows strings (c_string s)

pub length-strings_add :
    (strings : List ℕ) (field : Option (List ℕ))
    → length strings ≤ length (strings_add strings field).1
length-strings_add strings field =
    let (more, e) = strings_add-grows strings field in
    omega (arith, ap length e, length-append strings more)

-- An index is into the buffer where the buffer after it has at most 2 GiB.
pub strings_get-added :
    (strings : List ℕ) (field : Option (List ℕ)) (later : List ℕ)
    → length (strings_add strings field).1 ≤ 2 ^ 31
    → strings_get ((strings_add strings field).1 ++ later) (strings_add strings field).0
      ≡ said field
unfolding strings_add append_text said
strings_get-added strings none later fits = unfold strings_get in refl
strings_get-added strings (some s) later fits = go (c_string s) (c_string-again s) fits
  where
    go :
        (text : List ℕ)
        → ((t : List ℕ) → c_string (text ++ (0 ∷ t)) ≡ text)
        → length (append_text strings text).1 ≤ 2 ^ 31
        → strings_get ((append_text strings text).1 ++ later) (append_text strings text).0
          ≡ non_empty text
    go [] clean h = unfold strings_get in refl
    go (c ∷ text) clean h =
        append_text-get strings (c ∷ text) later
          (omega (arith, h, length-append strings ((c ∷ text) ++ (0 ∷ [])))) clean
