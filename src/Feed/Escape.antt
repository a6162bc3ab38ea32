-- ===== src/Feed/Escape.antt =====
-- A reader of JSON strings reads the text of a message back.
use inmarsat_sniffer.Base.{
  ℕ, suc, ◌+◌, ◌-◌, ◌*◌, ◌≤◌, ◌==◌, ltb, leb, ◌≡◌, refl, sym, ap, ◌∙◌, subst, arith, inl, inr, Bool,
  true, false, ◌&&◌, ◌||◌, if◌then◌else◌, List, [], ◌∷◌, ◌++◌, Option, none, some, length, take,
  length-append, Bool-cases,
}
use mathlib.Core.Option
use mathlib.Core.List.{append_assoc}
use inmarsat_sniffer.Base.Text.{codes}
use inmarsat_sniffer.Stdc.Types.{Message}
use inmarsat_sniffer.Feed.{
  escape_byte, escape_from, json_escape, Numbers, before_text, after_text, feed_stdc_message,
}

-- The byte that an escape stands for.
unfoldable pub unescape : ℕ → Option ℕ
unescape c =
    if c == b'"' || c == b'\\'
    then some c
    else if c == b'n'
    then some 10
    else if c == b'r'
    then some 13
    else if c == b't'
    then some 9
    else none

abbrev pub in_text : Option ℕ → Option (List ℕ × List ℕ) → Option (List ℕ × List ℕ)
in_text none read = none
in_text (some c) read = Option.map (λ r. (c ∷ r.0, r.1)) read

-- A reader of a JSON string behind its first quote: the text, and what follows the closing quote. A
-- control character is refused. The flag says that a backslash stands before.
unfoldable pub read_string : Bool → List ℕ → Option (List ℕ × List ℕ)
read_string escaped [] = none
read_string true (c ∷ s) = let rest = read_string false s in in_text (unescape c) rest
read_string false (c ∷ s) =
    let rest = in_text (some c) (read_string false s) in
    let escape = read_string true s in
    if c == b'"'
    then some ([], s)
    else if c == b'\\'
    then escape
    else if ltb c 0x20
    then none
    else rest

-- The bytes that are printed: seven bits, and no control characters but the three that have an escape.
unfoldable pub is_printed : ℕ → Bool
is_printed c = c == 10 || c == 13 || c == 9 || (leb 0x20 c && ltb c 0x80)

unfoldable pub printed : List ℕ → List ℕ
printed [] = []
printed (c ∷ s) = if is_printed c then c ∷ printed s else printed s

read-escape_byte :
    (c : ℕ) (t : List ℕ)
    → is_printed c ≡ true
    → read_string false (escape_byte c ++ t) ≡ in_text (some c) (read_string false t)
unfolding read_string escape_byte is_printed unescape
read-escape_byte c t h = ground (arith, h)

escape_byte-nothing : (c : ℕ) → is_printed c ≡ false → escape_byte c ≡ []
unfolding escape_byte is_printed
escape_byte-nothing c h = ground (arith, h)

length-escape_byte : (c : ℕ) → length (escape_byte c) ≤ 2
unfolding escape_byte
length-escape_byte c = ground arith

printed-yes : (c : ℕ) (s : List ℕ) → is_printed c ≡ true → printed (c ∷ s) ≡ c ∷ printed s
unfolding printed
printed-yes c s h = rw h refl

printed-no : (c : ℕ) (s : List ℕ) → is_printed c ≡ false → printed (c ∷ s) ≡ printed s
unfolding printed
printed-no c s h = rw h refl

-- One byte more in front of a text that is read.
read-more :
    (c : ℕ) (s rest t : List ℕ)
    → read_string false rest ≡ some (printed s, t)
    → read_string false (escape_byte c ++ rest) ≡ some (printed (c ∷ s), t)
read-more c s rest t e = elim (Bool-cases (is_printed c)) [
  | inl shown ↦
      read-escape_byte c rest shown
      ∙ ap (in_text (some c)) e
      ∙ ap (λ u. some (u, t)) (sym (printed-yes c s shown))
  | inr dropped ↦
      ap (λ b. read_string false (b ++ rest)) (escape_byte-nothing c dropped)
      ∙ e
      ∙ ap (λ u. some (u, t)) (sym (printed-no c s dropped))
]

-- How much of a text is read back: all of it, where twice its length fits.
abbrev IsReadBack : ℕ → ℕ → List ℕ → List ℕ → List ℕ → Type 0
IsReadBack maxlen pos s t out =
    (n : ℕ) × (read_string false (out ++ (b'"' ∷ t)) ≡ some (printed (take n s), t))
    × (pos + 2 * length s + 6 ≤ maxlen → n ≡ length s)

escape_from-nothing :
    (maxlen pos : ℕ) (c : ℕ) (s : List ℕ)
    → ltb pos (maxlen - 6) ≡ false
    → escape_from maxlen pos (c ∷ s) ≡ []
unfolding escape_from
escape_from-nothing maxlen pos c s full = rw full refl

escape_from-more :
    (maxlen pos : ℕ) (c : ℕ) (s : List ℕ)
    → ltb pos (maxlen - 6) ≡ true
    → escape_from maxlen pos (c ∷ s)
      ≡ escape_byte c ++ escape_from maxlen (pos + length (escape_byte c)) s
unfolding escape_from
escape_from-more maxlen pos c s room = rw room refl

read-quote : (t : List ℕ) → read_string false (b'"' ∷ t) ≡ some (printed [], t)
unfolding read_string printed
read-quote t = refl

escape_from-IsReadBack :
    (maxlen pos : ℕ) (s t : List ℕ) → IsReadBack maxlen pos s t (escape_from maxlen pos s)
escape_from-IsReadBack maxlen pos [] t = (0, unfold escape_from in read-quote t, λ fits. refl)
escape_from-IsReadBack maxlen pos (c ∷ s) t = elim (Bool-cases (ltb pos (maxlen - 6))) [
  | inr full ↦
      subst (IsReadBack maxlen pos (c ∷ s) t) (sym (escape_from-nothing maxlen pos c s full))
        (0, read-quote t, λ fits. absurd (ground (arith, full, fits)))
  | inl room ↦
      let size = length-escape_byte c in
      let rest = escape_from maxlen (pos + length (escape_byte c)) s in
      let (n, e, whole) = escape_from-IsReadBack maxlen (pos + length (escape_byte c)) s t in
      let read =
        ap (read_string false) (append_assoc (escape_byte c) rest (b'"' ∷ t))
        ∙ read-more c (take n s) (rest ++ (b'"' ∷ t)) t e in
      subst (IsReadBack maxlen pos (c ∷ s) t) (sym (escape_from-more maxlen pos c s room))
        (suc n, read, λ fits. ap suc (whole (omega (arith, size, fits))))
]

-- The output of `json_escape` and its NUL are within the buffer.
escape_from-fits :
    (maxlen pos : ℕ) (s : List ℕ)
    → 6 ≤ maxlen
    → pos ≤ maxlen - 5
    → pos + length (escape_from maxlen pos s) ≤ maxlen - 5
escape_from-fits maxlen pos [] h k = unfold escape_from in omega arith
escape_from-fits maxlen pos (c ∷ s) h k = elim (Bool-cases (ltb pos (maxlen - 6))) [
  | inr full ↦ omega (arith, ap length (escape_from-nothing maxlen pos c s full))
  | inl room ↦
      let size = length-escape_byte c in
      let rest = escape_from maxlen (pos + length (escape_byte c)) s in
      let more =
        escape_from-fits maxlen (pos + length (escape_byte c)) s h (ground (arith, room, size)) in
      omega (
        arith,
        ap length (escape_from-more maxlen pos c s room),
        length-append (escape_byte c) rest,
        more,
      )
]

-- The output of `json_escape` and the NUL behind it fit a buffer of at least six bytes, whatever the text.
pub json_escape-fits :
    (maxlen : ℕ) (s : List ℕ) → 6 ≤ maxlen → length (json_escape maxlen s) + 1 ≤ maxlen
unfolding json_escape
json_escape-fits maxlen s h = omega (arith, escape_from-fits maxlen 0 s h (omega arith))

-- A line that is sent of an STD-C message holds its text as a JSON string: behind `"text":"` a reader finds
-- the printed bytes of the text, cut only if the text is longer than 2045 bytes, and then what the line
-- ends with.
pub feed_stdc_message-text :
    (num : Numbers) (satellite_name : Option (List ℕ)) (msg : Message) (json : List ℕ)
    → feed_stdc_message num satellite_name msg ≡ some json
    → (rest : List ℕ) × (n : ℕ) × (json
        ≡ before_text num satellite_name msg ++ (codes ",\"text\":\"" ++ rest))
      × (read_string false rest
          ≡ some (printed (take n (take msg.text_len msg.text)), after_text num satellite_name msg))
      × (length (take msg.text_len msg.text) ≤ 2045 → n ≡ length (take msg.text_len msg.text))
unfolding feed_stdc_message json_escape
feed_stdc_message-text num satellite_name msg json e =
    let text = take msg.text_len msg.text in
    let escaped = escape_from 4096 0 text in
    let rest = escaped ++ (b'"' ∷ after_text num satellite_name msg) in
    let (n, read, whole) = escape_from-IsReadBack 4096 0 text (after_text num satellite_name msg) in
    let sent : before_text num satellite_name msg ++ (codes ",\"text\":\"" ++ rest) ≡ json =
      ground (arith, e) in
    (rest, n, sym sent, read, λ short. whole (omega (arith, short)))
