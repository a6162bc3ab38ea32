-- ===== src/Aircraft/Address.antt =====
-- Addresses of 24 bits and their six hexadecimal digits.
use inmarsat_sniffer.Base.{
  ℕ, ◌+◌, ◌-◌, ◌*◌, ◌/◌, ◌%◌, ◌^◌, ◌<◌, ◌≡◌, ◌↔◌, at, refl, sym, ap, ◌∙◌, arith, true, leb,
  if◌then◌else◌, List, [], ◌∷◌, map, length,
}
use inmarsat_sniffer.Text.{toupper}
use inmarsat_sniffer.Aircraft.Line.{is_hex, all_hex}
use inmarsat_sniffer.Aircraft.{hex_digit, hex_24}

-- The value of a digit of either case, and of a text of digits.
abbrev pub digit_value : ℕ → ℕ
digit_value c = if leb c b'9' then c - b'0' else if leb c b'F' then c - 55 else c - 87

abbrev pub value_from : ℕ → List ℕ → ℕ
value_from v [] = v
value_from v (c ∷ s) = value_from (v * 16 + digit_value c) s

abbrev pub hex_value : List ℕ → ℕ
hex_value s = value_from 0 s

digit_value-lt : (c : ℕ) → is_hex c ≡ true → digit_value c < 16
unfolding is_hex
digit_value-lt c h = ground (arith, h)

hex_digit-value : (c : ℕ) → is_hex c ≡ true → hex_digit (digit_value c) ≡ toupper c
unfolding is_hex hex_digit toupper
hex_digit-value c h = ground (arith, h)

value-hex_digit : (n : ℕ) → n < 16 → digit_value (hex_digit n) ≡ n
unfolding hex_digit
value-hex_digit n h = ground (arith, h)

value-upper : (c : ℕ) → is_hex c ≡ true → digit_value (toupper c) ≡ digit_value c
unfolding is_hex toupper
value-upper c h = ground (arith, h)

is_hex-hex_digit : (n : ℕ) → n < 16 → is_hex (hex_digit n) ≡ true
unfolding is_hex hex_digit
is_hex-hex_digit n h = ground (arith, h)

upper-hex_digit : (n : ℕ) → n < 16 → toupper (hex_digit n) ≡ hex_digit n
unfolding hex_digit toupper
upper-hex_digit n h = ground (arith, h)

-- The digits of a number, most significant first.
digits-sum :
    (n : ℕ)
    → ((((n / 1048576 % 16 * 16 + n / 65536 % 16) * 16 + n / 4096 % 16) * 16 + n / 256 % 16) * 16
            + n / 16 % 16)
          * 16
        + n % 16
      ≡ n % 16777216
digits-sum n = omega arith

pub length-hex_24 : (aes_id : ℕ) → length (hex_24 aes_id) ≡ 6
unfolding hex_24
length-hex_24 aes_id = refl

pub all_hex-hex_24 : (aes_id : ℕ) → all_hex (hex_24 aes_id) ≡ true
unfolding hex_24 all_hex
all_hex-hex_24 aes_id = ground (
  arith,
  is_hex-hex_digit (aes_id / 1048576 % 16) (omega arith),
  is_hex-hex_digit (aes_id / 65536 % 16) (omega arith),
  is_hex-hex_digit (aes_id / 4096 % 16) (omega arith),
  is_hex-hex_digit (aes_id / 256 % 16) (omega arith),
  is_hex-hex_digit (aes_id / 16 % 16) (omega arith),
  is_hex-hex_digit (aes_id / 1 % 16) (omega arith),
)

pub upper-hex_24 : (aes_id : ℕ) → map toupper (hex_24 aes_id) ≡ hex_24 aes_id
unfolding hex_24
upper-hex_24 aes_id = cc (
  upper-hex_digit (aes_id / 1048576 % 16) (omega arith),
  upper-hex_digit (aes_id / 65536 % 16) (omega arith),
  upper-hex_digit (aes_id / 4096 % 16) (omega arith),
  upper-hex_digit (aes_id / 256 % 16) (omega arith),
  upper-hex_digit (aes_id / 16 % 16) (omega arith),
  upper-hex_digit (aes_id / 1 % 16) (omega arith),
)

digit-read : (c n : ℕ) → is_hex c ≡ true → n < 16 → toupper c ≡ hex_digit n → digit_value c ≡ n
digit-read c n h lt e = sym (value-upper c h) ∙ ap digit_value e ∙ value-hex_digit n lt

digit-printed : (c n : ℕ) → is_hex c ≡ true → digit_value c ≡ n → hex_digit n ≡ toupper c
digit-printed c n h e = ap hex_digit (sym e) ∙ hex_digit-value c h

-- Six digits as a number.
digits-of :
    (a b c d e f n : ℕ)
    → a < 16
    → b < 16
    → c < 16
    → d < 16
    → e < 16
    → f < 16
    → ((((a * 16 + b) * 16 + c) * 16 + d) * 16 + e) * 16 + f ≡ n % 16777216
    → (a ≡ n / 1048576 % 16)
      × (b ≡ n / 65536 % 16)
      × (c ≡ n / 4096 % 16)
      × (d ≡ n / 256 % 16)
      × (e ≡ n / 16 % 16)
      × (f ≡ n / 1 % 16)
digits-of a b c d e f n ha hb hc hd he hf h =
    (omega arith, omega arith, omega arith, omega arith, omega arith, omega arith)

-- A text of six digits.
pub record Six (s : List ℕ) : Type 0 where
  a : ℕ
  b : ℕ
  c : ℕ
  d : ℕ
  e : ℕ
  f : ℕ
  digits :
      (is_hex a ≡ true)
      × (is_hex b ≡ true)
      × (is_hex c ≡ true)
      × (is_hex d ≡ true)
      × (is_hex e ≡ true)
      × (is_hex f ≡ true)
  written : s ≡ a ∷ b ∷ c ∷ d ∷ e ∷ f ∷ []

all_hex-Six : (s : List ℕ) → length s ≡ 6 → all_hex s ≡ true → Six s
unfolding all_hex
all_hex-Six (a ∷ b ∷ c ∷ d ∷ e ∷ f ∷ []) six h = record {
  a = a;
  b = b;
  c = c;
  d = d;
  e = e;
  f = f;
  digits = ground (arith, h);
  written = refl;
}
all_hex-Six (a ∷ b ∷ c ∷ d ∷ e ∷ f ∷ g ∷ s) six h = absurd (omega (arith, six))
all_hex-Six (a ∷ b ∷ c ∷ d ∷ e ∷ []) six h = absurd (omega (arith, six))
all_hex-Six (a ∷ b ∷ c ∷ d ∷ []) six h = absurd (omega (arith, six))
all_hex-Six (a ∷ b ∷ c ∷ []) six h = absurd (omega (arith, six))
all_hex-Six (a ∷ b ∷ []) six h = absurd (omega (arith, six))
all_hex-Six (a ∷ []) six h = absurd (omega (arith, six))
all_hex-Six [] six h = absurd (omega (arith, six))

module _ (a b c d e f n : ℕ) (ha : is_hex a ≡ true) (hb : is_hex b ≡ true) (hc : is_hex c ≡ true)
    (hd : is_hex d ≡ true) (he : is_hex e ≡ true) (hf : is_hex f ≡ true) where
  abbrev text : List ℕ
  text = a ∷ b ∷ c ∷ d ∷ e ∷ f ∷ []

  text-value : map toupper text ≡ hex_24 n → hex_value text ≡ n % 16777216
  unfolding hex_24
  text-value same =
      let read_digit : (k x m : ℕ)
          → is_hex x ≡ true
          → m < 16
          → at (map toupper text) k ≡ toupper x
          → at (hex_24 n) k ≡ hex_digit m
          → digit_value x ≡ m =
        λ k x m h lt here there. digit-read x m h lt (sym here ∙ ap (λ l. at l k) same ∙ there) in
      omega (
        arith,
        digits-sum n,
        read_digit 0 a (n / 1048576 % 16) ha (omega arith) refl refl,
        read_digit 1 b (n / 65536 % 16) hb (omega arith) refl refl,
        read_digit 2 c (n / 4096 % 16) hc (omega arith) refl refl,
        read_digit 3 d (n / 256 % 16) hd (omega arith) refl refl,
        read_digit 4 e (n / 16 % 16) he (omega arith) refl refl,
        read_digit 5 f (n / 1 % 16) hf (omega arith) refl refl,
      )

  text-printed : hex_value text ≡ n % 16777216 → map toupper text ≡ hex_24 n
  unfolding hex_24
  text-printed value =
      let (ea, eb, ec, ed, ee, ef) =
        digits-of _ _ _ _ _ _ n (digit_value-lt a ha) (digit_value-lt b hb) (digit_value-lt c hc)
          (digit_value-lt d hd) (digit_value-lt e he) (digit_value-lt f hf)
          (omega (arith, value)) in
      cc (
        digit-printed a _ ha ea,
        digit-printed b _ hb eb,
        digit-printed c _ hc ec,
        digit-printed d _ hd ed,
        digit-printed e _ he ee,
        digit-printed f _ hf ef,
      )

-- Six digits of either case are those of the lower 24 bits of a number where they have that value.
pub hex_24_iff :
    (s : List ℕ) (n : ℕ)
    → length s ≡ 6
    → all_hex s ≡ true
    → (map toupper s ≡ hex_24 n) ↔ (hex_value s ≡ n % 2 ^ 24)
hex_24_iff s n six h =
    let t = all_hex-Six s six h in
    let (ha, hb, hc, hd, he, hf) = t.digits in
    (
      λ same.
          ap hex_value t.written
          ∙ text-value t.a t.b t.c t.d t.e t.f n ha hb hc hd he hf
              (ap (map toupper) (sym t.written) ∙ same),
      λ value.
          ap (map toupper) t.written
          ∙ text-printed t.a t.b t.c t.d t.e t.f n ha hb hc hd he hf
              (ap hex_value (sym t.written) ∙ value),
    )
