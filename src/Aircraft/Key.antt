-- ===== src/Aircraft/Key.antt =====
-- The key of the search by address.
use inmarsat_sniffer.Base.{
  ℕ, zero, suc, ◌==◌, ◌≡◌, refl, ap, ◌∙◌, arith, true, false, List, [], ◌∷◌, ◌++◌, map, length,
  take, drop, length-map,
}
use inmarsat_sniffer.Text.{cut_at, c_string, toupper}
use inmarsat_sniffer.Aircraft.Line.{is_hex, all_hex}
use inmarsat_sniffer.Aircraft.{key_hex}

take-prefix : (s t : List ℕ) (n : ℕ) → length s ≡ n → take n (s ++ t) ≡ s
take-prefix [] t zero e = refl
take-prefix [] t (suc n) e = absurd (omega (arith, e))
take-prefix (c ∷ s) t zero e = absurd (omega (arith, e))
take-prefix (c ∷ s) t (suc n) e = ap (λ r. c ∷ r) (take-prefix s t n (omega (arith, e)))

take-all : (s : List ℕ) (n : ℕ) → length s ≡ n → take n s ≡ s
take-all [] zero e = refl
take-all [] (suc n) e = absurd (omega (arith, e))
take-all (c ∷ s) zero e = absurd (omega (arith, e))
take-all (c ∷ s) (suc n) e = ap (λ r. c ∷ r) (take-all s n (omega (arith, e)))

c_string-upper : (s : List ℕ) → all_hex s ≡ true → c_string (map toupper s) ≡ map toupper s
unfolding all_hex is_hex cut_at toupper
c_string-upper [] h = refl
c_string-upper (c ∷ s) h =
    let rest : all_hex s ≡ true = ground (arith, h) in
    let byte : (toupper c == 0) ≡ false = ground (arith, h) in
    ground (arith, byte, c_string-upper s rest)

-- An address that has its six digits fills the key.
pub key_hex-full :
    (stack hex6 : List ℕ)
    → length hex6 ≡ 6
    → all_hex hex6 ≡ true
    → key_hex stack hex6 ≡ map toupper hex6
unfolding key_hex
key_hex-full stack hex6 six digits =
    let whole : map toupper (take 6 hex6) ≡ map toupper hex6 =
      ap (map toupper) (take-all hex6 6 six) in
    ap (λ s. c_string (take 6 (s ++ drop (length hex6) stack))) whole
    ∙ ap c_string (
        take-prefix (map toupper hex6) (drop (length hex6) stack) 6 (length-map hex6 toupper ∙ six))
    ∙ c_string-upper hex6 digits
