-- ===== src/Base/Bits.antt =====
-- `|` of disjoint bit fields is a sum, and `&` with a mask of low ones is a remainder.
use Prim.Native.Nat.{
  ℕ, zero, suc, ◌+◌, ◌-◌, ◌*◌, ◌/◌, ◌%◌, ◌^◌, ◌≤◌, ◌<◌, min, max, bit_and, bit_or, digits,
  bit_and-bitwise, bit_or-bitwise,
}
use mathlib.Core.Path.{◌≡◌, refl, ◌∙◌, ap}
use native.Mathlib.Nat.{pow-suc, le_refl, one-le-pow}
use native.Mathlib.Omega.{arith}

twice_pow : (q k : ℕ) → q * 2 ^ suc k ≡ 2 * (q * 2 ^ k)
twice_pow q k = omega (arith, ap (λ (t : ℕ). q * t) (pow-suc 2 k))

-- With enough digits to go, a high field joined to a low one is their sum.
join_digits :
    (n k q a r : ℕ) → a ≤ n → a ≡ q * 2 ^ k → r < 2 ^ k → digits (λ b. b) max n a r ≡ a + r
join_digits zero k q zero r fits e small = omega arith
join_digits zero k q (suc a) r fits e small = absurd (omega arith)
join_digits (suc n) k q zero r fits e small = omega arith
join_digits (suc n) zero q (suc a) r fits e small = omega (
  arith,
  join_digits n zero (suc a / 2) (suc a / 2) (r / 2) (omega arith) (omega arith) (omega arith),
)
join_digits (suc n) (suc k) q (suc a) r fits e small =
    let halves : suc a ≡ 2 * (q * 2 ^ k) = e ∙ twice_pow q k in
    let room : 2 ^ suc k ≡ 2 * 2 ^ k = omega (arith, pow-suc 2 k) in
    omega (arith, join_digits n k q (suc a / 2) (r / 2) (omega arith) (omega arith) (omega arith))

pub bit_or_join : (k q r : ℕ) → r < 2 ^ k → bit_or (q * 2 ^ k) r ≡ q * 2 ^ k + r
bit_or_join k q r small =
    bit_or-bitwise (q * 2 ^ k) r ∙ join_digits (q * 2 ^ k) k q (q * 2 ^ k) r (le_refl _) refl small

mask_digits :
    (n k q r a m : ℕ)
    → a ≤ n
    → a ≡ q * 2 ^ k + r
    → r < 2 ^ k
    → suc m ≡ 2 ^ k
    → digits (λ b. zero) min n a m ≡ r
mask_digits zero k q r zero m fits e small ones = omega arith
mask_digits zero k q r (suc a) m fits e small ones = absurd (omega arith)
mask_digits (suc n) k q r zero m fits e small ones = omega arith
mask_digits (suc n) zero q r (suc a) m fits e small ones = omega (
  arith,
  mask_digits n zero (suc a / 2) 0 (suc a / 2) (m / 2) (omega arith) (omega arith) (omega arith)
      (omega arith),
)
mask_digits (suc n) (suc k) q r (suc a) m fits e small ones =
    let room : 2 ^ suc k ≡ 2 * 2 ^ k = omega (arith, pow-suc 2 k) in
    omega (
      arith,
      twice_pow q k,
      mask_digits n k q (r / 2) (suc a / 2) (m / 2) (omega arith) (omega (arith, twice_pow q k))
          (omega arith) (omega arith),
    )

pub bit_and_mask : (k a : ℕ) → bit_and a (2 ^ k - 1) ≡ a % 2 ^ k
bit_and_mask k a =
    bit_and-bitwise a (2 ^ k - 1)
    ∙ mask_digits a k (a / 2 ^ k) (a % 2 ^ k) a (2 ^ k - 1) (le_refl _) (omega arith)
        (omega (arith, one-le-pow k 2)) (omega (arith, one-le-pow k 2))

pub bit_and-one : (a : ℕ) → bit_and a 1 ≡ a % 2
bit_and-one a = bit_and_mask 1 a
