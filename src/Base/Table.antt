-- ===== src/Base/Table.antt =====
-- Facts about bits over a small range, checked at every value by evaluation.
use Prim.Native.Nat.{ℕ, zero, suc, ◌<◌}
use mathlib.Core.Path.{◌≡◌}
use mathlib.Core.Bool.{Bool, true, ◌&&◌}
use native.Mathlib.Omega.{arith}

-- The test holds at every number below the bound.
unfoldable pub all_below : (bound : ℕ) (test : ℕ → Bool) → Bool
all_below zero test = true
all_below (suc last) test = test last && all_below last test

pub all_below_sound :
    (bound : ℕ) (test : ℕ → Bool) (i : ℕ) → all_below bound test ≡ true → i < bound → test i ≡ true
unfolding all_below
all_below_sound zero test i all below = absurd (omega arith)
all_below_sound (suc last) test i all below = ground (arith, all_below_sound last test i)

-- Over two ranges at once.
pub all_below_sound₂ :
    (n m : ℕ) (p : ℕ → ℕ → Bool) (x y : ℕ)
    → all_below n (λ a. all_below m (p a)) ≡ true
    → x < n
    → y < m
    → p x y ≡ true
all_below_sound₂ n m p x y h hx hy =
    all_below_sound m (p x) y (all_below_sound n (λ a. all_below m (p a)) x h hx) hy
