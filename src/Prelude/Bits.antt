-- ===== src/Prelude/Bits.antt =====
-- Masks of the file modes: `&` on native numbers.
use Prim.Native.Nat.{ℕ, zero, suc, ◌/◌, ◌≤◌, ◌<◌, min, bit_and, digits, bit_and-bitwise}
use mathlib.Core.Path.{◌≡◌}
use mathlib.Core.Bool.{Bool, true, ◌&&◌}
use native.Mathlib.Omega.{arith}

-- a test of every number below a bound
unfoldable pub all_below : ℕ → (ℕ → Bool) → Bool
all_below zero p = true
all_below (suc n) p = p n && all_below n p

pub all_below-true : (n : ℕ) (p : ℕ → Bool) (x : ℕ) → all_below n p ≡ true → x < n → p x ≡ true
unfolding all_below
all_below-true zero p x h lt = absurd (omega arith)
all_below-true (suc n) p x h lt = ground (arith, all_below-true n p x)

-- the loop that `bit_and` stands for, over the digits of its first argument
abbrev masked : ℕ → ℕ → ℕ → ℕ
masked fuel a b = digits (λ b. zero) min fuel a b

masked-le : (fuel a b : ℕ) → masked fuel a b ≤ b
masked-le zero zero b = omega arith
masked-le zero (suc a) b = omega arith
masked-le (suc fuel) zero b = omega arith
masked-le (suc fuel) (suc a) b = omega (arith, masked-le fuel (suc a / 2) (b / 2))

-- A masked number is at most the mask.
pub bit_and-le : (a b : ℕ) → bit_and a b ≤ b
bit_and-le a b = omega (arith, bit_and-bitwise a b, masked-le a a b)
