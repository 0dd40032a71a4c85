-- ===== src/Prelude/Arith.antt =====
-- Laws of products, powers and quotients of native numbers that are not linear.
use Prim.Native.Nat.{ℕ, zero, suc, ◌+◌, ◌*◌, ◌/◌, ◌^◌, ◌≤◌, ◌<◌}
use mathlib.Core.Path.{◌≡◌}
use native.Mathlib.Omega.{arith}
use native.Mathlib.Nat.{mod-lt, pow-suc, div-add-mod', le_of_mul-le-mul_left}

pub pow_pos : (n : ℕ) → 0 < 2 ^ n
pow_pos zero = omega arith
pow_pos (suc n) = rw pow-suc (omega (arith, pow_pos n))

pub pow_shift : (p f : ℕ) → p * 2 ^ suc f ≡ 2 * p * 2 ^ f
pow_shift p f = rw pow-suc (omega arith)

pub mul_pos : (a b : ℕ) → 0 < a → 0 < b → 0 < a * b
mul_pos a b h k = grind arith

pub mul_mono : (a b c : ℕ) → a ≤ b → a * c ≤ b * c
mul_mono a b c h = grind arith

pub cancel : (c x y : ℕ) → 0 < c → c * x ≤ c * y → x ≤ y
cancel c x y h l = le_of_mul-le-mul_left l h

pub le_of_not_lt : (a b : ℕ) → ¬ (b < a) → a ≤ b
le_of_not_lt a b h = omega arith

pub lt_of_not_le : (a b : ℕ) → ¬ (a ≤ b) → b < a
lt_of_not_le a b h = omega arith

pub div_unique : (x d k : ℕ) → k * d ≤ x → x < k * d + d → x / d ≡ k
div_unique x d k h l = grind (arith, div-add-mod' x d, mod-lt x)
