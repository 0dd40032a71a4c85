-- ===== src/Go/Int64.antt =====
-- Go's `int` on a 64-bit platform: integers in [-2^63, 2^63), with wrap-around.
use golang_service.Prelude.{ℕ, ◌-◌, ◌%◌, ◌^◌, ◌≤◌, ◌<◌, ◌≡◌, arith, ltb, if◌then◌else◌}
use golang_service.Prelude.Int.{ℤ, pos, negsuc, pos_part, neg_part, ◌+ℤ◌, ◌-ℤ◌, ◌*ℤ◌, ◌≤ℤ◌, ◌<ℤ◌}

abbrev pub two63 : ℕ
two63 = 2 ^ 63

abbrev pub two64 : ℕ
two64 = 2 ^ 64

abbrev pub IsInt64 : ℤ → Type 0
IsInt64 z = (pos_part z < two63) × (neg_part z ≤ two63)

-- The representative in [-2^63, 2^63) modulo 2^64.
unfoldable pub wrap : ℤ → ℤ
wrap (pos n) = if ltb (n % two64) two63 then pos (n % two64) else negsuc (two64 - 1 - n % two64)
wrap (negsuc n) = if ltb (n % two64) two63 then negsuc (n % two64) else pos (two64 - 1 - n % two64)

abbrev pub add_int : ℤ → ℤ → ℤ
add_int a b = wrap (a +ℤ b)

abbrev pub sub_int : ℤ → ℤ → ℤ
sub_int a b = wrap (a -ℤ b)

abbrev pub mul_int : ℤ → ℤ → ℤ
mul_int a b = wrap (a *ℤ b)

-- What `wrap` returns is an `int`.
pub wrap-IsInt64 : (z : ℤ) → IsInt64 (wrap z)
unfolding wrap
wrap-IsInt64 (pos n) = ground arith
wrap-IsInt64 (negsuc n) = ground arith

-- An `int` is its own representative.
pub wrap_of_IsInt64 : (z : ℤ) → IsInt64 z → wrap z ≡ z
unfolding wrap
wrap_of_IsInt64 (pos n) h = ground arith
wrap_of_IsInt64 (negsuc n) h = ground arith

pub IsInt64-of_bounds : (z : ℤ) → pos 0 ≤ℤ z → z <ℤ pos two63 → IsInt64 z
IsInt64-of_bounds (pos n) l u = (omega arith, omega arith)
IsInt64-of_bounds (negsuc n) l u = (omega arith, omega arith)
