-- ===== src/Go/Float64.antt =====
-- Go's `float64` (IEEE 754 binary64), as far as `math.Ceil(float64(i) / float64(n))` uses it:
-- conversion of an `int`, division rounded to nearest with ties to even, ceiling, and conversion
-- back. The quotient of two `int`s is far from the range's ends, so no subnormal and no overflow
-- of the exponent is modelled.
use golang_service.Prelude.{
  ℕ, zero, suc, ◌+◌, ◌-◌, ◌*◌, ◌/◌, ◌%◌, ◌^◌, Bool, true, false, ltb, leb, ◌==◌, if◌then◌else◌,
}
use golang_service.Prelude.Int.{ℤ, pos, negsuc, sub_ℕ}
use golang_service.Go.Int64.{two63}
pub mod Ceiling

-- `fin neg m u d` is ±m·2^u / 2^d, the sign negative if `neg`.
pub data Float64 : Type 0 where
  nan : Float64
  inf : Bool → Float64
  fin : Bool → ℕ → ℕ → ℕ → Float64

-- The number of doublings of `p` until 2^52·q ≤ p, at most the fuel.
unfoldable pub shift_down : ℕ → ℕ → ℕ → ℕ
shift_down zero p q = 0
shift_down (suc f) p q =
    let more = suc (shift_down f (2 * p) q) in if leb (2 ^ 52 * q) p then 0 else more

-- The number of doublings of `q` until p < 2^53·q, at most the fuel.
unfoldable pub shift_up : ℕ → ℕ → ℕ → ℕ
shift_up zero p q = 0
shift_up (suc f) p q =
    let more = suc (shift_up f p (2 * q)) in if ltb p (2 ^ 53 * q) then 0 else more

-- num / den to the nearest integer, a tie to the even one.
unfoldable pub half_even : ℕ → ℕ → ℕ
half_even num den =
    if ltb (2 * (num % den)) den
    then num / den
    else if ltb den (2 * (num % den))
    then num / den + 1
    else num / den + (num / den) % 2

abbrev pub fuel : ℕ
fuel = 128

-- The float nearest to p / q, for q > 0: 53 significant bits. Both operands stay below 2^127
-- times each other, so 128 doublings are enough.
unfoldable pub round_frac : Bool → ℕ → ℕ → Float64
round_frac neg zero q = fin neg 0 0 0
round_frac neg (suc p) q =
    let d = shift_down fuel (suc p) q in
    let u = shift_up fuel (suc p) q in fin neg (half_even (suc p * 2 ^ d) (q * 2 ^ u)) u d

-- `float64(i)`
unfoldable pub of_int : ℤ → Float64
of_int (pos n) = round_frac false n 1
of_int (negsuc n) = round_frac true (suc n) 1

abbrev differ : Bool → Bool → Bool
differ false t = t
differ true t = if t then false else true

-- `a / b`
unfoldable pub fdiv : Float64 → Float64 → Float64
fdiv nan _ = nan
fdiv (inf s) nan = nan
fdiv (inf s) (inf t) = nan
fdiv (inf s) (fin t m u d) = inf (differ s t)
fdiv (fin s m u d) nan = nan
fdiv (fin s m u d) (inf t) = fin (differ s t) 0 0 0
fdiv (fin s m u d) (fin t n v e) =
    if n == 0
    then (if m == 0 then nan else inf (differ s t))
    else round_frac (differ s t) (m * 2 ^ u * 2 ^ e) (n * 2 ^ v * 2 ^ d)

-- `math.Ceil`
unfoldable pub ceil : Float64 → Float64
ceil (fin false m u d) = fin false ((m * 2 ^ u + (2 ^ d - 1)) / 2 ^ d) 0 0
ceil (fin true m u d) = fin true (m * 2 ^ u / 2 ^ d) 0 0
ceil x = x

-- `int(f)`: truncation. The language leaves the result open where the value is no `int`.
unfoldable pub to_int : (Float64 → ℤ) → Float64 → ℤ
to_int unspecified (fin false m u d) =
    if ltb (m * 2 ^ u / 2 ^ d) two63 then pos (m * 2 ^ u / 2 ^ d) else unspecified (fin false m u d)
to_int unspecified (fin true m u d) =
    if leb (m * 2 ^ u / 2 ^ d) two63
    then sub_ℕ 0 (m * 2 ^ u / 2 ^ d)
    else unspecified (fin true m u d)
to_int unspecified x = unspecified x
