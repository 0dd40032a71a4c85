-- ===== src/Go/Float64/Ceiling.antt =====
-- The ceiling of a quotient of floats is that of the integers, below 2^53.
use native.Mathlib.Nat.{div-add-mod, mod-lt, div-add-mod', mul-one, zero-mul}
use golang_service.Prelude.{
  ℕ, zero, suc, ◌+◌, ◌-◌, ◌*◌, ◌/◌, ◌^◌, ◌≤◌, ◌<◌, ◌≡◌, refl, sym, ap, ◌∙◌, Bool, false, arith, leb,
  ◌==◌, Bool-cases, inl, inr,
}
use golang_service.Prelude.Arith.{
  pow_pos, pow_shift, mul_pos, mul_mono, cancel, le_of_not_lt, div_unique,
}
use golang_service.Go.Float64.{
  Float64, fin, round_frac, shift_down, shift_up, half_even, of_int, fdiv, ceil, to_int,
}
use golang_service.Prelude.Int.{ℤ, pos}

half_even_near :
    (num den : ℕ)
    → 0 < den
    → (2 * (half_even num den * den) ≤ 2 * num + den)
      × (2 * num ≤ 2 * (half_even num den * den) + den)
unfolding half_even
half_even_near num den h = grind (arith, div-add-mod num den, mod-lt num h)

shift_down_reaches : (f p q : ℕ) → 2 ^ 52 * q ≤ p * 2 ^ f → 2 ^ 52 * q ≤ p * 2 ^ (shift_down f p q)
unfolding shift_down
shift_down_reaches zero p q h = h
shift_down_reaches (suc f) p q h = elim (Bool-cases (leb (2 ^ 52 * q) p)) [
  | inl e ↦ rw e (ground arith)
  | inr e ↦ rw e (rw pow_shift (shift_down_reaches f (2 * p) q (rw (← pow_shift p f) h)))
]

shift_up_of_lt : (f p q : ℕ) → p < 2 ^ 53 * q → shift_up f p q ≡ 0
unfolding shift_up
shift_up_of_lt zero p q h = refl
shift_up_of_lt (suc f) p q h = ground arith

module _ (i n m d k : ℕ) (pos_n : 0 < n) (pos_d : 0 < d) where
  -- m / d is the nearest to i / n, and k the ceiling of i / n.
  near_above : 2 * (m * n) ≤ 2 * (i * d) + n → i ≤ k * n → m ≤ k * d
  near_above a h =
      le_of_not_lt m (k * d)
        (λ over. omega (arith, mul_mono (k * d + 1) m n (omega arith), mul_mono i (k * n) d h))

  near_below :
      i < 2 ^ 53
      → 2 ^ 52 * n ≤ i * d
      → 2 * (i * d) ≤ 2 * (m * n) + n
      → k * n < i + n
      → k * d < m + d
  near_below s r b h = le_of_not_lt (suc (k * d)) (m + d) (λ over. omega (
    arith,
    mul_mono (m + d) (k * d) n (omega arith),
    mul_mono (k * n + 1) (i + n) d (omega arith),
    mul_mono (i + 1) (2 ^ 53) d (omega arith),
  ))

pub ceil_bounds : (i n : ℕ) → 0 < n → (i ≤ (i + (n - 1)) / n * n) × ((i + (n - 1)) / n * n < i + n)
ceil_bounds i n h =
    let split = div-add-mod' (i + (n - 1)) n in
    let small = mod-lt (i + (n - 1)) h in (omega arith, omega arith)

-- Rounding i·c / (n·c) to 53 bits, with enough doublings, does not move its ceiling.
rounded_ceiling :
    (i n c s : ℕ)
    → 0 < n
    → 0 < c
    → i < 2 ^ 53
    → 2 ^ 52 * (n * c) ≤ i * c * 2 ^ s
    → (half_even (i * c * 2 ^ s) (n * c) + (2 ^ s - 1)) / 2 ^ s ≡ (i + (n - 1)) / n
rounded_ceiling i n c s pn pc b r =
    let m = half_even (i * c * 2 ^ s) (n * c) in
    let d = 2 ^ s in
    let k = (i + (n - 1)) / n in
    let near = half_even_near (i * c * 2 ^ s) (n * c) (grind arith) in
    let (above, below) = ceil_bounds i n pn in
    let at_most = cancel c (2 * (m * n)) (2 * (i * d) + n) pc (omega arith) in
    let at_least = cancel c (2 * (i * d)) (2 * (m * n) + n) pc (omega arith) in
    let reached = cancel c (2 ^ 52 * n) (i * d) pc (omega arith) in
    let up = near_above i n m d k pn (pow_pos s) at_most above in
    let down = near_below i n m d k pn (pow_pos s) b reached at_least below in
    div_unique (m + (d - 1)) d k (omega arith) (omega (arith, pow_pos s))

-- Below 2^53 the denominator is not scaled.
round_frac_small :
    (neg : Bool) (p q : ℕ)
    → 0 < p
    → p < 2 ^ 53 * q
    → round_frac neg p q ≡ fin neg (half_even (p * 2 ^ shift_down 128 p q) q) 0 (shift_down 128 p q)
unfolding round_frac
round_frac_small neg zero q pos_p h = elim pos_p [ ]
round_frac_small neg (suc p) q pos_p h = rw (shift_up_of_lt 128 (suc p) q h, mul-one)

half_even_one : (n : ℕ) → half_even n 1 ≡ n
unfolding half_even
half_even_one n = ground arith

round_frac_zero : (neg : Bool) (q : ℕ) → round_frac neg 0 q ≡ fin neg 0 0 0
unfolding round_frac
round_frac_zero neg q = refl

of_int_pos : (n : ℕ) → n < 2 ^ 53 → (d : ℕ) × (of_int (pos n) ≡ fin false (n * 2 ^ d) 0 d)
unfolding of_int
of_int_pos zero h = (0, round_frac_zero false 1)
of_int_pos (suc n) h = (
  shift_down 128 (suc n) 1,
  round_frac_small false (suc n) 1 (omega arith) (omega arith) ∙ rw half_even_one,
)

fdiv_scaled :
    (i n d e : ℕ)
    → 0 < n
    → fdiv (fin false (i * 2 ^ d) 0 d) (fin false (n * 2 ^ e) 0 e)
      ≡ round_frac false (i * (2 ^ d * 2 ^ e)) (n * (2 ^ d * 2 ^ e))
unfolding fdiv
fdiv_scaled i n d e h =
    let nonzero : 0 < n * 2 ^ e = mul_pos n (2 ^ e) h (pow_pos e) in
    let test : (n * 2 ^ e == 0) ≡ false = ground arith in
    let num : i * 2 ^ d * 1 * 2 ^ e ≡ i * (2 ^ d * 2 ^ e) = omega arith in
    let den : n * 2 ^ e * 1 * 2 ^ d ≡ n * (2 ^ d * 2 ^ e) = omega arith in rw (test, num, den)

-- The value of the rounded quotient of two scaled numbers.
ceil-round_frac :
    (i n c : ℕ)
    → 0 < n
    → n < 2 ^ 53
    → i < 2 ^ 53
    → 0 < c
    → ceil (round_frac false (i * c) (n * c)) ≡ fin false ((i + (n - 1)) / n) 0 0
unfolding ceil
ceil-round_frac zero n c pn bn bi pc =
    rw (zero-mul, round_frac_zero)
      (ap (λ k. fin false k 0 0) (sym (div_unique (0 + (n - 1)) n 0 (omega arith) (omega arith))))
ceil-round_frac (suc i) n c pn bn bi pc =
    let small : suc i * c < 2 ^ 53 * (n * c) =
      omega (arith, mul_mono (suc i + 1) (2 ^ 53 * n) c (omega arith)) in
    let room : 2 ^ 52 * (n * c) ≤ suc i * c * 2 ^ 128 =
      omega (arith, mul_mono (2 ^ 52 * n) (suc i * 2 ^ 128) c (omega arith)) in
    let reached = shift_down_reaches 128 (suc i * c) (n * c) room in
    rw
      (
        round_frac_small false (suc i * c) (n * c) (mul_pos (suc i) c (omega arith) pc) small,
        mul-one,
      )
      (ap (λ k. fin false k 0 0) (rounded_ceiling (suc i) n c _ pn pc bi reached))

quotient-le : (i n : ℕ) → 0 < n → (i + (n - 1)) / n ≤ i
quotient-le i n h =
    let k = (i + (n - 1)) / n in
    let (_, small) = ceil_bounds i n h in
    le_of_not_lt k i
      (λ over. omega (arith, mul_mono (i + 1) k n (omega arith), mul_mono 1 n i (omega arith)))

to_int_nat : (u : Float64 → ℤ) (k : ℕ) → k < 2 ^ 53 → to_int u (fin false k 0 0) ≡ pos k
unfolding to_int
to_int_nat u k h = ground arith

-- For counts below 2^53 the whole expression is the integers' quotient, rounded up.
pub to_int-ceil-fdiv :
    (unspecified : Float64 → ℤ) (i n : ℕ)
    → 0 < n
    → n < 2 ^ 53
    → i < 2 ^ 53
    → to_int unspecified (ceil (fdiv (of_int (pos i)) (of_int (pos n)))) ≡ pos ((i + (n - 1)) / n)
to_int-ceil-fdiv u i n pn bn bi =
    let (d, ed) = of_int_pos i bi in
    let (e, ee) = of_int_pos n bn in
    rw
      (
        ed,
        ee,
        fdiv_scaled i n d e pn,
        ceil-round_frac i n (2 ^ d * 2 ^ e) pn bn bi
            (mul_pos (2 ^ d) (2 ^ e) (pow_pos d) (pow_pos e)),
      )
      (to_int_nat u _ (omega (arith, quotient-le i n pn)))
