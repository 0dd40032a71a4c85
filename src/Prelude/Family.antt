-- ===== src/Prelude/Family.antt =====
-- Families of values over the native numbers: the change of one, and sums over the first of them.
use Prim.Native.Nat.{ℕ, suc, zero, ◌+◌, ◌<◌, ◌≤◌}
use mathlib.Core.Path.{◌≡◌, refl}
use mathlib.Core.Logic.{◌≢◌, inl, inr}
use mathlib.Core.Bool.{true, false}
use native.Mathlib.Omega.{arith}
use golang_service.Prelude.Tests.{ltb, ◌==◌, if◌then◌else◌, Bool-cases}

module _ {ℓ} {A : Type ℓ} where
  unfoldable pub update : (ℕ → A) → ℕ → A → ℕ → A
  update fam i a j = if i == j then a else fam j

  pub update_self : (fam : ℕ → A) (i : ℕ) (a : A) → update fam i a i ≡ a
  unfolding update
  update_self fam i a = let same : (i == i) ≡ true = ground arith in rw same refl

  pub update_other : (fam : ℕ → A) (i j : ℕ) (a : A) → i ≢ j → update fam i a j ≡ fam j
  unfolding update
  update_other fam i j a n = let other : (i == j) ≡ false = ground arith in rw other refl

  unfoldable pub total : (A → ℕ) → ℕ → (ℕ → A) → ℕ
  total f zero fam = 0
  total f (suc n) fam = f (fam n) + total f n fam

  pub total-update_above :
      (f : A → ℕ) (n i : ℕ) (fam : ℕ → A) (a : A)
      → n ≤ i
      → total f n (update fam i a) ≡ total f n fam
  unfolding total
  total-update_above f zero i fam a le = refl
  total-update_above f (suc n) i fam a le =
      rw (update_other fam i n a (omega arith))
        (omega (arith, total-update_above f n i fam a (omega arith)))

  -- A sum changes by the one summand that does.
  pub total-update :
      (f : A → ℕ) (n i : ℕ) (fam : ℕ → A) (a : A)
      → i < n
      → total f n (update fam i a) + f (fam i) ≡ total f n fam + f a
  unfolding total
  total-update f zero i fam a lt = elim lt [ ]
  total-update f (suc n) i fam a lt = elim (Bool-cases (i == n)) [
    | inl e ↦
        let same : i ≡ n = ground arith in
        rw same
          (rw (update_self fam n a) (omega (arith, total-update_above f n n fam a (omega arith))))
    | inr e ↦
        let other : i ≢ n = ground arith in
        rw (update_other fam i n a other) (omega (arith, total-update f n i fam a (omega arith)))
  ]

  -- A sum that is not zero has a summand that is not.
  pub total-positive :
      (f : A → ℕ) (n : ℕ) (fam : ℕ → A) → 0 < total f n fam → (i : ℕ) × (i < n) × (0 < f (fam i))
  unfolding total
  total-positive f zero fam h = elim h [ ]
  total-positive f (suc n) fam h = elim (Bool-cases (ltb 0 (f (fam n)))) [
    | inl e ↦ (n, omega arith, ground arith)
    | inr e ↦
        let more : 0 < total f n fam = ground arith in
        let (i, lt, pos) = total-positive f n fam more in (i, omega arith, pos)
  ]

  pub le-total : (f : A → ℕ) (n i : ℕ) (fam : ℕ → A) → i < n → f (fam i) ≤ total f n fam
  unfolding total
  le-total f zero i fam lt = elim lt [ ]
  le-total f (suc n) i fam lt = elim (Bool-cases (i == n)) [
    | inl e ↦ let same : i ≡ n = ground arith in rw same (omega arith)
    | inr e ↦ let other : i < n = ground arith in omega (arith, le-total f n i fam other)
  ]
