-- ===== src/Go/Decimal.antt =====
-- Decimal text of an `int`: `strconv.Itoa`, which is also what `fmt` writes for `%d`.
use Prim.Native.Char.{Char, code}
use Prim.Native.String.{String}
use mathlib.Core.Path.{◌≡⟨◌⟩◌, ◌∎}
use golang_service.Prelude.{
  ℕ, zero, suc, ◌+◌, ◌-◌, ◌*◌, ◌/◌, ◌%◌, ◌<◌, ◌≤◌, ◌≡◌, ◌≢◌, refl, sym, ap, ◌∙◌, arith, ltb, ◌==◌,
  if◌then◌else◌, Bool-cases, inl, inr,
}
use golang_service.Prelude.Int.{ℤ, pos, negsuc, sub_ℕ}
use golang_service.Go.Strings.{Lacks}

abbrev digit : ℕ → Char
digit zero = "0"
digit (suc zero) = "1"
digit (suc (suc zero)) = "2"
digit (suc (suc (suc zero))) = "3"
digit (suc (suc (suc (suc zero)))) = "4"
digit (suc (suc (suc (suc (suc zero))))) = "5"
digit (suc (suc (suc (suc (suc (suc zero)))))) = "6"
digit (suc (suc (suc (suc (suc (suc (suc zero))))))) = "7"
digit (suc (suc (suc (suc (suc (suc (suc (suc zero)))))))) = "8"
digit _ = "9"

-- The digits of `n` before `rest`; a fuel above `n` is enough.
digits_before : ℕ → ℕ → String → String
digits_before zero n rest = rest
digits_before (suc f) n rest =
    let more = digits_before f (n / 10) (String.◌∷◌ (digit (n % 10)) rest) in
    if ltb n 10 then String.◌∷◌ (digit n) rest else more

unfoldable pub itoa : ℤ → String
unfolding digits_before
itoa (pos n) = digits_before (suc n) n ""
itoa (negsuc n) = String.◌∷◌ "-" (digits_before (suc (suc n)) (suc n) "")

-- The number that a text of digits continues, after the number `acc`.
value : ℕ → String → ℕ
value acc String.[] = acc
value acc (String.◌∷◌ c s) = value (acc * 10 + (code c - 48)) s

pub decode : String → ℤ
decode String.[] = pos 0
decode (String.◌∷◌ c s) = if code c == 45 then sub_ℕ 0 (value 0 s) else pos (value (code c - 48) s)

code-digit : (d : ℕ) → d < 10 → code (digit d) ≡ d + 48
code-digit zero h = refl
code-digit (suc zero) h = refl
code-digit (suc (suc zero)) h = refl
code-digit (suc (suc (suc zero))) h = refl
code-digit (suc (suc (suc (suc zero)))) h = refl
code-digit (suc (suc (suc (suc (suc zero))))) h = refl
code-digit (suc (suc (suc (suc (suc (suc zero)))))) h = refl
code-digit (suc (suc (suc (suc (suc (suc (suc zero))))))) h = refl
code-digit (suc (suc (suc (suc (suc (suc (suc (suc zero)))))))) h = refl
code-digit (suc (suc (suc (suc (suc (suc (suc (suc (suc zero))))))))) h = refl
code-digit (suc (suc (suc (suc (suc (suc (suc (suc (suc (suc d)))))))))) h = absurd (omega arith)

digits_before-value :
    (f n : ℕ) (rest : String) → n < f → value 0 (digits_before f n rest) ≡ value n rest
unfolding digits_before value
digits_before-value zero n rest h = elim h [ ]
digits_before-value (suc f) n rest h = elim (Bool-cases (ltb n 10)) [
  | inl small ↦ rw small (ap (λ k. value k rest) (omega (arith, code-digit n (ground arith))))
  | inr large ↦ rw large (
      value 0 (digits_before f (n / 10) (String.◌∷◌ (digit (n % 10)) rest))
      ≡⟨ digits_before-value f (n / 10) _ (ground arith) ⟩
        value (n / 10) (String.◌∷◌ (digit (n % 10)) rest)
      ≡⟨ ap (λ k. value k rest) (omega (arith, code-digit (n % 10) (omega arith))) ⟩ value n rest ∎)
]

-- The first character of a natural number's text is a digit.
IsNumeric : String → Type 0
IsNumeric String.[] = ⊥
IsNumeric (String.◌∷◌ c s) = 48 ≤ code c

digits_before-IsNumeric : (f n : ℕ) (rest : String) → n < f → IsNumeric (digits_before f n rest)
unfolding digits_before IsNumeric
digits_before-IsNumeric zero n rest h = elim h [ ]
digits_before-IsNumeric (suc f) n rest h = elim (Bool-cases (ltb n 10)) [
  | inl small ↦ rw small (omega (arith, code-digit n (ground arith)))
  | inr large ↦ rw large (digits_before-IsNumeric f (n / 10) _ (ground arith))
]

decode_of_IsNumeric : (s : String) → IsNumeric s → decode s ≡ pos (value 0 s)
unfolding decode value IsNumeric
decode_of_IsNumeric String.[] h = refl
decode_of_IsNumeric (String.◌∷◌ c s) h = ground arith

value-nil : (n : ℕ) → value n "" ≡ n
unfolding value
value-nil n = refl

decode-minus : (s : String) → decode (String.◌∷◌ "-" s) ≡ sub_ℕ 0 (value 0 s)
unfolding decode
decode-minus s = refl

pub decode-itoa : (z : ℤ) → decode (itoa z) ≡ z
unfolding itoa
decode-itoa (pos n) =
    decode_of_IsNumeric _ (digits_before-IsNumeric (suc n) n "" (omega arith))
    ∙ ap pos (digits_before-value (suc n) n "" (omega arith) ∙ value-nil n)
decode-itoa (negsuc n) =
    decode-minus _
    ∙ rw (digits_before-value (suc (suc n)) (suc n) "" (omega arith), value-nil) (ground arith)

-- Two numbers with one text are one number.
pub itoa_injective : {a b : ℤ} → itoa a ≡ itoa b → a ≡ b
itoa_injective {a} {b} h = sym (decode-itoa a) ∙ ap decode h ∙ decode-itoa b

digit-Lacks : (d : ℕ) → d < 10 → code (digit d) ≢ 34
digit-Lacks d h e = omega (arith, code-digit d h)

digits_before-Lacks :
    (f n : ℕ) (rest : String) → n < f → Lacks "\"" rest → Lacks "\"" (digits_before f n rest)
unfolding digits_before
digits_before-Lacks zero n rest h lacks = elim h [ ]
digits_before-Lacks (suc f) n rest h lacks = elim (Bool-cases (ltb n 10)) [
  | inl small ↦ rw small (digit-Lacks n (ground arith), lacks)
  | inr large ↦
      rw large (
        digits_before-Lacks f (n / 10) _ (ground arith) (digit-Lacks (n % 10) (omega arith), lacks))
]

minus-Lacks : (s : String) → Lacks "\"" s → Lacks "\"" (String.◌∷◌ "-" s)
minus-Lacks s lacks = (omega arith, lacks)

-- No number's text has a quotation mark in it.
pub itoa-Lacks : (z : ℤ) → Lacks "\"" (itoa z)
unfolding itoa
itoa-Lacks (pos n) = digits_before-Lacks (suc n) n "" (omega arith) tt
itoa-Lacks (negsuc n) =
    minus-Lacks _ (digits_before-Lacks (suc (suc n)) (suc n) "" (omega arith) tt)
