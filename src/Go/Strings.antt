-- ===== src/Go/Strings.antt =====
-- The functions of the package `strings` that the handlers call: `Split` at a character, and
-- `Replace` of every space by nothing.
use Prim.Native.Char.{Char, code}
use Prim.Native.String.{String}
use text.Mathlib.TextLemmas.{nil-append, cons-append}
use text.Mathlib.TextEquality.{Char-path}
use golang_service.Prelude.{
  ◌⊎◌, ◌≡◌, refl, sym, ap, ◌∙◌, ◌≢◌, true, false, List, [], ◌∷◌, arith, ◌==◌, if◌then◌else◌, All,
  Bool-cases, inl, inr,
}
use golang_service.Errors.{◌<>◌}

abbrev onto_first : Char → List String → List String
onto_first c [] = String.◌∷◌ c "" ∷ []
onto_first c (p ∷ ps) = String.◌∷◌ c p ∷ ps

-- `strings.Split(s, string(sep))`
unfoldable pub split : Char → String → List String
split sep String.[] = "" ∷ []
split sep (String.◌∷◌ c s) =
    let rest = split sep s in if code c == code sep then "" ∷ rest else onto_first c rest

-- `strings.Replace(s, " ", "", -1)`
unfoldable pub strip_spaces : String → String
strip_spaces String.[] = ""
strip_spaces (String.◌∷◌ c s) =
    let rest = strip_spaces s in if code c == 32 then rest else String.◌∷◌ c rest

-- The character does not occur.
abbrev pub Lacks : Char → String → Type 0
Lacks sep String.[] = Unit
Lacks sep (String.◌∷◌ c s) = (code c ≢ code sep) × Lacks sep s

abbrev glue : Char → String → List String → String
glue sep p [] = p
glue sep p (q ∷ qs) = p <> String.◌∷◌ sep (glue sep q qs)

-- `strings.Join(parts, string(sep))`
abbrev join : Char → List String → String
join sep [] = ""
join sep (p ∷ ps) = glue sep p ps

split-Lacks : (sep : Char) (s : String) → All (Lacks sep) (split sep s)
unfolding split
split-Lacks sep String.[] = (tt, tt)
split-Lacks sep (String.◌∷◌ c s) = elim (Bool-cases (code c == code sep)) [
  | inl e ↦ rw e (tt, split-Lacks sep s)
  | inr e ↦ rw e (onto_first-Lacks (split sep s) (ground arith) (split-Lacks sep s))
]
  where
    onto_first-Lacks :
        (ps : List String)
        → code c ≢ code sep
        → All (Lacks sep) ps
        → All (Lacks sep) (onto_first c ps)
    onto_first-Lacks [] n h = ((n, tt), tt)
    onto_first-Lacks (p ∷ ps) n (h, k) = ((n, h), k)

glue-nil : (sep : Char) (ps : List String) → ps ≢ [] → glue sep "" ps ≡ String.◌∷◌ sep (join sep ps)
glue-nil sep [] n = absurd (n refl)
glue-nil sep (p ∷ ps) n = nil-append _

join-onto_first :
    (sep c : Char) (ps : List String) → join sep (onto_first c ps) ≡ String.◌∷◌ c (join sep ps)
join-onto_first sep c [] = refl
join-onto_first sep c (p ∷ []) = refl
join-onto_first sep c (p ∷ q ∷ ps) = cons-append c p _

onto_first-ne-nil : (c : Char) (ps : List String) → onto_first c ps ≢ []
onto_first-ne-nil c [] = cc
onto_first-ne-nil c (p ∷ ps) = cc

split-ne-nil : (sep : Char) (s : String) → split sep s ≢ []
unfolding split
split-ne-nil sep String.[] = cc
split-ne-nil sep (String.◌∷◌ c s) = elim (Bool-cases (code c == code sep)) [
  | inl e ↦ rw e (cc)
  | inr e ↦ rw e (onto_first-ne-nil c (split sep s))
]

join-split : (sep : Char) (s : String) → join sep (split sep s) ≡ s
unfolding split
join-split sep String.[] = refl
join-split sep (String.◌∷◌ c s) = elim (Bool-cases (code c == code sep)) [
  | inl e ↦ rw e (
      glue-nil sep (split sep s) (split-ne-nil sep s)
      ∙ ap (String.◌∷◌ sep) (join-split sep s)
      ∙ ap (λ d. String.◌∷◌ d s) (Char-path sep c (ground arith)))
  | inr e ↦ rw e (join-onto_first sep c (split sep s) ∙ ap (String.◌∷◌ c) (join-split sep s))
]

pub split_of_Lacks : (sep : Char) (s : String) → Lacks sep s → split sep s ≡ s ∷ []
unfolding split
split_of_Lacks sep String.[] h = refl
split_of_Lacks sep (String.◌∷◌ c s) (n, h) =
    let other : (code c == code sep) ≡ false = ground arith in rw (other, split_of_Lacks sep s h)

pub Lacks-split : (sep : Char) (s : String) → split sep s ≡ s ∷ [] → Lacks sep s
Lacks-split sep s whole =
    let lacks : All (Lacks sep) (s ∷ []) = rw whole at (split-Lacks sep s) in lacks.0

pub split-append :
    (sep : Char) (p s : String) → Lacks sep p → split sep (p <> String.◌∷◌ sep s) ≡ p ∷ split sep s
unfolding split
split-append sep String.[] s h =
    let same : (code sep == code sep) ≡ true = ground arith in rw (nil-append, same)
split-append sep (String.◌∷◌ c p) s (n, h) =
    let other : (code c == code sep) ≡ false = ground arith in
    rw (cons-append, other, split-append sep p s h)

-- Two parts come of exactly the texts with one separator.
pub split-pair :
    (sep : Char) (p k : String)
    → Lacks sep p
    → Lacks sep k
    → split sep (p <> String.◌∷◌ sep k) ≡ p ∷ k ∷ []
split-pair sep p k hp hk = rw (split-append sep p k hp, split_of_Lacks sep k hk)

pub split-pair_inverse :
    (sep : Char) (s p k : String)
    → split sep s ≡ p ∷ k ∷ []
    → (s ≡ p <> String.◌∷◌ sep k) × Lacks sep p × Lacks sep k
split-pair_inverse sep s p k h =
    let lacks : All (Lacks sep) (p ∷ k ∷ []) = rw h at (split-Lacks sep s) in
    (sym (join-split sep s) ∙ ap (join sep) h, lacks.0, lacks.1.0)

-- What stands before the first separator of a text, or all of it where there is none.
abbrev pub IsFirst : Char → String → String → Type 0
IsFirst sep s p = Lacks sep p × ((s ≡ p) ⊎ ((rest : String) × (s ≡ p <> String.◌∷◌ sep rest)))

-- Every text has a first part, and `Split` begins with it.
pub split-IsFirst :
    (sep : Char) (s : String)
    → (p : String) × (more : List String) × (split sep s ≡ p ∷ more) × IsFirst sep s p
split-IsFirst sep s = of_parts (split sep s) refl
  where
    of_parts :
        (ps : List String)
        → split sep s ≡ ps
        → (p : String) × (more : List String) × (split sep s ≡ p ∷ more) × IsFirst sep s p
    of_parts [] e = absurd (split-ne-nil sep s e)
    of_parts (p ∷ []) e =
        let lacks : All (Lacks sep) (p ∷ []) = rw e at (split-Lacks sep s) in
        (p, [], e, (lacks.0, inl (sym (join-split sep s) ∙ ap (join sep) e)))
    of_parts (p ∷ q ∷ ps) e =
        let lacks : All (Lacks sep) (p ∷ q ∷ ps) = rw e at (split-Lacks sep s) in
        (p, q ∷ ps, e, (lacks.0, inr (join sep (q ∷ ps), sym (join-split sep s) ∙ ap (join sep) e)))

pub IsFirst-split :
    (sep : Char) (s p : String) → IsFirst sep s p → (more : List String) × (split sep s ≡ p ∷ more)
IsFirst-split sep s p (h, inl e) = ([], ap (split sep) e ∙ split_of_Lacks sep p h)
IsFirst-split sep s p (h, inr (rest, e)) =
    (split sep rest, ap (split sep) e ∙ split-append sep p rest h)
