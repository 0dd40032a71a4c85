-- ===== src/Prelude/Text.antt =====
-- Whole texts compared, and the associations that they key.
use Prim.Native.String.{String}
use mathlib.Core.Path.{◌≡◌, refl}
use mathlib.Core.List.{List, [], ◌∷◌}
use mathlib.Core.Option.{Option, none, some}
use native.Mathlib.Omega.{arith}
use golang_service.Prelude.Tests.{if◌then◌else◌, Bool-cases}
use mathlib.Core.Logic.{inl, inr}
use mathlib.Core.Bool.{false}
use text.Mathlib.TextEquality.{eq_iff}
pub use text.Mathlib.Text.{◌==◌ as str_eq}
pub use text.Mathlib.TextEquality.{eq_iff}
pub use text.Mathlib.TextPositions.{eq_refl}

-- A Go map keyed by texts: its entries, of which the first with a key counts.
module _ {ℓ} {V : Type ℓ} where
  unfoldable pub lookup : String → List (String × V) → Option V
  lookup name [] = none
  lookup name ((key, value) ∷ more) = if str_eq key name then some value else lookup name more

  -- `delete(m, name)`
  unfoldable remove : String → List (String × V) → List (String × V)
  remove name [] = []
  remove name ((key, value) ∷ more) =
      let rest = remove name more in if str_eq key name then rest else (key, value) ∷ rest

  -- `m[name] = value`
  unfoldable pub insert : String → V → List (String × V) → List (String × V)
  unfolding remove
  insert name value entries = (name, value) ∷ remove name entries

  lookup-remove :
      (name other : String) (entries : List (String × V))
      → str_eq name other ≡ false
      → lookup other (remove name entries) ≡ lookup other entries
  unfolding lookup remove
  lookup-remove name other [] n = refl
  lookup-remove name other ((key, value) ∷ more) n =
      ground (
        arith,
        eq_iff key name,
        eq_iff key other,
        eq_iff name other,
        lookup-remove name other more n,
      )

  pub lookup-insert :
      (name other : String) (value : V) (entries : List (String × V))
      → lookup other (insert name value entries)
        ≡ (if str_eq name other then some value else lookup other entries)
  unfolding lookup insert
  lookup-insert name other value entries = elim (Bool-cases (str_eq name other)) [
    | inl e ↦ rw e refl
    | inr e ↦ rw e (lookup-remove name other entries e)
  ]
