-- ===== src/Prelude/Texts.antt =====
-- A Go map with keys that are strings, as an association list.
use Prim.Native.String.{String}
use text.Mathlib.Text.{◌==◌}
use text.Mathlib.TextEquality.{eq_iff}
use mathlib.Core.Path.{◌≡◌, refl}
use mathlib.Core.List.{List, [], ◌∷◌}
use mathlib.Core.Option.{Option, none, some}
use native.Mathlib.Omega.{arith}
use mitosis.Prelude.Tests.{if◌then◌else◌}

module _ {ℓ} {V : Type ℓ} where
  unfoldable pub lookup : String → List (String × V) → Option V
  lookup key [] = none
  lookup key ((first, value) ∷ rest) =
      let later = lookup key rest in if first == key then some value else later

  unfoldable pub insert : String → V → List (String × V) → List (String × V)
  insert key new [] = (key, new) ∷ []
  insert key new ((first, value) ∷ rest) =
      let later = insert key new rest in
      if first == key then (key, new) ∷ rest else (first, value) ∷ later

  pub lookup-insert :
      (key at : String) (new : V) (entries : List (String × V))
      → lookup at (insert key new entries) ≡ (if key == at then some new else lookup at entries)
  unfolding insert lookup
  lookup-insert key at new [] = refl
  lookup-insert key at new ((first, value) ∷ rest) =
      ground
        (arith, eq_iff key at, eq_iff first key, eq_iff first at, lookup-insert key at new rest)
