-- ===== src/Prelude/Assoc.antt =====
-- A Go map with keys that are numbers, as an association list. `keys` gives one order of a `range`.
use mitosis.Prelude.Tests.{◌==◌, if◌then◌else◌}
use Prim.Native.Nat.{ℕ}
use mathlib.Core.Path.{◌≡◌, refl}
use mathlib.Core.List.{List, [], ◌∷◌}
use mathlib.Core.Option.{Option, none, some}
use native.Mathlib.Omega.{arith}

module _ {ℓ} {V : Type ℓ} where
  unfoldable pub lookup : ℕ → List (ℕ × V) → Option V
  lookup key [] = none
  lookup key ((first, value) ∷ rest) =
      let later = lookup key rest in if first == key then some value else later

  unfoldable pub delete : ℕ → List (ℕ × V) → List (ℕ × V)
  delete key [] = []
  delete key ((first, value) ∷ rest) =
      let others = delete key rest in if first == key then others else (first, value) ∷ others

  unfoldable pub insert : ℕ → V → List (ℕ × V) → List (ℕ × V)
  insert key new [] = (key, new) ∷ []
  insert key new ((first, value) ∷ rest) =
      let later = insert key new rest in
      if first == key then (key, new) ∷ rest else (first, value) ∷ later

  pub lookup-delete :
      (key at : ℕ) (entries : List (ℕ × V))
      → lookup at (delete key entries) ≡ (if key == at then none else lookup at entries)
  unfolding lookup delete
  lookup-delete key at [] = ground arith
  lookup-delete key at ((first, value) ∷ rest) = ground (arith, lookup-delete key at rest)

  pub lookup-insert :
      (key at : ℕ) (new : V) (entries : List (ℕ × V))
      → lookup at (insert key new entries) ≡ (if key == at then some new else lookup at entries)
  unfolding insert lookup
  lookup-insert key at new [] = refl
  lookup-insert key at new ((first, value) ∷ rest) = ground (arith, lookup-insert key at new rest)

pub ruleset map_laws = (lookup-insert, lookup-delete)

module _ {ℓ} {V : Type ℓ} where
  pub insert-insert_self :
      (key : ℕ) (new old : V) (entries : List (ℕ × V))
      → insert key new (insert key old entries) ≡ insert key new entries
  unfolding insert
  insert-insert_self key new old [] = ground arith
  insert-insert_self key new old ((first, value) ∷ rest) =
      ground (arith, insert-insert_self key new old rest)

  pub insert_same :
      (key : ℕ) (value : V) (entries : List (ℕ × V))
      → lookup key entries ≡ some value
      → insert key value entries ≡ entries
  unfolding lookup insert
  insert_same key value [] e = ground (arith, e)
  insert_same key value ((first, old) ∷ rest) e = ground (arith, e, insert_same key value rest)
