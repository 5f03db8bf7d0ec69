-- ===== src/Prelude/Ascending.antt =====
-- Strictly ascending lists of numbers, as sets: what they hold determines them.
use mathlib.Core.Bool.{true, false, ◌||◌}
use Prim.Native.Nat.{ℕ, suc, ◌<◌, ◌≤◌}
use mathlib.Core.List.{List, [], ◌∷◌}
use mathlib.Core.Path.{◌≡◌, refl, ap₂}
use mathlib.Core.Logic.{inl, inr}
use native.Mathlib.Omega.{arith}
use mitosis.Prelude.Tests.{ltb, ◌==◌, if◌then◌else◌, Bool-cases}
use mitosis.Prelude.Lists.{length, elem, Between}

abbrev pub insert_sorted : ℕ → List ℕ → List ℕ
insert_sorted k [] = k ∷ []
insert_sorted k (x ∷ xs) = let more = x ∷ insert_sorted k xs in if ltb k x then k ∷ x ∷ xs else more

pub elem-insert_sorted :
    (k j : ℕ) (xs : List ℕ) → elem j (insert_sorted k xs) ≡ (j == k || elem j xs)
elem-insert_sorted k j [] = refl
elem-insert_sorted k j (x ∷ xs) = ground (arith, elem-insert_sorted k j xs)

pub length-insert_sorted : (k : ℕ) (xs : List ℕ) → length (insert_sorted k xs) ≡ suc (length xs)
length-insert_sorted k [] = refl
length-insert_sorted k (x ∷ xs) = ground (arith, length-insert_sorted k xs)

-- Nothing below an ascending list is in it.
pub elem_below : (lo hi k : ℕ) (xs : List ℕ) → Between lo hi xs → k < lo → elem k xs ≡ false
elem_below lo hi k [] p h = refl
elem_below lo hi k (x ∷ xs) p h =
    ground (arith, elem_below (suc x) hi k xs p.1 (omega (arith, p.0)))

pub Between-le : (lo hi : ℕ) (xs : List ℕ) → Between lo hi xs → lo ≤ hi
Between-le lo hi [] p = p
Between-le lo hi (x ∷ xs) p = omega (arith, p.0, Between-le (suc x) hi xs p.1)

pub elem_bound : (lo hi k : ℕ) (xs : List ℕ) → Between lo hi xs → elem k xs ≡ true → k < hi
elem_bound lo hi k [] p e = absurd (ground arith)
elem_bound lo hi k (x ∷ xs) p e =
    ground (arith, Between-le (suc x) hi xs p.1, elem_bound (suc x) hi k xs p.1)

pub Between-insert_sorted :
    (lo hi k : ℕ) (xs : List ℕ)
    → Between lo hi xs
    → lo ≤ k
    → k < hi
    → elem k xs ≡ false
    → Between lo hi (insert_sorted k xs)
Between-insert_sorted lo hi k [] p l h e = (l, omega arith)
Between-insert_sorted lo hi k (x ∷ xs) p l h e = elim (Bool-cases (ltb k x)) [
  | inl less ↦ rw less (l, (ground arith, p.1))
  | inr more ↦
      rw more (p.0, Between-insert_sorted (suc x) hi k xs p.1 (ground arith) h (ground arith))
]

pub Between-upper : (lo hi hi' : ℕ) (xs : List ℕ) → Between lo hi xs → hi ≤ hi' → Between lo hi' xs
Between-upper lo hi hi' [] p h = omega arith
Between-upper lo hi hi' (x ∷ xs) p h = (p.0, Between-upper (suc x) hi hi' xs p.1 h)

pub ascending_unique :
    (lo hi : ℕ) (xs ys : List ℕ)
    → Between lo hi xs
    → Between lo hi ys
    → ((k : ℕ) → elem k xs ≡ elem k ys)
    → xs ≡ ys
ascending_unique lo hi [] [] p q h = refl
ascending_unique lo hi [] (y ∷ ys) p q h = absurd (ground (arith, h y))
ascending_unique lo hi (x ∷ xs) [] p q h = absurd (ground (arith, h x))
ascending_unique lo hi (x ∷ xs) (y ∷ ys) p q h =
    let same : x ≡ y =
      ground (arith, h x, h y, elem_below (suc x) hi y xs p.1, elem_below (suc y) hi x ys q.1) in
    let q' : Between (suc x) hi ys = rw same q.1 in
    ap₂ ◌∷◌ same (
      ascending_unique (suc x) hi xs ys p.1 q' (λ k.
        ground (arith, h k, same, elem_below (suc x) hi k xs p.1, elem_below (suc x) hi k ys q')))
