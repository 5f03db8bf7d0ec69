-- ===== src/Types/Bitmap/Rounds.antt =====
-- The loops of Mitosis/types/bitmap.go over the bits of a byte end. Here a loop that has used up its fuel has
-- no result; `byte_keys` and `byte_size` are what the loops return.
use mitosis.Prelude.{
  ℕ, zero, suc, ◌+◌, ◌/◌, ◌^◌, ◌<◌, ◌==◌, if◌then◌else◌, List, [], ◌∷◌, Option, none, some, u32,
  ◌≡◌, refl, arith, Bool-cases, inl, inr,
}
use Prim.Native.Nat.{bit_and}
use native.Mathlib.Nat.{pow-suc, suc-add}
use mitosis.Types.Bitmap.{byte_keys, byte_size}

abbrev cons_if : ℕ → ℕ → Option (List ℕ) → Option (List ℕ)
cons_if t j none = none
cons_if t j (some keys) = some (if bit_and t 1 == 1 then j ∷ keys else keys)

abbrev suc_if : ℕ → Option ℕ → Option ℕ
suc_if t none = none
suc_if t (some size) = some (if bit_and t 1 == 1 then suc size else size)

-- `for j := ...; t > 0; j++` of GetElement and Merge: the test, then the body and the step.
unfoldable pub keys_loop : ℕ → ℕ → ℕ → Option (List ℕ)
keys_loop zero t j = none
keys_loop (suc fuel) t j =
    let rest = cons_if t j (keys_loop fuel (t / 2) (u32 (j + 1))) in
    if t == 0 then some [] else rest

-- The loop of GetSize.
unfoldable pub size_loop : ℕ → ℕ → Option ℕ
size_loop zero t = none
size_loop (suc fuel) t =
    let rest = suc_if t (size_loop fuel (t / 2)) in if t == 0 then some 0 else rest

-- The loops of GetElement, Merge and GetSize over a number of at most `w` bits end by their test within `w + 1`
-- tests, however much fuel is left, and what they return is `byte_keys` and `byte_size` of `w` rounds.
pub loops_end :
    (w more t j : ℕ)
    → t < 2 ^ w
    → (keys_loop (suc w + more) t j ≡ some (byte_keys w t j))
      × (size_loop (suc w + more) t ≡ some (byte_size w t))
unfolding keys_loop size_loop byte_keys byte_size
loops_end zero more t j small =
    let e : t ≡ 0 = omega arith in rw (suc-add zero more, e) (refl, refl)
loops_end (suc w) more t j small = elim (Bool-cases (t == 0)) [
  | inl q ↦ rw (suc-add (suc w) more, q) (refl, refl)
  | inr q ↦
      let (keys, size) = loops_end w more (t / 2) (u32 (j + 1)) (omega (arith, pow-suc 2 w)) in
      rw (suc-add (suc w) more, q, keys, size) (refl, refl)
]
