-- ===== src/Types/Bitmap/Bytes.antt =====
-- One byte of a bitmap: what the inner loops of `GetElement`, `GetSize` and `Merge` collect.
use Prim.Native.Nat.{bit_and}
use native.Mathlib.Nat.{pow-suc}
use mitosis.Prelude.{
  ℕ, zero, suc, ◌+◌, ◌-◌, ◌/◌, ◌^◌, ◌<◌, ◌≤◌, ◌≡◌, refl, sym, ◌==◌, if◌then◌else◌, leb, false, ◌&&◌,
  List, [], ◌∷◌, arith, u32, length, elem, Between, Between-lower,
}
use mitosis.Prelude.Bits.{bit, bit-zero, bit_and-one}
use mitosis.Prelude.Count.{count, count_none}
use mitosis.Types.Bitmap.{byte_keys, byte_size}

-- A number below 2 ^ w has no digit from `w` on.
pub bit_high : (w t k : ℕ) → t < 2 ^ w → w ≤ k → bit t k ≡ false
unfolding bit
bit_high zero zero k h le = bit-zero k
bit_high zero (suc t) k h le = absurd (omega arith)
bit_high (suc w) t zero h le = absurd (omega arith)
bit_high (suc w) t (suc k) h le = bit_high w (t / 2) k (omega (arith, pow-suc 2 w)) (omega arith)

low_digit : (w t : ℕ) → t < 2 ^ suc w → (bit_and t 1 == 1) ≡ bit t 0
unfolding bit
low_digit w t h = ground (arith, bit_and-one (suc w) t h (omega arith))

bit_shift : (t k j : ℕ) → j < k → bit t (k - j) ≡ bit (t / 2) (k - (j + 1))
unfolding bit
bit_shift t k j h = let e : k - j ≡ suc (k - (j + 1)) = omega arith in rw e refl

bit_here : (t k j : ℕ) → j ≡ k → bit t (k - j) ≡ bit t 0
bit_here t k j h = let e : k - j ≡ 0 = omega arith in rw e refl

pub bit_of_zero : (t k : ℕ) → t ≡ 0 → bit t k ≡ false
bit_of_zero t k e = rw e (bit-zero k)

-- One round, given what the rounds after it collect.
byte_keys_round :
    (w t j k : ℕ) (rest : List ℕ)
    → t < 2 ^ suc w
    → elem k rest ≡ (leb (j + 1) k && bit (t / 2) (k - (j + 1)))
    → elem k (if t == 0 then [] else if bit_and t 1 == 1 then j ∷ rest else rest)
      ≡ (leb j k && bit t (k - j))
byte_keys_round w t j k rest h ih =
    ground (arith, low_digit w t h, bit_shift t k j, bit_here t k j, bit_of_zero t (k - j), ih)

-- The keys collected from a byte are the places of its ones.
pub elem-byte_keys :
    (w t j k : ℕ)
    → t < 2 ^ w
    → j + w ≤ 2 ^ 32
    → elem k (byte_keys w t j) ≡ (leb j k && bit t (k - j))
unfolding byte_keys
elem-byte_keys zero t j k h le = ground (arith, bit_of_zero t (k - j) (omega arith))
elem-byte_keys (suc zero) t j k h le =
    byte_keys_round zero t j k [] h
      (ground (arith, bit_of_zero (t / 2) (k - (j + 1)) (omega arith)))
elem-byte_keys (suc (suc w)) t j k h le =
    let e : u32 (j + 1) ≡ j + 1 = omega arith in
    byte_keys_round (suc w) t j k _ h (
      rw e
        (elem-byte_keys (suc w) (t / 2) (j + 1) k (omega (arith, pow-suc 2 (suc w))) (omega arith)))

pub byte_size-count : (w t : ℕ) → t < 2 ^ w → byte_size w t ≡ count w (bit t)
unfolding byte_size count bit
byte_size-count zero t h = refl
byte_size-count (suc w) zero h = sym (count_none (suc w) (bit 0) bit-zero)
byte_size-count (suc w) (suc t) h =
    ground
      (arith, low_digit w (suc t) h, byte_size-count w (suc t / 2) (omega (arith, pow-suc 2 w)))

pub length-byte_keys : (w t j : ℕ) → length (byte_keys w t j) ≡ byte_size w t
unfolding byte_keys byte_size
length-byte_keys zero t j = refl
length-byte_keys (suc w) t j = ground (arith, length-byte_keys w (t / 2) (u32 (j + 1)))

Between-round :
    (w t j : ℕ) (rest : List ℕ)
    → Between (j + 1) (j + suc w) rest
    → Between j (j + suc w) (if t == 0 then [] else if bit_and t 1 == 1 then j ∷ rest else rest)
Between-round w t j rest ih = ground (arith, Between-lower (j + 1) j (j + suc w) rest ih)

-- They come out in ascending order.
pub Between-byte_keys : (w t j : ℕ) → j + w ≤ 2 ^ 32 → Between j (j + w) (byte_keys w t j)
unfolding byte_keys
Between-byte_keys zero t j le = omega arith
Between-byte_keys (suc zero) t j le = Between-round 0 t j [] (omega arith)
Between-byte_keys (suc (suc w)) t j le =
    let e : u32 (j + 1) ≡ j + 1 = omega arith in
    let top : j + 1 + suc w ≡ j + suc (suc w) = omega arith in
    Between-round (suc w) t j _
      (rw e (rw top at (Between-byte_keys (suc w) (t / 2) (j + 1) (omega arith))))
