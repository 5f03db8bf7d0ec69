-- ===== src/Prelude/Bits.antt =====
-- The binary digits of a number, and what `&`, `|` and `^` do to them.
use Prim.Native.Nat.{
  ℕ, zero, suc, ◌+◌, ◌*◌, ◌/◌, ◌%◌, ◌^◌, ◌≤◌, ◌<◌, min, max, bit_and, bit_or, bit_xor, digits,
  bit_and-bitwise, bit_or-bitwise, bit_xor-bitwise, differ,
}
use mathlib.Core.Path.{◌≡◌, refl, ◌∙◌, ap}
use mathlib.Core.Bool.{Bool, true, false, not, ◌&&◌, ◌||◌}
use mathlib.Core.Logic.{inl, inr}
use native.Mathlib.Omega.{arith}
use native.Mathlib.Nat.{pow-suc, one-le-pow}
use mitosis.Prelude.Tests.{◌==◌, Bool-cases}

-- Digit `k`, from the lowest.
unfoldable pub bit : ℕ → ℕ → Bool
bit x zero = x % 2 == 1
bit x (suc k) = bit (x / 2) k

pub bit-zero : (k : ℕ) → bit 0 k ≡ false
unfolding bit
bit-zero zero = refl
bit-zero (suc k) = bit-zero k

module _ (z : ℕ → ℕ) (f : ℕ → ℕ → ℕ) (op : Bool → Bool → Bool)
    (run_out : (b k : ℕ) → bit (z b) k ≡ op false (bit b k))
    (small : (a b : ℕ) → f (a % 2) (b % 2) < 2)
    (digit : (a b : ℕ) → (f (a % 2) (b % 2) == 1) ≡ op (a % 2 == 1) (b % 2 == 1)) where
  bit-digits : (n a b k : ℕ) → a ≤ n → bit (digits z f n a b) k ≡ op (bit a k) (bit b k)
  unfolding bit
  bit-digits zero zero b k h = rw bit-zero (run_out b k)
  bit-digits zero (suc a) b k h = absurd (omega arith)
  bit-digits (suc n) zero b k h = rw bit-zero (run_out b k)
  bit-digits (suc n) (suc a) b zero h =
      let d = f (suc a % 2) (b % 2) in
      let q = digits z f n (suc a / 2) (b / 2) in
      let e : (q * 2 + d) % 2 ≡ d = omega (arith, small (suc a) b) in rw e (digit (suc a) b)
  bit-digits (suc n) (suc a) b (suc k) h =
      let d = f (suc a % 2) (b % 2) in
      let q = digits z f n (suc a / 2) (b / 2) in
      let e : (q * 2 + d) / 2 ≡ q = omega (arith, small (suc a) b) in
      rw e (bit-digits n (suc a / 2) (b / 2) k (omega arith))

module _ (z : ℕ → ℕ) (f : ℕ → ℕ → ℕ) (run_out : (b : ℕ) → z b ≤ b)
    (small : (a b : ℕ) → f (a % 2) (b % 2) < 2) where
  digits-lt_pow : (w n a b : ℕ) → a < 2 ^ w → b < 2 ^ w → digits z f n a b < 2 ^ w
  digits-lt_pow w zero a b p q = omega (arith, run_out b)
  digits-lt_pow w (suc n) zero b p q = omega (arith, run_out b)
  digits-lt_pow zero (suc n) (suc a) b p q = absurd (omega arith)
  digits-lt_pow (suc w) (suc n) (suc a) b p q = omega (
    arith,
    small (suc a) b,
    pow-suc 2 w,
    digits-lt_pow w n (suc a / 2) (b / 2) (omega (arith, pow-suc 2 w)) (omega (arith, pow-suc 2 w)),
  )

abbrev pub bne : Bool → Bool → Bool
bne true b = not b
bne false b = b

differ_digit :
    (p q : ℕ) → p < 2 → q < 2 → (differ p q < 2) × ((differ p q == 1) ≡ bne (p == 1) (q == 1))
differ_digit zero q g h = (h, ground arith)
differ_digit (suc zero) zero g h = (omega arith, refl)
differ_digit (suc zero) (suc zero) g h = (omega arith, refl)
differ_digit (suc zero) (suc (suc q)) g h = absurd (omega arith)
differ_digit (suc (suc p)) q g h = absurd (omega arith)

pub bit-bit_or : (a b k : ℕ) → bit (bit_or a b) k ≡ (bit a k || bit b k)
bit-bit_or a b k = rw (bit_or-bitwise a b) (
    bit-digits (λ y. y) max ◌||◌ (λ y j. refl) (λ x y. omega arith) (λ x y. ground arith) a a b k
      (omega arith))

pub bit-bit_and : (a b k : ℕ) → bit (bit_and a b) k ≡ (bit a k && bit b k)
bit-bit_and a b k = rw (bit_and-bitwise a b) (
    bit-digits (λ y. 0) min ◌&&◌ (λ y j. bit-zero j) (λ x y. omega arith) (λ x y. ground arith) a a
      b k (omega arith))

pub bit-bit_xor : (a b k : ℕ) → bit (bit_xor a b) k ≡ bne (bit a k) (bit b k)
bit-bit_xor a b k = rw (bit_xor-bitwise a b) (
    bit-digits (λ y. y) differ bne (λ y j. refl)
      (λ x y. (differ_digit (x % 2) (y % 2) (omega arith) (omega arith)).0)
      (λ x y. (differ_digit (x % 2) (y % 2) (omega arith) (omega arith)).1) a a b k (omega arith))

pub bit_or-lt_pow : (w a b : ℕ) → a < 2 ^ w → b < 2 ^ w → bit_or a b < 2 ^ w
bit_or-lt_pow w a b p q =
    rw (bit_or-bitwise a b)
      (digits-lt_pow (λ y. y) max (λ y. omega arith) (λ x y. omega arith) w a a b p q)

pub bit_and-lt_pow : (w a b : ℕ) → a < 2 ^ w → b < 2 ^ w → bit_and a b < 2 ^ w
bit_and-lt_pow w a b p q =
    rw (bit_and-bitwise a b)
      (digits-lt_pow (λ y. 0) min (λ y. omega arith) (λ x y. omega arith) w a a b p q)

pub bit_xor-lt_pow : (w a b : ℕ) → a < 2 ^ w → b < 2 ^ w → bit_xor a b < 2 ^ w
bit_xor-lt_pow w a b p q = rw (bit_xor-bitwise a b) (
    digits-lt_pow (λ y. y) differ (λ y. omega arith)
      (λ x y. (differ_digit (x % 2) (y % 2) (omega arith) (omega arith)).0) w a a b p q)

-- A single one, `1 << k`.
pub bit-pow : (k j : ℕ) → bit (2 ^ k) j ≡ (k == j)
unfolding bit
bit-pow zero zero = refl
bit-pow zero (suc j) = rw bit-zero (ground arith)
bit-pow (suc k) zero = let e : 2 ^ suc k % 2 ≡ 0 = omega (arith, pow-suc 2 k) in rw e (ground arith)
bit-pow (suc k) (suc j) =
    let e : 2 ^ suc k / 2 ≡ 2 ^ k = omega (arith, pow-suc 2 k) in rw e (bit-pow k j ∙ ground arith)

-- A number is zero when its low digits are, if it has no others.
zero_of_bits : (w a : ℕ) → a < 2 ^ w → ((k : ℕ) → bit a k ≡ false) → a ≡ 0
unfolding bit
zero_of_bits zero a h low = omega arith
zero_of_bits (suc w) a h low =
    let even : a % 2 ≡ 0 = ground (arith, low 0) in
    omega (arith, zero_of_bits w (a / 2) (omega (arith, pow-suc 2 w)) (λ k. low (suc k)))

pow-pos : (w : ℕ) → 0 < w → 2 ≤ 2 ^ w
pow-pos zero h = absurd (omega arith)
pow-pos (suc w) h = omega (arith, pow-suc 2 w, one-le-pow w 2)

pub pow_lt : (k w : ℕ) → k < w → 2 ^ k < 2 ^ w
pow_lt k zero h = absurd (omega arith)
pow_lt zero (suc w) h = omega (arith, pow-suc 2 w, one-le-pow w 2)
pow_lt (suc k) (suc w) h = omega (arith, pow-suc 2 w, pow-suc 2 k, pow_lt k w (omega arith))

bit_zero_of : (a k : ℕ) → a ≡ 0 → bit a k ≡ false
bit_zero_of a k e = rw e (bit-zero k)

-- `a & 1` and `a & (1 << k) != 0` read one digit of a word.
pub bit_and-one : (w a : ℕ) → a < 2 ^ w → 0 < w → bit_and a 1 ≡ a % 2
unfolding bit
bit_and-one w a h pos =
    let one : 1 < 2 ^ w = omega (arith, pow-pos w pos) in
    let high : bit_and a 1 / 2 ≡ 0 =
      zero_of_bits w (bit_and a 1 / 2) (omega (arith, bit_and-lt_pow w a 1 h one))
        λ k. bit-bit_and a 1 (suc k) ∙ ap (λ t. bit (a / 2) k && t) (bit-zero k) ∙ ground arith in
    ground (arith, bit-bit_and a 1 0)

pub bit_and-pow : (w a k : ℕ) → a < 2 ^ w → k < w → not (bit_and a (2 ^ k) == 0) ≡ bit a k
bit_and-pow w a k h lt = elim (Bool-cases (bit a k)) [
  | inl e ↦
      rw e (ground (arith, bit-bit_and a (2 ^ k) k, bit-pow k k, bit_zero_of (bit_and a (2 ^ k)) k))
  | inr e ↦
      let z : bit_and a (2 ^ k) ≡ 0 =
        zero_of_bits w (bit_and a (2 ^ k)) (bit_and-lt_pow w a (2 ^ k) h (pow_lt k w lt))
          (λ j. other e j) in
      rw (e, z) refl
]
  where
    other : bit a k ≡ false → (j : ℕ) → bit (bit_and a (2 ^ k)) j ≡ false
    other e j = ground (arith, bit-bit_and a (2 ^ k) j, bit-pow k j)
