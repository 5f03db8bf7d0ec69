-- ===== src/Prelude/Count.antt =====
-- How many numbers below a bound pass a test.
use Prim.Native.Nat.{ℕ, zero, suc, ◌+◌, ◌≤◌, ◌<◌}
use mathlib.Core.Path.{◌≡◌, refl}
use mathlib.Core.Bool.{Bool, true, false, ◌&&◌}
use native.Mathlib.Nat.{zero-add, suc-add}
use native.Mathlib.Omega.{arith}
use mitosis.Prelude.Tests.{leb}

abbrev pub one_if : Bool → ℕ
one_if true = 1
one_if false = 0

unfoldable pub count : ℕ → (ℕ → Bool) → ℕ
count zero p = 0
count (suc n) p = one_if (p 0) + count n (λ k. p (suc k))

-- Two tests whose outcomes add up to a third's.
pub count-add :
    (n : ℕ) (p q r : ℕ → Bool)
    → ((k : ℕ) → one_if (r k) ≡ one_if (p k) + one_if (q k))
    → count n r ≡ count n p + count n q
unfolding count
count-add zero p q r h = refl
count-add (suc n) p q r h =
    omega
      (arith, h 0, count-add n (λ k. p (suc k)) (λ k. q (suc k)) (λ k. r (suc k)) (λ k. h (suc k)))

-- Two large sets below `n` overlap.
pub count_overlap : (n : ℕ) (p q : ℕ → Bool) → count n p + count n q ≤ n + count n (λ k. p k && q k)
unfolding count
count_overlap zero p q = omega arith
count_overlap (suc n) p q =
    let ih = count_overlap n (λ k. p (suc k)) (λ k. q (suc k)) in ground (arith, ih)

pub count_none : (n : ℕ) (p : ℕ → Bool) → ((k : ℕ) → p k ≡ false) → count n p ≡ 0
unfolding count
count_none zero p h = refl
count_none (suc n) p h = ground (arith, h 0, count_none n (λ k. p (suc k)) (λ k. h (suc k)))

-- Past a bound that the test respects, nothing is counted.
pub count_within :
    (n m : ℕ) (p : ℕ → Bool) → ((k : ℕ) → n ≤ k → p k ≡ false) → n ≤ m → count m p ≡ count n p
unfolding count
count_within zero m p h le = count_none m p (λ k. h k (omega arith))
count_within (suc n) zero p h le = absurd (omega arith)
count_within (suc n) (suc m) p h le =
    omega (arith, count_within n m (λ k. p (suc k)) (λ k g. h (suc k) (omega arith)) (omega arith))

pub count_ext : (n : ℕ) (p q : ℕ → Bool) → ((k : ℕ) → k < n → p k ≡ q k) → count n p ≡ count n q
unfolding count
count_ext zero p q h = refl
count_ext (suc n) p q h = ground (
  arith,
  h 0 (omega arith),
  count_ext n (λ k. p (suc k)) (λ k. q (suc k)) (λ k g. h (suc k) (omega arith)),
)

pub count_split : (m n : ℕ) (p : ℕ → Bool) → count (m + n) p ≡ count m p + count n (λ k. p (m + k))
unfolding count
count_split zero n p = simp zero-add
count_split (suc m) n p = simp suc-add (omega (arith, count_split m n (λ k. p (suc k))))

-- What is counted below one bound is below another, or from that one on.
pub count_beyond : (n m : ℕ) (p : ℕ → Bool) → count m p ≤ count n p + count m (λ k. leb n k && p k)
unfolding count
count_beyond n zero p = omega arith
count_beyond zero (suc m) p =
    omega
      (arith, count_ext m (λ k. p (suc k)) (λ k. leb 0 (suc k) && p (suc k)) (λ k _. ground arith))
count_beyond (suc n) (suc m) p =
    let ih = count_beyond n m (λ k. p (suc k)) in
    let later =
      count_ext m (λ k. leb n k && p (suc k)) (λ k. leb (suc n) (suc k) && p (suc k))
        (λ k _. ground arith) in
    ground (arith, ih, later)
