-- ===== src/Types/Bitmap/Overlap.antt =====
-- Two bitmaps of Mitosis/types/bitmap.go: how many keys below a bound they must share, given their `GetSize`.
use mitosis.Prelude.{ℕ, ◌+◌, ◌*◌, ◌^◌, ◌<◌, ◌≤◌, ◌&&◌, leb, arith, length}
use mitosis.Prelude.Count.{count, count_overlap, count_beyond}
use mitosis.Types.Bitmap.Keys.{get_size-count}
use mitosis.Types.Bitmap.{Bitmap, IsBytes, get_size, member}

-- How many keys from `n` on a bitmap holds.
abbrev pub beyond : ℕ → Bitmap → ℕ
beyond n b = count (length b * 8) (λ k. leb n k && member b k)

get_size-beyond :
    (n : ℕ) (b : Bitmap)
    → IsBytes b
    → length b * 8 < 2 ^ 32
    → get_size b ≤ count n (member b) + beyond n b
get_size-beyond n b bytes fits =
    omega (arith, get_size-count b bytes fits, count_beyond n (length b * 8) (member b))

-- Two bitmaps of fewer than 2 ^ 32 bits share at least as many of the keys below `n` as their sizes together
-- exceed `n` and the keys that they hold from `n` on.
pub get_size_overlap :
    (n : ℕ) (a b : Bitmap)
    → IsBytes a
    → IsBytes b
    → length a * 8 < 2 ^ 32
    → length b * 8 < 2 ^ 32
    → get_size a + get_size b
      ≤ n + count n (λ k. member a k && member b k) + (beyond n a + beyond n b)
get_size_overlap n a b bytes_a bytes_b fits_a fits_b = omega (
  arith,
  get_size-beyond n a bytes_a fits_a,
  get_size-beyond n b bytes_b fits_b,
  count_overlap n (member a) (member b),
)
