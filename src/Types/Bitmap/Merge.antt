-- ===== src/Types/Bitmap/Merge.antt =====
-- `Merge` of types/bitmap.go is the union of two sets of keys, and reports the keys that are new.
use Prim.Native.Nat.{bit_and, bit_or, bit_xor}
use mitosis.Prelude.{
  ℕ, suc, ◌+◌, ◌-◌, ◌*◌, ◌^◌, ◌<◌, ◌≤◌, ◌≡◌, refl, ap, ◌≢◌, leb, not, ◌&&◌, ◌||◌, [], ◌∷◌, arith,
  u32, length, elem, elem-append, length-append,
}
use mitosis.Prelude.Bits.{
  bit, bit-bit_or, bit-bit_and, bit-bit_xor, bit_or-lt_pow, bit_and-lt_pow, bit_xor-lt_pow,
}
use mitosis.Prelude.Count.{count-add}
use mitosis.Types.Bitmap.Bytes.{bit_high, elem-byte_keys, byte_size-count, length-byte_keys}
use mitosis.Types.Bitmap.Keys.{member-cons, get_size-cons}
use mitosis.Types.Bitmap.{
  Bitmap, IsBytes, has_key, byte_keys, byte_size, get_size, merge_from, merge, member,
}

-- `(b[i] & x[i]) ^ x[i]`: the keys of the second byte that the first lacks.
abbrev diff : ℕ → ℕ → ℕ
diff v w = bit_xor (bit_and v w) w

bit-diff : (v w k : ℕ) → bit (diff v w) k ≡ (bit w k && not (bit v k))
bit-diff v w k = ground (arith, bit-bit_xor (bit_and v w) w k, bit-bit_and v w k)

diff-lt : (v w : ℕ) → v < 256 → w < 256 → diff v w < 256
diff-lt v w h g = bit_xor-lt_pow 8 (bit_and v w) w (bit_and-lt_pow 8 v w h g) g

or-lt : (v w : ℕ) → v < 256 → w < 256 → bit_or v w < 256
or-lt v w h g = bit_or-lt_pow 8 v w h g

merge_from-IsBytes :
    (i : ℕ) (b x : Bitmap)
    → IsBytes b
    → IsBytes x
    → length b ≡ length x
    → IsBytes (merge_from i b x).0 × (length (merge_from i b x).0 ≡ length b)
unfolding merge_from
merge_from-IsBytes i [] x h g e = (tt, refl)
merge_from-IsBytes i (v ∷ b) [] h g e = (h, refl)
merge_from-IsBytes i (v ∷ b) (w ∷ x) h g e =
    let (bytes, same) = merge_from-IsBytes (suc i) b x h.1 g.1 (omega arith) in
    ((or-lt v w h.0 g.0, bytes), ap suc same)

member-merge_from :
    (i : ℕ) (b x : Bitmap) (k : ℕ)
    → IsBytes b
    → IsBytes x
    → length b ≡ length x
    → member (merge_from i b x).0 k ≡ (member b k || member x k)
unfolding merge_from
member-merge_from i [] [] k h g e = unfold has_key in refl
member-merge_from i [] (w ∷ x) k h g e = absurd (omega arith)
member-merge_from i (v ∷ b) [] k h g e = absurd (omega arith)
member-merge_from i (v ∷ b) (w ∷ x) k h g e = ground (
  arith,
  member-cons (bit_or v w) (merge_from (suc i) b x).0 k (or-lt v w h.0 g.0),
  member-cons v b k h.0,
  member-cons w x k g.0,
  bit-bit_or v w k,
  member-merge_from (suc i) b x (k - 8) h.1 g.1 (omega arith),
)

elem-merge_from :
    (i : ℕ) (b x : Bitmap) (k : ℕ)
    → IsBytes b
    → IsBytes x
    → length b ≡ length x
    → (i + length b) * 8 ≤ 2 ^ 32
    → elem k (merge_from i b x).1
      ≡ (leb (i * 8) k && (member x (k - i * 8) && not (member b (k - i * 8))))
unfolding merge_from
elem-merge_from i [] [] k h g e le = unfold has_key in ground arith
elem-merge_from i [] (w ∷ x) k h g e le = absurd (omega arith)
elem-merge_from i (v ∷ b) [] k h g e le = absurd (omega arith)
elem-merge_from i (v ∷ b) (w ∷ x) k h g e le =
    let start : u32 (i * 8) ≡ i * 8 = omega arith in
    let m = k - i * 8 in
    rw (start, elem-append)
      (ground (
        arith,
        elem-byte_keys 8 (diff v w) (i * 8) k (diff-lt v w h.0 g.0) (omega arith),
        bit-diff v w m,
        bit_high 8 w m g.0,
        member-cons v b m h.0,
        member-cons w x m g.0,
        elem-merge_from (suc i) b x k h.1 g.1 (omega arith) (omega arith),
      ))

-- One byte: the union has what the first had, and what the difference adds.
byte_size-bit_or :
    (v w : ℕ)
    → v < 256
    → w < 256
    → byte_size 8 (bit_or v w) ≡ byte_size 8 v + byte_size 8 (diff v w)
byte_size-bit_or v w h g = omega (
  arith,
  byte_size-count 8 v h,
  byte_size-count 8 (bit_or v w) (or-lt v w h g),
  byte_size-count 8 (diff v w) (diff-lt v w h g),
  count-add 8 (bit v) (bit (diff v w)) (bit (bit_or v w))
      (λ k. ground (arith, bit-bit_or v w k, bit-diff v w k)),
)

get_size-merge_from :
    (i : ℕ) (b x : Bitmap)
    → IsBytes b
    → IsBytes x
    → length b ≡ length x
    → length b * 8 < 2 ^ 32
    → get_size (merge_from i b x).0 ≡ get_size b + length (merge_from i b x).1
unfolding merge_from
get_size-merge_from i [] [] h g e le = unfold get_size in refl
get_size-merge_from i [] (w ∷ x) h g e le = absurd (omega arith)
get_size-merge_from i (v ∷ b) [] h g e le = absurd (omega arith)
get_size-merge_from i (v ∷ b) (w ∷ x) h g e le =
    let rest = merge_from (suc i) b x in
    omega (
      arith,
      byte_size-bit_or v w h.0 g.0,
      (merge_from-IsBytes (suc i) b x h.1 g.1 (omega arith)).1,
      get_size-cons v b le,
      get_size-cons (bit_or v w) rest.0
          (omega (arith, (merge_from-IsBytes (suc i) b x h.1 g.1 (omega arith)).1)),
      length-append (byte_keys 8 (diff v w) (u32 (i * 8))) rest.1,
      length-byte_keys 8 (diff v w) (u32 (i * 8)),
      get_size-merge_from (suc i) b x h.1 g.1 (omega arith) (omega arith),
    )

merge_same : (b x : Bitmap) → length b ≡ length x → merge b x ≡ merge_from 0 b x
unfolding merge
merge_same b x e = ground arith

-- Slices of different lengths are not merged.
pub merge_refused : (b x : Bitmap) → length b ≢ length x → merge b x ≡ (b, [])
unfolding merge
merge_refused b x ne = ground arith

module _ (b x : Bitmap) (bytes : IsBytes b) (bytes_x : IsBytes x) (same : length b ≡ length x) where
  pub member-merge : (k : ℕ) → member (merge b x).0 k ≡ (member b k || member x k)
  member-merge k = rw (merge_same b x same) (member-merge_from 0 b x k bytes bytes_x same)

  pub merge-IsBytes : IsBytes (merge b x).0 × (length (merge b x).0 ≡ length b)
  merge-IsBytes = rw (merge_same b x same) (merge_from-IsBytes 0 b x bytes bytes_x same)

  module _ (fits : length b * 8 < 2 ^ 32) where
    pub elem-merge : (k : ℕ) → elem k (merge b x).1 ≡ (member x k && not (member b k))
    elem-merge k =
        let e : k - 0 * 8 ≡ k = omega arith in
        rw (merge_same b x same, elem-merge_from 0 b x k bytes bytes_x same (omega arith), e)
          (ground arith)

    pub get_size-merge : get_size (merge b x).0 ≡ get_size b + length (merge b x).1
    get_size-merge = rw (merge_same b x same) (get_size-merge_from 0 b x bytes bytes_x same fits)

-- For slices of bytes of one length and of fewer than 2 ^ 32 bits, `Merge` leaves the union in its receiver and returns exactly the keys
-- that were new, and the size of the union is the old size and the number of new keys.
pub merge_union :
    (b x : Bitmap)
    → IsBytes b
    → IsBytes x
    → length b ≡ length x
    → length b * 8 < 2 ^ 32
    → ((k : ℕ) → member (merge b x).0 k ≡ (member b k || member x k))
      × ((k : ℕ) → elem k (merge b x).1 ≡ (member x k && not (member b k)))
      × (get_size (merge b x).0 ≡ get_size b + length (merge b x).1)
merge_union b x h g e le =
    (member-merge b x h g e, elem-merge b x h g e le, get_size-merge b x h g e le)
