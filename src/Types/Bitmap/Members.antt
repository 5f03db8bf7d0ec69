-- ===== src/Types/Bitmap/Members.antt =====
-- A bitmap of types/bitmap.go over the `n` keys of a shard, by the list of the keys it holds: the bitmap of
-- one node, and `Merge` with it.
use mitosis.Prelude.{
  ℕ, zero, suc, ◌+◌, ◌-◌, ◌*◌, ◌/◌, ◌^◌, ◌<◌, ◌≡◌, refl, ap, ◌∙◌, sym, true, false, List, [], ◌∷◌,
  some, arith, length, replicate, elem, Between, u32, length-replicate,
}
use mitosis.Prelude.Ascending.{
  insert_sorted, elem-insert_sorted, Between-insert_sorted, Between-upper, ascending_unique,
}
use mitosis.Types.Bitmap.{
  Bitmap, IsBytes, new_bitmap, set_key, has_key, get_element, get_size, merge, member,
}
use mitosis.Types.Bitmap.Bytes.{bit_of_zero}
use mitosis.Types.Bitmap.Keys.{
  member-cons, elem-get_element, get_element-Between, length-get_element, set_key_lem,
}
use mitosis.Types.Bitmap.Merge.{member-merge, merge-IsBytes, elem-merge}

pub record Holds (n : ℕ) (keys : List ℕ) (b : Bitmap) : Type 0 where
  pub bytes : IsBytes b
  pub size : length b ≡ (n + 7) / 8
  pub listed : get_element b ≡ keys
  pub range : Between 0 n keys

IsBytes-replicate : (m : ℕ) → IsBytes (replicate m 0)
IsBytes-replicate zero = tt
IsBytes-replicate (suc m) = (omega arith, IsBytes-replicate m)

member-replicate : (m k : ℕ) → member (replicate m 0) k ≡ false
member-replicate zero k = unfold has_key in refl
member-replicate (suc m) k = ground (
  arith,
  member-cons 0 (replicate m 0) k (omega arith),
  bit_of_zero 0 k refl,
  member-replicate m (k - 8),
)

elem_head : (j : ℕ) (xs : List ℕ) → elem j xs ≡ true → (k : ℕ) × (ks : List ℕ) × (xs ≡ k ∷ ks)
elem_head j [] e = absurd (ground arith)
elem_head j (x ∷ xs) e = (x, xs, refl)

module _ (n : ℕ) (fits : n + 7 < 2 ^ 32) where
  -- A bitmap that holds what an ascending list holds, lists it.
  Holds_of :
      (b : Bitmap) (keys : List ℕ)
      → IsBytes b
      → length b ≡ (n + 7) / 8
      → Between 0 n keys
      → ((k : ℕ) → member b k ≡ elem k keys)
      → Holds n keys b
  Holds_of b keys bytes size range same = record {
    bytes = bytes;
    size = size;
    range = range;
    listed =
        ascending_unique 0 (length b * 8) (get_element b) keys (get_element-Between b (omega arith))
          (Between-upper 0 n (length b * 8) keys range (omega (arith, size)))
          (λ k. elem-get_element b k bytes (omega arith) ∙ same k);
  }

  pub member-Holds :
      (b : Bitmap) (keys : List ℕ) → Holds n keys b → (k : ℕ) → member b k ≡ elem k keys
  member-Holds b keys v k =
      sym (elem-get_element b k v.bytes (omega (arith, v.size))) ∙ ap (elem k) v.listed

  length-zeros : length (replicate {A = ℕ} ((n + 7) / 8) 0) ≡ (n + 7) / 8
  length-zeros = length-replicate _ 0

  new_bitmap_lem : new_bitmap n ≡ replicate ((n + 7) / 8) 0
  unfolding new_bitmap
  new_bitmap_lem = let small : u32 (n + 7) ≡ n + 7 = omega (arith, fits) in rw small

  pub own-Holds :
      (j : ℕ) → j < n → (b : Bitmap) × (set_key (new_bitmap n) j ≡ some b) × Holds n (j ∷ []) b
  own-Holds j h =
      let m = (n + 7) / 8 in
      let bytes = IsBytes-replicate m in
      let long = length-zeros in
      let (b, e, same, kept, holds) = set_key_lem (replicate m 0) j bytes (omega (arith, long)) in
      (
        b,
        rw new_bitmap_lem e,
        Holds_of b (j ∷ []) kept (same ∙ long) (omega arith)
            (λ k. ground (arith, holds k, member-replicate m k)),
      )

  pub size-Holds : (b : Bitmap) (keys : List ℕ) → Holds n keys b → get_size b ≡ length keys
  size-Holds b keys v =
      omega (arith, length-get_element b (omega (arith, v.size)), ap length v.listed)

  pub merge-Holds :
      (b x : Bitmap) (keys : List ℕ) (j : ℕ)
      → Holds n keys b
      → Holds n (j ∷ []) x
      → elem j keys ≡ false
      → Holds n (insert_sorted j keys) (merge b x).0
        × ((k : ℕ) × (ks : List ℕ) × ((merge b x).1 ≡ k ∷ ks))
  merge-Holds b x keys j v w new =
      let same : length b ≡ length x = v.size ∙ sym w.size in
      let (bytes, long) = merge-IsBytes b x v.bytes w.bytes same in
      let held_b = member-Holds b keys v in
      let held_x = member-Holds x (j ∷ []) w in
      (
        Holds_of (merge b x).0 (insert_sorted j keys) bytes (long ∙ v.size)
            (Between-insert_sorted 0 n j keys v.range w.range.0 w.range.1 new)
            (λ k. ground (
              arith,
              member-merge b x v.bytes w.bytes same k,
              held_b k,
              held_x k,
              elem-insert_sorted j k keys,
            )),
        elem_head j (merge b x).1 (
            ground (
              arith,
              elem-merge b x v.bytes w.bytes same (omega (arith, v.size)) j,
              held_b j,
              held_x j,
              new,
            )),
      )
