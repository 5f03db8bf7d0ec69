-- ===== src/Tests/Bitmaps.antt =====
-- Bitmaps, copies and hashes at concrete inputs.
use mitosis.Prelude.{ℕ, ◌+◌, ◌≡◌, refl, ◌||◌, ◌&&◌, not, [], ◌∷◌, some, length, arith, elem, ◌==◌}
use mitosis.Types.Bitmap.{
  Bitmap, IsBytes, get_element, get_size, set_key, merge, member, keys_from, byte_keys,
}
use mitosis.Types.Bitmap.Keys.{elem-get_element, length-get_element, set_key_lem}
use mitosis.Types.Bitmap.Merge.{merge_union}
use mitosis.Types.Copies.{copy_message, copy_message_lem}
use mitosis.Tests.Toy.{toy_message, toy_block}

abbrev two_bytes : Bitmap
two_bytes = 5 ∷ 128 ∷ []

abbrev other_bytes : Bitmap
other_bytes = 6 ∷ 1 ∷ []

IsBytes-two : IsBytes two_bytes
IsBytes-two = (omega arith, (omega arith, tt))

IsBytes-other : IsBytes other_bytes
IsBytes-other = (omega arith, (omega arith, tt))

keys_of_two : get_element two_bytes ≡ 0 ∷ 2 ∷ 15 ∷ []
unfolding get_element keys_from byte_keys
keys_of_two = refl

elem-get_element_example : elem 15 (get_element two_bytes) ≡ member two_bytes 15
elem-get_element_example = elem-get_element two_bytes 15 IsBytes-two (omega arith)

length-get_element_example : length (get_element two_bytes) ≡ get_size two_bytes
length-get_element_example = length-get_element two_bytes (omega arith)

set_key_lem_example :
    (b' : Bitmap) × (set_key two_bytes 9 ≡ some b')
    × (length b' ≡ 2)
    × IsBytes b'
    × ((j : ℕ) → member b' j ≡ (9 == j || member two_bytes j))
set_key_lem_example = set_key_lem two_bytes 9 IsBytes-two (omega arith)

merge_union_example :
    ((k : ℕ)
      → member (merge two_bytes other_bytes).0 k ≡ (member two_bytes k || member other_bytes k))
    × ((k : ℕ)
        → elem k (merge two_bytes other_bytes).1
          ≡ (member other_bytes k && not (member two_bytes k)))
    × (get_size (merge two_bytes other_bytes).0
        ≡ get_size two_bytes + length (merge two_bytes other_bytes).1)
merge_union_example = merge_union two_bytes other_bytes IsBytes-two IsBytes-other refl (omega arith)

copy_message_lem_example :
    copy_message (toy_message 4 (toy_block 1 7) 24 7)
    ≡ record (toy_message 4 (toy_block 1 7) 24 7) {
      block = record (toy_block 1 7) {
        header = record (toy_block 1 7).header { sign_bit_map = [] };
      };
    }
copy_message_lem_example = copy_message_lem (toy_message 4 (toy_block 1 7) 24 7)
