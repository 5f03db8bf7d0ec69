-- ===== src/Types/Bitmap.antt =====
-- Mitosis/types/bitmap.go: a set of node keys as a slice of bytes, eight keys to a byte. An index
-- out of range, which panics in Go, is `none`; a write returns the slice after it.
pub mod Bytes
pub mod Keys
pub mod Merge
pub mod Overlap
pub mod Members
pub mod Rounds
use Prim.Native.Nat.{bit_and, bit_or, bit_xor}
use mitosis.Prelude.{
  ℕ, zero, suc, ◌+◌, ◌*◌, ◌/◌, ◌%◌, ◌^◌, ◌<◌, ◌≤◌, ◌==◌, if◌then◌else◌, Bool, true, false, not,
  List, [], ◌∷◌, ◌++◌, Option, none, some, u32, length, get_elem?, set, replicate, All,
}

abbrev pub Bitmap : Type 0
Bitmap = List ℕ

-- The elements are bytes.
abbrev pub IsBytes : Bitmap → Type 0
IsBytes b = All (λ v. v < 256) b

-- `len + 7` is a uint32.
unfoldable pub new_bitmap : ℕ → Bitmap
new_bitmap len = replicate (u32 (len + 7) / 8) 0

abbrev pub test_bit : Option ℕ → ℕ → Option Bool
test_bit none r = none
test_bit (some v) r = some (not (bit_and v (2 ^ r) == 0))

unfoldable pub has_key : Bitmap → ℕ → Option Bool
has_key b x = test_bit (get_elem? b (x / 8)) (x % 8)

abbrev pub set_bit : Bitmap → ℕ → ℕ → Option ℕ → Option Bitmap
set_bit b i r none = none
set_bit b i r (some v) = some (set b i (bit_or v (2 ^ r)))

unfoldable pub set_key : Bitmap → ℕ → Option Bitmap
set_key b x = set_bit b (x / 8) (x % 8) (get_elem? b (x / 8))

-- `for j := ...; t > 0; j++ { if t&1 == 1 { append j }; t = t >> 1 }`. A byte takes eight rounds.
unfoldable pub byte_keys : ℕ → ℕ → ℕ → List ℕ
byte_keys zero t j = []
byte_keys (suc rounds) t j =
    let rest = byte_keys rounds (t / 2) (u32 (j + 1)) in
    if t == 0 then [] else if bit_and t 1 == 1 then j ∷ rest else rest

-- The same loop with a counter in place of the list.
unfoldable pub byte_size : ℕ → ℕ → ℕ
byte_size zero t = 0
byte_size (suc rounds) t =
    let rest = byte_size rounds (t / 2) in
    if t == 0 then 0 else if bit_and t 1 == 1 then suc rest else rest

unfoldable pub keys_from : ℕ → Bitmap → List ℕ
keys_from i [] = []
keys_from i (v ∷ b) = byte_keys 8 v (u32 (i * 8)) ++ keys_from (suc i) b

unfoldable pub get_element : Bitmap → List ℕ
get_element b = keys_from 0 b

-- `ans` is a uint32.
unfoldable pub get_size : Bitmap → ℕ
get_size [] = 0
get_size (v ∷ b) = u32 (byte_size 8 v + get_size b)

-- The loop of `Merge` over slices of one length: the merged bytes, and the keys that are new.
unfoldable pub merge_from : ℕ → Bitmap → Bitmap → Bitmap × List ℕ
merge_from i [] x = ([], [])
merge_from i (v ∷ b) [] = (v ∷ b, [])
merge_from i (v ∷ b) (w ∷ x) =
    let (b', keys) = merge_from (suc i) b x in
    (bit_or v w ∷ b', byte_keys 8 (bit_xor (bit_and v w) w) (u32 (i * 8)) ++ keys)

unfoldable pub merge : Bitmap → Bitmap → Bitmap × List ℕ
merge b x = if length b == length x then merge_from 0 b x else (b, [])

-- A copy has the same bytes.
unfoldable pub copy : Bitmap → Bitmap
copy [] = []
copy (v ∷ b) = v ∷ copy b

-- Whether the bitmap holds a key; a key past its end is not held.
abbrev pub held : Option Bool → Bool
held none = false
held (some h) = h

abbrev pub member : Bitmap → ℕ → Bool
member b x = held (has_key b x)
