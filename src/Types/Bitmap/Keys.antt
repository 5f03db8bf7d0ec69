-- ===== src/Types/Bitmap/Keys.antt =====
-- What `HasKey`, `SetKey`, `GetElement` and `GetSize` of types/bitmap.go say of one another: the
-- bitmap as a set of keys.
use Prim.Native.Nat.{bit_or}
use mitosis.Prelude.{
  ℕ, zero, suc, ◌+◌, ◌-◌, ◌*◌, ◌/◌, ◌%◌, ◌^◌, ◌<◌, ◌≤◌, ◌≡◌, refl, sym, ◌==◌, if◌then◌else◌, leb,
  ltb, true, false, ◌&&◌, ◌||◌, [], ◌∷◌, some, inl, inr, arith, u32, length, elem, Between,
  Between-append, elem-append, length-append, get_elem?, set, length-set, Bool-cases, get_elem?-lt,
  get_elem?-set_self, get_elem?-set_ne, All-get_elem?, All-set, get_elem?-some, ℕ_discrete, ◌≢◌,
}
use mitosis.Prelude.Bits.{bit, bit_and-pow, bit-bit_or, bit-pow, bit_or-lt_pow, pow_lt}
use mitosis.Prelude.Count.{count, count_split, count_ext}
use mitosis.Types.Bitmap.Bytes.{
  bit_high, elem-byte_keys, byte_size-count, length-byte_keys, Between-byte_keys,
}
use mitosis.Types.Bitmap.{
  Bitmap, IsBytes, has_key, set_key, byte_keys, byte_size, keys_from, get_element, get_size, member,
}

pub member-cons :
    (v : ℕ) (b : Bitmap) (k : ℕ)
    → v < 256
    → member (v ∷ b) k ≡ (if ltb k 8 then bit v k else member b (k - 8))
unfolding has_key
member-cons v b k h = elim (Bool-cases (ltb k 8)) [
  | inl low ↦ low_key low
  | inr high ↦ high_key high
]
  where
    low_key : ltb k 8 ≡ true → member (v ∷ b) k ≡ (if ltb k 8 then bit v k else member b (k - 8))
    low_key e =
        let d : k / 8 ≡ 0 = ground arith in
        let m : k % 8 ≡ k = ground arith in rw (e, d, m) (bit_and-pow 8 v k h (ground arith))

    high_key : ltb k 8 ≡ false → member (v ∷ b) k ≡ (if ltb k 8 then bit v k else member b (k - 8))
    high_key e =
        let d : k / 8 ≡ suc ((k - 8) / 8) = ground arith in
        let m : k % 8 ≡ (k - 8) % 8 = ground arith in rw (e, d, m) refl

pub member-shift : (v : ℕ) (b : Bitmap) (k : ℕ) → v < 256 → member (v ∷ b) (8 + k) ≡ member b k
member-shift v b k h =
    let high : ltb (8 + k) 8 ≡ false = ground arith in
    let e : 8 + k - 8 ≡ k = omega arith in rw (member-cons v b (8 + k) h, high, e) refl

-- The keys collected from byte `i` on.
elem-keys_from :
    (i : ℕ) (b : Bitmap) (k : ℕ)
    → IsBytes b
    → (i + length b) * 8 ≤ 2 ^ 32
    → elem k (keys_from i b) ≡ (leb (i * 8) k && member b (k - i * 8))
unfolding keys_from
elem-keys_from i [] k h le = unfold has_key in ground arith
elem-keys_from i (v ∷ b) k h le =
    let e : u32 (i * 8) ≡ i * 8 = omega arith in
    rw (e, elem-append)
      (ground (
        arith,
        elem-byte_keys 8 v (i * 8) k h.0 (omega arith),
        elem-keys_from (suc i) b k h.1 (omega arith),
        member-cons v b (k - i * 8) h.0,
        bit_high 8 v (k - i * 8) h.0,
      ))

-- `GetElement` lists exactly the keys that `HasKey` finds, for a slice of bytes of at most 2 ^ 32 bits.
pub elem-get_element :
    (b : Bitmap) (k : ℕ) → IsBytes b → length b * 8 ≤ 2 ^ 32 → elem k (get_element b) ≡ member b k
unfolding get_element
elem-get_element b k h le =
    let e : k - 0 * 8 ≡ k = omega arith in
    rw (elem-keys_from 0 b k h (omega arith), e) (ground arith)

keys_from-Between :
    (i : ℕ) (b : Bitmap)
    → (i + length b) * 8 ≤ 2 ^ 32
    → Between (i * 8) ((i + length b) * 8) (keys_from i b)
unfolding keys_from
keys_from-Between i [] le = omega arith
keys_from-Between i (v ∷ b) le =
    let e : u32 (i * 8) ≡ i * 8 = omega arith in
    let next : i * 8 + 8 ≡ suc i * 8 = omega arith in
    let last : (suc i + length b) * 8 ≡ (i + suc (length b)) * 8 = omega arith in
    rw e (
      Between-append (i * 8) (suc i * 8) _ _ _
        (rw next at (Between-byte_keys 8 v (i * 8) (omega arith)))
        (rw last at (keys_from-Between (suc i) b (omega arith))))

-- `GetElement` lists keys in ascending order and each once, all of them inside the slice, for a
-- bitmap of at most 2 ^ 32 bits.
pub get_element-Between :
    (b : Bitmap) → length b * 8 ≤ 2 ^ 32 → Between 0 (length b * 8) (get_element b)
unfolding get_element
get_element-Between b le =
    let e : (0 + length b) * 8 ≡ length b * 8 = omega arith in
    rw e at (keys_from-Between 0 b (omega arith))

byte_size-le : (w t : ℕ) → byte_size w t ≤ w
unfolding byte_size
byte_size-le zero t = omega arith
byte_size-le (suc w) t = ground (arith, byte_size-le w (t / 2))

get_size-le : (b : Bitmap) → get_size b ≤ length b * 8
unfolding get_size
get_size-le [] = omega arith
get_size-le (v ∷ b) = omega (arith, byte_size-le 8 v, get_size-le b)

-- The counter has not wrapped: it is the sum over the bytes.
pub get_size-cons :
    (v : ℕ) (b : Bitmap)
    → length (v ∷ b) * 8 < 2 ^ 32
    → get_size (v ∷ b) ≡ byte_size 8 v + get_size b
unfolding get_size
get_size-cons v b le = omega (arith, byte_size-le 8 v, get_size-le b)

length-keys_from :
    (i : ℕ) (b : Bitmap) → length b * 8 < 2 ^ 32 → length (keys_from i b) ≡ get_size b
unfolding keys_from
length-keys_from i [] le = unfold get_size in refl
length-keys_from i (v ∷ b) le =
    rw (length-append (byte_keys 8 v (u32 (i * 8))) (keys_from (suc i) b), length-byte_keys)
      (omega (arith, get_size-cons v b le, length-keys_from (suc i) b (omega arith)))

-- `GetSize` counts what `GetElement` lists, for a bitmap of fewer than 2 ^ 32 bits.
pub length-get_element : (b : Bitmap) → length b * 8 < 2 ^ 32 → length (get_element b) ≡ get_size b
unfolding get_element
length-get_element b le = length-keys_from 0 b le

pub get_size-count :
    (b : Bitmap) → IsBytes b → length b * 8 < 2 ^ 32 → get_size b ≡ count (length b * 8) (member b)
get_size-count [] h le = unfold get_size count in refl
get_size-count (v ∷ b) h le =
    let split : length (v ∷ b) * 8 ≡ 8 + length b * 8 = omega arith in
    rw split (
      omega (
        arith,
        get_size-cons v b le,
        get_size-count b h.1 (omega arith),
        byte_size-count 8 v h.0,
        count_split 8 (length b * 8) (member (v ∷ b)),
        count_ext 8 (bit v) (member (v ∷ b)) (λ k lt. ground (arith, member-cons v b k h.0)),
        count_ext (length b * 8) (member b) (λ k. member (v ∷ b) (8 + k))
            (λ k lt. sym (member-shift v b k h.0)),
      ))

module _ (b : Bitmap) (x v : ℕ) (bytes : IsBytes b) (at_x : get_elem? b (x / 8) ≡ some v) where
  written : Bitmap
  written = set b (x / 8) (bit_or v (2 ^ (x % 8)))

  old_byte : v < 256
  old_byte = All-get_elem? (λ w. w < 256) b (x / 8) bytes at_x

  new_byte : bit_or v (2 ^ (x % 8)) < 256
  new_byte = bit_or-lt_pow 8 v (2 ^ (x % 8)) old_byte (pow_lt (x % 8) 8 (omega arith))

  get_elem?-written : get_elem? written (x / 8) ≡ some (bit_or v (2 ^ (x % 8)))
  unfolding written
  get_elem?-written = get_elem?-set_self b (x / 8) _ (get_elem?-some b (x / 8) at_x)

  member-written_near : (j : ℕ) → x / 8 ≡ j / 8 → member written j ≡ (x == j || member b j)
  unfolding has_key
  member-written_near j e =
      rw (← e, get_elem?-written, at_x, bit_and-pow 8 _ (j % 8) new_byte (omega arith))
        (rw (bit-bit_or, bit-pow, bit_and-pow 8 v (j % 8) old_byte (omega arith)) (ground arith))

  member-written_far : (j : ℕ) → x / 8 ≢ j / 8 → member written j ≡ (x == j || member b j)
  unfolding has_key written
  member-written_far j ne = rw (get_elem?-set_ne b (bit_or v (2 ^ (x % 8))) ne) (ground arith)

  set_key-written : set_key b x ≡ some written
  unfolding set_key written
  set_key-written = rw at_x refl

-- `SetKey` of a key inside a slice of bytes succeeds, keeps the length and that the elements are
-- bytes, and adds that key and no other.
pub set_key_lem :
    (b : Bitmap) (x : ℕ)
    → IsBytes b
    → x < length b * 8
    → (b' : Bitmap) × (set_key b x ≡ some b')
      × (length b' ≡ length b)
      × IsBytes b'
      × ((j : ℕ) → member b' j ≡ (x == j || member b j))
set_key_lem b x h lt =
    let (v, e) = get_elem?-lt b (x / 8) (omega arith) in
    (
      written b x v h e,
      set_key-written b x v h e,
      unfold written in length-set b (x / 8) _,
      unfold written in All-set (λ w. w < 256) b (x / 8) _ h (new_byte b x v h e),
      λ j. elim (ℕ_discrete (x / 8) (j / 8)) [
        | yes near ↦ member-written_near b x v h e j near
        | no far ↦ member-written_far b x v h e j far
      ],
    )
