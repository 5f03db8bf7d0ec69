-- ===== src/Config/Assign.antt =====
-- How `NewConfig` deals out the node ids: shard by shard in the order of its loops, `n` to a shard.
use mitosis.Prelude.{
  ℕ, zero, suc, ◌+◌, ◌*◌, ◌^◌, ◌<◌, ◌≤◌, ◌≡◌, refl, ◌∙◌, ap, false, List, [], ◌∷◌, ◌++◌, some,
  arith, u32, length, get_elem?,
}
use mitosis.Prelude.Assoc.{lookup, insert, lookup-insert}
use mitosis.Config.{Assignment, consecutive, advance, assign, assign_all, assign_r_shards, has}

pub get_elem?-consecutive :
    (n c i : ℕ) → c + n ≤ 2 ^ 32 → i < n → get_elem? (consecutive n c) i ≡ some (c + i)
unfolding consecutive
get_elem?-consecutive zero c i le lt = absurd (omega arith)
get_elem?-consecutive (suc n) c zero le lt = ap some (omega arith)
get_elem?-consecutive (suc zero) c (suc i) le lt = absurd (omega arith)
get_elem?-consecutive (suc (suc n)) c (suc i) le lt =
    let e : u32 (c + 1) ≡ c + 1 = omega arith in
    ap (λ t. get_elem? (consecutive (suc n) t) i) e
    ∙ get_elem?-consecutive (suc n) (c + 1) i (omega arith) (omega arith)
    ∙ ap some (omega arith)

pub length-consecutive : (n c : ℕ) → length (consecutive n c) ≡ n
unfolding consecutive
length-consecutive zero c = refl
length-consecutive (suc n) c = ap suc (length-consecutive n (u32 (c + 1)))

pub advance_lem : (n c : ℕ) → c + n < 2 ^ 32 → advance n c ≡ c + n
unfolding advance
advance_lem zero c lt = omega arith
advance_lem (suc n) c lt =
    let e : u32 (c + 1) ≡ c + 1 = omega arith in
    rw e (advance_lem n (c + 1) (omega arith) ∙ omega arith)

-- The loop over the relay shards deals to 1, 2, ... in turn.
abbrev pub ascending : ℕ → ℕ → List ℕ
ascending zero s = []
ascending (suc n) s = s ∷ ascending n (suc s)

pub assign_r_shards_lem :
    (n rounds s : ℕ) (a : Assignment)
    → s + rounds ≤ 2 ^ 32
    → assign_r_shards n rounds s a ≡ assign_all n (ascending rounds s) a
unfolding assign_r_shards assign_all
assign_r_shards_lem n zero s a le = refl
assign_r_shards_lem n (suc rounds) s a le =
    let e : u32 s ≡ s = omega arith in
    rw e (assign_r_shards_lem n rounds (suc s) (assign n a s) (omega arith))

pub assign_all-append :
    (n : ℕ) (xs ys : List ℕ) (a : Assignment)
    → assign_all n (xs ++ ys) a ≡ assign_all n ys (assign_all n xs a)
unfolding assign_all
assign_all-append n [] ys a = refl
assign_all-append n (x ∷ xs) ys a = assign_all-append n xs ys (assign n a x)

-- A shard that is dealt to no more keeps its nodes.
lookup-assign_all_other :
    (n : ℕ) (shards : List ℕ) (m : List (ℕ × List ℕ)) (c s : ℕ)
    → has shards s ≡ false
    → lookup s (assign_all n shards (m, c)).0 ≡ lookup s m
unfolding assign_all assign
lookup-assign_all_other n [] m c s h = refl
lookup-assign_all_other n (x ∷ shards) m c s h = ground (
  arith,
  lookup-assign_all_other n shards (insert x (consecutive n c) m) (advance n c) s,
  lookup-insert x s (consecutive n c) m,
)

-- No shard is listed twice.
abbrev pub IsDistinct : List ℕ → Type 0
IsDistinct [] = Unit {0}
IsDistinct (x ∷ xs) = (has xs x ≡ false) × IsDistinct xs

-- The shard at place `i` gets the `n` ids that start at `c + i * n`.
pub lookup-assign_all :
    (n : ℕ) (shards : List ℕ) (m : List (ℕ × List ℕ)) (c i s : ℕ)
    → IsDistinct shards
    → c + length shards * n < 2 ^ 32
    → get_elem? shards i ≡ some s
    → lookup s (assign_all n shards (m, c)).0 ≡ some (consecutive n (c + i * n))
unfolding assign_all assign
lookup-assign_all n [] m c i s d le e = absurd (ground arith)
lookup-assign_all n (x ∷ shards) m c zero s d le e =
    let here : c + 0 * n ≡ c = omega arith in
    rw here (
      ground (
        arith,
        lookup-assign_all_other n shards (insert x (consecutive n c) m) (advance n c) x d.0,
        lookup-insert x x (consecutive n c) m,
      ))
lookup-assign_all n (x ∷ shards) m c (suc i) s d le e =
    let m' = insert x (consecutive n c) m in
    ap (λ t. lookup s (assign_all n shards (m', t)).0) (advance_lem n c (omega arith))
    ∙ lookup-assign_all n shards m' (c + n) i s d.1 (omega arith) e
    ∙ ap (λ t. some (consecutive n t)) (omega arith)
