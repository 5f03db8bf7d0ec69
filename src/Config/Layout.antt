-- ===== src/Config/Layout.antt =====
-- Where `NewConfig` of config/config.go places a node: the shard that it computes by division is the
-- shard whose list of nodes holds it.
use Prim.Native.String.{String}
use native.Mathlib.Nat.{mod-lt, div-add-mod', div-lt_iff_lt-mul}
use mitosis.Prelude.{
  ℕ, zero, suc, ◌+◌, ◌-◌, ◌*◌, ◌/◌, ◌%◌, ◌^◌, ◌<◌, ◌≤◌, ◌≡◌, refl, ◌∙◌, ap, ◌==◌, ltb, leb,
  if◌then◌else◌, false, ◌&&◌, ◌||◌, inl, inr, List, [], ◌∷◌, ◌++◌, some, arith, u32, sub32, length,
  get_elem?, length-append, All, Bool-cases,
}
use mitosis.Prelude.Assoc.{lookup}
use mitosis.Config.Assign.{
  ascending, IsDistinct, get_elem?-consecutive, length-consecutive, assign_r_shards_lem,
  assign_all-append, lookup-assign_all,
}
use mitosis.Config.{
  Topology, Config, Assignment, consecutive, assign_all, assign_p_shards, assign_nodes,
  all_p_shards, has, shards_of, shard_id_of, new_config, config_of,
}

-- Relay shards 1 to `r`, and partition shards 1001 to 1000 + `p` in the order of the relay shards.
pub record IsStandard (topo : Topology) (n r p : ℕ) : Type 0 where
  pub relays : topo.r_shard_ids ≡ ascending r 1
  pub partitions : all_p_shards topo topo.r_shard_ids ≡ ascending p 1001
  pub few : r ≤ 1000
  pub fits : (r + p) * n + 1 < 2 ^ 32
  pub ids_fit : p + 1001 < 2 ^ 32

pub length-ascending : (n s : ℕ) → length (ascending n s) ≡ n
length-ascending zero s = refl
length-ascending (suc n) s = ap suc (length-ascending n (suc s))

get_elem?-ascending : (n s i : ℕ) → i < n → get_elem? (ascending n s) i ≡ some (s + i)
get_elem?-ascending zero s i h = elim h [ ]
get_elem?-ascending (suc n) s zero h = ap some (omega arith)
get_elem?-ascending (suc n) s (suc i) h =
    get_elem?-ascending n (suc s) i (omega arith) ∙ ap some (omega arith)

get_elem?-append :
    (xs ys : List ℕ) (i : ℕ)
    → get_elem? (xs ++ ys) i
      ≡ (if ltb i (length xs) then get_elem? xs i else get_elem? ys (i - length xs))
get_elem?-append [] ys i = let e : i - 0 ≡ i = omega arith in rw e (ground arith)
get_elem?-append (x ∷ xs) ys zero = ground arith
get_elem?-append (x ∷ xs) ys (suc i) =
    let e : suc i - suc (length xs) ≡ i - length xs = omega arith in
    rw e (ground (arith, get_elem?-append xs ys i))

has-ascending : (n s x : ℕ) → has (ascending n s) x ≡ (leb s x && ltb x (s + n))
has-ascending zero s x = ground arith
has-ascending (suc n) s x = ground (arith, has-ascending n (suc s) x)

has-append : (xs ys : List ℕ) (x : ℕ) → has (xs ++ ys) x ≡ (has xs x || has ys x)
has-append [] ys x = refl
has-append (y ∷ xs) ys x = ground (arith, has-append xs ys x)

ascending-IsDistinct : (n s : ℕ) → IsDistinct (ascending n s)
ascending-IsDistinct zero s = tt
ascending-IsDistinct (suc n) s =
    (ground (arith, has-ascending n (suc s) s), ascending-IsDistinct n (suc s))

shards-IsDistinct : (r p s : ℕ) → s + r ≤ 1001 → IsDistinct (ascending r s ++ ascending p 1001)
shards-IsDistinct zero p s h = ascending-IsDistinct p 1001
shards-IsDistinct (suc r) p s h = (
  ground (
    arith,
    has-append (ascending r (suc s)) (ascending p 1001) s,
    has-ascending r (suc s) s,
    has-ascending p 1001 s,
  ),
  shards-IsDistinct r p (suc s) (omega arith),
)

-- Each relay shard is found at its place, so the inner read of the list is the shard itself.
abbrev FindsItself : Topology → List ℕ → Type 0
FindsItself topo rs = All (λ r. get_elem? topo.r_shard_ids (sub32 r 1) ≡ some r) rs

assign_p_shards_lem :
    (n : ℕ) (topo : Topology) (rs : List ℕ) (a : Assignment)
    → FindsItself topo rs
    → assign_p_shards n topo rs a ≡ some (assign_all n (all_p_shards topo rs) a)
unfolding assign_p_shards all_p_shards
assign_p_shards_lem n topo [] a h = unfold assign_all in refl
assign_p_shards_lem n topo (r ∷ rs) a h =
    rw
      (
        h.0,
        assign_p_shards,
        assign_all-append n (shards_of r topo.p_shard_ids) (all_p_shards topo rs) a,
      )
      (assign_p_shards_lem n topo rs (assign_all n (shards_of r topo.p_shard_ids) a) h.1)

ascending-FindsItself :
    (topo : Topology) (r k s : ℕ)
    → topo.r_shard_ids ≡ ascending r 1
    → 1 ≤ s
    → s + k ≤ r + 1
    → r ≤ 1000
    → FindsItself topo (ascending k s)
ascending-FindsItself topo r zero s e pos le few = tt
ascending-FindsItself topo r (suc k) s e pos le few = (
  (let d : sub32 s 1 ≡ s - 1 = omega arith in
      rw (e, d) (get_elem?-ascending r 1 (s - 1) (omega arith) ∙ ap some (omega arith))),
  ascending-FindsItself topo r k (suc s) e (omega arith) (omega arith) few,
)

pub block_le : (q m n : ℕ) → q < m → q * n + n ≤ m * n
block_le q m n lt = grind arith

get_elem?-shards :
    (r p q : ℕ)
    → q < r + p
    → r ≤ 1000
    → p + 1001 < 2 ^ 32
    → get_elem? (ascending r 1 ++ ascending p 1001) q
      ≡ some (if ltb q r then u32 (q + 1) else sub32 (u32 (q + 1001)) (u32 r))
get_elem?-shards r p q lt few fit =
    rw (get_elem?-append (ascending r 1) (ascending p 1001) q, length-ascending r 1)
      (elim (Bool-cases (ltb q r)) [
        | inl e ↦ rw e (get_elem?-ascending r 1 q (ground arith) ∙ ap some (ground arith))
        | inr e ↦ rw e (get_elem?-ascending p 1001 (q - r) (ground arith) ∙ ap some (ground arith))
      ])

module _ (topo : Topology) (n r p : ℕ) (std : IsStandard topo n r p) where
  shard_list : List ℕ
  shard_list = ascending r 1 ++ ascending p 1001

  pub relay_count : length topo.r_shard_ids ≡ r
  relay_count = ap length std.relays ∙ length-ascending r 1

  partition_count : length (all_p_shards topo topo.r_shard_ids) ≡ p
  partition_count = ap length std.partitions ∙ length-ascending p 1001

  assign_nodes_lem : assign_nodes n topo ≡ some (assign_all n shard_list ([], 1))
  unfolding assign_nodes shard_list
  assign_nodes_lem =
      let own = ascending-FindsItself topo r r 1 std.relays (omega arith) (omega arith) std.few in
      assign_p_shards_lem n topo topo.r_shard_ids _ (rw (← std.relays) at own)
      ∙ rw
          (
            std.partitions,
            relay_count,
            assign_r_shards_lem n r 1 ([], 1) (omega (arith, std.few)),
            assign_all-append n (ascending r 1) (ascending p 1001) ([], 1),
          )
          refl

  shard_count : length shard_list ≡ r + p
  unfolding shard_list
  shard_count = omega (
    arith,
    length-append (ascending r 1) (ascending p 1001),
    length-ascending r 1,
    length-ascending p 1001,
  )

  module _ (node : ℕ) (first : 1 ≤ node) (last : node ≤ (r + p) * n) (pos : 0 < n) where
    place : ℕ
    place = (node - 1) / n

    place_lt : place < r + p
    unfolding place
    place_lt = (div-lt_iff_lt-mul pos).1 (omega (arith, first, last))

    node_small : node < 2 ^ 32
    node_small = omega (arith, std.fits)

    -- The division finds the shard that stands at the node's place in the list of all shards.
    get_elem?-shard_list : get_elem? shard_list place ≡ some (shard_id_of n r node)
    unfolding shard_list shard_id_of place
    get_elem?-shard_list =
        let w : sub32 node 1 ≡ node - 1 = omega (arith, node_small) in
        rw w (get_elem?-shards r p ((node - 1) / n) place_lt std.few std.ids_fit)

    -- The number of the node inside its shard.
    get_elem?-own : get_elem? (consecutive n (1 + place * n)) ((node - 1) % n) ≡ some node
    unfolding place
    get_elem?-own =
        let split : (node - 1) / n * n + (node - 1) % n ≡ node - 1 = div-add-mod' (node - 1) n in
        get_elem?-consecutive n (1 + (node - 1) / n * n) ((node - 1) % n)
          (omega (arith, block_le ((node - 1) / n) (r + p) n place_lt, std.fits))
          (mod-lt (node - 1) pos)
        ∙ ap some (omega arith)

    place-lookup :
        lookup (shard_id_of n r node) (assign_all n shard_list ([], 1)).0
        ≡ some (consecutive n (1 + place * n))
    unfolding shard_list
    place-lookup =
        lookup-assign_all n shard_list [] 1 place (shard_id_of n r node)
          (shards-IsDistinct r p 1 (omega (arith, std.few)))
          (omega (arith, std.fits, ap (λ (t : ℕ). t * n) shard_count)) get_elem?-shard_list

new_config_lem :
    (version bootnode : String) (accounts : List ℕ) (topo : Topology) (n r p node : ℕ)
    → IsStandard topo n r p
    → 0 < n
    → new_config version topo n node accounts bootnode
      ≡ some (
          config_of version topo n node accounts bootnode
            (assign_all n (ascending r 1 ++ ascending p 1001) ([], 1)).0)
unfolding new_config shard_list
new_config_lem version bootnode accounts topo n r p node std pos =
    let some_nodes : (n == 0) ≡ false = ground arith in
    rw (assign_nodes_lem topo n r p std, new_config, some_nodes) refl

-- On a standard topology with nodes in its shards `NewConfig` succeeds for every node id that the shards have room for. The
-- shard that it computes for the node is a key of the map of nodes, its list has `n` ids, and the
-- node stands in that list at the remainder of its id less one by `n`.
pub new_config-place :
    (version bootnode : String) (accounts : List ℕ) (topo : Topology) (n r p node : ℕ)
    → IsStandard topo n r p
    → 0 < n
    → 1 ≤ node
    → node ≤ (r + p) * n
    → (c : Config) × (ids : List ℕ) × (new_config version topo n node accounts bootnode ≡ some c)
      × (c.node_id ≡ node)
      × (lookup c.shard_id c.nodes ≡ some ids)
      × (length ids ≡ n)
      × (get_elem? ids ((node - 1) % n) ≡ some node)
unfolding config_of shard_list
new_config-place version bootnode accounts topo n r p node std pos first last = (
  config_of version topo n node accounts bootnode
      (assign_all n (ascending r 1 ++ ascending p 1001) ([], 1)).0,
  consecutive n (1 + place topo n r p std node first last pos * n),
  new_config_lem version bootnode accounts topo n r p node std pos,
  refl,
  rw (relay_count topo n r p std) (place-lookup topo n r p std node first last pos),
  length-consecutive n _,
  get_elem?-own topo n r p std node first last pos,
)
