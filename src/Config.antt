-- ===== src/Config.antt =====
-- Mitosis/config/config.go: the topology, and what `NewConfig` computes from it for one node. Numbers
-- are uint32 and wrap; a division by zero and an index out of range, which panic, are `none`.
pub mod Assign
pub mod Layout
use Prim.Native.String.{String, ◌++◌ as str_append}
use mitosis.Prelude.{
  ℕ, zero, suc, ◌+◌, ◌-◌, ◌*◌, ◌/◌, ◌%◌, ◌^◌, ◌==◌, ltb, if◌then◌else◌, Bool, true, false, ◌||◌,
  List, [], ◌∷◌, ◌++◌, Option, none, some, u32, sub32, length, get_elem?,
}
use mitosis.Prelude.Assoc.{lookup, insert}

pub record Topology : Type 0 where
  pub r_shard_ids : List ℕ
  pub p_shard_ids : List (ℕ × List ℕ)

pub record Config : Type 0 where
  pub version : String
  pub topo : Topology
  pub nodes : List (ℕ × List ℕ)
  pub node_num_per_shard : ℕ
  pub node_id : ℕ
  pub shard_id : ℕ
  pub r_shard_id : ℕ
  pub is_leader : Bool
  pub r_shard_num : ℕ
  pub p_shard_num : ℕ
  pub consensus_threshold : ℕ
  pub accounts : List ℕ
  pub bootnode : String

-- A read of a Go map of slices: nil on a missing key.
abbrev pub shards_of : ℕ → List (ℕ × List ℕ) → List ℕ
shards_of k m = elim (lookup k m) [ none ↦ [] | some l ↦ l ]

-- `nodes[shardId][i] = nodeIdCounter; nodeIdCounter++` for `i` below the count.
unfoldable pub consecutive : ℕ → ℕ → List ℕ
consecutive zero counter = []
consecutive (suc n) counter = counter ∷ consecutive n (u32 (counter + 1))

unfoldable pub advance : ℕ → ℕ → ℕ
advance zero counter = counter
advance (suc n) counter = advance n (u32 (counter + 1))

-- The map of nodes and the counter.
abbrev pub Assignment : Type 0
Assignment = List (ℕ × List ℕ) × ℕ

unfoldable pub assign : ℕ → Assignment → ℕ → Assignment
assign n (nodes, counter) shard = (insert shard (consecutive n counter) nodes, advance n counter)

unfoldable pub assign_all : ℕ → List ℕ → Assignment → Assignment
assign_all n [] a = a
assign_all n (s ∷ shards) a = assign_all n shards (assign n a s)

-- `for shardId := 1; shardId <= len(topo.RShardIds); shardId++`, with the rounds left first.
unfoldable pub assign_r_shards : ℕ → ℕ → ℕ → Assignment → Assignment
assign_r_shards n zero shard a = a
assign_r_shards n (suc rounds) shard a =
    assign_r_shards n rounds (suc shard) (assign n a (u32 shard))

-- `for _, shardId := range topo.RShardIds`, which reads `topo.RShardIds[shardId-1]`.
unfoldable pub assign_p_shards : ℕ → Topology → List ℕ → Assignment → Option Assignment
assign_p_shards n topo [] a = some a
assign_p_shards n topo (r ∷ rs) a = elim (get_elem? topo.r_shard_ids (sub32 r 1)) [
  | none ↦ none
  | some key ↦ assign_p_shards n topo rs (assign_all n (shards_of key topo.p_shard_ids) a)
]

unfoldable pub assign_nodes : ℕ → Topology → Option Assignment
assign_nodes n topo =
    assign_p_shards n topo topo.r_shard_ids (assign_r_shards n (length topo.r_shard_ids) 1 ([], 1))

-- `topo.PShardIds` in the order of `topo.RShardIds`.
unfoldable pub all_p_shards : Topology → List ℕ → List ℕ
all_p_shards topo [] = []
all_p_shards topo (r ∷ rs) = shards_of r topo.p_shard_ids ++ all_p_shards topo rs

abbrev pub has : List ℕ → ℕ → Bool
has [] x = false
has (y ∷ ys) x = y == x || has ys x

-- The last relay shard that has the shard among its own.
unfoldable pub relay_of : Topology → List ℕ → ℕ → ℕ → ℕ
relay_of topo [] shard found = found
relay_of topo (r ∷ rs) shard found =
    relay_of topo rs shard (if has (shards_of r topo.p_shard_ids) shard then r else found)

unfoldable pub shard_id_of : ℕ → ℕ → ℕ → ℕ
shard_id_of n r_num node_id =
    let a = sub32 node_id 1 / n in
    if ltb a r_num then u32 (a + 1) else sub32 (u32 (a + 1001)) (u32 r_num)

unfoldable pub threshold : ℕ → ℕ
threshold n = u32 (u32 (n * 2) / 3 + 1)

-- The literal that `NewConfig` returns.
unfoldable pub config_of : String → Topology → ℕ → ℕ → List ℕ → String → List (ℕ × List ℕ) → Config
config_of version topo n node_id accounts bootnode nodes = record {
  version = str_append "Mitosis-Shard-" version;
  topo = topo;
  nodes = nodes;
  node_num_per_shard = n;
  node_id = node_id;
  shard_id = shard_id_of n (length topo.r_shard_ids) node_id;
  r_shard_id = relay_of topo topo.r_shard_ids (shard_id_of n (length topo.r_shard_ids) node_id) 0;
  is_leader = node_id % n == 0;
  r_shard_num = u32 (length topo.r_shard_ids);
  p_shard_num = u32 (length (all_p_shards topo topo.r_shard_ids));
  consensus_threshold = threshold n;
  accounts = accounts;
  bootnode = bootnode;
}

-- `(nodeId - 1) / nodeNumPerShard` divides by zero where a shard has no nodes.
unfoldable pub new_config : String → Topology → ℕ → ℕ → List ℕ → String → Option Config
new_config version topo n node_id accounts bootnode = elim (assign_nodes n topo) [
  | none ↦ none
  | some (nodes, counter) ↦
      if n == 0 then none else some (config_of version topo n node_id accounts bootnode nodes)
]
