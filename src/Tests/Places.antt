-- ===== src/Tests/Places.antt =====
-- The configuration and the keys of the nodes of a small topology, and the transactions they make.
use mitosis.Prelude.{
  elem, not, ◌==◌, ◌&&◌, ℕ, ◌≡◌, refl, ◌<◌, true, List, [], ◌∷◌, map, some, length, get_elem?,
  arith, All,
}
use mitosis.Prelude.Assoc.{lookup}
use mitosis.Config.{Config, new_config, config_of, all_p_shards}
use mitosis.Config.Layout.{IsStandard, new_config-place}
use mitosis.Consensus.Keys.{partition_keys}
use mitosis.Consensus.Protocol.{get_key_offset, node_id_to_key, key_to_node_id}
use mitosis.Types.Data.{Transaction}
use mitosis.Core.TxPool.{Draw, get_to_shards, generate_cross_shard_tx2}
use mitosis.Core.TxPool.Generate.{CanDraw, listed, generate_cross_shard_tx2_lem}
use mitosis.Tests.Toy.{toy_topo, toy_config, toy_encoding}

toy_topo-IsStandard : IsStandard toy_topo 4 1 2
unfolding all_p_shards lookup
toy_topo-IsStandard = record {
  relays = refl;
  partitions = refl;
  few = omega arith;
  fits = omega arith;
  ids_fit = omega arith;
}

new_config-place_example :
    (c : Config) × (ids : List ℕ) × (new_config "1" toy_topo 4 6 (100 ∷ []) "" ≡ some c)
    × (c.node_id ≡ 6)
    × (lookup c.shard_id c.nodes ≡ some ids)
    × (length ids ≡ 4)
    × (get_elem? ids 1 ≡ some 6)
new_config-place_example =
    new_config-place "1" "" (100 ∷ []) toy_topo 4 1 2 6 toy_topo-IsStandard (omega arith)
      (omega arith) (omega arith)

abbrev sixth : Config
sixth = config_of "1" toy_topo 4 6 (100 ∷ []) "" []

partition_keys_example :
    (get_key_offset sixth ≡ 5)
    × (node_id_to_key sixth ≡ 1)
    × (node_id_to_key sixth < 4)
    × (key_to_node_id sixth (node_id_to_key sixth) ≡ 6)
partition_keys_example =
    partition_keys "1" "" (100 ∷ []) toy_topo [] 4 1 2 6 toy_topo-IsStandard (omega arith)
      (omega arith) (omega arith)

abbrev toy_draw : ℕ → Draw
toy_draw i = record { to_shard = i; from_idx = i; to_idx = 1; random_bytes = i ∷ [] }

toy_config-CanDraw : CanDraw (toy_config 5 true)
toy_config-CanDraw = record {
  some_shards = refl;
  some_accounts = omega arith;
  accounts_fit = omega arith;
}

generate_cross_shard_tx2_lem_example :
    (txs : List Transaction) × (generate_cross_shard_tx2 toy_encoding (toy_config 5 true) toy_draw
      ≡ some txs)
    × (map (λ t. t.to_shard) txs ≡ get_to_shards (toy_config 5 true) 1001)
    × All (λ (t : Transaction). (t.from_shard ≡ 1001) × (t.value ≡ 1)) txs
    × ((s : ℕ)
        → elem s (map (λ t. t.to_shard) txs) ≡ (not (s == 1001) && listed s toy_topo.p_shard_ids))
generate_cross_shard_tx2_lem_example =
    generate_cross_shard_tx2_lem toy_encoding (toy_config 5 true) toy_config-CanDraw toy_draw
