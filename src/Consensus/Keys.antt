-- ===== src/Consensus/Keys.antt =====
-- The keys of a shard's nodes in Mitosis/consensus/protocol.go, against the configuration that `NewConfig`
-- of config/config.go computes.
use Prim.Native.String.{String}
use native.Mathlib.Nat.{div-add-mod', div-lt_iff_lt-mul, le-div_iff_mul-le, mod-lt}
use mitosis.Prelude.{ℕ, ◌+◌, ◌-◌, ◌*◌, ◌/◌, ◌%◌, ◌^◌, ◌<◌, ◌≤◌, ◌≡◌, List, arith, u32, sub32}
use mitosis.Config.{Topology, Config, config_of, shard_id_of}
use mitosis.Config.Layout.{IsStandard, relay_count, block_le}
use mitosis.Consensus.Protocol.{shard_start, node_id_to_key, key_to_node_id, get_key_offset}

module _ (n r p node : ℕ) (fits : (r + p) * n + 1 < 2 ^ 32) (few : r ≤ 1000)
    (ids : p + 1001 < 2 ^ 32) (pos : 0 < n) (after_relays : r * n < node)
    (last : node ≤ (r + p) * n) where
  place_bounds : (r ≤ (node - 1) / n) × ((node - 1) / n < r + p)
  place_bounds = (
    (le-div_iff_mul-le pos).1 (omega (arith, after_relays)),
    (div-lt_iff_lt-mul pos).1 (omega (arith, last)),
  )

  shard_lem : shard_id_of n r node ≡ (node - 1) / n + 1001 - r
  unfolding shard_id_of
  shard_lem =
      let w : sub32 node 1 ≡ node - 1 = omega (arith, fits, last) in
      rw w (ground (arith, place_bounds.0, place_bounds.1, few, ids))

  -- The place of the node's shard comes back from the shard's number.
  place_lem : sub32 (u32 (u32 r + shard_id_of n r node)) 1001 ≡ (node - 1) / n
  place_lem = rw shard_lem (omega (arith, place_bounds.0, place_bounds.1, few, ids))

  block_fits : (node - 1) / n * n + n ≤ (r + p) * n
  block_fits = block_le ((node - 1) / n) (r + p) n place_bounds.1

  start_lem : u32 (sub32 (u32 (u32 r + shard_id_of n r node)) 1001 * n) ≡ (node - 1) / n * n
  start_lem = rw place_lem (omega (arith, block_fits, fits))

-- At a node of a partition shard of a standard topology with nodes in its shards, the first node id of the shard is the offset
-- of its keys, the node's key is its place in the shard's list, which is below the number of nodes
-- per shard, and the node id is the one that the key gives back.
pub partition_keys :
    (version bootnode : String) (accounts : List ℕ) (topo : Topology) (nodes : List (ℕ × List ℕ))
    (n r p node : ℕ)
    → IsStandard topo n r p
    → 0 < n
    → r * n < node
    → node ≤ (r + p) * n
    → let c : Config = config_of version topo n node accounts bootnode nodes in
      (get_key_offset c ≡ (node - 1) / n * n + 1)
      × (node_id_to_key c ≡ (node - 1) % n)
      × (node_id_to_key c < n)
      × (key_to_node_id c (node_id_to_key c) ≡ node)
unfolding get_key_offset node_id_to_key key_to_node_id shard_start config_of
partition_keys version bootnode accounts topo nodes n r p node std pos after last =
    let split : (node - 1) / n * n + (node - 1) % n ≡ node - 1 = div-add-mod' (node - 1) n in
    let low : (node - 1) % n < n = mod-lt (node - 1) pos in
    let block = block_fits n r p node std.fits std.few std.ids_fit pos after last in
    rw
      (relay_count topo n r p std, start_lem n r p node std.fits std.few std.ids_fit pos after last)
      (
        omega (arith, block, std.fits),
        omega (arith, block, std.fits, split, low),
        omega (arith, block, std.fits, split, low),
        omega (arith, block, std.fits, split, low),
      )
