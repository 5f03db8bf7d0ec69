-- ===== src/Core/TxPool/Generate.antt =====
-- The transactions that `GenerateCrossShardTx2` of Mitosis/core/txpool.go makes.
use native.Mathlib.Nat.{mod-lt}
use mitosis.Prelude.{
  ℕ, suc, ◌%◌, ◌^◌, ◌<◌, ◌≡◌, refl, ap, ◌∙◌, ◌==◌, Bool, false, not, ◌&&◌, ◌||◌, List, [], ◌∷◌, map,
  some, u32, length, get_elem?-lt, elem, elem-append, arith, All,
}
use mitosis.Config.{Config}
use mitosis.Types.Data.{Transaction}
use mitosis.Types.Libraries.{Encoding}
use mitosis.Types.Hashing.{new_transaction}
use mitosis.Core.TxPool.{
  Draw, rand_tx, other_shards, to_shards_of, get_to_shards, redirect, cross_shard_txs,
  generate_cross_shard_tx2,
}

-- What `NewConfig` gives a node that has accounts to draw from.
pub record CanDraw (config : Config) : Type 0 where
  pub some_shards : (config.p_shard_num == 0) ≡ false
  pub some_accounts : 0 < length config.accounts
  pub accounts_fit : length config.accounts < 2 ^ 32

-- Whether some entry of the map holds the shard.
unfoldable pub listed : ℕ → List (ℕ × List ℕ) → Bool
listed s [] = false
listed s ((r, shards) ∷ m) = elem s shards || listed s m

elem-other_shards :
    (from s : ℕ) (shards : List ℕ)
    → elem s (other_shards from shards) ≡ (not (s == from) && elem s shards)
unfolding other_shards
elem-other_shards from s [] = ground arith
elem-other_shards from s (t ∷ shards) = ground (arith, elem-other_shards from s shards)

elem-to_shards_of :
    (from s : ℕ) (m : List (ℕ × List ℕ))
    → elem s (to_shards_of from m) ≡ (not (s == from) && listed s m)
unfolding to_shards_of listed
elem-to_shards_of from s [] = ground arith
elem-to_shards_of from s ((r, shards) ∷ m) =
    rw
      (
        elem-append s (other_shards from shards) (to_shards_of from m),
        elem-other_shards from s shards,
      )
      (ground (arith, elem-to_shards_of from s m))

-- `GetToShards` lists the partition shards of the topology that are not the given one.
elem-get_to_shards :
    (config : Config) (from s : ℕ)
    → elem s (get_to_shards config from) ≡ (not (s == from) && listed s config.topo.p_shard_ids)
unfolding get_to_shards
elem-get_to_shards config from s = elem-to_shards_of from s config.topo.p_shard_ids

module _ (E : Encoding) (config : Config) (can : CanDraw config) where
  rand_tx_lem : (d : Draw) → (tx : Transaction) × (rand_tx E config d ≡ some tx) × (tx.value ≡ 1)
  unfolding rand_tx new_transaction
  rand_tx_lem d =
      let e : u32 (length config.accounts) ≡ length config.accounts =
        omega (arith, can.accounts_fit) in
      let a =
        get_elem?-lt config.accounts (d.from_idx % length config.accounts)
          (mod-lt d.from_idx can.some_accounts) in
      let b =
        get_elem?-lt config.accounts (d.to_idx % length config.accounts)
          (mod-lt d.to_idx can.some_accounts) in
      rw (can.some_shards, e, a.1, e, b.1) (_, refl, refl)

  cross_shard_txs_lem :
      (shards : List ℕ) (draws : ℕ → Draw)
      → (txs : List Transaction) × (cross_shard_txs E config shards draws ≡ some txs)
        × (map (λ t. t.to_shard) txs ≡ shards)
        × All (λ (t : Transaction). (t.from_shard ≡ config.shard_id) × (t.value ≡ 1)) txs
  unfolding cross_shard_txs redirect
  cross_shard_txs_lem [] draws = ([], refl, refl, tt)
  cross_shard_txs_lem (to ∷ shards) draws =
      let first = rand_tx_lem (draws 0) in
      let rest = cross_shard_txs_lem shards (λ i. draws (suc i)) in
      rw (cross_shard_txs, first.1, rest.1)
        (_, refl, ap (λ t. to ∷ t) rest.2, ((refl, first.2), rest.3))

  -- Where there are shards and accounts to draw from, `GenerateCrossShardTx2` makes transactions of value 1 from
  -- the node's own shard, one to each shard that `GetToShards` lists, in its order; and those are the
  -- partition shards of the topology other than the node's own.
  pub generate_cross_shard_tx2_lem :
      (draws : ℕ → Draw)
      → (txs : List Transaction) × (generate_cross_shard_tx2 E config draws ≡ some txs)
        × (map (λ t. t.to_shard) txs ≡ get_to_shards config config.shard_id)
        × All (λ (t : Transaction). (t.from_shard ≡ config.shard_id) × (t.value ≡ 1)) txs
        × ((s : ℕ)
            → elem s (map (λ t. t.to_shard) txs)
              ≡ (not (s == config.shard_id) && listed s config.topo.p_shard_ids))
  unfolding generate_cross_shard_tx2
  generate_cross_shard_tx2_lem draws =
      let (txs, made, to, all) = cross_shard_txs_lem (get_to_shards config config.shard_id) draws in
      (txs, made, to, all, λ s. ap (elem s) to ∙ elem-get_to_shards config config.shard_id s)
