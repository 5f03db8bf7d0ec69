-- ===== src/Core/TxPool.antt =====
-- Mitosis/core/txpool.go: the pool of pending transactions and inbound chunks. Random numbers are
-- arguments; a modulus of zero and an index out of range, which panic, are `none`.
pub mod Order
pub mod Generate
use mitosis.Prelude.{
  ℕ, zero, suc, ◌+◌, ◌-◌, ◌%◌, ◌^◌, ◌==◌, ltb, if◌then◌else◌, Bool, true, false, List, [], ◌∷◌,
  ◌++◌, Option, none, some, u32, length, get_elem?, take, drop,
}
use mitosis.Config.{Config}
use mitosis.Types.Data.{Transaction, OutboundChunk}
use mitosis.Types.Libraries.{Encoding}
use mitosis.Types.Hashing.{new_transaction}
use mitosis.Types.Copies.{copy_chunk}

pub record TxPool : Type 0 where
  pub pending_txs : List Transaction
  pub pending_inbound_chunks : List OutboundChunk

abbrev pub new_tx_pool : TxPool
new_tx_pool = record { pending_txs = []; pending_inbound_chunks = [] }

-- The chunks that are taken, and what is left of `txLen`: the code tests it only for being positive,
-- so that it may stop at 0.
unfoldable pub take_chunks : ℕ → List OutboundChunk → List OutboundChunk × ℕ
take_chunks tx_len [] = ([], tx_len)
take_chunks tx_len (c ∷ cs) =
    let (rest, left) = take_chunks (tx_len - length c.txs) cs in
    if ltb 0 tx_len then (c ∷ rest, left) else ([], tx_len)

unfoldable pub take_txs1 : ℕ → TxPool → List OutboundChunk × TxPool
take_txs1 tx_len pool =
    let (chunks, left) = take_chunks tx_len pool.pending_inbound_chunks in
    (
      chunks,
      record pool { pending_inbound_chunks = drop (length chunks) pool.pending_inbound_chunks },
    )

unfoldable pub add_inbound_chunk : OutboundChunk → TxPool → TxPool
add_inbound_chunk c pool = record pool {
  pending_inbound_chunks = pool.pending_inbound_chunks ++ (copy_chunk c ∷ []);
}

-- What one call of `RandTx` draws: three uint32 and four bytes.
pub record Draw : Type 0 where
  pub to_shard : ℕ
  pub from_idx : ℕ
  pub to_idx : ℕ
  pub random_bytes : List ℕ

-- `pool.PendingTxs[:txLen]` and `[txLen:]`, or all of it.
abbrev pub split_txs : ℕ → List Transaction → List Transaction × List Transaction
split_txs n txs = if ltb n (length txs) then (take n txs, drop n txs) else (txs, [])

-- One `range` of the inner slice, then of the map, in one order of its keys.
unfoldable pub other_shards : ℕ → List ℕ → List ℕ
other_shards from [] = []
other_shards from (s ∷ shards) =
    let rest = other_shards from shards in if s == from then rest else s ∷ rest

unfoldable pub to_shards_of : ℕ → List (ℕ × List ℕ) → List ℕ
to_shards_of from [] = []
to_shards_of from ((r, shards) ∷ m) = other_shards from shards ++ to_shards_of from m

unfoldable pub get_to_shards : Config → ℕ → List ℕ
unfolding to_shards_of
get_to_shards config from = to_shards_of from config.topo.p_shard_ids

-- A random transaction with its two shards written over; its hash stays.
unfoldable pub redirect : Config → ℕ → Transaction → Transaction
redirect config to tx = record tx { from_shard = config.shard_id; to_shard = to }

module _ (E : Encoding) (config : Config) where
  -- Both moduli are tested before the accounts are read.
  unfoldable pub rand_tx : Draw → Option Transaction
  rand_tx d =
      if config.p_shard_num == 0
      then none
      else elim (get_elem? config.accounts (d.from_idx % u32 (length config.accounts))) [
        | none ↦ none
        | some from_address ↦
            elim (get_elem? config.accounts (d.to_idx % u32 (length config.accounts))) [
              | none ↦ none
              | some to_address ↦ some (
                  new_transaction E config.shard_id (u32 (d.to_shard % config.p_shard_num + 1001))
                    from_address to_address 1 d.random_bytes)
            ]
      ]

  -- The transactions of the first `n` draws.
  unfoldable pub rand_txs : ℕ → (ℕ → Draw) → Option (List Transaction)
  rand_txs zero draws = some []
  rand_txs (suc n) draws = elim (rand_tx (draws 0)) [
    | none ↦ none
    | some tx ↦ elim (rand_txs n (λ i. draws (suc i))) [ none ↦ none | some txs ↦ some (tx ∷ txs) ]
  ]

  unfoldable pub add_txs : (ℕ → Draw) → TxPool → Option TxPool
  add_txs draws pool = elim (rand_txs 100 draws) [
    | none ↦ none
    | some txs ↦ some (record pool { pending_txs = pool.pending_txs ++ txs })
  ]

  -- The refill of `takeTxs` below fifty transactions.
  unfoldable pub refill : (ℕ → Draw) → TxPool → Option TxPool
  refill draws pool = if ltb (length pool.pending_txs) 50 then add_txs draws pool else some pool

  unfoldable pub take_txs :
      ℕ → (ℕ → Draw) → TxPool → Option ((List Transaction × List OutboundChunk) × TxPool)
  take_txs tx_len draws pool =
      let (chunks, left) = take_chunks tx_len pool.pending_inbound_chunks in
      let rest = drop (length chunks) pool.pending_inbound_chunks in
      let (txs, kept) = split_txs left pool.pending_txs in
      if left == 0
      then some (([], chunks), record pool { pending_inbound_chunks = rest })
      else elim (refill draws (record { pending_txs = kept; pending_inbound_chunks = rest })) [
        | none ↦ none
        | some pool1 ↦ some ((txs, chunks), pool1)
      ]

  unfoldable pub cross_shard_txs : List ℕ → (ℕ → Draw) → Option (List Transaction)
  cross_shard_txs [] draws = some []
  cross_shard_txs (to ∷ shards) draws = elim (rand_tx (draws 0)) [
    | none ↦ none
    | some tx ↦ elim (cross_shard_txs shards (λ i. draws (suc i))) [
      | none ↦ none
      | some txs ↦ some (redirect config to tx ∷ txs)
    ]
  ]

  unfoldable pub generate_cross_shard_tx2 : (ℕ → Draw) → Option (List Transaction)
  unfolding cross_shard_txs
  generate_cross_shard_tx2 draws = cross_shard_txs (get_to_shards config config.shard_id) draws

  unfoldable pub generate_cross_shard_txs : ℕ → Draw → Option Transaction
  generate_cross_shard_txs num d = elim (get_elem? (get_to_shards config config.shard_id) num) [
    | none ↦ none
    | some to ↦ elim (rand_tx d) [ none ↦ none | some tx ↦ some (redirect config to tx) ]
  ]
