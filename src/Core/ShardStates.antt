-- ===== src/Core/ShardStates.antt =====
-- Mitosis/core/shardstates.go: the headers and the inbound chunks that a node knows of each partition
-- shard. The transaction pool is the one that the blockchain shares with it. An empty `Txs`, whose
-- first element the code reads, panics: `none`.
pub mod Step
pub mod Delivery
pub mod Confluence
use mitosis.Prelude.{
  ℕ, zero, suc, ◌+◌, ◌-◌, ◌*◌, ◌%◌, ◌^◌, ◌==◌, ltb, if◌then◌else◌, Bool, true, false, not, ◌&&◌,
  List, [], ◌∷◌, Option, none, some, u32, sub32, length,
}
use mitosis.Prelude.Assoc.{lookup, insert}
use mitosis.Config.{Config}
use mitosis.Bls.{Herumi, PubKeyStore, verify_aggregate_sig}
use mitosis.Types.Bitmap.{get_element}
use mitosis.Types.Data.{Transaction, Header, OutboundChunk}
use mitosis.Types.Libraries.{Encoding, Hasher, Verifier}
use mitosis.Types.Hashing.{root}
use mitosis.Core.TxPool.{TxPool, add_inbound_chunk}

pub record ShardState : Type 0 where
  pub headers : List (ℕ × Header)
  pub inbound_chunks : List (ℕ × OutboundChunk)

abbrev pub new_shard_state : ShardState
new_shard_state = record { headers = []; inbound_chunks = [] }

pub record ShardStates : Type 0 where
  pub state_db : List (ℕ × ShardState)
  pub tx_pool : TxPool

-- `for i := 0; i < PShardNum; i++`, with the rounds left first.
unfoldable pub fill_shards : ℕ → ℕ → List (ℕ × ShardState) → List (ℕ × ShardState)
fill_shards zero i db = db
fill_shards (suc rounds) i db =
    fill_shards rounds (suc i) (insert (u32 (i + 1001)) new_shard_state db)

unfoldable pub new_shard_states : Config → TxPool → ShardStates
new_shard_states config pool = record {
  state_db = fill_shards config.p_shard_num 0 [];
  tx_pool = pool;
}

abbrev pub header_flag : Bool
header_flag = false

-- `UpdateShardStateWithHeaderRShard`.
abbrev pub store_header_r_shard : Header → ShardState → Option Header → ShardState × Bool
store_header_r_shard h s none = (record s { headers = insert h.hash h s.headers }, true)
store_header_r_shard h s (some old) = (s, false)

unfoldable pub update_header_r_shard : Header → ShardState → ShardState × Bool
update_header_r_shard h s = store_header_r_shard h s (lookup h.hash s.headers)

unfoldable pub add_to_tx_pool : OutboundChunk → TxPool → TxPool
add_to_tx_pool c pool = elim c.txs [ [] ↦ pool | tx ∷ txs ↦ add_inbound_chunk c pool ]

unfoldable pub key_offset : Config → ℕ → ℕ
key_offset c shard = u32 (u32 (sub32 (u32 (c.r_shard_num + shard)) 1001 * c.node_num_per_shard) + 1)

module _ (E : Encoding) (H : Hasher) (V : Verifier) where
  -- `db.Put(crypto.Keccak256(p), p)` for each part of the proof.
  unfoldable pub proof_db : List (List ℕ) → List (ℕ × List ℕ) → List (ℕ × List ℕ)
  proof_db [] db = db
  proof_db (p ∷ ps) db = proof_db ps (insert (E.keccak p) p db)

  -- What `VerifyProof` gives for the chunk's shard, against the chunk's own root.
  unfoldable pub proof_matches : ℕ → Transaction → OutboundChunk → Bool
  proof_matches tx_root first c =
      V.bytes_to_hash
        (V.verify_proof tx_root (E.encode_uint first.to_shard) (proof_db c.chunk_proof []))
      == root E H c

  unfoldable pub check_inbound_chunk : Header → OutboundChunk → Bool
  check_inbound_chunk h c = elim c.txs [ [] ↦ true | tx ∷ txs ↦ proof_matches h.tx_root tx c ]

  abbrev pub checked_chunk : Option Header → OutboundChunk → Bool
  checked_chunk none c = false
  checked_chunk (some h) c = check_inbound_chunk h c

  abbrev pub checked_header : Header → Option OutboundChunk → Bool
  checked_header h none = false
  checked_header h (some c) = check_inbound_chunk h c

  abbrev pub store_chunk :
      OutboundChunk → ShardState → Option OutboundChunk → ShardState × (Bool × Bool)
  store_chunk c s none = (
    record s { inbound_chunks = insert c.block_hash c s.inbound_chunks },
    (true, checked_chunk (lookup c.block_hash s.headers) c),
  )
  store_chunk c s (some old) = (s, (false, false))

  -- The state, whether the chunk is the first with its hash, and whether it passed the check.
  unfoldable pub update_with_inbound_chunk : OutboundChunk → ShardState → ShardState × (Bool × Bool)
  update_with_inbound_chunk c s = store_chunk c s (lookup c.block_hash s.inbound_chunks)

  abbrev pub store_header : Header → ShardState → Option Header → ShardState × (Bool × Bool)
  store_header h s none = (
    record s { headers = insert h.hash h s.headers },
    (true, checked_header h (lookup h.hash s.inbound_chunks)),
  )
  store_header h s (some old) = (s, (false, false))

  unfoldable pub update_with_header : Header → ShardState → ShardState × (Bool × Bool)
  update_with_header h s = store_header h s (lookup h.hash s.headers)

  -- `AddInboundChunkToTxPool(st.InboundChunks[msg.Hash])`. A nil pointer is never reached: the
  -- check has found the chunk.
  abbrev pub deliver : Bool → Option OutboundChunk → TxPool → TxPool
  deliver false c pool = pool
  deliver true none pool = pool
  deliver true (some c) pool = add_to_tx_pool c pool

  module _ (config : Config) where
    abbrev pub put_header : Header → ShardStates → ShardState × (Bool × Bool) → ShardStates × Bool
    put_header h s (st, (first, checked)) = (
      record {
        state_db = insert h.shard_id st s.state_db;
        tx_pool = deliver (checked && config.is_leader) (lookup h.hash st.inbound_chunks) s.tx_pool;
      },
      first,
    )

    abbrev pub put_header_r_shard : Header → ShardStates → ShardState × Bool → ShardStates × Bool
    put_header_r_shard h s (st, first) =
        (record s { state_db = insert h.shard_id st s.state_db }, first)

    unfoldable pub record_header : Header → ShardStates → ShardState → ShardStates × Bool
    record_header h s st =
        if ltb 1000 config.shard_id
        then put_header h s (update_with_header h st)
        else put_header_r_shard h s (update_header_r_shard h st)

    abbrev pub put_chunk :
        OutboundChunk → ℕ → ShardStates → ShardState × (Bool × Bool) → ShardStates × Bool
    put_chunk c from s (st, (first, checked)) = (
      record {
        state_db = insert from st s.state_db;
        tx_pool = deliver (checked && config.is_leader) (some c) s.tx_pool;
      },
      first,
    )

    unfoldable pub record_chunk : OutboundChunk → ℕ → ShardStates → ShardState → ShardStates × Bool
    record_chunk c from s st = put_chunk c from s (update_with_inbound_chunk c st)

    abbrev pub record_chunk_in :
        OutboundChunk → ℕ → ShardStates → Option ShardState → ShardStates × Bool
    record_chunk_in c from s none = (s, false)
    record_chunk_in c from s (some st) = record_chunk c from s st

    -- The shard of the chunk's first transaction.
    abbrev pub chunk_from :
        List Transaction → OutboundChunk → ShardStates → Option (ShardStates × Bool)
    chunk_from [] c s = none
    chunk_from (tx ∷ txs) c s =
        some (record_chunk_in c tx.from_shard s (lookup tx.from_shard s.state_db))

    -- The state, and whether the chunk is new.
    unfoldable pub update_inbound_chunk : OutboundChunk → ShardStates → Option (ShardStates × Bool)
    update_inbound_chunk c s = chunk_from c.txs c s

    module _ (B : Herumi) (store : PubKeyStore B) where
      unfoldable pub check_header : Header → Bool
      check_header h =
          not (ltb (length (get_element h.sign_bit_map)) config.consensus_threshold)
          && not (
              header_flag
              && not (
                  verify_aggregate_sig B store h.signature (E.hash_bytes h.hash) h.sign_bit_map
                    h.shard_id (key_offset config h.shard_id)))

      abbrev pub record_header_in : Header → ShardStates → Option ShardState → ShardStates × Bool
      record_header_in h s none = (s, false)
      record_header_in h s (some st) = if check_header h then record_header h s st else (s, false)

      -- The state, and whether the header is new.
      unfoldable pub update_header : Header → ShardStates → ShardStates × Bool
      update_header h s = record_header_in h s (lookup h.shard_id s.state_db)
