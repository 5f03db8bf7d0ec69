-- ===== src/Tests/Chunks.antt =====
-- Headers and chunks from shard 1002 at the leader of shard 1001.
use mitosis.Prelude.{◌≡◌, refl, ◌≤◌, ◌<◌, ◌⊎◌, true, List, [], ◌∷◌, ◌++◌, Option, some, none}
use mitosis.Prelude.Assoc.{lookup, insert}
use mitosis.Config.{Config}
use mitosis.Types.Bitmap.{get_element, keys_from, byte_keys}
use mitosis.Types.Data.{Header, OutboundChunk}
use mitosis.Types.Hashing.{root, get_chunk_root, put_txs}
use mitosis.Types.Copies.{copy_chunk, copy_transactions, copy_transaction}
use mitosis.Core.TxPool.{TxPool, new_tx_pool, take_txs1, take_chunks, add_inbound_chunk}
use mitosis.Core.TxPool.Order.{total, take_txs1_lem}
use mitosis.Core.ShardStates.{
  ShardState, ShardStates, new_shard_state, new_shard_states, fill_shards, check_header,
  update_header, record_header, update_with_header, update_inbound_chunk, record_chunk,
  update_with_inbound_chunk, check_inbound_chunk, proof_matches, proof_db, add_to_tx_pool,
}
use mitosis.Core.ShardStates.Confluence.{IsPair, joined, header_chunk_commute}
use mitosis.Core.ShardStates.Delivery.{
  Event, Node, header_arrives, chunk_arrives, block_takes, copies, delivered, happen, happen_all,
}
use mitosis.Core.ShardStates.Delivery.Once.{start_node, delivered_once}
use mitosis.Tests.Toy.{
  toy_config, toy_header, toy_chunk, toy_tx, toy_encoding, toy_hasher, toy_verifier, toy_bls,
  toy_store,
}

abbrev config : Config
config = toy_config 8 true

abbrev header : Header
header = toy_header 1002 1 6 9

abbrev chunk : OutboundChunk
chunk = toy_chunk 1002 9

abbrev pool : TxPool
pool = record {
  pending_txs = [];
  pending_inbound_chunks = chunk ∷ toy_chunk 1002 10 ∷ toy_chunk 1002 11 ∷ [];
}

take_txs1_lem_example :
    ((take_txs1 2 pool).0 ++ (take_txs1 2 pool).1.pending_inbound_chunks
      ≡ pool.pending_inbound_chunks)
    × ((take_txs1 2 pool).1.pending_txs ≡ [])
    × (((take_txs1 2 pool).0 ≡ pool.pending_inbound_chunks) ⊎ (2 ≤ total (take_txs1 2 pool).0))
    × ((front : List OutboundChunk) (c : OutboundChunk) (back : List OutboundChunk)
        → (take_txs1 2 pool).0 ≡ front ++ (c ∷ back)
        → total front < 2)
take_txs1_lem_example = take_txs1_lem 2 pool

abbrev states : ShardStates
states = record {
  state_db = (1001, new_shard_state) ∷ (1002, new_shard_state) ∷ [];
  tx_pool = new_tx_pool;
}

chunk_once :
    update_inbound_chunk toy_encoding toy_hasher toy_verifier config chunk states
    ≡ some (
      record states {
        state_db =
            (1001, new_shard_state)
            ∷ (1002, record new_shard_state { inbound_chunks = (9, chunk) ∷ [] })
            ∷ [];
      },
      true,
    )
unfolding update_inbound_chunk record_chunk update_with_inbound_chunk lookup insert
chunk_once = refl

abbrev with_chunk : ShardStates
with_chunk = record states {
  state_db =
      (1001, new_shard_state)
      ∷ (1002, record new_shard_state { inbound_chunks = (9, chunk) ∷ [] })
      ∷ [];
}

toy-IsPair :
    IsPair toy_encoding toy_hasher toy_verifier config toy_bls toy_store header chunk
      new_shard_state states
unfolding lookup check_header get_element keys_from byte_keys
toy-IsPair = record {
  first_tx = toy_tx 1002 1001 5;
  other_txs = [];
  txs_eq = refl;
  from_eq = refl;
  hash_eq = refl;
  known = refl;
  no_header = refl;
  no_chunk = refl;
  accepted = refl;
  partition = refl;
}

header_chunk_commute_example :
    ((s1 : ShardStates) × (update_header toy_encoding toy_hasher toy_verifier config toy_bls
          toy_store header states
        ≡ (s1, true))
      × (update_inbound_chunk toy_encoding toy_hasher toy_verifier config chunk s1
          ≡ some (
            joined toy_encoding toy_hasher toy_verifier config header chunk new_shard_state states,
            true,
          )))
    × ((s1 : ShardStates) × (update_inbound_chunk toy_encoding toy_hasher toy_verifier config chunk
            states
          ≡ some (s1, true))
        × (update_header toy_encoding toy_hasher toy_verifier config toy_bls toy_store header s1 ≡ (
          joined toy_encoding toy_hasher toy_verifier config header chunk new_shard_state states,
          true,
        )))
header_chunk_commute_example =
    header_chunk_commute toy_encoding toy_hasher toy_verifier config toy_bls toy_store header chunk
      new_shard_state states toy-IsPair

-- The chunk passes the check against the header, and gets to the pool.
joined_pool :
    (joined toy_encoding toy_hasher toy_verifier config header chunk new_shard_state
      states).tx_pool.pending_inbound_chunks
    ≡ chunk ∷ []
unfolding joined check_inbound_chunk proof_matches proof_db root get_chunk_root put_txs
    add_inbound_chunk copy_chunk copy_transactions copy_transaction lookup insert
joined_pool = refl

abbrev events : List Event
events =
    chunk_arrives chunk
    ∷ header_arrives header
    ∷ chunk_arrives chunk
    ∷ block_takes 100
    ∷ header_arrives header
    ∷ []

abbrev node_or : Node → Option Node → Node
node_or n none = n
node_or n (some m) = m

abbrev final : Node
final = node_or (start_node config) (
    happen_all toy_encoding toy_hasher toy_verifier config toy_bls toy_store events
      (start_node config))

final_run :
    happen_all toy_encoding toy_hasher toy_verifier config toy_bls toy_store events
      (start_node config)
    ≡ some final
unfolding start_node new_shard_states fill_shards happen_all happen update_header record_header
    update_with_header update_inbound_chunk record_chunk update_with_inbound_chunk check_header
    get_element keys_from byte_keys take_txs1 take_chunks lookup insert check_inbound_chunk
    proof_matches proof_db root get_chunk_root put_txs add_to_tx_pool add_inbound_chunk copy_chunk
    copy_transactions copy_transaction
final_run = refl

delivered_once_example :
    (copies 1002 9 (delivered final) ≤ 1)
    × ((st : ShardState)
        → lookup 1002 final.states.state_db ≡ some st
        → lookup 9 st.headers ≡ none
        → copies 1002 9 (delivered final) ≡ 0)
delivered_once_example =
    delivered_once toy_encoding toy_hasher toy_verifier config toy_bls toy_store events final 1002 9
      final_run
