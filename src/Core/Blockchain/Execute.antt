-- ===== src/Core/Blockchain/Execute.antt =====
-- Mitosis/core/blockchain.go: `ExecuteBlock`, `Commit`, and the two loops over the messages of other
-- shards. What is gossiped is a list of shards with what goes to them; the file that a leader writes
-- of a block is left out.
use mitosis.Prelude.{
  ℕ, suc, ◌+◌, ◌==◌, ltb, if◌then◌else◌, Bool, true, false, List, [], ◌∷◌, Option, none, some, u32,
}
use mitosis.Prelude.Assoc.{lookup, insert}
use mitosis.Config.{Config}
use mitosis.Bls.{Herumi, PubKeyStore}
use mitosis.Types.Bitmap.{get_element}
use mitosis.Types.Data.{Transaction, Header, OutboundChunk, Block}
use mitosis.Types.Libraries.{Encoding, Hasher, Verifier}
use mitosis.Core.ShardStates.{ShardStates, update_header, update_inbound_chunk}
use mitosis.Core.Blockchain.{
  StateCalls, Blockchain, fund_accounts, credit_txs, transfer_txs, group_txs, roll_back, header_in,
}

pub data Sent : Type 0 where
  header_gossip : Header → Sent
  outbound_chunk_gossip : OutboundChunk → Sent

abbrev pub add_send : ℕ → OutboundChunk → List Transaction → List (ℕ × Sent) → List (ℕ × Sent)
add_send shard c [] sends = sends
add_send shard c (tx ∷ txs) sends = (shard, outbound_chunk_gossip c) ∷ sends

-- `Gossip(msg, i+1001)` for each chunk, but one that is empty or for the own shard.
unfoldable pub chunk_sends : ℕ → ℕ → List OutboundChunk → List (ℕ × Sent)
chunk_sends own i [] = []
chunk_sends own i (c ∷ chunks) =
    let rest = chunk_sends own (suc i) chunks in
    if u32 (i + 1001) == own then rest else add_send (u32 (i + 1001)) c c.txs rest

-- A header goes to the shards of its bitmap.
unfoldable pub relay_to : Header → List ℕ → List (ℕ × Sent)
relay_to h [] = []
relay_to h (shard ∷ shards) = (u32 (shard + 1001), header_gossip h) ∷ relay_to h shards

abbrev pub chunks_or : Option (List OutboundChunk) → List OutboundChunk
chunks_or none = []
chunks_or (some chunks) = chunks

module _ (S : StateCalls) (config : Config) where
  open S use {StateDb, commit_state}

  -- The inbound chunks of a block, in `ExecuteBlock`: a wrong proof is only reported. A chunk without
  -- transactions, and a header that is not there, panic.
  abbrev pub execute_chunk :
      List Transaction → Option Header → OutboundChunk → StateDb → Option StateDb
  execute_chunk [] header c db = none
  execute_chunk (tx ∷ txs) none c db = none
  execute_chunk (tx ∷ txs) (some header) c db = some (credit_txs S config.shard_id c.txs db)

  abbrev pub header_of : ShardStates → OutboundChunk → List Transaction → Option Header
  header_of s c [] = none
  header_of s c (tx ∷ txs) = header_in c.block_hash (lookup tx.from_shard s.state_db)

  abbrev pub execute_next : ShardStates → OutboundChunk → Option StateDb → Option StateDb
  execute_next s c none = none
  execute_next s c (some db) = execute_chunk c.txs (header_of s c c.txs) c db

  unfoldable pub execute_chunks : ShardStates → List OutboundChunk → Option StateDb → Option StateDb
  execute_chunks s [] db = db
  execute_chunks s (c ∷ chunks) db = execute_chunks s chunks (execute_next s c db)

  -- From the transfers on; a transaction to a shard that is not there panics.
  abbrev pub execute_grouped : StateDb → Option (List OutboundChunk) → Option StateDb
  execute_grouped db none = none
  execute_grouped db (some chunks) = some db

  abbrev pub execute_txs : Block → Option StateDb → Option StateDb
  execute_txs block none = none
  execute_txs block (some db) =
      execute_grouped (commit_state (transfer_txs S config.shard_id block.transactions db)).0
        (group_txs config.p_shard_num block.transactions)

  abbrev pub execute_after : Block → Option Block → ShardStates → StateDb → Option StateDb
  execute_after block none s db = none
  execute_after block (some latest) s db =
      execute_txs block (execute_chunks s block.inbound_chunks (some db))

  -- Block 0 funds the accounts and goes on.
  unfoldable pub execute_db : Block → Option Block → ShardStates → StateDb → Option StateDb
  unfolding execute_chunks
  execute_db block latest s db = execute_after block latest s (
      if block.height == 0
      then (commit_state (fund_accounts S config.shard_id config.accounts db)).0
      else db)

  abbrev pub executed : Blockchain S → Option StateDb → Option (Blockchain S)
  executed chain none = none
  executed chain (some db) = some (record chain { state_db = db })

  unfoldable pub execute_block : Blockchain S → Block → Option (Blockchain S)
  unfolding execute_db
  execute_block chain block =
      executed chain (execute_db block chain.latest_block chain.shard_states chain.state_db)

module _ (E : Encoding) (H : Hasher) (V : Verifier) (S : StateCalls) (config : Config) (B : Herumi)
    (store : PubKeyStore B) where
  -- The state of the block's root, where there is one; else the block is executed.
  abbrev pub adopt : Blockchain S → Block → S.StateDb × Bool → Option (Blockchain S)
  adopt chain block (db, true) = some (record chain { state_db = db })
  adopt chain block (db, false) = execute_block S config chain block

  abbrev pub announce : Block → Option (Blockchain S) → Option (Blockchain S × List (ℕ × Sent))
  announce block none = none
  announce block (some chain) = some (
    record chain {
      shard_states = (update_header E H V config B store block.header chain.shard_states).0;
    },
    (config.r_shard_id, header_gossip block.header)
        ∷ chunk_sends config.shard_id 0 (chunks_or (lookup block.hash chain.outbound_chunk_db)),
  )

  -- `Commit`: the chain, and what it sends.
  unfoldable pub commit : Blockchain S → Block → Option (Blockchain S × List (ℕ × Sent))
  unfolding execute_block chunk_sends
  commit chain block =
      let chain1 = record chain {
        latest_block = some block;
        block_db = insert block.height block chain.block_db;
      } in
      announce block (adopt chain1 block (roll_back E H V S config block.state_root chain.state_db))

  abbrev pub relay_header :
      Header → Blockchain S → ShardStates × Bool → Blockchain S × List (ℕ × Sent)
  relay_header h chain (s, false) = (record chain { shard_states = s }, [])
  relay_header h chain (s, true) = (
    record chain { shard_states = s },
    (config.shard_id, header_gossip h)
        ∷ (if ltb config.shard_id 1001 then relay_to h (get_element h.outbound_dst_bitmap) else []),
  )

  -- One message of `HandleHeaderMsg`, its payload the header.
  unfoldable pub handle_header_msg : Header → Blockchain S → Blockchain S × List (ℕ × Sent)
  unfolding relay_to
  handle_header_msg h chain =
      relay_header h chain (update_header E H V config B store h chain.shard_states)

  abbrev pub relay_chunk :
      OutboundChunk
      → Blockchain S
      → Option (ShardStates × Bool)
      → Option (Blockchain S × List (ℕ × Sent))
  relay_chunk c chain none = none
  relay_chunk c chain (some (s, false)) = some (record chain { shard_states = s }, [])
  relay_chunk c chain (some (s, true)) =
      some (record chain { shard_states = s }, (config.shard_id, outbound_chunk_gossip c) ∷ [])

  -- One message of `HandleInboundChunkMsg`; a chunk without transactions, or for another shard, is
  -- passed over.
  abbrev pub take_chunk :
      List Transaction → OutboundChunk → Blockchain S → Option (Blockchain S × List (ℕ × Sent))
  take_chunk [] c chain = some (chain, [])
  take_chunk (tx ∷ txs) c chain =
      if tx.to_shard == config.shard_id
      then relay_chunk c chain (update_inbound_chunk E H V config c chain.shard_states)
      else some (chain, [])

  unfoldable pub handle_inbound_chunk_msg :
      OutboundChunk → Blockchain S → Option (Blockchain S × List (ℕ × Sent))
  handle_inbound_chunk_msg c chain = take_chunk c.txs c chain
