-- ===== src/Core/Blockchain.antt =====
-- Mitosis/core/blockchain.go: how a leader makes a block and how a validator checks it. The state
-- database of Mitosis/state is the record `StateCalls` of the calls that are made of it. A panic, or a
-- wait for a header that the node does not have, is `none`.
pub mod Agreement
pub mod Execute
pub mod Relay
pub mod Conservation
pub mod Accounts
pub mod Executed
use mitosis.Prelude.{
  ℕ, zero, suc, ◌+◌, ◌-◌, ◌%◌, ◌^◌, ◌==◌, ltb, leb, if◌then◌else◌, Bool, true, false, not, ◌&&◌,
  List, [], ◌∷◌, ◌++◌, Option, none, some, u32, sub32, length, get_elem?, set, replicate,
}
use mitosis.Prelude.Assoc.{lookup, insert}
use mitosis.Config.{Config}
use mitosis.Types.Bitmap.{Bitmap, new_bitmap, set_key}
use mitosis.Types.Data.{Transaction, Header, OutboundChunk, Block, new_block}
use mitosis.Types.Libraries.{Encoding, Hasher, Verifier}
use mitosis.Types.Hashing.{get_hash, new_header, block_tx_trie, get_block_tx_root}
use mitosis.Core.TxPool.{TxPool, Draw, take_txs1, generate_cross_shard_tx2}
use mitosis.Core.ShardStates.{ShardState, ShardStates, proof_matches}

-- `state.New` with a nil error is `some`; `Commit(false)` gives the root of the state.
pub record StateCalls : Type 1 where
  pub StateDb : Type 0
  pub get_balance : StateDb → ℕ → ℕ
  pub add_balance : StateDb → ℕ → ℕ → StateDb
  pub sub_balance : StateDb → ℕ → ℕ → StateDb
  pub commit_state : StateDb → StateDb × ℕ
  pub state_at : StateDb → ℕ → Option StateDb

pub record Blockchain (S : StateCalls) : Type 0 where
  pub shard_states : ShardStates
  pub latest_block : Option Block
  pub block_db : List (ℕ × Block)
  pub state_db : S.StateDb
  pub outbound_chunk_db : List (ℕ × List OutboundChunk)

module _ (S : StateCalls) (shard : ℕ) where
  open S use {StateDb, get_balance, add_balance, sub_balance}

  unfoldable pub fund_accounts : List ℕ → StateDb → StateDb
  fund_accounts [] db = db
  fund_accounts (account ∷ accounts) db = fund_accounts accounts (add_balance db account 10000000)

  -- The inbound transactions of one chunk, then of all chunks.
  unfoldable pub credit_txs : List Transaction → StateDb → StateDb
  credit_txs [] db = db
  credit_txs (tx ∷ txs) db = credit_txs txs (
      if not (tx.from_shard == shard) && tx.to_shard == shard
      then add_balance db tx.to_addr tx.value
      else db)

  unfoldable pub credit_chunks : List OutboundChunk → StateDb → StateDb
  unfolding credit_txs
  credit_chunks [] db = db
  credit_chunks (c ∷ chunks) db = credit_chunks chunks (credit_txs c.txs db)

  abbrev pub is_intra_shard : Transaction → Bool
  is_intra_shard tx = tx.from_shard == shard && tx.to_shard == shard

  abbrev pub is_outbound : Transaction → Bool
  is_outbound tx = tx.from_shard == shard && not (tx.to_shard == shard)

  -- The state after one transaction: one without the funds is passed over.
  unfoldable pub transfer : Transaction → StateDb → StateDb
  transfer tx db =
      if ltb (get_balance db tx.from_addr) tx.value
      then db
      else if is_intra_shard tx
      then add_balance (sub_balance db tx.from_addr tx.value) tx.to_addr tx.value
      else if is_outbound tx
      then sub_balance db tx.from_addr tx.value
      else db

  unfoldable pub transfer_txs : List Transaction → StateDb → StateDb
  unfolding transfer
  transfer_txs [] db = db
  transfer_txs (tx ∷ txs) db = transfer_txs txs (transfer tx db)

  -- What the leader's loop does besides: it marks the destination of what it sends.
  unfoldable pub mark : Transaction → StateDb → Bitmap → Option Bitmap
  mark tx db bitmap =
      if is_outbound tx && not (ltb (get_balance db tx.from_addr) tx.value)
      then set_key bitmap (sub32 tx.to_shard 1001)
      else some bitmap

  unfoldable pub pack_txs : List Transaction → StateDb → Bitmap → Option (StateDb × Bitmap)
  unfolding transfer mark
  pack_txs [] db bitmap = some (db, bitmap)
  pack_txs (tx ∷ txs) db bitmap = elim (mark tx db bitmap) [
    | none ↦ none
    | some marked ↦ pack_txs txs (transfer tx db) marked
  ]

-- `outboundChunks[tx.ToShard-1001].Txs = append(..., tx)` for each transaction.
abbrev pub empty_chunk : OutboundChunk
empty_chunk = record { block_hash = 0; txs = []; chunk_proof = [] }

abbrev pub append_tx : Transaction → OutboundChunk → OutboundChunk
append_tx tx c = record c { txs = c.txs ++ (tx ∷ []) }

unfoldable pub group_from : List Transaction → List OutboundChunk → Option (List OutboundChunk)
group_from [] chunks = some chunks
group_from (tx ∷ txs) chunks = elim (get_elem? chunks (sub32 tx.to_shard 1001)) [
  | none ↦ none
  | some c ↦ group_from txs (set chunks (sub32 tx.to_shard 1001) (append_tx tx c))
]

unfoldable pub group_txs : ℕ → List Transaction → Option (List OutboundChunk)
unfolding group_from
group_txs p_shard_num txs = group_from txs (replicate p_shard_num empty_chunk)

-- The header of a chunk's block, for which the code waits.
abbrev pub header_in : ℕ → Option ShardState → Option Header
header_in hash none = none
header_in hash (some st) = lookup hash st.headers

module _ (E : Encoding) (H : Hasher) (V : Verifier) (S : StateCalls) (config : Config) where
  open S use {StateDb, commit_state, state_at}

  -- The proof and the block's hash for each chunk, by its place.
  unfoldable pub finish_chunks : ℕ → H.Trie → ℕ → List OutboundChunk → List OutboundChunk
  finish_chunks i trie hash [] = []
  finish_chunks i trie hash (c ∷ chunks) =
      record c { chunk_proof = H.prove trie (E.encode_uint (i + 1001)); block_hash = hash }
      ∷ finish_chunks (suc i) trie hash chunks

  unfoldable pub genesis : ℕ → Blockchain S → Blockchain S × Block
  genesis time chain =
      let (db, root) =
        commit_state (fund_accounts S config.shard_id config.accounts chain.state_db) in
      let head = new_header E config.shard_id 0 0 root 0 (new_bitmap config.p_shard_num) time in
      let block = new_block head [] [] in
      (record chain { state_db = db; latest_block = some block }, block)

  -- The transactions that the leader makes itself.
  abbrev pub own_txs : Block → (ℕ → Draw) → Option (List Transaction)
  own_txs latest draws =
      if leb 1001 config.shard_id && ltb (u32 (latest.height + 1)) 200
      then generate_cross_shard_tx2 E config draws
      else some []

  -- From the root of the state on.
  unfoldable pub seal_block :
      ℕ
      → Blockchain S
      → Block
      → List Transaction
      → List OutboundChunk
      → Bitmap
      → List OutboundChunk
      → StateDb × ℕ
      → Blockchain S × Block
  seal_block time chain latest txs inbound bitmap chunks (db, root) =
      let trie = block_tx_trie E H chunks H.new_trie in
      let head =
        new_header E config.shard_id (u32 (latest.height + 1)) (get_hash E latest.header) root
          (get_block_tx_root E H chunks H.new_trie) bitmap time in
      let block = new_block head txs inbound in
      (
        record chain {
          state_db = db;
          latest_block = some block;
          outbound_chunk_db =
              insert head.hash (finish_chunks 0 trie head.hash chunks) chain.outbound_chunk_db;
        },
        block,
      )

  abbrev pub pack_block :
      ℕ
      → Blockchain S
      → Block
      → List Transaction
      → List OutboundChunk
      → Option (StateDb × Bitmap)
      → Option (List OutboundChunk)
      → Option (Blockchain S × Block)
  pack_block time chain latest txs inbound (some (db, bitmap)) (some chunks) =
      some (seal_block time chain latest txs inbound bitmap chunks (commit_state db))
  pack_block time chain latest txs inbound packed grouped = none

  abbrev pub make_block :
      ℕ
      → Blockchain S
      → Block
      → Option (List Transaction)
      → List OutboundChunk × TxPool
      → Option (Blockchain S × Block)
  make_block time chain latest none taken = none
  make_block time chain latest (some txs) (inbound, pool) =
      pack_block time (record chain { shard_states = record chain.shard_states { tx_pool = pool } })
        latest txs inbound
        (pack_txs S config.shard_id txs (credit_chunks S config.shard_id inbound chain.state_db)
          (new_bitmap config.p_shard_num))
        (group_txs config.p_shard_num txs)

  -- The time and the random draws are arguments.
  unfoldable pub create_new_block :
      ℕ → (ℕ → Draw) → Blockchain S → Option Block → Option (Blockchain S × Block)
  create_new_block time draws chain none = some (genesis time chain)
  create_new_block time draws chain (some latest) =
      make_block time chain latest (own_txs latest draws) (take_txs1 100 chain.shard_states.tx_pool)

  -- `RollBack`: the state at a root, and whether there is one.
  unfoldable pub roll_back : ℕ → StateDb → StateDb × Bool
  roll_back root db = elim (state_at db root) [ none ↦ (db, false) | some old ↦ (old, true) ]

  abbrev pub proof_ok : Transaction → OutboundChunk → Option Header → Option Bool
  proof_ok tx c none = none
  proof_ok tx c (some h) = some (proof_matches E H V h.tx_root tx c)

  -- Whether a chunk has transactions and its proof is right: `none` is a panic or a wait.
  unfoldable pub chunk_ok : ShardStates → OutboundChunk → List Transaction → Option Bool
  chunk_ok s c [] = some false
  chunk_ok s c (tx ∷ txs) = proof_ok tx c (header_in c.block_hash (lookup tx.from_shard s.state_db))

  abbrev pub next_chunks : Option Bool → StateDb → Option (StateDb × Bool) → Option (StateDb × Bool)
  next_chunks none db rest = none
  next_chunks (some false) db rest = some (db, false)
  next_chunks (some true) db rest = rest

  -- The chunks of a block, up to the first that is wrong.
  unfoldable pub check_chunks : ShardStates → List OutboundChunk → StateDb → Option (StateDb × Bool)
  check_chunks s [] db = some (db, true)
  check_chunks s (c ∷ chunks) db =
      next_chunks (chunk_ok s c c.txs) db
        (check_chunks s chunks (credit_txs S config.shard_id c.txs db))

  -- From the transfers on.
  unfoldable pub check_roots : Block → StateDb → Option (StateDb × Bool)
  check_roots block db =
      let (db1, root) = commit_state (transfer_txs S config.shard_id block.transactions db) in
      if root == block.state_root
      then elim (group_txs config.p_shard_num block.transactions) [
        | none ↦ none
        | some chunks ↦ some (db1, get_block_tx_root E H chunks H.new_trie == block.tx_root)
      ]
      else some (db1, false)

  abbrev pub then_roots : Block → Option (StateDb × Bool) → Option (StateDb × Bool)
  then_roots block none = none
  then_roots block (some (db, false)) = some (db, false)
  then_roots block (some (db, true)) = check_roots block db

  -- The body of `CheckBlock`, after the root of the old state has been taken.
  unfoldable pub check_body : Block → Option Block → ShardStates → StateDb → Option (StateDb × Bool)
  check_body block latest s db =
      let (funded, root) = commit_state (fund_accounts S config.shard_id config.accounts db) in
      if block.height == 0 then some (funded, root == block.state_root) else elim latest [
        | none ↦ some (db, false)
        | some last ↦
            if block.height == u32 (last.height + 1)
            then then_roots block (check_chunks s block.inbound_chunks db)
            else some (db, false)
      ]

  -- The deferred `RollBack`.
  abbrev pub rolled : ℕ → Blockchain S → Option (StateDb × Bool) → Option (Blockchain S × Bool)
  rolled root chain none = none
  rolled root chain (some (db, ok)) = some (record chain { state_db = (roll_back root db).0 }, ok)

  -- The chain after the check, and whether the error is nil.
  unfoldable pub check_block : Blockchain S → Block → Option (Blockchain S × Bool)
  check_block chain block =
      let (db, root) = commit_state chain.state_db in
      rolled root chain (check_body block chain.latest_block chain.shard_states db)
