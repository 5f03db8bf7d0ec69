-- ===== src/Core/Blockchain/Agreement.antt =====
-- A block that a leader makes with `CreateNewBlock` of Mitosis/core/blockchain.go, and `CheckBlock` of a
-- validator that has the same state and the headers of the inbound chunks.
use mathlib.Core.Option.{some-injective}
use mitosis.Prelude.{
  ℕ, ◌+◌, ◌^◌, ◌<◌, ◌≡◌, refl, sym, ap, ◌∙◌, ◌==◌, true, false, List, [], ◌∷◌, some, u32, arith,
  Option-cases, inl, inr, All,
}
use mitosis.Config.{Config}
use mitosis.Types.Bitmap.{Bitmap, new_bitmap}
use mitosis.Types.Data.{Transaction, OutboundChunk, Block, new_block}
use mitosis.Types.Libraries.{Encoding, Hasher, Verifier}
use mitosis.Types.Hashing.{new_header, get_block_tx_root, get_hash}
use mitosis.Core.TxPool.{Draw, take_txs1}
use mitosis.Core.ShardStates.{ShardStates}
use mitosis.Core.Blockchain.{
  StateCalls, Blockchain, transfer, transfer_txs, mark, pack_txs, credit_txs, credit_chunks,
  group_txs, seal_block, own_txs, create_new_block, chunk_ok, check_chunks, check_roots, check_body,
  check_block, rolled,
}

module _ (S : StateCalls) (shard : ℕ) where
  -- The leader's loop leaves the state that the validator's loop leaves.
  pack_txs-transfer_txs :
      (txs : List Transaction) (db db' : S.StateDb) (bitmap bitmap' : Bitmap)
      → pack_txs S shard txs db bitmap ≡ some (db', bitmap')
      → transfer_txs S shard txs db ≡ db'
  unfolding pack_txs transfer_txs
  pack_txs-transfer_txs [] db db' bitmap bitmap' e = ap (λ t. t.0) (some-injective _ _ e)
  pack_txs-transfer_txs (tx ∷ txs) db db' bitmap bitmap' e =
      elim (Option-cases (mark S shard tx db bitmap)) [
        | inl k ↦ absurd (ground (arith, k, e))
        | inr (marked, k) ↦
            pack_txs-transfer_txs txs (transfer S shard tx db) db' marked bitmap'
              (ground (arith, k, e))
      ]

module _ (E : Encoding) (H : Hasher) (V : Verifier) (S : StateCalls) (config : Config) where
  -- A chunk with transactions, whose header the node has, and whose proof is right against it.
  abbrev pub Proved : ShardStates → OutboundChunk → Type 0
  Proved s c = chunk_ok E H V S config s c c.txs ≡ some true

  check_chunks_lem :
      (s : ShardStates) (chunks : List OutboundChunk) (db : S.StateDb)
      → All (Proved s) chunks
      → check_chunks E H V S config s chunks db
        ≡ some (credit_chunks S config.shard_id chunks db, true)
  unfolding check_chunks credit_chunks
  check_chunks_lem s [] db all = refl
  check_chunks_lem s (c ∷ chunks) db all =
      rw all.0 (check_chunks_lem s chunks (credit_txs S config.shard_id c.txs db) all.1)

  -- What the leader has when it seals a block.
  pub record Sealed (time : ℕ) (draws : ℕ → Draw) (chain chain' : Blockchain S)
      (latest block : Block) : Type 0 where
    pub txs : List Transaction
    pub db : S.StateDb
    pub bitmap : Bitmap
    pub chunks : List OutboundChunk
    pub packed :
        pack_txs S config.shard_id txs
          (credit_chunks S config.shard_id
            (take_txs1 100 chain.shard_states.tx_pool).0
            chain.state_db)
          (new_bitmap config.p_shard_num)
        ≡ some (db, bitmap)
    pub grouped : group_txs config.p_shard_num txs ≡ some chunks
    pub block_eq :
        block
        ≡ new_block
            (new_header E config.shard_id
              (u32 (latest.height + 1))
              (get_hash E latest.header)
              (S.commit_state db).1
              (get_block_tx_root E H chunks H.new_trie)
              bitmap
              time)
            txs
            (take_txs1 100 chain.shard_states.tx_pool).0

  sealed :
      (time : ℕ) (draws : ℕ → Draw) (chain chain' : Blockchain S) (latest block : Block)
      → create_new_block E H V S config time draws chain (some latest) ≡ some (chain', block)
      → Sealed time draws chain chain' latest block
  unfolding create_new_block seal_block
  sealed time draws chain chain' latest block e =
      elim (Option-cases (own_txs E H V S config latest draws)) [
        | inl k ↦ absurd (ground (arith, k, e))
        | inr (txs, k) ↦
            elim (Option-cases (
              pack_txs S config.shard_id txs
                (credit_chunks S config.shard_id (take_txs1 100 chain.shard_states.tx_pool).0
                  chain.state_db)
                (new_bitmap config.p_shard_num))) [
                  | inl p ↦ absurd (ground (arith, k, p, e))
                  | inr ((db, bitmap), p) ↦ elim (Option-cases (group_txs config.p_shard_num txs)) [
                    | inl g ↦ absurd (ground (arith, k, p, g, e))
                    | inr (chunks, g) ↦ record {
                      txs = txs;
                      db = db;
                      bitmap = bitmap;
                      chunks = chunks;
                      packed = p;
                      grouped = g;
                      block_eq = sym (ap (λ t. t.1) (some-injective _ _ (rw (k, p, g) at e)));
                    }
                  ]
                ]
      ]

  made_block :
      (leader : Config) (time : ℕ) (latest : Block) (txs : List Transaction)
      (inbound : List OutboundChunk) (db : S.StateDb) (bitmap : Bitmap)
      (chunks : List OutboundChunk)
      → Block
  made_block leader time latest txs inbound db bitmap chunks =
      new_block
        (new_header E leader.shard_id (u32 (latest.height + 1)) (get_hash E latest.header)
          (S.commit_state db).1 (get_block_tx_root E H chunks H.new_trie) bitmap time)
        txs inbound

  body_lem :
      (leader : Config) (time : ℕ) (latest : Block) (txs : List Transaction)
      (inbound : List OutboundChunk) (start db : S.StateDb) (bitmap : Bitmap)
      (chunks : List OutboundChunk) (s : ShardStates)
      → leader.shard_id ≡ config.shard_id
      → leader.p_shard_num ≡ config.p_shard_num
      → pack_txs S leader.shard_id txs
          (credit_chunks S leader.shard_id inbound start)
          (new_bitmap leader.p_shard_num)
        ≡ some (db, bitmap)
      → group_txs leader.p_shard_num txs ≡ some chunks
      → All (Proved s) inbound
      → latest.height + 1 < 2 ^ 32
      → (x : S.StateDb) × (check_body E H V S config
            (made_block leader time latest txs inbound db bitmap chunks)
            (some latest)
            s
            start
          ≡ some (x, true))
  unfolding check_body made_block new_block new_header check_roots
  body_lem leader time latest txs inbound start db bitmap chunks s same_shard same_num packed
        grouped proved low =
      let some_height : (u32 (latest.height + 1) == 0) ≡ false = ground (arith, low) in
      let same_height : (u32 (latest.height + 1) == u32 (latest.height + 1)) ≡ true =
        ground arith in
      let same_root : ((S.commit_state db).1 == (S.commit_state db).1) ≡ true = ground arith in
      let same_txs : (get_block_tx_root E H chunks H.new_trie
            == get_block_tx_root E H chunks H.new_trie)
          ≡ true =
        ground arith in
      let credited = check_chunks_lem s inbound start proved in
      let moved =
        ap (λ t. transfer_txs S t txs (credit_chunks S t inbound start)) (sym same_shard)
        ∙ pack_txs-transfer_txs S leader.shard_id txs _ db _ bitmap packed in
      let regrouped = ap (λ t. group_txs t txs) (sym same_num) ∙ grouped in
      rw (some_height, same_height, credited, moved, same_root, regrouped, same_txs) (_, refl)

  check_made :
      (v : Blockchain S) (latest block : Block) (start : S.StateDb) (x : S.StateDb)
      → v.latest_block ≡ some latest
      → (S.commit_state v.state_db).0 ≡ start
      → check_body E H V S config block (some latest) v.shard_states start ≡ some (x, true)
      → (v' : Blockchain S) × (check_block E H V S config v block ≡ some (v', true))
  unfolding check_block
  check_made v latest block start x same_latest same_state e = (
    _,
    ap
          (λ t.
            rolled E H V S config (S.commit_state v.state_db).1 v
              (check_body E H V S config block t v.shard_states (S.commit_state v.state_db).0))
          same_latest
        ∙ ap
            (λ t.
              rolled E H V S config (S.commit_state v.state_db).1 v
                (check_body E H V S config block (some latest) v.shard_states t))
            same_state
        ∙ ap (rolled E H V S config (S.commit_state v.state_db).1 v) e,
  )

-- A block that a leader makes on top of a latest block passes the check of every validator of the
-- shard that has the same latest block, whose state is after its own commit the state that the leader
-- had, and that has the headers of the inbound chunks, against which their proofs are right, while the
-- height does not wrap.
pub created_block_passes :
    (E : Encoding) (H : Hasher) (V : Verifier) (S : StateCalls) (leader validator : Config)
    (time : ℕ) (draws : ℕ → Draw) (chain chain' v : Blockchain S) (latest block : Block)
    → leader.shard_id ≡ validator.shard_id
    → leader.p_shard_num ≡ validator.p_shard_num
    → create_new_block E H V S leader time draws chain (some latest) ≡ some (chain', block)
    → v.latest_block ≡ some latest
    → (S.commit_state v.state_db).0 ≡ chain.state_db
    → All (Proved E H V S validator v.shard_states) (take_txs1 100 chain.shard_states.tx_pool).0
    → latest.height + 1 < 2 ^ 32
    → (v' : Blockchain S) × (check_block E H V S validator v block ≡ some (v', true))
created_block_passes E H V S leader validator time draws chain chain' v latest block same_shard
      same_num made same_latest same_state proved low =
    let made = sealed E H V S leader time draws chain chain' latest block made in
    let body =
      body_lem E H V S validator leader time latest made.txs
        (take_txs1 100 chain.shard_states.tx_pool).0 chain.state_db made.db made.bitmap made.chunks
        v.shard_states same_shard same_num made.packed made.grouped proved low in
    check_made E H V S validator v latest block chain.state_db body.0 same_latest same_state (
      ap (λ b. check_body E H V S validator b (some latest) v.shard_states chain.state_db)
        made.block_eq
      ∙ (unfold made_block in body.1))
