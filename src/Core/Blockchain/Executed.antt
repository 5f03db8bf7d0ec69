-- ===== src/Core/Blockchain/Executed.antt =====
-- Mitosis/core/blockchain.go: a block that `CheckBlock` accepts, and what `ExecuteBlock` makes of it.
use mathlib.Core.Option.{some-injective}
use mitosis.Prelude.{
  ◌+◌, ◌==◌, if◌then◌else◌, Bool, true, false, List, [], ◌∷◌, Option, none, some, ◌≡◌, ◌≢◌, refl,
  ap, ◌∙◌, arith, u32,
}
use mitosis.Prelude.Assoc.{lookup}
use mitosis.Config.{Config}
use mitosis.Types.Data.{Transaction, Header, OutboundChunk, Block}
use mitosis.Types.Libraries.{Encoding, Hasher, Verifier}
use mitosis.Types.Hashing.{get_block_tx_root}
use mitosis.Core.ShardStates.{ShardStates}
use mitosis.Core.Blockchain.{
  StateCalls, Blockchain, fund_accounts, credit_txs, transfer_txs, group_txs, header_in, proof_ok,
  chunk_ok, next_chunks, check_chunks, check_roots, then_roots, check_body, rolled, check_block,
}
use mitosis.Core.Blockchain.Execute.{
  execute_chunk, header_of, execute_next, execute_chunks, execute_grouped, execute_txs,
  execute_after, execute_db, executed, execute_block,
}

-- What the branches of a chain of tests are, from what it gives.
module _ {A : Type 0} where
  other_branch : (z : Bool) (x y t : A) → z ≡ false → (if z then x else y) ≡ t → y ≡ t
  other_branch true x y t n e = absurd (ground (arith, n))
  other_branch false x y t n e = e

  passed_test : (m : Bool) (y w t : A) → w ≢ t → (if m then y else w) ≡ t → y ≡ t
  passed_test true y w t wrong e = e
  passed_test false y w t wrong e = absurd (wrong e)

refused :
    {S : Type 0} (db db' : S) → ◌≢◌ {A = Option (S × Bool)} (some (db, false)) (some (db', true))
refused db db' q = ground (arith, ap (λ t. t.1) (some-injective _ _ q))

module _ (E : Encoding) (H : Hasher) (V : Verifier) (S : StateCalls) (config : Config) where
  open S use {StateDb, commit_state}

  -- A chunk whose check is passed is credited.
  execute_chunk_checked :
      (s : ShardStates) (c : OutboundChunk) (txs : List Transaction) (db : StateDb)
      → chunk_ok E H V S config s c txs ≡ some true
      → execute_chunk S config txs (header_of S config s c txs) c db
        ≡ some (credit_txs S config.shard_id c.txs db)
  unfolding chunk_ok
  execute_chunk_checked s c [] db e = absurd (ground (arith, e))
  execute_chunk_checked s c (tx ∷ txs) db e =
      with_header (header_in c.block_hash (lookup tx.from_shard s.state_db)) e
    where
      with_header :
          (h : Option Header)
          → proof_ok E H V S config tx c h ≡ some true
          → execute_chunk S config (tx ∷ txs) h c db ≡ some (credit_txs S config.shard_id c.txs db)
      with_header none q = absurd (ground (arith, q))
      with_header (some h) q = refl

  execute_chunks_checked :
      (s : ShardStates) (chunks : List OutboundChunk) (db db' : StateDb)
      → check_chunks E H V S config s chunks db ≡ some (db', true)
      → execute_chunks S config s chunks (some db) ≡ some db'
  unfolding check_chunks execute_chunks
  execute_chunks_checked s [] db db' e = ap (λ t. some t.0) (some-injective _ _ e)
  execute_chunks_checked s (c ∷ chunks) db db' e =
      checked (chunk_ok E H V S config s c c.txs) refl e
        (λ q. execute_chunks_checked s chunks (credit_txs S config.shard_id c.txs db) db' q)
    where
      later : Option (StateDb × Bool)
      later = check_chunks E H V S config s chunks (credit_txs S config.shard_id c.txs db)

      checked :
          (ok : Option Bool)
          → chunk_ok E H V S config s c c.txs ≡ ok
          → next_chunks E H V S config ok db later ≡ some (db', true)
          → (later ≡ some (db', true)
              → execute_chunks S config s chunks (some (credit_txs S config.shard_id c.txs db))
                ≡ some db')
          → execute_chunks S config s chunks (execute_next S config s c (some db)) ≡ some db'
      checked none k q rest = absurd (ground (arith, q))
      checked (some false) k q rest = absurd (ground (arith, ap (λ t. t.1) (some-injective _ _ q)))
      checked (some true) k q rest =
          ap (execute_chunks S config s chunks) (execute_chunk_checked s c c.txs db k) ∙ rest q

  -- Where a check of the roots ends: the transfers are done, and the state has the block's root.
  Reaches : Block → StateDb → StateDb → Type 0
  Reaches block db db' =
      (execute_txs S config block (some db) ≡ some db')
      × (commit_state (transfer_txs S config.shard_id block.transactions db)
          ≡ (db', block.state_root))

  roots_reached :
      (block : Block) (after db' : StateDb) (ok : Bool) (grouped : Option (List OutboundChunk))
      → if◌then◌else◌ {A = Option (StateDb × Bool)} ok
          (elim grouped [
            | none ↦ none
            | some chunks ↦ some (after, get_block_tx_root E H chunks H.new_trie == block.tx_root)
          ])
          (some (after, false))
        ≡ some (db', true)
      → (execute_grouped S config after grouped ≡ some db') × (after ≡ db') × (ok ≡ true)
  roots_reached block after db' true none q = absurd (ground (arith, q))
  roots_reached block after db' true (some chunks) q =
      let same = ap (λ t. t.0) (some-injective _ _ q) in (ap some same, same, refl)
  roots_reached block after db' false grouped q =
      absurd (ground (arith, ap (λ t. t.1) (some-injective _ _ q)))

  check_roots-Reaches :
      (block : Block) (db db' : StateDb)
      → check_roots E H V S config block db ≡ some (db', true)
      → Reaches block db db'
  unfolding check_roots Reaches
  check_roots-Reaches block db db' e =
      let (after, root) = commit_state (transfer_txs S config.shard_id block.transactions db) in
      let (done, same, ok) =
        roots_reached block after db' (root == block.state_root)
          (group_txs config.p_shard_num block.transactions) e in
      let agree : root ≡ block.state_root = ground (arith, ok) in
      (done, ap (λ t. (t, root)) same ∙ ap (λ t. (db', t)) agree)

  -- The check of a block after the first, from the chunks on.
  checked_body :
      (block latest : Block) (s : ShardStates) (db db' : StateDb) (chunks : Option (StateDb × Bool))
      → check_chunks E H V S config s block.inbound_chunks db ≡ chunks
      → then_roots E H V S config block chunks ≡ some (db', true)
      → (execute_after S config block (some latest) s db ≡ some db')
        × (before : StateDb) × (commit_state before ≡ (db', block.state_root))
  unfolding Reaches
  checked_body block latest s db db' none e q = absurd (ground (arith, q))
  checked_body block latest s db db' (some (mid, false)) e q =
      absurd (ground (arith, ap (λ t. t.1) (some-injective _ _ q)))
  checked_body block latest s db db' (some (mid, true)) e q =
      let (done, root) = check_roots-Reaches block mid db' q in
      (
        ap (execute_txs S config block) (execute_chunks_checked s block.inbound_chunks db mid e)
            ∙ done,
        transfer_txs S config.shard_id block.transactions mid,
        root,
      )

  -- What `check_body` is for a block after the first.
  check_body_later :
      (block latest : Block) (s : ShardStates) (db db' : StateDb) (previous : Option Block)
      → block.height ≢ 0
      → check_body E H V S config block previous s db ≡ some (db', true)
      → (execute_db S config block (some latest) s db ≡ some db')
        × (before : StateDb) × (commit_state before ≡ (db', block.state_root))
  unfolding check_body execute_db
  check_body_later block latest s db db' none later e =
      let (funded, root) = commit_state (fund_accounts S config.shard_id config.accounts db) in
      let n : (block.height == 0) ≡ false = ground arith in
      absurd (
        refused db db' (
          other_branch (block.height == 0) (some (funded, root == block.state_root))
            (some (db, false)) (some (db', true)) n e))
  check_body_later block latest s db db' (some last) later e =
      let (funded, root) = commit_state (fund_accounts S config.shard_id config.accounts db) in
      let next = block.height == u32 (last.height + 1) in
      let chunks = check_chunks E H V S config s block.inbound_chunks db in
      let roots = then_roots E H V S config block chunks in
      let n : (block.height == 0) ≡ false = ground arith in
      rw n (
        checked_body block latest s db db' chunks refl (
          passed_test next roots (some (db, false)) (some (db', true)) (refused db db') (
            other_branch (block.height == 0) (some (funded, root == block.state_root))
              (if next then roots else some (db, false)) (some (db', true)) n e)))

  -- A block after the first that `CheckBlock` accepts, and that `Commit` then has executed in the state
  -- the check began from, because no state of its root is at hand: `ExecuteBlock` returns, and it leaves
  -- a state whose root, as the state database computed it, is the block's.
  pub execute_block-check_block :
      (chain chain' : Blockchain S) (block : Block)
      → block.height ≢ 0
      → check_block E H V S config chain block ≡ some (chain', true)
      → let chain1 : Blockchain S = record chain {
        state_db = (commit_state chain.state_db).0;
        latest_block = some block;
      } in
        (db' : StateDb) × (before : StateDb) × (execute_block S config chain1 block
          ≡ some (record chain1 { state_db = db' }))
        × (commit_state before ≡ (db', block.state_root))
  unfolding check_block execute_block
  execute_block-check_block chain chain' block later e =
      let (db, root) = commit_state chain.state_db in
      accepted (check_body E H V S config block chain.latest_block chain.shard_states db) refl e
    where
      accepted :
          (result : Option (StateDb × Bool))
          → check_body E H V S config block chain.latest_block chain.shard_states
              (commit_state chain.state_db).0
            ≡ result
          → rolled E H V S config (commit_state chain.state_db).1 chain result ≡ some (chain', true)
          → (db' : StateDb) × (before : StateDb) × (executed S config
                (record chain {
                  state_db = (commit_state chain.state_db).0;
                  latest_block = some block;
                })
                (execute_db S config block
                  (some block)
                  chain.shard_states
                  (commit_state chain.state_db).0)
              ≡ some (record chain { state_db = db'; latest_block = some block }))
            × (commit_state before ≡ (db', block.state_root))
      accepted none k q = absurd (ground (arith, q))
      accepted (some (db', ok)) k q =
          let passed : ok ≡ true = ap (λ t. t.1) (some-injective _ _ q) in
          let (done, before, root) =
            check_body_later block block chain.shard_states (commit_state chain.state_db).0 db'
              chain.latest_block later (k ∙ ap (λ b. some (db', b)) passed) in
          (
            db',
            before,
            ap
                (executed S config (record chain {
                  state_db = (commit_state chain.state_db).0;
                  latest_block = some block;
                }))
                done,
            root,
          )
