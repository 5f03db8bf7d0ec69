-- ===== src/Tests/Blocks.antt =====
-- A block that node 8 makes and node 5 checks.
use mitosis.Prelude.{
  ℕ, ◌+◌, ◌-◌, ◌≡◌, ◌≢◌, refl, true, false, List, [], ◌∷◌, Option, some, none, arith,
}
use mitosis.Prelude.Assoc.{lookup, insert}
use mitosis.Types.Bitmap.{new_bitmap, set_key}
use mitosis.Types.Data.{Block, new_block}
use mitosis.Types.Hashing.{new_transaction, transaction_hash, root, get_chunk_root, put_txs}
use mitosis.Core.TxPool.{
  TxPool, Draw, take_txs1, take_chunks, generate_cross_shard_tx2, cross_shard_txs, get_to_shards,
  to_shards_of, other_shards, redirect, rand_tx,
}
use mitosis.Core.ShardStates.{ShardStates, new_shard_state, proof_matches, proof_db}
use mitosis.Core.Blockchain.{
  StateCalls, Blockchain, create_new_block, check_block, chunk_ok, pack_txs, transfer, mark,
  credit_chunks, credit_txs, group_txs, group_from, seal_block, finish_chunks,
}
use mitosis.Core.Blockchain.Agreement.{created_block_passes}
use mitosis.Core.ShardStates.{update_inbound_chunk, record_chunk, update_with_inbound_chunk}
use mitosis.Types.Hashing.{new_header, get_block_tx_root}
use mitosis.Core.Blockchain.{roll_back}
use mitosis.Core.Blockchain.Execute.{
  Sent, chunks_or, execute_block, commit, handle_header_msg, handle_inbound_chunk_msg,
}
use mitosis.Core.Blockchain.Executed.{execute_block-check_block}
use mitosis.Core.Blockchain.Relay.{
  Announces, commit-Announces, handle_header_msg_again, handle_inbound_chunk_msg_again,
}
use mitosis.Tests.Toy.{
  toy_config, toy_header, toy_block, toy_chunk, toy_encoding, toy_hasher, toy_verifier, toy_bls,
  toy_store,
}

abbrev balance_in : Option ℕ → ℕ
balance_in none = 0
balance_in (some b) = b

abbrev balance : List (ℕ × ℕ) → ℕ → ℕ
balance db account = balance_in (lookup account db)

abbrev total_of : List (ℕ × ℕ) → ℕ
total_of [] = 0
total_of ((account, b) ∷ db) = b + total_of db

-- Balances in a list, with their sum as the root.
abbrev toy_state : StateCalls
toy_state = record {
  StateDb = List (ℕ × ℕ);
  get_balance = balance;
  add_balance = λ db account value. insert account (balance db account + value) db;
  sub_balance = λ db account value. insert account (balance db account - value) db;
  commit_state = λ db. (db, total_of db);
  state_at = λ db root. some db;
}

abbrev toy_draw : ℕ → Draw
toy_draw i = record { to_shard = i; from_idx = i; to_idx = 1; random_bytes = i ∷ [] }

abbrev pool : TxPool
pool = record { pending_txs = []; pending_inbound_chunks = toy_chunk 1002 9 ∷ [] }

abbrev toy_states : TxPool → ShardStates
toy_states p = record {
  state_db =
      (1001, new_shard_state)
      ∷ (1002, record new_shard_state { headers = (9, toy_header 1002 1 6 9) ∷ [] })
      ∷ [];
  tx_pool = p;
}

abbrev chain_with : TxPool → Blockchain toy_state
chain_with p = record {
  shard_states = toy_states p;
  latest_block = some (toy_block 1 7);
  block_db = [];
  state_db = (100, 50) ∷ (200, 50) ∷ [];
  outbound_chunk_db = [];
}

abbrev result : Option (Blockchain toy_state × Block) → Blockchain toy_state × Block
result none = (chain_with pool, toy_block 1 7)
result (some r) = r

abbrev made : Blockchain toy_state × Block
made = result (
    create_new_block toy_encoding toy_hasher toy_verifier toy_state (toy_config 8 true) 5 toy_draw
      (chain_with pool) (some (toy_block 1 7)))

made_run :
    create_new_block toy_encoding toy_hasher toy_verifier toy_state
      (toy_config 8 true)
      5
      toy_draw
      (chain_with pool)
      (some (toy_block 1 7))
    ≡ some (made.0, made.1)
unfolding create_new_block seal_block finish_chunks new_block take_txs1 take_chunks
    generate_cross_shard_tx2 cross_shard_txs get_to_shards to_shards_of other_shards redirect
    rand_tx new_transaction transaction_hash pack_txs transfer mark credit_chunks credit_txs
    group_txs group_from new_bitmap set_key lookup insert
made_run = refl

created_block_passes_example :
    (v' : Blockchain toy_state) × (check_block toy_encoding toy_hasher toy_verifier toy_state
        (toy_config 5 false)
        (chain_with (record { pending_txs = []; pending_inbound_chunks = [] }))
        made.1
      ≡ some (v', true))
unfolding take_txs1 take_chunks chunk_ok proof_matches proof_db root get_chunk_root put_txs lookup
    insert
created_block_passes_example =
    created_block_passes toy_encoding toy_hasher toy_verifier toy_state (toy_config 8 true)
      (toy_config 5 false) 5 toy_draw (chain_with pool) made.0
      (chain_with (record { pending_txs = []; pending_inbound_chunks = [] })) (toy_block 1 7) made.1
      refl refl made_run refl refl (refl, tt) (omega arith)

made_height : made.1.height ≡ 2
unfolding create_new_block seal_block finish_chunks new_block take_txs1 take_chunks
    generate_cross_shard_tx2 cross_shard_txs get_to_shards to_shards_of other_shards redirect
    rand_tx new_transaction transaction_hash pack_txs transfer mark credit_chunks credit_txs
    group_txs group_from new_bitmap set_key lookup insert new_header
made_height = refl

two_ne_zero : (n : ℕ) → n ≡ 2 → n ≢ 0
two_ne_zero n e z = omega (arith, e, z)

abbrev validator : Blockchain toy_state
validator = chain_with (record { pending_txs = []; pending_inbound_chunks = [] })

execute_block-check_block_example :
    let chain1 : Blockchain toy_state = record validator { latest_block = some made.1 } in
    (db' : List (ℕ × ℕ)) × (before : List (ℕ × ℕ)) × (execute_block toy_state
        (toy_config 5 false)
        chain1
        made.1
      ≡ some (record chain1 { state_db = db' }))
    × ◌≡◌ {A = List (ℕ × ℕ) × ℕ} (before, total_of before) (db', made.1.state_root)
unfolding take_txs1 take_chunks chunk_ok proof_matches proof_db root get_chunk_root put_txs lookup
    insert create_new_block
execute_block-check_block_example =
    execute_block-check_block toy_encoding toy_hasher toy_verifier toy_state (toy_config 5 false)
      validator created_block_passes_example.0 made.1 (two_ne_zero made.1.height made_height)
      created_block_passes_example.1

abbrev sent_or :
    Option (Blockchain toy_state × List (ℕ × Sent)) → Blockchain toy_state × List (ℕ × Sent)
sent_or none = (validator, [])
sent_or (some r) = r

abbrev committed : Blockchain toy_state × List (ℕ × Sent)
committed = sent_or (
    commit toy_encoding toy_hasher toy_verifier toy_state (toy_config 8 true) toy_bls toy_store
      made.0 made.1)

committed_run :
    commit toy_encoding toy_hasher toy_verifier toy_state
      (toy_config 8 true)
      toy_bls
      toy_store
      made.0
      made.1
    ≡ some (committed.0, committed.1)
unfolding commit roll_back
committed_run = refl

commit-Announces_example :
    Announces toy_encoding toy_hasher toy_verifier toy_state
      (toy_config 8 true)
      toy_bls
      toy_store
      made.1
      (chunks_or (lookup made.1.hash made.0.outbound_chunk_db))
      committed.1
unfolding create_new_block seal_block finish_chunks new_block take_txs1 take_chunks
    generate_cross_shard_tx2 cross_shard_txs get_to_shards to_shards_of other_shards redirect
    rand_tx new_transaction transaction_hash pack_txs transfer mark credit_chunks credit_txs
    group_txs group_from new_bitmap set_key lookup insert new_header get_block_tx_root
commit-Announces_example =
    commit-Announces toy_encoding toy_hasher toy_verifier toy_state (toy_config 8 true) toy_bls
      toy_store made.0 committed.0 made.1 committed.1 (omega arith) (omega arith) committed_run

handle_header_msg_again_example :
    let h = toy_header 1002 1 6 11 in
    let after =
      (handle_header_msg toy_encoding toy_hasher toy_verifier toy_state
        (toy_config 8 true)
        toy_bls
        toy_store
        h
        validator).0 in
    handle_header_msg toy_encoding toy_hasher toy_verifier toy_state
      (toy_config 8 true)
      toy_bls
      toy_store
      h
      after
    ≡ (after, [])
handle_header_msg_again_example =
    handle_header_msg_again toy_encoding toy_hasher toy_verifier toy_state (toy_config 8 true)
      toy_bls toy_store (toy_header 1002 1 6 11) validator

abbrev relayed : Blockchain toy_state × List (ℕ × Sent)
relayed = sent_or (
    handle_inbound_chunk_msg toy_encoding toy_hasher toy_verifier toy_state (toy_config 8 true)
      toy_bls toy_store (toy_chunk 1002 9) validator)

handle_inbound_chunk_msg_again_example :
    handle_inbound_chunk_msg toy_encoding toy_hasher toy_verifier toy_state
      (toy_config 8 true)
      toy_bls
      toy_store
      (toy_chunk 1002 9)
      relayed.0
    ≡ some (relayed.0, [])
unfolding handle_inbound_chunk_msg update_inbound_chunk record_chunk update_with_inbound_chunk
    lookup
handle_inbound_chunk_msg_again_example =
    handle_inbound_chunk_msg_again toy_encoding toy_hasher toy_verifier toy_state
      (toy_config 8 true) toy_bls toy_store (toy_chunk 1002 9) validator relayed.0 relayed.1 refl
