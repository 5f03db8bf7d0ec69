-- ===== src/Tests/Accounts.antt =====
-- A trie for the state database of Mitosis/state, kept as a list of keys with their bytes, and the
-- theorems on the database at states over it.
use mitosis.Prelude.{
  ℕ, ◌^◌, ◌<◌, ltb, if◌then◌else◌, true, false, List, [], ◌∷◌, Option, none, some, ◌≡◌, refl, inl,
  inr, ◌+◌, arith,
}
use mitosis.Prelude.Assoc.{lookup, insert, delete, lookup-insert, lookup-delete}
use mitosis.State.Calls.{TrieCalls, TrieLaws}
use mitosis.State.Objects.{StateDb, new, new_on, get_state_object}
use mitosis.State.Accounts.{get_balance}
use mitosis.State.Roots.{commit, reset}
use mitosis.State.Ledger.{
  Call, ask, credit, debit, open_account, destroy, run_calls, replay, perform,
  run_calls_refines_replay,
}
use mitosis.State.Views.{stored, found, balance, get_balance_lem}
use mitosis.State.Tracked.{Sound}
use mitosis.State.Reopen.{Lasts, commit-Lasts, Sound-new_on, perform_all, perform_all-Sound}
use mitosis.State.Journal.{balance_change, create_object_change, append}
use mitosis.State.Journal.{journal_length}
use mitosis.State.Accounts.{exist, has_suicided}
use mitosis.State.Revert.{revert}
use mitosis.State.Reverted.{revert-perform_all}
use mitosis.State.Resets.{reset-new, with_error}
use mitosis.State.Roots.{mem}
use mitosis.State.Copy.{copy}
use mitosis.State.Copied.{copy-run_calls}
use mitosis.Types.Data.{Transaction, OutboundChunk}
use mitosis.Core.Blockchain.{transfer_txs, credit_chunks}
use mitosis.Core.Blockchain.Conservation.{
  funds, total, occurs, outflow, unfunded, inflows, funds-transfer_txs, funds-credit_chunks,
}
use mitosis.Core.Blockchain.Accounts.{state_calls, state_calls-LedgerLaws}

abbrev Entries : Type 0
Entries = List (ℕ × List ℕ)

abbrev bytes_or : Option (List ℕ) → List ℕ
bytes_or none = []
bytes_or (some bytes) = bytes

abbrev decoded_byte : List ℕ → Option ℕ
decoded_byte [] = none
decoded_byte (b ∷ []) = if ltb b (2 ^ 64) then some b else none
decoded_byte (b ∷ c ∷ bytes) = none

-- The trie that was committed last is the one that is on disk.
abbrev toy_trie : TrieCalls
toy_trie = record {
  Trie = Entries;
  Nodes = Entries;
  open_trie = λ nodes hash. some nodes;
  try_get = λ nodes trie k. some (bytes_or (lookup k trie));
  try_update = λ nodes trie k bytes. some (insert k bytes trie);
  try_delete = λ nodes trie k. some (delete k trie);
  hash_of = λ trie. 0;
  copy_trie = λ trie. trie;
  commit_trie = λ nodes trie. some (trie, trie, 0);
  encode_account = λ balance. balance ∷ [];
  decode_account = decoded_byte;
}

decoded_byte_small :
    (bytes : List ℕ) (balance : ℕ) → decoded_byte bytes ≡ some balance → balance < 2 ^ 64
decoded_byte_small [] balance e = absurd (ground (arith, e))
decoded_byte_small (b ∷ []) balance e = ground (arith, e)
decoded_byte_small (b ∷ c ∷ bytes) balance e = absurd (ground (arith, e))

data Open : Type 0 where
  opened : Open

toy_laws : TrieLaws toy_trie
toy_laws = record {
  Whole = λ nodes trie. Open;
  get_whole = λ n t k whole e. ground (arith, e);
  update_whole = λ n t a b bytes whole.
      (insert a (b ∷ bytes) t, refl, opened, λ k. rw lookup-insert (ground arith));
  copy_whole = λ n t whole. (whole, λ k. refl);
  delete_whole = λ n t a whole. (delete a t, refl, opened, λ k. rw lookup-delete (ground arith));
  commit_whole = λ n t whole. (t, t, 0, t, refl, refl, opened, opened, (λ k. refl), λ k. refl);
  encode_cons = λ balance. (balance, [], refl);
  decode-encode = λ balance small. ground (arith, small);
  decode_small = decoded_byte_small;
}

abbrev fresh : StateDb toy_trie
fresh = new_on [] ((7, 90 ∷ []) ∷ [])

abbrev calls : List Call
calls =
    ask 7 ∷ credit 5 10 ∷ debit 7 20 ∷ open_account 9 ∷ destroy 5 ∷ credit 7 1 ∷ ask 7 ∷ ask 5 ∷ []

fresh_small : (b : ℕ) → (get_balance b fresh).1 < 2 ^ 64
unfolding balance found stored lookup
fresh_small b = rw (get_balance_lem b fresh) (ground arith)

run_calls_refines_replay_example :
    run_calls calls fresh ≡ replay calls (λ b. (get_balance b fresh).1)
run_calls_refines_replay_example = run_calls_refines_replay calls fresh fresh_small

answers : run_calls calls fresh ≡ 90 ∷ 71 ∷ 0 ∷ []
unfolding run_calls lookup insert delete
answers = refl

perform_all-Sound_example : Sound toy_laws (perform_all calls fresh)
unfolding toy_laws
perform_all-Sound_example =
    perform_all-Sound toy_laws calls fresh (Sound-new_on toy_laws [] ((7, 90 ∷ []) ∷ []) opened)

commit-Lasts_example :
    Lasts toy_laws (perform_all calls fresh) (commit false (perform_all calls fresh))
unfolding toy_laws
commit-Lasts_example =
    commit-Lasts toy_laws false (perform_all calls fresh)
      (perform_all-Sound toy_laws calls fresh (Sound-new_on toy_laws [] ((7, 90 ∷ []) ∷ []) opened))

reset-new_example :
    reset 0 (perform (credit 5 10) fresh)
    ≡ with_error (perform (credit 5 10) fresh).db_err (new 0 (perform (credit 5 10) fresh).nodes)
unfolding perform lookup insert append
reset-new_example =
    reset-new 0 (perform (credit 5 10) fresh) (balance_change 5 0) (create_object_change 5 ∷ [])
      refl

-- Shard 1001 with two accounts that have 50 each.
abbrev funded : StateDb toy_trie
funded = new_on [] ((100, 50 ∷ []) ∷ (200, 50 ∷ []) ∷ [])

abbrev tx_between : ℕ → ℕ → ℕ → ℕ → ℕ → Transaction
tx_between from_shard from to_shard to value = record {
  from_shard = from_shard;
  from_addr = from;
  to_shard = to_shard;
  to_addr = to;
  value = value;
  data_bytes = [];
  hash = 0;
}

-- One that stays, one that leaves, one without the funds.
abbrev txs : List Transaction
txs =
    tx_between 1001 100 1001 200 30
    ∷ tx_between 1001 200 1002 7 70
    ∷ tx_between 1001 100 1002 7 70
    ∷ []

funds-transfer_txs_example :
    funds
        (state_calls toy_trie)
        (100 ∷ 200 ∷ [])
        (transfer_txs (state_calls toy_trie) 1001 txs funded)
      + outflow (state_calls toy_trie) 1001 txs
    ≡ funds (state_calls toy_trie) (100 ∷ 200 ∷ []) funded
      + unfunded (state_calls toy_trie) 1001 txs funded
unfolding funds total occurs get_balance get_state_object lookup
funds-transfer_txs_example =
    funds-transfer_txs (state_calls toy_trie) (state_calls-LedgerLaws toy_trie) (100 ∷ 200 ∷ [])
      1001 txs funded ((refl, inr refl), ((refl, inl refl), ((refl, inl refl), tt))) (omega arith)

abbrev chunk : OutboundChunk
chunk = record { block_hash = 9; txs = tx_between 1002 7 1001 100 25 ∷ []; chunk_proof = [] }

funds-credit_chunks_example :
    funds
      (state_calls toy_trie)
      (100 ∷ 200 ∷ [])
      (credit_chunks (state_calls toy_trie) 1001 (chunk ∷ []) funded)
    ≡ funds (state_calls toy_trie) (100 ∷ 200 ∷ []) funded + inflows 1001 (chunk ∷ [])
unfolding funds total occurs inflows get_balance get_state_object lookup
funds-credit_chunks_example =
    funds-credit_chunks (state_calls toy_trie) (state_calls-LedgerLaws toy_trie) (100 ∷ 200 ∷ [])
      1001 (chunk ∷ []) funded ((refl, tt), tt) (omega arith)

revert-perform_all_example :
    (v : StateDb toy_trie) × (revert (journal_length fresh.journal) (perform_all calls fresh)
      ≡ some v)
    × ((b : ℕ)
        → ((get_balance b v).1 ≡ (get_balance b fresh).1)
          × ((exist b v).1 ≡ (exist b fresh).1)
          × ((has_suicided b v).1 ≡ (has_suicided b fresh).1))
revert-perform_all_example = revert-perform_all calls fresh

no_dirty : (perform_all calls fresh).dirty_objects ≡ []
unfolding perform_all perform lookup insert delete append
no_dirty = refl

not_in_empty : (b : ℕ) (set : List ℕ) → set ≡ [] → mem b set ≡ true → ⊥
unfolding mem
not_in_empty b [] e h = ground (arith, h)
not_in_empty b (a ∷ rest) e h = ground (arith, e)

-- The copy has the accounts 5, 7 and 9, which the journal marks.
copy-run_calls_example :
    (c : StateDb toy_trie) × (copy (perform_all calls fresh) ≡ some c)
    × ((more : List Call) → run_calls more c ≡ run_calls more (perform_all calls fresh))
unfolding toy_laws
copy-run_calls_example =
    copy-run_calls toy_laws (perform_all calls fresh)
      (perform_all-Sound toy_laws calls fresh (Sound-new_on toy_laws [] ((7, 90 ∷ []) ∷ []) opened))
      (λ b h. absurd (not_in_empty b _ no_dirty h))
