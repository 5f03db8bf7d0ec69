-- ===== src/Core/Blockchain/Accounts.antt =====
-- The state database that Mitosis/core/blockchain.go uses: `StateDB` of Mitosis/state, over a trie.
use mitosis.Prelude.{ℕ, ◌+◌, ◌^◌, ◌<◌, ◌==◌, if◌then◌else◌, false, sym, ap, ◌∙◌, subst, u64, sub64}
use mitosis.State.Calls.{TrieCalls}
use mitosis.State.Objects.{StateDb, new}
use mitosis.State.Accounts.{get_balance, add_balance, sub_balance}
use mitosis.State.Roots.{Committed, committed, failed, panicked, commit}
use mitosis.State.Views.{get_balance_lem}
use mitosis.State.Balances.{balance-add_balance, balance-sub_balance}
use mitosis.Core.Blockchain.{StateCalls}
use mitosis.Core.Blockchain.Conservation.{LedgerLaws}

-- The callers drop the error of `Commit`; the root is then the zero hash.
abbrev pub root_or : {T : TrieCalls} → StateDb T → Committed T → StateDb T × ℕ
root_or s (committed t hash) = (t, hash)
root_or s (failed t) = (t, 0)
root_or s panicked = (s, 0)

-- An object that `GetBalance` loads is not kept: no later read tells.
abbrev pub state_calls : TrieCalls → StateCalls
state_calls T = record {
  StateDb = StateDb T;
  get_balance = λ s a. (get_balance a s).1;
  add_balance = λ s a v. add_balance a v s;
  sub_balance = λ s a v. sub_balance a v s;
  commit_state = λ s. root_or s (commit false s);
  state_at = λ s root. new root s.nodes;
}

pub state_calls-LedgerLaws : (T : TrieCalls) → LedgerLaws (state_calls T)
state_calls-LedgerLaws T = record {
  get-add = λ s a b v small.
      get_balance_lem b (add_balance a v s)
      ∙ balance-add_balance a b v s (subst (λ t. t < 2 ^ 64) (get_balance_lem a s) small)
      ∙ ap (λ t. if a == b then u64 (t + v) else t) (sym (get_balance_lem b s));
  get-sub = λ s a b v small.
      get_balance_lem b (sub_balance a v s)
      ∙ balance-sub_balance a b v s (subst (λ t. t < 2 ^ 64) (get_balance_lem a s) small)
      ∙ ap (λ t. if a == b then sub64 t v else t) (sym (get_balance_lem b s));
}
