-- ===== src/State/Ledger.antt =====
-- Mitosis/state/statedb.go against a plain ledger, a function from addresses to balances: any list of
-- calls, and what the reads among them answer.
use mitosis.Prelude.{
  ℕ, ◌+◌, ◌^◌, ◌<◌, ◌==◌, if◌then◌else◌, List, [], ◌∷◌, ◌++◌, u64, sub64, ◌≡◌, refl, sym, ◌∙◌, ap,
  subst, arith,
}
use mitosis.State.Calls.{TrieCalls}
use mitosis.State.Objects.{StateDb}
use mitosis.State.Accounts.{
  get_balance, add_balance, sub_balance, set_balance, create_account, suicide,
}
use mitosis.State.Views.{balance, get_balance_lem}
use mitosis.State.Balances.{
  balance-get_balance, balance-add_balance, balance-sub_balance, balance-set_balance,
  balance-create_account, balance-suicide,
}

pub data Call : Type 0 where
  ask : ℕ → Call
  credit : ℕ → ℕ → Call
  debit : ℕ → ℕ → Call
  assign : ℕ → ℕ → Call
  open_account : ℕ → Call
  destroy : ℕ → Call

-- The plain ledger.
unfoldable pub enter : Call → (ℕ → ℕ) → ℕ → ℕ
enter (ask a) l b = l b
enter (credit a v) l b = if a == b then u64 (l b + v) else l b
enter (debit a v) l b = if a == b then sub64 (l b) (u64 v) else l b
enter (assign a v) l b = if a == b then u64 v else l b
enter (open_account a) l b = l b
enter (destroy a) l b = if a == b then 0 else l b

abbrev pub told : Call → (ℕ → ℕ) → List ℕ
told (ask a) l = l a ∷ []
told call l = []

unfoldable pub replay : List Call → (ℕ → ℕ) → List ℕ
unfolding enter
replay [] l = []
replay (call ∷ calls) l = told call l ++ replay calls (enter call l)

enter_small : (call : Call) (l : ℕ → ℕ) (b : ℕ) → ((k : ℕ) → l k < 2 ^ 64) → enter call l b < 2 ^ 64
unfolding enter
enter_small (ask a) l b small = small b
enter_small (credit a v) l b small = ground (arith, small b)
enter_small (debit a v) l b small = ground (arith, small b)
enter_small (assign a v) l b small = ground (arith, small b)
enter_small (open_account a) l b small = small b
enter_small (destroy a) l b small = ground (arith, small b)

enter_same :
    (call : Call) (l m : ℕ → ℕ) (b : ℕ) → ((k : ℕ) → l k ≡ m k) → enter call l b ≡ enter call m b
unfolding enter
enter_same (ask a) l m b e = e b
enter_same (credit a v) l m b e = rw (e b) refl
enter_same (debit a v) l m b e = rw (e b) refl
enter_same (assign a v) l m b e = rw (e b) refl
enter_same (open_account a) l m b e = e b
enter_same (destroy a) l m b e = rw (e b) refl

module _ {T : TrieCalls} where
  -- An amount is a uint64.
  unfoldable pub perform : Call → StateDb T → StateDb T
  unfolding get_balance add_balance sub_balance set_balance create_account suicide
  perform (ask a) s = (get_balance a s).0
  perform (credit a v) s = add_balance a (u64 v) s
  perform (debit a v) s = sub_balance a (u64 v) s
  perform (assign a v) s = set_balance a (u64 v) s
  perform (open_account a) s = create_account a s
  perform (destroy a) s = (suicide a s).0

  abbrev pub answered : Call → StateDb T → List ℕ
  answered (ask a) s = (get_balance a s).1 ∷ []
  answered call s = []

  unfoldable pub run_calls : List Call → StateDb T → List ℕ
  unfolding perform
  run_calls [] s = []
  run_calls (call ∷ calls) s = answered call s ++ run_calls calls (perform call s)

  balance-perform :
      (call : Call) (b : ℕ) (s : StateDb T)
      → ((k : ℕ) → balance k s < 2 ^ 64)
      → balance b (perform call s) ≡ enter call (λ k. balance k s) b
  unfolding perform enter
  balance-perform (ask a) b s small = balance-get_balance a b s
  balance-perform (credit a v) b s small =
      balance-add_balance a b (u64 v) s (small a) ∙ ground arith
  balance-perform (debit a v) b s small = balance-sub_balance a b (u64 v) s (small a)
  balance-perform (assign a v) b s small = balance-set_balance a b (u64 v) s
  balance-perform (open_account a) b s small = balance-create_account a b s
  balance-perform (destroy a) b s small = balance-suicide a b s

  answered-told :
      (call : Call) (s : StateDb T) (l : ℕ → ℕ)
      → ((b : ℕ) → balance b s ≡ l b)
      → answered call s ≡ told call l
  unfolding get_balance
  answered-told (ask a) s l kept = ap (λ t. t ∷ []) (get_balance_lem a s ∙ kept a)
  answered-told (credit a v) s l kept = refl
  answered-told (debit a v) s l kept = refl
  answered-told (assign a v) s l kept = refl
  answered-told (open_account a) s l kept = refl
  answered-told (destroy a) s l kept = refl

  run_keeps :
      (calls : List Call) (s : StateDb T) (l : ℕ → ℕ)
      → ((b : ℕ) → balance b s ≡ l b)
      → ((b : ℕ) → l b < 2 ^ 64)
      → run_calls calls s ≡ replay calls l
  unfolding run_calls replay
  run_keeps [] s l kept small = refl
  run_keeps (call ∷ calls) s l kept small =
      ap (λ t. t ++ run_calls calls (perform call s)) (answered-told call s l kept)
      ∙ ap (λ t. told call l ++ t)
          (run_keeps calls (perform call s) (enter call l)
            (λ b.
              balance-perform call b s (λ k. subst (λ t. t < 2 ^ 64) (sym (kept k)) (small k))
              ∙ enter_same call (λ k. balance k s) l b kept)
            (λ b. enter_small call l b small))

  -- From a state whose balances are uint64 numbers, any list of reads, credits, debits, assignments,
  -- openings and destructions of accounts gives the reads the answers that a plain ledger gives them, which starts with the
  -- balances that `GetBalance` reads in the state, adds and subtracts modulo 2^64, does nothing to open
  -- an account, and sets the balance of one that is destroyed to 0. Neither the trie nor its errors, nor which objects are loaded, show in an answer.
  pub run_calls_refines_replay :
      (calls : List Call) (s : StateDb T)
      → ((b : ℕ) → (get_balance b s).1 < 2 ^ 64)
      → run_calls calls s ≡ replay calls (λ b. (get_balance b s).1)
  run_calls_refines_replay calls s small =
      run_keeps calls s (λ b. (get_balance b s).1) (λ b. sym (get_balance_lem b s)) small
