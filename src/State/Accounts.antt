-- ===== src/State/Accounts.antt =====
-- Mitosis/state: what is read and written of accounts, by `StateDB` in statedb.go and by its objects in
-- state_object.go; and refunds and logs.
use mitosis.Prelude.{
  ℕ, ◌+◌, ◌-◌, ◌==◌, ltb, if◌then◌else◌, Bool, true, false, List, [], ◌∷◌, ◌++◌, Option, none, some,
  u64, sub64,
}
use mitosis.Prelude.Assoc.{lookup, insert}
use mitosis.State.Calls.{TrieCalls}
use mitosis.State.Journal.{
  StateObject, new_object, empty, suicide_change, balance_change, refund_change, add_log_change,
  touch_change, dirty,
}
use mitosis.State.Objects.{
  Log, StateDb, set_state_object, get_state_object, log_entry, create_object,
  get_or_new_state_object,
}

abbrev pub ripemd : ℕ
ripemd = 3

abbrev pub balance_or : Option StateObject → ℕ
balance_or none = 0
balance_or (some o) = o.balance

abbrev pub empty_or : Option StateObject → Bool
empty_or none = true
empty_or (some o) = empty o

abbrev pub suicided_or : Option StateObject → Bool
suicided_or none = false
suicided_or (some o) = o.suicided

abbrev pub some_object : Option StateObject → Bool
some_object none = false
some_object (some o) = true

abbrev pub logs_or : Option (List Log) → List Log
logs_or none = []
logs_or (some l) = l

module _ {T : TrieCalls} where
  unfoldable pub exist : ℕ → StateDb T → StateDb T × Bool
  exist a s = let (s1, o) = get_state_object a s in (s1, some_object o)

  unfoldable pub is_empty : ℕ → StateDb T → StateDb T × Bool
  is_empty a s = let (s1, o) = get_state_object a s in (s1, empty_or o)

  unfoldable pub has_suicided : ℕ → StateDb T → StateDb T × Bool
  has_suicided a s = let (s1, o) = get_state_object a s in (s1, suicided_or o)

  unfoldable pub get_balance : ℕ → StateDb T → StateDb T × ℕ
  get_balance a s = let (s1, o) = get_state_object a s in (s1, balance_or o)

  -- `touch` of an object.
  unfoldable pub touch : ℕ → StateDb T → StateDb T
  touch a s =
      let s1 = log_entry (touch_change a) s in
      if a == ripemd then record s1 { journal = dirty a s1.journal } else s1

  -- `SetBalance` of an object, with its journal entry.
  unfoldable pub write_balance : ℕ → StateObject → ℕ → StateDb T → StateDb T
  write_balance a o amount s =
      set_state_object a (record o { balance = amount }) (log_entry (balance_change a o.balance) s)

  -- `AddBalance` and `SubBalance` of an object; uint64 wraps.
  unfoldable pub add_to_object : ℕ → StateObject → ℕ → StateDb T → StateDb T
  unfolding touch write_balance
  add_to_object a o amount s =
      if amount == 0
      then (if empty o then touch a s else s)
      else write_balance a o (u64 (o.balance + amount)) s

  unfoldable pub sub_from_object : ℕ → StateObject → ℕ → StateDb T → StateDb T
  unfolding write_balance
  sub_from_object a o amount s =
      if amount == 0 then s else write_balance a o (sub64 o.balance amount) s

  unfoldable pub add_balance : ℕ → ℕ → StateDb T → StateDb T
  unfolding get_or_new_state_object add_to_object
  add_balance a amount s = let (s1, o) = get_or_new_state_object a s in add_to_object a o amount s1

  unfoldable pub sub_balance : ℕ → ℕ → StateDb T → StateDb T
  unfolding get_or_new_state_object sub_from_object
  sub_balance a amount s =
      let (s1, o) = get_or_new_state_object a s in sub_from_object a o amount s1

  unfoldable pub set_balance : ℕ → ℕ → StateDb T → StateDb T
  unfolding get_or_new_state_object write_balance
  set_balance a amount s = let (s1, o) = get_or_new_state_object a s in write_balance a o amount s1

  abbrev pub suicide_object : ℕ → StateDb T × Option StateObject → StateDb T × Bool
  suicide_object a (s, none) = (s, false)
  suicide_object a (s, some o) = (
    set_state_object a (record o { suicided = true; balance = 0 })
        (log_entry (suicide_change a o.suicided o.balance) s),
    true,
  )

  unfoldable pub suicide : ℕ → StateDb T → StateDb T × Bool
  unfolding get_state_object
  suicide a s = suicide_object a (get_state_object a s)

  abbrev pub carry_over : ℕ → StateDb T × Option StateObject → StateDb T
  carry_over a (s, none) = s
  carry_over a (s, some prev) = set_state_object a (new_object prev.balance) s

  unfoldable pub create_account : ℕ → StateDb T → StateDb T
  unfolding create_object
  create_account a s = carry_over a (create_object a s)

  unfoldable pub add_refund : ℕ → StateDb T → StateDb T
  add_refund gas s = record (log_entry (refund_change s.refund) s) { refund = u64 (s.refund + gas) }

  -- Below zero it panics.
  unfoldable pub sub_refund : ℕ → StateDb T → Option (StateDb T)
  sub_refund gas s =
      if ltb s.refund gas
      then none
      else some (record (log_entry (refund_change s.refund) s) { refund = s.refund - gas })

  unfoldable pub get_logs : ℕ → StateDb T → List Log
  get_logs hash s = logs_or (lookup hash s.logs)

  -- What the log held before is written over.
  unfoldable pub add_log : StateDb T → StateDb T
  unfolding get_logs
  add_log s =
      let log : Log = record {
        tx_hash = s.thash;
        block_hash = s.bhash;
        tx_index = s.tx_index;
        index = s.log_size;
      } in
      record (log_entry (add_log_change s.thash) s) {
        logs = insert s.thash (get_logs s.thash s ++ (log ∷ [])) s.logs;
        log_size = u64 (s.log_size + 1);
      }

  unfoldable pub prepare : ℕ → ℕ → ℕ → StateDb T → StateDb T
  prepare thash bhash index s = record s { thash = thash; bhash = bhash; tx_index = index }
