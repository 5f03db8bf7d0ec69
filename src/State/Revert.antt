-- ===== src/State/Revert.antt =====
-- Mitosis/state/journal.go: what undoes each entry, and `revert`.
use mitosis.Prelude.{
  ℕ, zero, suc, ◌-◌, ◌==◌, ltb, if◌then◌else◌, Bool, List, [], ◌∷◌, Option, none, some, sub64,
}
use mitosis.Prelude.Assoc.{insert, delete}
use mitosis.State.Calls.{TrieCalls}
use mitosis.State.Journal.{
  StateObject, Entry, create_object_change, reset_object_change, suicide_change, balance_change,
  refund_change, add_log_change, touch_change, dirtied, clean_if, journal_length,
}
use mitosis.State.Objects.{Log, StateDb, set_state_object, get_state_object}
use mitosis.State.Accounts.{get_logs}

unfoldable pub without : ℕ → List ℕ → List ℕ
without a [] = []
without a (b ∷ rest) = let others = without a rest in if b == a then others else b ∷ others

abbrev front : Log → Option (List Log) → Option (List Log)
front l none = none
front l (some left) = some (l ∷ left)

-- `logs[:len(logs)-1]`, which panics on no logs.
unfoldable pub drop_last : List Log → Option (List Log)
drop_last [] = none
drop_last (l ∷ []) = some []
drop_last (l ∷ m ∷ rest) = front l (drop_last (m ∷ rest))

module _ {T : TrieCalls} where
  -- The map of logs without the last of a transaction; a key with no logs left goes.
  abbrev pub put_logs : ℕ → StateDb T → Option (List Log) → Option (StateDb T)
  put_logs hash s none = none
  put_logs hash s (some []) =
      some (record s { logs = delete hash s.logs; log_size = sub64 s.log_size 1 })
  put_logs hash s (some (l ∷ left)) =
      some (record s { logs = insert hash (l ∷ left) s.logs; log_size = sub64 s.log_size 1 })

  -- The object is nil for an account that is not there: then `setBalance` panics.
  abbrev pub rebalance : ℕ → ℕ → StateDb T × Option StateObject → Option (StateDb T)
  rebalance a prev (s, none) = none
  rebalance a prev (s, some o) = some (set_state_object a (record o { balance = prev }) s)

  abbrev pub unsuicide : ℕ → Bool → ℕ → StateDb T × Option StateObject → StateDb T
  unsuicide a prev prevbalance (s, none) = s
  unsuicide a prev prevbalance (s, some o) =
      set_state_object a (record o { suicided = prev; balance = prevbalance }) s

  unfoldable pub revert_entry : Entry → StateDb T → Option (StateDb T)
  unfolding get_logs drop_last get_state_object
  revert_entry (create_object_change a) s =
      some (record s { objects = delete a s.objects; dirty_objects = without a s.dirty_objects })
  revert_entry (reset_object_change a prev) s = some (set_state_object a prev s)
  revert_entry (suicide_change a prev prevbalance) s =
      some (unsuicide a prev prevbalance (get_state_object a s))
  revert_entry (balance_change a prev) s = rebalance a prev (get_state_object a s)
  revert_entry (refund_change prev) s = some (record s { refund = prev })
  revert_entry (add_log_change txhash) s = put_logs txhash s (drop_last (get_logs txhash s))
  revert_entry (touch_change a) s = some s

  -- One round of the loop: undo, then drop the dirty mark.
  abbrev pub cleaned : Entry → List Entry → Option (StateDb T) → Option (StateDb T)
  cleaned e rest none = none
  cleaned e rest (some s) =
      some (record s { journal = clean_if (dirtied e) (record s.journal { entries = rest }) })

  abbrev pub undo_entry : Entry → List Entry → Option (StateDb T) → Option (StateDb T)
  undo_entry e rest none = none
  undo_entry e rest (some s) = cleaned e rest (revert_entry e s)

  -- `n` rounds over the entries, from the latest on. The code cuts the list of entries when the loop is
  -- over, the model in each round: no entry's `revert` reads it.
  unfoldable pub undo : ℕ → List Entry → Option (StateDb T) → Option (StateDb T)
  unfolding revert_entry
  undo zero entries s = s
  undo (suc n) [] s = s
  undo (suc n) (e ∷ rest) s = undo n rest (undo_entry e rest s)

  -- `revert`, back to a length of the journal; to a longer one it panics.
  unfoldable pub revert : ℕ → StateDb T → Option (StateDb T)
  unfolding undo journal_length
  revert snapshot s =
      if ltb (journal_length s.journal) snapshot
      then none
      else undo (journal_length s.journal - snapshot) s.journal.entries (some s)
