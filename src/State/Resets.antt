-- ===== src/State/Resets.antt =====
-- Mitosis/state/statedb.go: `Reset` against `New`.
use mitosis.Prelude.{ℕ, List, ◌∷◌, Bool, Option, none, some, ◌≡◌, refl}
use mitosis.State.Calls.{TrieCalls}
use mitosis.State.Journal.{Entry}
use mitosis.State.Objects.{StateDb, opened, new}
use mitosis.State.Roots.{clear_journal_and_refund, reset_on, reset}

module _ {T : TrieCalls} where
  abbrev pub with_error : Bool → Option (StateDb T) → Option (StateDb T)
  with_error err none = none
  with_error err (some s) = some (record s { db_err = err })

  reset_opened :
      (s : StateDb T) (e : Entry) (rest : List Entry) (trie : Option T.Trie)
      → s.journal.entries ≡ e ∷ rest
      → reset_on s trie ≡ with_error s.db_err (opened s.nodes trie)
  unfolding clear_journal_and_refund
  reset_opened s e rest none q = refl
  reset_opened s e rest (some trie) q = rw q refl

  -- `Reset` of a state whose journal has entries gives, at every root, what `New` gives on the same
  -- database, a missing root included, but for one field: an error that the state remembers stays.
  pub reset-new :
      (root : ℕ) (s : StateDb T) (e : Entry) (rest : List Entry)
      → s.journal.entries ≡ e ∷ rest
      → reset root s ≡ with_error s.db_err (new root s.nodes)
  unfolding reset new
  reset-new root s e rest q = reset_opened s e rest (T.open_trie s.nodes root) q
