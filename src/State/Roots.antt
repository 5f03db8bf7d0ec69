-- ===== src/State/Roots.antt =====
-- Mitosis/state/statedb.go: how the objects get into the trie, `Finalise`, `IntermediateRoot` and `Commit`;
-- and `Reset`.
use mitosis.Prelude.{
  ℕ, ◌==◌, if◌then◌else◌, Bool, true, false, ◌&&◌, ◌||◌, List, [], ◌∷◌, Option, none, some,
}
use mitosis.Prelude.Assoc.{lookup}
use mitosis.State.Calls.{TrieCalls}
use mitosis.State.Journal.{StateObject, empty, Entry, Journal, new_journal}
use mitosis.State.Objects.{StateDb, set_state_object, set_error}

-- A set of addresses, with one more.
unfoldable pub mem : ℕ → List ℕ → Bool
mem a [] = false
mem a (b ∷ rest) = let later = mem a rest in if b == a then true else later

unfoldable pub put : ℕ → List ℕ → List ℕ
unfolding mem
put a set = if mem a set then set else a ∷ set

-- The keys of a map, in one order of its `range`.
unfoldable pub keys : List (ℕ × ℕ) → List ℕ
keys [] = []
keys ((key, n) ∷ rest) = key ∷ keys rest

unfoldable pub marked : Bool → StateObject → StateObject
unfolding empty
marked delete_empty o =
    if o.suicided || (delete_empty && empty o) then record o { deleted = true } else o

abbrev pub cleared : List Entry → ℕ → Journal → ℕ × Journal
cleared [] refund j = (refund, j)
cleared (e ∷ rest) refund j = (0, new_journal)

module _ {T : TrieCalls} where
  unfoldable pub clear_journal_and_refund : StateDb T → StateDb T
  clear_journal_and_refund s =
      let (refund, journal) = cleared s.journal.entries s.refund s.journal in
      record s { refund = refund; journal = journal }

  -- One round of `Finalise`, for what stands under the address; nothing may.
  abbrev pub finalise_found : Bool → ℕ → Option StateObject → StateDb T → StateDb T
  finalise_found delete_empty a none s = s
  finalise_found delete_empty a (some o) s = record (set_state_object a (marked delete_empty o) s) {
    pending = put a s.pending;
    dirty_objects = put a s.dirty_objects;
  }

  unfoldable pub finalise_all : Bool → List ℕ → StateDb T → StateDb T
  unfolding set_state_object put marked
  finalise_all delete_empty [] s = s
  finalise_all delete_empty (a ∷ rest) s =
      finalise_all delete_empty rest (finalise_found delete_empty a (lookup a s.objects) s)

  unfoldable pub finalise : Bool → StateDb T → StateDb T
  unfolding finalise_all clear_journal_and_refund keys
  finalise delete_empty s =
      clear_journal_and_refund (finalise_all delete_empty (keys s.journal.dirties) s)

  -- The trie after a call on it, and an error remembered.
  abbrev pub store_trie : StateDb T → Option T.Trie → StateDb T
  store_trie s none = set_error s
  store_trie s (some trie) = record s { trie = trie }

  unfoldable pub update_state_object : ℕ → StateObject → StateDb T → StateDb T
  unfolding set_error
  update_state_object a o s =
      store_trie s (T.try_update s.nodes s.trie a (T.encode_account o.balance))

  unfoldable pub delete_state_object : ℕ → StateDb T → StateDb T
  unfolding set_error
  delete_state_object a s = store_trie s (T.try_delete s.nodes s.trie a)

  unfoldable pub write_object : ℕ → StateObject → StateDb T → StateDb T
  unfolding update_state_object delete_state_object
  write_object a o s = if o.deleted then delete_state_object a s else update_state_object a o s

  -- A pending address without an object is a nil that `obj.deleted` panics on.
  abbrev pub write_found : ℕ → Option StateObject → StateDb T → Option (StateDb T)
  write_found a none s = none
  write_found a (some o) s = some (write_object a o s)

  abbrev pub write_next : ℕ → Option (StateDb T) → Option (StateDb T)
  write_next a none = none
  write_next a (some s) = write_found a (lookup a s.objects) s

  unfoldable pub write_all : List ℕ → Option (StateDb T) → Option (StateDb T)
  unfolding write_object
  write_all [] s = s
  write_all (a ∷ rest) s = write_all rest (write_next a s)

  abbrev pub rooted : Option (StateDb T) → Option (StateDb T × ℕ)
  rooted none = none
  rooted (some s) = some (record s { pending = [] }, T.hash_of s.trie)

  unfoldable pub intermediate_root : Bool → StateDb T → Option (StateDb T × ℕ)
  unfolding finalise write_all
  intermediate_root delete_empty s =
      let s1 = finalise delete_empty s in rooted (write_all s1.pending (some s1))

-- What `Commit` returns, besides a panic: the root, or an error.
pub data Committed (T : TrieCalls) : Type 0 where
  committed : StateDb T → ℕ → Committed T
  failed : StateDb T → Committed T
  panicked : Committed T

module _ {T : TrieCalls} where
  abbrev pub commit_to : StateDb T → Option (T.Nodes × T.Trie × ℕ) → Committed T
  commit_to s none = Committed.failed s
  commit_to s (some (nodes, trie, hash)) =
      Committed.committed (record s { nodes = nodes; trie = trie }) hash

  abbrev pub commit_rooted : Option (StateDb T × ℕ) → Committed T
  commit_rooted none = Committed.panicked
  commit_rooted (some (s, hash)) =
      commit_to (record s { dirty_objects = [] }) (T.commit_trie s.nodes s.trie)

  unfoldable pub commit : Bool → StateDb T → Committed T
  unfolding intermediate_root
  commit delete_empty s =
      if s.db_err then Committed.failed s else commit_rooted (intermediate_root delete_empty s)

  -- `Reset`, once the trie is open.
  abbrev pub reset_on : StateDb T → Option T.Trie → Option (StateDb T)
  reset_on s none = none
  reset_on s (some trie) = some (
      clear_journal_and_refund (record s {
        trie = trie;
        objects = [];
        pending = [];
        dirty_objects = [];
        thash = 0;
        bhash = 0;
        tx_index = 0;
        logs = [];
        log_size = 0;
      }))

  unfoldable pub reset : ℕ → StateDb T → Option (StateDb T)
  unfolding clear_journal_and_refund
  reset root s = reset_on s (T.open_trie s.nodes root)
