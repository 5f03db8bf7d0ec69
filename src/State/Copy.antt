-- ===== src/State/Copy.antt =====
-- Mitosis/state/statedb.go: `Copy` of a `StateDB`, with `deepCopy` of an object in state_object.go.
use mitosis.Prelude.{ℕ, false, List, [], ◌∷◌, Option, none, some}
use mitosis.Prelude.Assoc.{lookup}
use mitosis.State.Calls.{TrieCalls}
use mitosis.State.Journal.{StateObject, new_object, new_journal}
use mitosis.State.Objects.{StateDb, set_state_object}
use mitosis.State.Roots.{put, keys}

unfoldable pub deep_copy : StateObject → StateObject
deep_copy o = record (new_object o.balance) { suicided = o.suicided; deleted = o.deleted }

abbrev pub Objects : Type 0
Objects = List (ℕ × StateObject)

module _ {T : TrieCalls} where
  -- One round of the loop over the journal, for what stands under the address; nothing may.
  abbrev pub copy_dirtied : ℕ → Option StateObject → StateDb T → StateDb T
  copy_dirtied a none c = c
  copy_dirtied a (some o) c = record (set_state_object a (deep_copy o) c) {
    dirty_objects = put a c.dirty_objects;
    pending = put a c.pending;
  }

  unfoldable pub copy_journal : Objects → List ℕ → StateDb T → StateDb T
  unfolding set_state_object put deep_copy
  copy_journal objects [] c = c
  copy_journal objects (a ∷ rest) c =
      copy_journal objects rest (copy_dirtied a (lookup a objects) c)

  -- The object is copied if the copy has none at the address; `deepCopy` of a nil panics.
  abbrev pub copy_object :
      ℕ → Option StateObject → Option StateObject → StateDb T → Option (StateDb T)
  copy_object a (some old) o c = some c
  copy_object a none none c = none
  copy_object a none (some o) c = some (set_state_object a (deep_copy o) c)

  abbrev pub copy_next : Objects → ℕ → Option (StateDb T) → Option (StateDb T)
  copy_next objects a none = none
  copy_next objects a (some c) = copy_object a (lookup a c.objects) (lookup a objects) c

  abbrev pub mark_pending : ℕ → StateDb T → StateDb T
  mark_pending a c = record c { pending = put a c.pending }

  abbrev pub mark_dirty : ℕ → StateDb T → StateDb T
  mark_dirty a c = record c { dirty_objects = put a c.dirty_objects }

  abbrev pub then_mark : (ℕ → StateDb T → StateDb T) → ℕ → Option (StateDb T) → Option (StateDb T)
  then_mark mark a none = none
  then_mark mark a (some c) = some (mark a c)

  -- The loops over the pending and over the dirty addresses, which mark each in its set.
  unfoldable pub copy_marked :
      (ℕ → StateDb T → StateDb T) → Objects → List ℕ → Option (StateDb T) → Option (StateDb T)
  unfolding set_state_object put deep_copy
  copy_marked mark objects [] c = c
  copy_marked mark objects (a ∷ rest) c =
      copy_marked mark objects rest (then_mark mark a (copy_next objects a c))

  -- The fields that are copied at once.
  abbrev pub basic_copy : StateDb T → StateDb T
  basic_copy s = record {
    nodes = s.nodes;
    trie = T.copy_trie s.trie;
    objects = [];
    pending = [];
    dirty_objects = [];
    db_err = false;
    refund = s.refund;
    thash = 0;
    bhash = 0;
    tx_index = 0;
    logs = s.logs;
    log_size = s.log_size;
    journal = new_journal;
  }

  unfoldable pub copy : StateDb T → Option (StateDb T)
  unfolding copy_journal copy_marked keys
  copy s = copy_marked mark_dirty s.objects s.dirty_objects (
      copy_marked mark_pending s.objects s.pending
        (some (copy_journal s.objects (keys s.journal.dirties) (basic_copy s))))
