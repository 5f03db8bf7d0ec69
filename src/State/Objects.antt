-- ===== src/State/Objects.antt =====
-- Mitosis/state/statedb.go: `StateDB`, and how it finds, stores and creates its objects.
use mitosis.Prelude.{ℕ, if◌then◌else◌, Bool, true, false, List, [], ◌∷◌, Option, none, some}
use mitosis.Prelude.Assoc.{lookup, insert}
use mitosis.State.Calls.{TrieCalls}
use mitosis.State.Journal.{
  StateObject, new_object, Entry, create_object_change, reset_object_change, Journal, new_journal,
  append,
}

-- The fields that `AddLog` fills in.
pub record Log : Type 0 where
  pub tx_hash : ℕ
  pub block_hash : ℕ
  pub tx_index : ℕ
  pub index : ℕ

-- `db_err` is whether an error is remembered; the two sets are lists of addresses.
pub record StateDb (T : TrieCalls) : Type 0 where
  pub nodes : T.Nodes
  pub trie : T.Trie
  pub objects : List (ℕ × StateObject)
  pub pending : List ℕ
  pub dirty_objects : List ℕ
  pub db_err : Bool
  pub refund : ℕ
  pub thash : ℕ
  pub bhash : ℕ
  pub tx_index : ℕ
  pub logs : List (ℕ × List Log)
  pub log_size : ℕ
  pub journal : Journal

abbrev pub not_deleted : Option StateObject → Option StateObject
not_deleted none = none
not_deleted (some o) = if o.deleted then none else some o

-- The entry of the journal for what stood at the address.
abbrev pub creation : ℕ → Option StateObject → Entry
creation a none = create_object_change a
creation a (some prev) = reset_object_change a prev

module _ {T : TrieCalls} where
  abbrev pub new_on : T.Nodes → T.Trie → StateDb T
  new_on nodes trie = record {
    nodes = nodes;
    trie = trie;
    objects = [];
    pending = [];
    dirty_objects = [];
    db_err = false;
    refund = 0;
    thash = 0;
    bhash = 0;
    tx_index = 0;
    logs = [];
    log_size = 0;
    journal = new_journal;
  }

  abbrev pub opened : T.Nodes → Option T.Trie → Option (StateDb T)
  opened nodes none = none
  opened nodes (some trie) = some (new_on nodes trie)

  -- `New`: the trie is opened at the root.
  unfoldable pub new : ℕ → T.Nodes → Option (StateDb T)
  new root nodes = opened nodes (T.open_trie nodes root)

  unfoldable pub set_error : StateDb T → StateDb T
  set_error s = record s { db_err = true }

  unfoldable pub set_state_object : ℕ → StateObject → StateDb T → StateDb T
  set_state_object a o s = record s { objects = insert a o s.objects }

  -- What the bytes of an account give: the state, and the object.
  abbrev pub decoded : ℕ → StateDb T → Option ℕ → StateDb T × Option StateObject
  decoded a s none = (s, none)
  decoded a s (some balance) =
      (set_state_object a (new_object balance) s, some (new_object balance))

  abbrev pub from_trie : ℕ → StateDb T → Option (List ℕ) → StateDb T × Option StateObject
  from_trie a s none = (set_error s, none)
  from_trie a s (some []) = (s, none)
  from_trie a s (some (b ∷ bytes)) = decoded a s (T.decode_account (b ∷ bytes))

  abbrev pub live_or : ℕ → StateDb T → Option StateObject → StateDb T × Option StateObject
  live_or a s none = from_trie a s (T.try_get s.nodes s.trie a)
  live_or a s (some o) = (s, some o)

  unfoldable pub get_deleted_state_object : ℕ → StateDb T → StateDb T × Option StateObject
  unfolding set_state_object set_error
  get_deleted_state_object a s = live_or a s (lookup a s.objects)

  unfoldable pub get_state_object : ℕ → StateDb T → StateDb T × Option StateObject
  unfolding get_deleted_state_object
  get_state_object a s = let (s1, o) = get_deleted_state_object a s in (s1, not_deleted o)

  unfoldable pub log_entry : Entry → StateDb T → StateDb T
  log_entry e s = record s { journal = append e s.journal }

  -- The state with the new object, and the one that was there, unless it was deleted.
  unfoldable pub create_object : ℕ → StateDb T → StateDb T × Option StateObject
  unfolding get_deleted_state_object log_entry set_state_object
  create_object a s =
      let (s1, prev) = get_deleted_state_object a s in
      (set_state_object a (new_object 0) (log_entry (creation a prev) s1), not_deleted prev)

  -- The object that there is, or a new one.
  abbrev pub or_create : ℕ → StateDb T × Option StateObject → StateDb T × StateObject
  or_create a (s, none) = ((create_object a s).0, new_object 0)
  or_create a (s, some o) = (s, o)

  unfoldable pub get_or_new_state_object : ℕ → StateDb T → StateDb T × StateObject
  unfolding get_state_object create_object
  get_or_new_state_object a s = or_create a (get_state_object a s)
