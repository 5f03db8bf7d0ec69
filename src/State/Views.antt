-- ===== src/State/Views.antt =====
-- What a reader finds under an address of a `StateDB` of Mitosis/state, with no word of which objects
-- are loaded.
use mitosis.Prelude.{
  ℕ, ◌==◌, if◌then◌else◌, List, [], ◌∷◌, Option, none, some, ◌≡◌, refl, ◌∙◌, ap, arith,
}
use mitosis.Prelude.Assoc.{lookup, lookup-insert}
use mitosis.State.Calls.{TrieCalls}
use mitosis.State.Journal.{StateObject, new_object}
use mitosis.State.Objects.{
  StateDb, set_state_object, set_error, decoded, from_trie, live_or, get_deleted_state_object,
  not_deleted, get_state_object,
}
use mitosis.State.Accounts.{balance_or, get_balance}

abbrev pub parsed : Option ℕ → Option StateObject
parsed none = none
parsed (some balance) = some (new_object balance)

abbrev pub or_else : Option StateObject → Option StateObject → Option StateObject
or_else none o = o
or_else (some o) other = some o

module _ (T : TrieCalls) where
  abbrev pub read_object : Option (List ℕ) → Option StateObject
  read_object none = none
  read_object (some []) = none
  read_object (some (b ∷ bytes)) = parsed (T.decode_account (b ∷ bytes))

  unfoldable pub stored : T.Nodes → T.Trie → ℕ → Option StateObject
  stored nodes trie a = read_object (T.try_get nodes trie a)

module _ {T : TrieCalls} where
  unfoldable pub found : ℕ → StateDb T → Option StateObject
  unfolding stored
  found a s = or_else (lookup a s.objects) (stored T s.nodes s.trie a)

  unfoldable pub balance : ℕ → StateDb T → ℕ
  unfolding found
  balance a s = balance_or (not_deleted (found a s))

  pub found-set_state_object :
      (a b : ℕ) (o : StateObject) (s : StateDb T)
      → found b (set_state_object a o s) ≡ (if a == b then some o else found b s)
  unfolding found set_state_object
  found-set_state_object a b o s = rw (lookup-insert a b o s.objects) (ground arith)

  decoded_lem : (a : ℕ) (s : StateDb T) (bytes : Option ℕ) → (decoded a s bytes).1 ≡ parsed bytes
  unfolding set_state_object
  decoded_lem a s none = refl
  decoded_lem a s (some balance) = refl

  from_trie_lem :
      (a : ℕ) (s : StateDb T) (bytes : Option (List ℕ))
      → (from_trie a s bytes).1 ≡ read_object T bytes
  unfolding set_state_object set_error
  from_trie_lem a s none = refl
  from_trie_lem a s (some []) = refl
  from_trie_lem a s (some (b ∷ bytes)) = decoded_lem a s (T.decode_account (b ∷ bytes))

  live_or_lem :
      (a : ℕ) (s : StateDb T) (o : Option StateObject)
      → (live_or a s o).1 ≡ or_else o (stored T s.nodes s.trie a)
  unfolding set_state_object set_error stored
  live_or_lem a s none = from_trie_lem a s (T.try_get s.nodes s.trie a)
  live_or_lem a s (some o) = refl

  pub get_deleted_state_object_lem :
      (a : ℕ) (s : StateDb T) → (get_deleted_state_object a s).1 ≡ found a s
  unfolding get_deleted_state_object found
  get_deleted_state_object_lem a s = live_or_lem a s (lookup a s.objects)

  -- Reading an account may load it, and finds what it would find again.
  found-decoded :
      (a b : ℕ) (s : StateDb T) (bytes : Option ℕ)
      → found a s ≡ parsed bytes
      → found b (decoded a s bytes).0 ≡ found b s
  found-decoded a b s none e = refl
  found-decoded a b s (some balance) e =
      found-set_state_object a b (new_object balance) s ∙ ground (arith, e)

  found-from_trie :
      (a b : ℕ) (s : StateDb T) (bytes : Option (List ℕ))
      → found a s ≡ read_object T bytes
      → found b (from_trie a s bytes).0 ≡ found b s
  unfolding set_error found
  found-from_trie a b s none e = refl
  found-from_trie a b s (some []) e = refl
  found-from_trie a b s (some (c ∷ bytes)) e = found-decoded a b s (T.decode_account (c ∷ bytes)) e

  found-live_or :
      (a b : ℕ) (s : StateDb T) (o : Option StateObject)
      → lookup a s.objects ≡ o
      → found b (live_or a s o).0 ≡ found b s
  unfolding set_state_object set_error found stored
  found-live_or a b s none e =
      found-from_trie a b s (T.try_get s.nodes s.trie a)
        (ap (λ t. or_else t (stored T s.nodes s.trie a)) e)
  found-live_or a b s (some o) e = refl

  pub found-get_deleted_state_object :
      (a b : ℕ) (s : StateDb T) → found b (get_deleted_state_object a s).0 ≡ found b s
  unfolding get_deleted_state_object
  found-get_deleted_state_object a b s = found-live_or a b s (lookup a s.objects) refl

  pub get_state_object_lem :
      (a : ℕ) (s : StateDb T) → (get_state_object a s).1 ≡ not_deleted (found a s)
  unfolding get_state_object
  get_state_object_lem a s = ap not_deleted (get_deleted_state_object_lem a s)

  pub found-get_state_object :
      (a b : ℕ) (s : StateDb T) → found b (get_state_object a s).0 ≡ found b s
  unfolding get_state_object
  found-get_state_object a b s = found-get_deleted_state_object a b s

  pub get_balance_lem : (a : ℕ) (s : StateDb T) → (get_balance a s).1 ≡ balance a s
  unfolding get_balance balance
  get_balance_lem a s = ap balance_or (get_state_object_lem a s)

  -- Reading an account leaves the trie as it is.
  stored-decoded :
      (a b : ℕ) (s : StateDb T) (bytes : Option ℕ)
      → stored T (decoded a s bytes).0.nodes (decoded a s bytes).0.trie b
        ≡ stored T s.nodes s.trie b
  unfolding set_state_object
  stored-decoded a b s none = refl
  stored-decoded a b s (some balance) = refl

  stored-from_trie :
      (a b : ℕ) (s : StateDb T) (read : Option (List ℕ))
      → stored T (from_trie a s read).0.nodes (from_trie a s read).0.trie b
        ≡ stored T s.nodes s.trie b
  unfolding set_error
  stored-from_trie a b s none = refl
  stored-from_trie a b s (some []) = refl
  stored-from_trie a b s (some (c ∷ bytes)) = stored-decoded a b s (T.decode_account (c ∷ bytes))

  stored-live_or :
      (a b : ℕ) (s : StateDb T) (o : Option StateObject)
      → stored T (live_or a s o).0.nodes (live_or a s o).0.trie b ≡ stored T s.nodes s.trie b
  stored-live_or a b s none = stored-from_trie a b s (T.try_get s.nodes s.trie a)
  stored-live_or a b s (some o) = refl

  pub stored-get_state_object :
      (a b : ℕ) (s : StateDb T)
      → stored T (get_state_object a s).0.nodes (get_state_object a s).0.trie b
        ≡ stored T s.nodes s.trie b
  unfolding get_state_object get_deleted_state_object
  stored-get_state_object a b s = stored-live_or a b s (lookup a s.objects)
