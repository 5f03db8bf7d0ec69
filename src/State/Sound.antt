-- ===== src/State/Sound.antt =====
-- Mitosis/state/statedb.go: every call keeps track of the objects that differ from what the trie holds.
use mitosis.Prelude.{
  ℕ, ◌^◌, ◌<◌, ◌==◌, true, List, [], ◌∷◌, Option, none, some, ◌≡◌, refl, ◌∙◌, ap, subst, inl, inr,
  arith, Bool-cases,
}
use mitosis.Prelude.Assoc.{lookup}
use mitosis.State.Calls.{TrieCalls, TrieLaws}
use mitosis.State.Journal.{
  StateObject, new_object, Entry, create_object_change, reset_object_change, balance_change,
  dirtied, dirty_if, append,
}
use mitosis.State.Objects.{
  StateDb, new, set_state_object, decoded, from_trie, live_or, get_deleted_state_object,
  not_deleted, get_state_object, log_entry, creation,
}
use mitosis.State.Accounts.{balance_or, write_balance}
use mitosis.State.Roots.{mem}
use mitosis.State.Views.{stored, parsed, read_object, found}
use mitosis.State.Tracked.{
  plain, in_journal, in_journal-dirty, Marks, tracked_at, tracked_replaced, Sound,
  tracked_at-set_state_object, tracked_at-write, tracked_at-decoded,
}

pub dirtied-Marks : (a : ℕ) (e : Entry) → dirtied e ≡ some a → Marks a e
unfolding Marks append in_journal
dirtied-Marks a e d b j =
    ap (λ t. in_journal b (dirty_if t (record j { entries = e ∷ j.entries }))) d
    ∙ in_journal-dirty a b (record j { entries = e ∷ j.entries })

module _ {T : TrieCalls} (L : TrieLaws T) where
  parsed-plain :
      (bytes : List ℕ) (balance : Option ℕ)
      → T.decode_account bytes ≡ balance
      → plain (parsed balance) ≡ true
  parsed-plain bytes none e = refl
  parsed-plain bytes (some v) e = ground (arith, L.decode_small bytes v e)

  read_object-plain : (read : Option (List ℕ)) → plain (read_object T read) ≡ true
  read_object-plain none = refl
  read_object-plain (some []) = refl
  read_object-plain (some (b ∷ bytes)) =
      parsed-plain (b ∷ bytes) (T.decode_account (b ∷ bytes)) refl

  pub stored-plain : (n : T.Nodes) (t : T.Trie) (a : ℕ) → plain (stored T n t a) ≡ true
  unfolding stored
  stored-plain n t a = read_object-plain (T.try_get n t a)

  -- Loading.
  Sound-decoded :
      (a : ℕ) (s : StateDb T) (bytes : List ℕ) (balance : Option ℕ)
      → T.decode_account bytes ≡ balance
      → lookup a s.objects ≡ none
      → stored T s.nodes s.trie a ≡ parsed balance
      → Sound L s
      → Sound L (decoded a s balance).0
  unfolding set_state_object
  Sound-decoded a s bytes none d new e h = h
  Sound-decoded a s bytes (some v) d new e h = record {
    whole = h.whole;
    no_error = h.no_error;
    all_tracked = λ b. tracked_at-decoded L a b s bytes (some v) d new e (h.all_tracked b);
  }

  Sound-from_trie :
      (a : ℕ) (s : StateDb T) (read : Option (List ℕ))
      → T.try_get s.nodes s.trie a ≡ read
      → lookup a s.objects ≡ none
      → Sound L s
      → Sound L (from_trie a s read).0
  unfolding stored
  Sound-from_trie a s none e new h = absurd (L.get_whole s.nodes s.trie a h.whole e)
  Sound-from_trie a s (some []) e new h = h
  Sound-from_trie a s (some (b ∷ bytes)) e new h =
      Sound-decoded a s (b ∷ bytes) (T.decode_account (b ∷ bytes)) refl new (ap (read_object T) e) h

  Sound-live_or :
      (a : ℕ) (s : StateDb T) (o : Option StateObject)
      → lookup a s.objects ≡ o
      → Sound L s
      → Sound L (live_or a s o).0
  Sound-live_or a s none e h = Sound-from_trie a s (T.try_get s.nodes s.trie a) refl e h
  Sound-live_or a s (some o) e h = h

  pub Sound-get_deleted_state_object :
      (a : ℕ) (s : StateDb T) → Sound L s → Sound L (get_deleted_state_object a s).0
  unfolding get_deleted_state_object
  Sound-get_deleted_state_object a s h = Sound-live_or a s (lookup a s.objects) refl h

  pub Sound-get_state_object :
      (a : ℕ) (s : StateDb T) → Sound L s → Sound L (get_state_object a s).0
  unfolding get_state_object
  Sound-get_state_object a s h = Sound-get_deleted_state_object a s h

  -- Writing.
  pub Sound-write :
      (a : ℕ) (e : Entry) (o : StateObject) (s : StateDb T)
      → Marks a e
      → o.balance < 2 ^ 64
      → Sound L s
      → Sound L (set_state_object a o (log_entry e s))
  unfolding set_state_object log_entry
  Sound-write a e o s marks small h = record {
    whole = h.whole;
    no_error = h.no_error;
    all_tracked = λ b. tracked_at-write a b e o s marks small (h.all_tracked b);
  }

  pub Sound-write_balance :
      (a : ℕ) (o : StateObject) (v : ℕ) (s : StateDb T)
      → v < 2 ^ 64
      → Sound L s
      → Sound L (write_balance a o v s)
  unfolding write_balance
  Sound-write_balance a o v s small h =
      Sound-write a (balance_change a o.balance) (record o { balance = v }) s
        (dirtied-Marks a (balance_change a o.balance) refl) small h

  -- Replacing.
  tracked_at-replace :
      (a b : ℕ) (prev : StateObject) (s : StateDb T)
      → found a s ≡ some prev
      → tracked_at b s ≡ true
      → tracked_at b (
          set_state_object a
            (new_object (balance_or (not_deleted (some prev))))
            (log_entry (reset_object_change a prev) s))
        ≡ true
  unfolding found tracked_at log_entry append in_journal
  tracked_at-replace a b prev s e h =
      let o = new_object (balance_or (not_deleted (some prev))) in
      tracked_at-set_state_object a b o (log_entry (reset_object_change a prev) s)
      ∙ elim (Bool-cases (a == b)) [
        | inl q ↦
            let same : a ≡ b = ground arith in
            rw q (
              tracked_replaced (in_journal b s.journal) (mem b s.pending) (lookup b s.objects)
                (stored T s.nodes s.trie b) prev (subst (λ k. found k s ≡ some prev) same e)
                (stored-plain s.nodes s.trie b) h)
        | inr q ↦ rw q h
      ]

  pub Sound-replace :
      (a : ℕ) (prev : Option StateObject) (s : StateDb T)
      → found a s ≡ prev
      → Sound L s
      → Sound L (
          set_state_object a
            (new_object (balance_or (not_deleted prev)))
            (log_entry (creation a prev) s))
  unfolding set_state_object log_entry append
  Sound-replace a none s e h =
      Sound-write a (create_object_change a) (new_object 0) s
        (dirtied-Marks a (create_object_change a) refl) (ground arith) h
  Sound-replace a (some prev) s e h = record {
    whole = h.whole;
    no_error = h.no_error;
    all_tracked = λ b. tracked_at-replace a b prev s e (h.all_tracked b);
  }
