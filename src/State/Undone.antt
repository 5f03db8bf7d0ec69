-- ===== src/State/Undone.antt =====
-- Mitosis/state/journal.go: `revert` after any calls of a `StateDB` gives back what was found before them.
use native.Mathlib.Nat.{zero-add, suc-add}
use mitosis.Prelude.{
  ℕ, ◌+◌, ◌==◌, if◌then◌else◌, Bool, true, false, List, [], ◌∷◌, ◌++◌, Option, none, some, length,
  length-append, ◌≡◌, refl, sym, ◌∙◌, ap, inl, inr, arith, Bool-cases,
}
use mitosis.Prelude.Assoc.{lookup}
use mitosis.State.Calls.{TrieCalls}
use mitosis.State.Journal.{
  StateObject, new_object, Entry, balance_change, touch_change, dirtied, dirty_if, append, Journal,
  dirty,
}
use mitosis.State.Objects.{
  StateDb, set_state_object, set_error, not_deleted, decoded, from_trie, live_or,
  get_deleted_state_object, get_state_object, log_entry, creation, create_object, or_create,
  get_or_new_state_object,
}
use mitosis.State.Accounts.{ripemd, touch, write_balance}
use mitosis.State.Revert.{undo_entry, undo}
use mitosis.State.Views.{
  found, found-set_state_object, get_deleted_state_object_lem, get_state_object_lem,
  found-get_deleted_state_object, found-get_state_object, stored-get_state_object,
}
use mitosis.State.Undo.{
  Like, Undoes, Trail, Trail-nil, Trail-cons, Puts, creation-Undoes, balance_change-Undoes,
  touch_change-Undoes,
}
use mitosis.State.Balances.{found-create_object, not_deleted-live}

append_assoc : {A : Type 0} (xs ys zs : List A) → (xs ++ ys) ++ zs ≡ xs ++ (ys ++ zs)
append_assoc [] ys zs = refl
append_assoc (x ∷ xs) ys zs = ap (◌∷◌ x) (append_assoc xs ys zs)

entries-append : (e : Entry) (j : Journal) → (append e j).entries ≡ e ∷ j.entries
unfolding append dirty
entries-append e j = on_top (dirtied e)
  where
    on_top :
        (a : Option ℕ) → (dirty_if a (record j { entries = e ∷ j.entries })).entries ≡ e ∷ j.entries
    on_top none = refl
    on_top (some a) = refl

pub live_found :
    (held : Option StateObject) (o : StateObject) → some o ≡ not_deleted held → held ≡ some o
live_found none o e = absurd (ground (arith, e))
live_found (some p) o e = kept p.deleted refl e
  where
    kept :
        (gone : Bool)
        → p.deleted ≡ gone
        → some o ≡ (if gone then none else some p)
        → some p ≡ some o
    kept true q f = absurd (ground (arith, f))
    kept false q f = sym f

module _ {T : TrieCalls} where
  undo_split :
      (xs zs : List Entry) (n : ℕ) (s : Option (StateDb T))
      → undo (length xs + n) (xs ++ zs) s ≡ undo n zs (undo (length xs) (xs ++ zs) s)
  unfolding undo
  undo_split [] zs n s = rw (zero-add n) refl
  undo_split (e ∷ xs) zs n s =
      rw (suc-add (length xs) n) (undo_split xs zs n (undo_entry e (xs ++ zs) s))

  -- The entries that a later state has on top of an earlier one's undo what was done in between.
  unfoldable pub Undone : StateDb T → StateDb T → Type 0
  Undone s u = (es : List Entry) × (u.journal.entries ≡ es ++ s.journal.entries) × Trail es s u

  pub Undone-same :
      (s u : StateDb T) → u.journal.entries ≡ s.journal.entries → Like u s → Undone s u
  unfolding Undone
  Undone-same s u e like = ([], e, Trail-nil s u like)

  Undone-one :
      (e : Entry) (s u : StateDb T)
      → u.journal.entries ≡ e ∷ s.journal.entries
      → Undoes e s u
      → Undone s u
  unfolding Undone Like
  Undone-one e s u top undoes =
      (e ∷ [], top, Trail-cons e [] s s u undoes (Trail-nil s s (λ b. (refl, refl))))

  pub Undone-trans : (s t u : StateDb T) → Undone s t → Undone t u → Undone s u
  unfolding Undone Trail
  Undone-trans s t u (es, e, first) (fs, f, later) = (
    fs ++ es,
    f ∙ ap (λ x. fs ++ x) e ∙ sym (append_assoc fs es s.journal.entries),
    λ w rest like.
        let (v, done, similar) = later w (es ++ rest) like in
        let (x, all, same) = first v rest similar in
        (
          x,
          ap (λ n. undo n ((fs ++ es) ++ rest) (some w)) (length-append fs es)
              ∙ ap (λ l. undo (length fs + length es) l (some w)) (append_assoc fs es rest)
              ∙ undo_split fs (es ++ rest) (length es) (some w)
              ∙ ap (undo (length es) (es ++ rest)) done
              ∙ all,
          same,
        ),
  )

  -- Reading an account.
  journal-decoded :
      (a : ℕ) (s : StateDb T) (bytes : Option ℕ) → (decoded a s bytes).0.journal ≡ s.journal
  unfolding set_state_object
  journal-decoded a s none = refl
  journal-decoded a s (some v) = refl

  journal-from_trie :
      (a : ℕ) (s : StateDb T) (read : Option (List ℕ)) → (from_trie a s read).0.journal ≡ s.journal
  unfolding set_error
  journal-from_trie a s none = refl
  journal-from_trie a s (some []) = refl
  journal-from_trie a s (some (b ∷ bytes)) = journal-decoded a s (T.decode_account (b ∷ bytes))

  journal-live_or :
      (a : ℕ) (s : StateDb T) (o : Option StateObject) → (live_or a s o).0.journal ≡ s.journal
  journal-live_or a s none = journal-from_trie a s (T.try_get s.nodes s.trie a)
  journal-live_or a s (some o) = refl

  pub Undone-get_state_object : (a : ℕ) (s : StateDb T) → Undone s (get_state_object a s).0
  unfolding get_state_object get_deleted_state_object Like
  Undone-get_state_object a s =
      Undone-same s (get_state_object a s).0
        (ap (λ (j : Journal). j.entries) (journal-live_or a s (lookup a s.objects)))
        (λ b. (found-get_state_object a b s, stored-get_state_object a b s))

  -- Writing an object under an entry.
  pub Puts-set :
      (a : ℕ) (o : StateObject) (e : Entry) (s : StateDb T)
      → Puts a o s (set_state_object a o (log_entry e s))
  unfolding Puts log_entry set_state_object found
  Puts-set a o e s b = (found-set_state_object a b o (log_entry e s), refl)

  pub Undone-set :
      (a : ℕ) (o : StateObject) (e : Entry) (s : StateDb T)
      → Undoes e s (set_state_object a o (log_entry e s))
      → Undone s (set_state_object a o (log_entry e s))
  unfolding log_entry set_state_object
  Undone-set a o e s undoes =
      Undone-one e s (set_state_object a o (log_entry e s)) (entries-append e s.journal) undoes

  pub Undone-write_balance :
      (a : ℕ) (o : StateObject) (v : ℕ) (s : StateDb T)
      → found a s ≡ some o
      → o.deleted ≡ false
      → Undone s (write_balance a o v s)
  unfolding write_balance
  Undone-write_balance a o v s e live =
      let p : StateObject = record o { balance = v } in
      let c = balance_change a o.balance in
      Undone-set a p c s (
        balance_change-Undoes a v o s (set_state_object a p (log_entry c s)) e live
          (Puts-set a p c s))

  pub Undone-touch : (a : ℕ) (s : StateDb T) → Undone s (touch a s)
  unfolding touch log_entry dirty Like found
  Undone-touch a s =
      let undoes = λ (u : StateDb T) (h : Like u s). touch_change-Undoes a s u h in
      let top = entries-append (touch_change a) s.journal in
      let once : StateDb T = log_entry (touch_change a) s in
      let twice : StateDb T = record once { journal = dirty a once.journal } in
      elim (Bool-cases (a == ripemd)) [
        | inl e ↦ rw e (Undone-one (touch_change a) s twice top (undoes twice (λ b. (refl, refl))))
        | inr e ↦ rw e (Undone-one (touch_change a) s once top (undoes once (λ b. (refl, refl))))
      ]

  pub Undone-replace :
      (a : ℕ) (o : StateObject) (prev : Option StateObject) (s : StateDb T)
      → found a s ≡ prev
      → Undone s (set_state_object a o (log_entry (creation a prev) s))
  Undone-replace a o prev s e = Undone-set a o (creation a prev) s (
      creation-Undoes a o prev s (set_state_object a o (log_entry (creation a prev) s)) e
        (Puts-set a o (creation a prev) s))

  pub Undone-get_deleted_state_object :
      (a : ℕ) (s : StateDb T) → Undone s (get_deleted_state_object a s).0
  unfolding get_state_object
  Undone-get_deleted_state_object a s = Undone-get_state_object a s

  Undone-create_object : (a : ℕ) (s : StateDb T) → Undone s (create_object a s).0
  unfolding create_object
  Undone-create_object a s =
      let (t, prev) = get_deleted_state_object a s in
      Undone-trans s t (create_object a s).0 (Undone-get_deleted_state_object a s) (
        Undone-replace a (new_object 0) prev t
          (found-get_deleted_state_object a a s ∙ sym (get_deleted_state_object_lem a s)))

  -- The object that a credit or a debit works on: it stands in the state, and is not deleted.
  unfoldable pub Ready : ℕ → StateDb T → StateDb T × StateObject → Type 0
  Ready a s (t, o) = Undone s t × (found a t ≡ some o) × (o.deleted ≡ false)

  Ready-or_create :
      (a : ℕ) (s : StateDb T) (o : Option StateObject)
      → o ≡ not_deleted (found a s)
      → Ready a s (or_create a (s, o))
  unfolding Ready Like
  Ready-or_create a s none e =
      (Undone-create_object a s, found-create_object a a s ∙ ground arith, refl)
  Ready-or_create a s (some o) e = (
    Undone-same s s refl (λ b. (refl, refl)),
    live_found (found a s) o e,
    not_deleted-live (found a s) o (sym e),
  )

  pub Ready-get_or_new_state_object :
      (a : ℕ) (s : StateDb T) → Ready a s (get_or_new_state_object a s)
  unfolding get_or_new_state_object Ready
  Ready-get_or_new_state_object a s =
      let (t, o) = get_state_object a s in
      let e : o ≡ not_deleted (found a t) =
        get_state_object_lem a s ∙ ap not_deleted (sym (found-get_state_object a a s)) in
      let (before, there, live) = Ready-or_create a t o e in
      (Undone-trans s t (or_create a (t, o)).0 (Undone-get_state_object a s) before, there, live)
