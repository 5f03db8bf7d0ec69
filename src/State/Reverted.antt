-- ===== src/State/Reverted.antt =====
-- Mitosis/state/journal.go: `revert` to an earlier length of the journal, after any calls.
use mitosis.Prelude.{
  ℕ, ◌+◌, ◌-◌, ◌==◌, ltb, true, false, List, [], ◌∷◌, Option, none, some, length, length-append,
  u64, sub64, ◌≡◌, refl, sym, ◌∙◌, ap, subst, inl, inr, arith, Bool-cases,
}
use mitosis.State.Calls.{TrieCalls}
use mitosis.State.Journal.{StateObject, new_object, empty, suicide_change, journal_length}
use mitosis.State.Objects.{
  StateDb, set_state_object, not_deleted, get_deleted_state_object, get_state_object, log_entry,
  creation, create_object, get_or_new_state_object,
}
use mitosis.State.Accounts.{
  balance_or, suicided_or, some_object, exist, get_balance, has_suicided, add_to_object,
  sub_from_object, write_balance, add_balance, sub_balance, set_balance, suicide, suicide_object,
  carry_over, create_account,
}
use mitosis.State.Revert.{undo, revert}
use mitosis.State.Views.{
  found, get_deleted_state_object_lem, get_state_object_lem, found-get_deleted_state_object,
  found-get_state_object,
}
use mitosis.State.Balances.{not_deleted-live}
use mitosis.State.Kept.{set_state_object-set_state_object}
use mitosis.State.Undo.{Like, Trail, suicide_change-Undoes}
use mitosis.State.Undone.{
  Undone, Undone-same, Undone-trans, Undone-get_state_object, Undone-set, Undone-write_balance,
  Undone-touch, Undone-replace, Undone-get_deleted_state_object, Ready,
  Ready-get_or_new_state_object, Puts-set, live_found,
}
use mitosis.State.Ledger.{Call, ask, credit, debit, assign, open_account, destroy, perform}
use mitosis.State.Reopen.{perform_all}

module _ {T : TrieCalls} where
  Undone-refl : (s : StateDb T) → Undone s s
  unfolding Like
  Undone-refl s = Undone-same s s refl (λ b. (refl, refl))

  Undone-add_to_object :
      (a : ℕ) (o : StateObject) (v : ℕ) (s : StateDb T)
      → found a s ≡ some o
      → o.deleted ≡ false
      → Undone s (add_to_object a o v s)
  unfolding add_to_object
  Undone-add_to_object a o v s e live = elim (Bool-cases (v == 0)) [
    | inl q ↦ rw q (elim (Bool-cases (empty o)) [
      | inl f ↦ rw f (Undone-touch a s)
      | inr f ↦ rw f (Undone-refl s)
    ])
    | inr q ↦ rw q (Undone-write_balance a o (u64 (o.balance + v)) s e live)
  ]

  Undone-sub_from_object :
      (a : ℕ) (o : StateObject) (v : ℕ) (s : StateDb T)
      → found a s ≡ some o
      → o.deleted ≡ false
      → Undone s (sub_from_object a o v s)
  unfolding sub_from_object
  Undone-sub_from_object a o v s e live = elim (Bool-cases (v == 0)) [
    | inl q ↦ rw q (Undone-refl s)
    | inr q ↦ rw q (Undone-write_balance a o (sub64 o.balance v) s e live)
  ]

  Undone-suicide_object :
      (a : ℕ) (s : StateDb T) (o : Option StateObject)
      → o ≡ not_deleted (found a s)
      → Undone s (suicide_object a (s, o)).0
  Undone-suicide_object a s none e = Undone-refl s
  Undone-suicide_object a s (some o) e =
      let dead : StateObject = record o { suicided = true; balance = 0 } in
      let c = suicide_change a o.suicided o.balance in
      Undone-set a dead c s (
        suicide_change-Undoes a o s (set_state_object a dead (log_entry c s))
          (live_found (found a s) o e) (not_deleted-live (found a s) o (sym e))
          (Puts-set a dead c s))

  Undone-carry_over :
      (a : ℕ) (s : StateDb T) (prev kept : Option StateObject)
      → found a s ≡ prev
      → Undone s
          (carry_over a (set_state_object a (new_object 0) (log_entry (creation a prev) s), kept))
  Undone-carry_over a s prev none e = Undone-replace a (new_object 0) prev s e
  Undone-carry_over a s prev (some o) e =
      subst (λ u. Undone s u)
        (sym (
          set_state_object-set_state_object a (new_object o.balance) (new_object 0)
            (log_entry (creation a prev) s)))
        (Undone-replace a (new_object o.balance) prev s e)

  Undone-create_account : (a : ℕ) (s : StateDb T) → Undone s (create_account a s)
  unfolding create_account create_object
  Undone-create_account a s =
      let (t, prev) = get_deleted_state_object a s in
      Undone-trans s t (create_account a s) (Undone-get_deleted_state_object a s) (
        Undone-carry_over a t prev (not_deleted prev)
          (found-get_deleted_state_object a a s ∙ sym (get_deleted_state_object_lem a s)))

  Undone-perform : (call : Call) (s : StateDb T) → Undone s (perform call s)
  unfolding perform get_balance add_balance sub_balance set_balance suicide Ready
  Undone-perform (ask a) s = Undone-get_state_object a s
  Undone-perform (credit a v) s =
      let (before, there, live) = Ready-get_or_new_state_object a s in
      let (t, o) = get_or_new_state_object a s in
      Undone-trans s t (add_to_object a o (u64 v) t) before
        (Undone-add_to_object a o (u64 v) t there live)
  Undone-perform (debit a v) s =
      let (before, there, live) = Ready-get_or_new_state_object a s in
      let (t, o) = get_or_new_state_object a s in
      Undone-trans s t (sub_from_object a o (u64 v) t) before
        (Undone-sub_from_object a o (u64 v) t there live)
  Undone-perform (assign a v) s =
      let (before, there, live) = Ready-get_or_new_state_object a s in
      let (t, o) = get_or_new_state_object a s in
      Undone-trans s t (write_balance a o (u64 v) t) before
        (Undone-write_balance a o (u64 v) t there live)
  Undone-perform (open_account a) s = Undone-create_account a s
  Undone-perform (destroy a) s =
      let (t, o) = get_state_object a s in
      Undone-trans s t (suicide a s).0 (Undone-get_state_object a s) (
        Undone-suicide_object a t o
          (get_state_object_lem a s ∙ ap not_deleted (sym (found-get_state_object a a s))))

  Undone-perform_all : (calls : List Call) (s : StateDb T) → Undone s (perform_all calls s)
  unfolding perform_all
  Undone-perform_all [] s = Undone-refl s
  Undone-perform_all (call ∷ calls) s =
      Undone-trans s (perform call s) (perform_all calls (perform call s)) (Undone-perform call s)
        (Undone-perform_all calls (perform call s))

  revert-Undone :
      (s u : StateDb T)
      → Undone s u
      → (v : StateDb T) × (revert (journal_length s.journal) u ≡ some v) × Like v s
  unfolding Undone Trail revert journal_length Like
  revert-Undone s u (es, e, trail) =
      let (v, done, like) = trail u s.journal.entries (λ b. (refl, refl)) in
      let n : length u.journal.entries ≡ length es + length s.journal.entries =
        ap length e ∙ length-append es s.journal.entries in
      let within : ltb (length u.journal.entries) (length s.journal.entries) ≡ false =
        ground (arith, n) in
      let rounds : length u.journal.entries - length s.journal.entries ≡ length es =
        omega (arith, n) in
      (v, rw (within, rounds) (ap (λ l. undo (length es) l (some u)) e ∙ done), like)

  -- After any list of reads, credits, debits, assignments, openings and destructions of accounts, going
  -- back to the length that the journal had before them does not panic, and in the state that it gives
  -- every address has the balance that it had, exists as it did and is marked as destroyed as it was.
  pub revert-perform_all :
      (calls : List Call) (s : StateDb T)
      → (v : StateDb T) × (revert (journal_length s.journal) (perform_all calls s) ≡ some v)
        × ((b : ℕ)
            → ((get_balance b v).1 ≡ (get_balance b s).1)
              × ((exist b v).1 ≡ (exist b s).1)
              × ((has_suicided b v).1 ≡ (has_suicided b s).1))
  unfolding Like get_balance exist has_suicided
  revert-perform_all calls s =
      let (v, done, like) = revert-Undone s (perform_all calls s) (Undone-perform_all calls s) in
      let same = λ (b : ℕ).
        get_state_object_lem b v ∙ ap not_deleted (like b).0 ∙ sym (get_state_object_lem b s) in
      (v, done, λ b. (ap balance_or (same b), ap some_object (same b), ap suicided_or (same b)))
