-- ===== src/State/Kept.antt =====
-- Mitosis/state/statedb.go: each call of a `StateDB` keeps it `Sound`, and so does a list of calls.
use mitosis.Prelude.{
  ℕ, ◌+◌, ◌==◌, true, Option, none, some, u64, sub64, ◌≡◌, refl, sym, ◌∙◌, ap, subst, inl, inr,
  arith, Bool-cases,
}
use mitosis.Prelude.Assoc.{insert-insert_self}
use mitosis.State.Calls.{TrieCalls, TrieLaws}
use mitosis.State.Journal.{StateObject, new_object, empty, suicide_change, touch_change, dirty}
use mitosis.State.Objects.{
  StateDb, set_state_object, get_deleted_state_object, not_deleted, get_state_object, log_entry,
  creation, create_object, or_create, get_or_new_state_object,
}
use mitosis.State.Accounts.{
  ripemd, balance_or, get_balance, touch, add_to_object, sub_from_object, add_balance, sub_balance,
  set_balance, suicide, suicide_object, carry_over, create_account,
}
use mitosis.State.Views.{
  found, get_deleted_state_object_lem, found-get_deleted_state_object, get_state_object_lem,
  found-get_state_object,
}
use mitosis.State.Tracked.{tracked_at-log_entry, tracked_at-dirty, Sound}
use mitosis.State.Sound.{
  dirtied-Marks, Sound-get_deleted_state_object, Sound-get_state_object, Sound-write,
  Sound-write_balance, Sound-replace,
}
use mitosis.State.Ledger.{Call, ask, credit, debit, assign, open_account, destroy, perform}

module _ {T : TrieCalls} where
  pub set_state_object-set_state_object :
      (a : ℕ) (o p : StateObject) (s : StateDb T)
      → set_state_object a o (set_state_object a p s) ≡ set_state_object a o s
  unfolding set_state_object
  set_state_object-set_state_object a o p s =
      ap (λ t. record s { objects = t }) (insert-insert_self a o p s.objects)

module _ {T : TrieCalls} (L : TrieLaws T) where
  -- A new object, where there was none or one that is deleted.
  Sound-create_object :
      (a : ℕ) (s : StateDb T)
      → not_deleted (found a s) ≡ none
      → Sound L s
      → Sound L (create_object a s).0
  unfolding create_object
  Sound-create_object a s gone h =
      let (s1, prev) = get_deleted_state_object a s in
      let e : prev ≡ found a s = get_deleted_state_object_lem a s in
      subst (λ v. Sound L (set_state_object a (new_object v) (log_entry (creation a prev) s1)))
        (ap (λ o. balance_or (not_deleted o)) e ∙ ap balance_or gone)
        (Sound-replace L a prev s1 (found-get_deleted_state_object a a s ∙ sym e)
          (Sound-get_deleted_state_object L a s h))

  Sound-or_create :
      (a : ℕ) (s : StateDb T) (o : Option StateObject)
      → o ≡ not_deleted (found a s)
      → Sound L s
      → Sound L (or_create a (s, o)).0
  unfolding create_object
  Sound-or_create a s none e h = Sound-create_object a s (sym e) h
  Sound-or_create a s (some o) e h = h

  Sound-get_or_new_state_object :
      (a : ℕ) (s : StateDb T) → Sound L s → Sound L (get_or_new_state_object a s).0
  unfolding get_or_new_state_object
  Sound-get_or_new_state_object a s h =
      Sound-or_create a (get_state_object a s).0 (get_state_object a s).1
        (get_state_object_lem a s ∙ ap not_deleted (sym (found-get_state_object a a s)))
        (Sound-get_state_object L a s h)

  Sound-marked :
      (a : ℕ) (s : StateDb T) → Sound L s → Sound L (record s { journal = dirty a s.journal })
  Sound-marked a s h = record {
    whole = h.whole;
    no_error = h.no_error;
    all_tracked = λ b. tracked_at-dirty a b s (h.all_tracked b);
  }

  Sound-touch : (a : ℕ) (s : StateDb T) → Sound L s → Sound L (touch a s)
  unfolding touch log_entry
  Sound-touch a s h =
      let logged : Sound L (log_entry (touch_change a) s) = record {
        whole = h.whole;
        no_error = h.no_error;
        all_tracked = λ b.
            tracked_at-log_entry a b (touch_change a) s (dirtied-Marks a (touch_change a) refl)
              (h.all_tracked b);
      } in
      elim (Bool-cases (a == ripemd)) [
        | inl e ↦ rw e (Sound-marked a (log_entry (touch_change a) s) logged)
        | inr e ↦ rw e logged
      ]

  Sound-add_to_object :
      (a : ℕ) (o : StateObject) (v : ℕ) (s : StateDb T)
      → Sound L s
      → Sound L (add_to_object a o v s)
  unfolding add_to_object
  Sound-add_to_object a o v s h = elim (Bool-cases (v == 0)) [
    | inl e ↦
        rw e (elim (Bool-cases (empty o)) [ inl f ↦ rw f (Sound-touch a s h) | inr f ↦ rw f h ])
    | inr e ↦ rw e (Sound-write_balance L a o (u64 (o.balance + v)) s (ground arith) h)
  ]

  Sound-sub_from_object :
      (a : ℕ) (o : StateObject) (v : ℕ) (s : StateDb T)
      → Sound L s
      → Sound L (sub_from_object a o v s)
  unfolding sub_from_object
  Sound-sub_from_object a o v s h = elim (Bool-cases (v == 0)) [
    | inl e ↦ rw e h
    | inr e ↦ rw e (Sound-write_balance L a o (sub64 o.balance v) s (ground arith) h)
  ]

  Sound-suicide_object :
      (a : ℕ) (s : StateDb T) (o : Option StateObject)
      → Sound L s
      → Sound L (suicide_object a (s, o)).0
  unfolding set_state_object log_entry
  Sound-suicide_object a s none h = h
  Sound-suicide_object a s (some o) h =
      Sound-write L a (suicide_change a o.suicided o.balance)
        (record o { suicided = true; balance = 0 }) s
        (dirtied-Marks a (suicide_change a o.suicided o.balance) refl) (ground arith) h

  -- The account that is made anew has the balance of the one before.
  Sound-carry_over :
      (a : ℕ) (s : StateDb T) (prev : Option StateObject)
      → found a s ≡ prev
      → Sound L s
      → Sound L (
          carry_over a
            (set_state_object a (new_object 0) (log_entry (creation a prev) s), not_deleted prev))
  Sound-carry_over a s prev e h = carried (not_deleted prev) refl
    where
      made : ℕ → StateDb T
      made v = set_state_object a (new_object v) (log_entry (creation a prev) s)

      sound : (v : ℕ) → balance_or (not_deleted prev) ≡ v → Sound L (made v)
      sound v q = subst (λ t. Sound L (made t)) q (Sound-replace L a prev s e h)

      carried :
          (kept : Option StateObject)
          → not_deleted prev ≡ kept
          → Sound L (carry_over a (made 0, kept))
      carried none q = sound 0 (ap balance_or q)
      carried (some o) q =
          subst (λ t. Sound L t)
            (sym (
              set_state_object-set_state_object a (new_object o.balance) (new_object 0)
                (log_entry (creation a prev) s)))
            (sound o.balance (ap balance_or q))

  Sound-create_account : (a : ℕ) (s : StateDb T) → Sound L s → Sound L (create_account a s)
  unfolding create_account create_object
  Sound-create_account a s h =
      let (s1, prev) = get_deleted_state_object a s in
      Sound-carry_over a s1 prev
        (found-get_deleted_state_object a a s ∙ sym (get_deleted_state_object_lem a s))
        (Sound-get_deleted_state_object L a s h)

  pub Sound-perform : (call : Call) (s : StateDb T) → Sound L s → Sound L (perform call s)
  unfolding perform get_balance add_balance sub_balance set_balance suicide
  Sound-perform (ask a) s h = Sound-get_state_object L a s h
  Sound-perform (credit a v) s h =
      Sound-add_to_object a (get_or_new_state_object a s).1 (u64 v) (get_or_new_state_object a s).0
        (Sound-get_or_new_state_object a s h)
  Sound-perform (debit a v) s h =
      Sound-sub_from_object a (get_or_new_state_object a s).1 (u64 v)
        (get_or_new_state_object a s).0 (Sound-get_or_new_state_object a s h)
  Sound-perform (assign a v) s h =
      Sound-write_balance L a (get_or_new_state_object a s).1 (u64 v)
        (get_or_new_state_object a s).0 (ground arith) (Sound-get_or_new_state_object a s h)
  Sound-perform (open_account a) s h = Sound-create_account a s h
  Sound-perform (destroy a) s h =
      Sound-suicide_object a (get_state_object a s).0 (get_state_object a s).1
        (Sound-get_state_object L a s h)
