-- ===== src/State/Balances.antt =====
-- The balances of a `StateDB` of Mitosis/state under its calls: those of a plain ledger.
use mitosis.Prelude.{
  ℕ, ◌+◌, ◌^◌, ◌<◌, ◌==◌, if◌then◌else◌, true, false, Option, none, some, u64, sub64, ◌≡◌, refl,
  sym, ◌∙◌, ap, subst, inl, inr, arith, Bool-cases,
}
use mitosis.State.Calls.{TrieCalls}
use mitosis.State.Journal.{StateObject, new_object, Entry, balance_change, suicide_change}
use mitosis.State.Objects.{
  StateDb, set_state_object, not_deleted, get_deleted_state_object, get_state_object, log_entry,
  creation, create_object, or_create, get_or_new_state_object,
}
use mitosis.State.Accounts.{
  ripemd, balance_or, get_balance, touch, write_balance, add_to_object, sub_from_object,
  add_balance, sub_balance, set_balance, carry_over, create_account, suicide_object, suicide,
}
use mitosis.State.Views.{
  found, balance, found-set_state_object, get_deleted_state_object_lem,
  found-get_deleted_state_object, get_state_object_lem, found-get_state_object,
}

module _ {T : TrieCalls} where
  pub found-log_entry : (e : Entry) (b : ℕ) (s : StateDb T) → found b (log_entry e s) ≡ found b s
  unfolding found log_entry
  found-log_entry e b s = refl

  pub balance_found : (b : ℕ) (s t : StateDb T) → found b s ≡ found b t → balance b s ≡ balance b t
  unfolding balance
  balance_found b s t e = ap (λ o. balance_or (not_deleted o)) e

  pub balance-set_state_object :
      (a b : ℕ) (o : StateObject) (s : StateDb T)
      → o.deleted ≡ false
      → balance b (set_state_object a o s) ≡ (if a == b then o.balance else balance b s)
  unfolding balance
  balance-set_state_object a b o s e =
      ap (λ t. balance_or (not_deleted t)) (found-set_state_object a b o s) ∙ ground (arith, e)

  pub found-create_object :
      (a b : ℕ) (s : StateDb T)
      → found b (create_object a s).0 ≡ (if a == b then some (new_object 0) else found b s)
  unfolding create_object log_entry found
  found-create_object a b s =
      found-set_state_object a b (new_object 0)
        (log_entry (creation a (get_deleted_state_object a s).1) (get_deleted_state_object a s).0)
      ∙ ap (λ t. if a == b then some (new_object 0) else t) (found-get_deleted_state_object a b s)

pub not_deleted-live :
    (found : Option StateObject) (o : StateObject) → not_deleted found ≡ some o → o.deleted ≡ false
not_deleted-live none o e = ground (arith, e)
not_deleted-live (some p) o e = ground (arith, e)

module _ {T : TrieCalls} where
  or_create_balance :
      (a b : ℕ) (s t : StateDb T) (o : Option StateObject)
      → ((k : ℕ) → found k t ≡ found k s)
      → o ≡ not_deleted (found a s)
      → balance b (or_create a (t, o)).0 ≡ balance b s
  unfolding create_object balance
  or_create_balance a b s t none same e =
      ap (λ x. balance_or (not_deleted x)) (found-create_object a b t)
      ∙ ground (arith, same b, ap balance_or e)
  or_create_balance a b s t (some o) same e = balance_found b t s (same b)

  or_create_live :
      (a : ℕ) (s t : StateDb T) (o : Option StateObject)
      → o ≡ not_deleted (found a s)
      → (or_create a (t, o)).1.deleted ≡ false
  unfolding create_object
  or_create_live a s t none e = refl
  or_create_live a s t (some o) e = not_deleted-live (found a s) o (sym e)

  or_create_holds :
      (a : ℕ) (s t : StateDb T) (o : Option StateObject)
      → o ≡ not_deleted (found a s)
      → (or_create a (t, o)).1.balance ≡ balance a s
  unfolding create_object balance
  or_create_holds a s t none e = ap balance_or e
  or_create_holds a s t (some o) e = ap balance_or e

  pub balance-get_or_new_state_object :
      (a b : ℕ) (s : StateDb T) → balance b (get_or_new_state_object a s).0 ≡ balance b s
  unfolding get_or_new_state_object
  balance-get_or_new_state_object a b s =
      or_create_balance a b s (get_state_object a s).0 (get_state_object a s).1
        (λ k. found-get_state_object a k s) (get_state_object_lem a s)

  pub get_or_new_state_object-live :
      (a : ℕ) (s : StateDb T) → (get_or_new_state_object a s).1.deleted ≡ false
  unfolding get_or_new_state_object
  get_or_new_state_object-live a s =
      or_create_live a s (get_state_object a s).0 (get_state_object a s).1
        (get_state_object_lem a s)

  pub get_or_new_state_object_balance :
      (a : ℕ) (s : StateDb T) → (get_or_new_state_object a s).1.balance ≡ balance a s
  unfolding get_or_new_state_object
  get_or_new_state_object_balance a s =
      or_create_holds a s (get_state_object a s).0 (get_state_object a s).1
        (get_state_object_lem a s)

  pub balance-write_balance :
      (a b : ℕ) (o : StateObject) (v : ℕ) (s : StateDb T)
      → o.deleted ≡ false
      → balance b (write_balance a o v s) ≡ (if a == b then v else balance b s)
  unfolding write_balance log_entry balance found
  balance-write_balance a b o v s e =
      balance-set_state_object a b (record o { balance = v })
        (log_entry (balance_change a o.balance) s) e

  balance-touch : (a b : ℕ) (s : StateDb T) → balance b (touch a s) ≡ balance b s
  unfolding touch log_entry balance found
  balance-touch a b s = elim (Bool-cases (a == ripemd)) [ inl e ↦ rw e refl | inr e ↦ rw e refl ]

  -- `AddBalance` and `SubBalance` of an object that stands in the state.
  balance-add_to_object :
      (a b : ℕ) (o : StateObject) (v : ℕ) (s : StateDb T)
      → o.deleted ≡ false
      → o.balance ≡ balance a s
      → balance a s < 2 ^ 64
      → balance b (add_to_object a o v s) ≡ (if a == b then u64 (balance b s + v) else balance b s)
  unfolding add_to_object
  balance-add_to_object a b o v s live e small =
      ground
        (arith, balance-touch a b s, balance-write_balance a b o (u64 (o.balance + v)) s live, e)

  balance-sub_from_object :
      (a b : ℕ) (o : StateObject) (v : ℕ) (s : StateDb T)
      → o.deleted ≡ false
      → o.balance ≡ balance a s
      → balance a s < 2 ^ 64
      → balance b (sub_from_object a o v s)
        ≡ (if a == b then sub64 (balance b s) v else balance b s)
  unfolding sub_from_object
  balance-sub_from_object a b o v s live e small =
      ground (arith, balance-write_balance a b o (sub64 o.balance v) s live, e)

  pub balance-add_balance :
      (a b v : ℕ) (s : StateDb T)
      → balance a s < 2 ^ 64
      → balance b (add_balance a v s) ≡ (if a == b then u64 (balance b s + v) else balance b s)
  unfolding add_balance
  balance-add_balance a b v s small =
      let (s1, o) = get_or_new_state_object a s in
      balance-add_to_object a b o v s1 (get_or_new_state_object-live a s)
        (get_or_new_state_object_balance a s ∙ sym (balance-get_or_new_state_object a a s))
        (subst (λ t. t < 2 ^ 64) (sym (balance-get_or_new_state_object a a s)) small)
      ∙ ap (λ t. if a == b then u64 (t + v) else t) (balance-get_or_new_state_object a b s)

  pub balance-sub_balance :
      (a b v : ℕ) (s : StateDb T)
      → balance a s < 2 ^ 64
      → balance b (sub_balance a v s) ≡ (if a == b then sub64 (balance b s) v else balance b s)
  unfolding sub_balance
  balance-sub_balance a b v s small =
      let (s1, o) = get_or_new_state_object a s in
      balance-sub_from_object a b o v s1 (get_or_new_state_object-live a s)
        (get_or_new_state_object_balance a s ∙ sym (balance-get_or_new_state_object a a s))
        (subst (λ t. t < 2 ^ 64) (sym (balance-get_or_new_state_object a a s)) small)
      ∙ ap (λ t. if a == b then sub64 t v else t) (balance-get_or_new_state_object a b s)

  pub balance-set_balance :
      (a b v : ℕ) (s : StateDb T)
      → balance b (set_balance a v s) ≡ (if a == b then v else balance b s)
  unfolding set_balance
  balance-set_balance a b v s =
      let (s1, o) = get_or_new_state_object a s in
      balance-write_balance a b o v s1 (get_or_new_state_object-live a s)
      ∙ ap (λ t. if a == b then v else t) (balance-get_or_new_state_object a b s)

  balance-carry_over :
      (a b : ℕ) (s t : StateDb T) (prev : Option StateObject)
      → ((k : ℕ) → found k t ≡ (if a == k then some (new_object 0) else found k s))
      → prev ≡ not_deleted (found a s)
      → balance b (carry_over a (t, prev)) ≡ balance b s
  unfolding balance
  balance-carry_over a b s t none made e =
      ap (λ x. balance_or (not_deleted x)) (made b) ∙ ground (arith, ap balance_or e)
  balance-carry_over a b s t (some prev) made e =
      balance-set_state_object a b (new_object prev.balance) t refl
      ∙ ap (λ x. if a == b then prev.balance else balance_or (not_deleted x)) (made b)
      ∙ ground (arith, ap balance_or e)

  pub balance-create_account :
      (a b : ℕ) (s : StateDb T) → balance b (create_account a s) ≡ balance b s
  unfolding create_account create_object
  balance-create_account a b s =
      balance-carry_over a b s (create_object a s).0 (create_object a s).1
        (λ k. found-create_object a k s) (ap not_deleted (get_deleted_state_object_lem a s))

  pub balance-get_balance : (a b : ℕ) (s : StateDb T) → balance b (get_balance a s).0 ≡ balance b s
  unfolding get_balance
  balance-get_balance a b s =
      balance_found b (get_state_object a s).0 s (found-get_state_object a b s)

  balance-suicide_object :
      (a b : ℕ) (s t : StateDb T) (o : Option StateObject)
      → ((k : ℕ) → found k t ≡ found k s)
      → o ≡ not_deleted (found a s)
      → balance b (suicide_object a (t, o)).0 ≡ (if a == b then 0 else balance b s)
  unfolding balance log_entry found
  balance-suicide_object a b s t none same e =
      ap (λ x. balance_or (not_deleted x)) (same b) ∙ ground (arith, ap balance_or e)
  balance-suicide_object a b s t (some o) same e =
      balance-set_state_object a b (record o { suicided = true; balance = 0 })
        (log_entry (suicide_change a o.suicided o.balance) t)
        (not_deleted-live (found a s) o (sym e))
      ∙ ap (λ x. if a == b then 0 else balance_or (not_deleted x)) (same b)

  pub balance-suicide :
      (a b : ℕ) (s : StateDb T) → balance b (suicide a s).0 ≡ (if a == b then 0 else balance b s)
  unfolding suicide
  balance-suicide a b s =
      balance-suicide_object a b s (get_state_object a s).0 (get_state_object a s).1
        (λ k. found-get_state_object a k s) (get_state_object_lem a s)
