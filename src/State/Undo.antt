-- ===== src/State/Undo.antt =====
-- Mitosis/state/journal.go: the journal undoes what the calls of a `StateDB` did. States are compared by
-- what is found in them, loaded or not.
use mitosis.Prelude.{
  ℕ, ◌==◌, if◌then◌else◌, true, false, List, [], ◌∷◌, ◌++◌, Option, none, some, length, ◌≡◌, refl,
  sym, ◌∙◌, ap, subst, inl, inr, arith, Bool-cases,
}
use mitosis.Prelude.Assoc.{lookup, delete, lookup-delete}
use mitosis.State.Calls.{TrieCalls}
use mitosis.State.Journal.{
  StateObject, Entry, suicide_change, balance_change, touch_change, dirtied, clean_if,
}
use mitosis.State.Objects.{StateDb, set_state_object, not_deleted, get_state_object, creation}
use mitosis.State.Revert.{without, rebalance, unsuicide, revert_entry, cleaned, undo}
use mitosis.State.Views.{
  stored, or_else, found, found-set_state_object, get_state_object_lem, found-get_state_object,
  stored-get_state_object,
}

module _ {T : TrieCalls} where
  -- Two states in which the same is found.
  unfoldable pub Like : StateDb T → StateDb T → Type 0
  Like w u =
      (b : ℕ) → (found b w ≡ found b u) × (stored T w.nodes w.trie b ≡ stored T u.nodes u.trie b)

  -- Whatever looks like the later state looks like the earlier one when the entry is undone.
  unfoldable pub Undoes : Entry → StateDb T → StateDb T → Type 0
  Undoes e s u =
      (w : StateDb T) → Like w u → (v : StateDb T) × (revert_entry e w ≡ some v) × Like v s

  unfoldable pub Trail : List Entry → StateDb T → StateDb T → Type 0
  Trail es s u =
      (w : StateDb T) (rest : List Entry)
      → Like w u
      → (v : StateDb T) × (undo (length es) (es ++ rest) (some w) ≡ some v) × Like v s

  pub Trail-nil : (s u : StateDb T) → Like u s → Trail [] s u
  unfolding Trail undo Like
  Trail-nil s u h w rest like = (w, refl, λ b. ((like b).0 ∙ (h b).0, (like b).1 ∙ (h b).1))

  pub Trail-cons :
      (e : Entry) (es : List Entry) (s t u : StateDb T)
      → Undoes e t u
      → Trail es s t
      → Trail (e ∷ es) s u
  unfolding Trail Undoes Like undo found
  Trail-cons e es s t u first later w rest like =
      let (v, done, similar) = first w like in
      let cut : StateDb T = record v {
        journal = clean_if (dirtied e) (record v.journal { entries = es ++ rest });
      } in
      let (x, all, same) = later cut rest similar in
      (x, ap (λ r. undo (length es) (es ++ rest) (cleaned e (es ++ rest) r)) done ∙ all, same)

  -- A state that differs from another at one address.
  unfoldable pub Puts : ℕ → StateObject → StateDb T → StateDb T → Type 0
  Puts a o s u =
      (b : ℕ)
      → (found b u ≡ (if a == b then some o else found b s))
        × (stored T u.nodes u.trie b ≡ stored T s.nodes s.trie b)

  Puts-back :
      (a : ℕ) (o p : StateObject) (s u w : StateDb T)
      → found a s ≡ some p
      → Puts a o s u
      → Like w u
      → Like (set_state_object a p w) s
  unfolding Puts Like set_state_object found
  Puts-back a o p s u w e puts like b = (
    found-set_state_object a b p w ∙ elim (Bool-cases (a == b)) [
      | inl q ↦
          let same : a ≡ b = ground arith in rw q (sym (subst (λ k. found k s ≡ some p) same e))
      | inr q ↦ rw q ((like b).0 ∙ (puts b).0 ∙ rw q refl)
    ],
    (like b).1 ∙ (puts b).1,
  )

  found-stored : (a : ℕ) (s : StateDb T) → found a s ≡ none → stored T s.nodes s.trie a ≡ none
  unfolding found
  found-stored a s e = none_after (lookup a s.objects) (stored T s.nodes s.trie a) e
    where
      none_after : (o p : Option StateObject) → or_else o p ≡ none → p ≡ none
      none_after none p q = q
      none_after (some o) p q = absurd (ground (arith, q))

  gone :
      (a : ℕ) (o : StateObject) (s u w : StateDb T)
      → found a s ≡ none
      → Puts a o s u
      → Like w u
      → Like
          (record w { objects = delete a w.objects; dirty_objects = without a w.dirty_objects })
          s
  unfolding Puts Like found
  gone a o s u w e puts like b = (
    ap (λ t. or_else t (stored T w.nodes w.trie b)) (lookup-delete a b w.objects)
        ∙ elim (Bool-cases (a == b)) [
          | inl q ↦
              let same : a ≡ b = ground arith in
              let none_there : found b s ≡ none = subst (λ k. found k s ≡ none) same e in
              rw q ((like b).1 ∙ (puts b).1 ∙ found-stored b s none_there ∙ sym none_there)
          | inr q ↦ rw q ((like b).0 ∙ (puts b).0 ∙ rw q refl)
        ],
    (like b).1 ∙ (puts b).1,
  )

  Like-get_state_object : (a : ℕ) (u w : StateDb T) → Like w u → Like (get_state_object a w).0 u
  unfolding Like
  Like-get_state_object a u w like b =
      (found-get_state_object a b w ∙ (like b).0, stored-get_state_object a b w ∙ (like b).1)

  -- The object that the entry is about, as it is found.
  loaded :
      (a v : ℕ) (o : StateObject) (s u w : StateDb T)
      → o.deleted ≡ false
      → Puts a (record o { balance = v }) s u
      → Like w u
      → (get_state_object a w).1 ≡ some (record o { balance = v })
  unfolding Puts Like
  loaded a v o s u w live puts like =
      get_state_object_lem a w ∙ ap not_deleted ((like a).0 ∙ (puts a).0) ∙ ground (arith, live)

  pub creation-Undoes :
      (a : ℕ) (o : StateObject) (prev : Option StateObject) (s u : StateDb T)
      → found a s ≡ prev
      → Puts a o s u
      → Undoes (creation a prev) s u
  unfolding Undoes revert_entry
  creation-Undoes a o none s u e puts w like = (
    record w { objects = delete a w.objects; dirty_objects = without a w.dirty_objects },
    refl,
    gone a o s u w e puts like,
  )
  creation-Undoes a o (some p) s u e puts w like =
      (set_state_object a p w, refl, Puts-back a o p s u w e puts like)

  pub balance_change-Undoes :
      (a v : ℕ) (o : StateObject) (s u : StateDb T)
      → found a s ≡ some o
      → o.deleted ≡ false
      → Puts a (record o { balance = v }) s u
      → Undoes (balance_change a o.balance) s u
  unfolding Undoes revert_entry
  balance_change-Undoes a v o s u e live puts w like =
      let held = loaded a v o s u w live puts like in
      (
        set_state_object a o (get_state_object a w).0,
        ap (λ t. rebalance a o.balance ((get_state_object a w).0, t)) held,
        Puts-back a (record o { balance = v }) o s u (get_state_object a w).0 e puts
            (Like-get_state_object a u w like),
      )

  -- A destroyed account gets its balance and its mark back.
  pub suicide_change-Undoes :
      (a : ℕ) (o : StateObject) (s u : StateDb T)
      → found a s ≡ some o
      → o.deleted ≡ false
      → Puts a (record o { suicided = true; balance = 0 }) s u
      → Undoes (suicide_change a o.suicided o.balance) s u
  unfolding Undoes revert_entry Puts Like
  suicide_change-Undoes a o s u e live puts w like =
      let dead : StateObject = record o { suicided = true; balance = 0 } in
      let held : (get_state_object a w).1 ≡ some dead =
        get_state_object_lem a w
        ∙ ap not_deleted ((like a).0 ∙ (puts a).0)
        ∙ ground (arith, live) in
      (
        set_state_object a o (get_state_object a w).0,
        ap (λ t. some (unsuicide a o.suicided o.balance ((get_state_object a w).0, t))) held,
        Puts-back a dead o s u (get_state_object a w).0 e puts (Like-get_state_object a u w like),
      )

  pub touch_change-Undoes : (a : ℕ) (s u : StateDb T) → Like u s → Undoes (touch_change a) s u
  unfolding Undoes revert_entry Like
  touch_change-Undoes a s u h w like = (w, refl, λ b. ((like b).0 ∙ (h b).0, (like b).1 ∙ (h b).1))
