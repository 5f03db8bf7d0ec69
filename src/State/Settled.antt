-- ===== src/State/Settled.antt =====
-- Mitosis/state/statedb.go: what `Finalise` and the loop of `IntermediateRoot` do to the objects that
-- differ from what the trie holds.
use mitosis.Prelude.{
  ℕ, ◌==◌, if◌then◌else◌, Bool, true, false, List, [], ◌∷◌, Option, none, some, ◌≡◌, refl, sym, ◌∙◌,
  ap, subst, inl, inr, arith, Bool-cases,
}
use mitosis.Prelude.Assoc.{lookup, lookup-insert}
use mitosis.State.Calls.{TrieCalls, TrieLaws}
use mitosis.State.Journal.{StateObject, empty}
use mitosis.State.Objects.{StateDb, set_state_object}
use mitosis.State.Roots.{
  mem, put, keys, marked, clear_journal_and_refund, finalise_found, finalise_all, finalise,
}
use mitosis.State.Views.{stored, found}
use mitosis.State.Tracked.{
  final_or, plain, fits, some_count, tracked, in_journal, tracked_at, Sound,
}
use mitosis.State.Sound.{stored-plain}

pub mem_other : (a b : ℕ) (rest : List ℕ) → (a == b) ≡ false → mem b (a ∷ rest) ≡ mem b rest
unfolding mem
mem_other a b rest q = rw q refl

pub mem_first : (a : ℕ) (rest : List ℕ) → mem a (a ∷ rest) ≡ true
unfolding mem
mem_first a rest = ground arith

mem-put : (a b : ℕ) (set : List ℕ) → mem b (put a set) ≡ (if a == b then true else mem b set)
unfolding mem put
mem-put a b set = elim (Bool-cases (mem a set)) [
  | inl e ↦ rw e (elim (Bool-cases (a == b)) [
    | inl q ↦ let same : a ≡ b = ground arith in rw q (subst (λ k. mem k set ≡ true) same e)
    | inr q ↦ rw q refl
  ])
  | inr e ↦ rw e refl
]

pub mem-keys :
    (b : ℕ) (dirties : List (ℕ × ℕ)) → mem b (keys dirties) ≡ some_count (lookup b dirties)
unfolding mem keys lookup
mem-keys b [] = refl
mem-keys b ((key, n) ∷ rest) = ground (arith, mem-keys b rest)

-- One address in a round of `Finalise`.
tracked_finalised :
    (later p : Bool) (o : StateObject) (held : Option StateObject) (delete_empty : Bool)
    → fits (some o) ≡ true
    → tracked later true (some (marked delete_empty o)) held ≡ true
unfolding marked empty
tracked_finalised later p o held delete_empty h = ground (arith, h)

tracked_absent :
    (later m p : Bool) (held : Option StateObject)
    → plain held ≡ true
    → tracked m p none held ≡ true
    → tracked later p none held ≡ true
tracked_absent later m p none clean h = ground (arith, h)
tracked_absent later m p (some o) clean h = ground (arith, clean, h)

pub tracked_fits :
    (m p : Bool) (live held : Option StateObject) → tracked m p live held ≡ true → fits live ≡ true
tracked_fits m p live held h = ground (arith, h)

final_or-marked :
    (delete_empty : Bool) (o : StateObject)
    → final_or (some (marked delete_empty o)) ≡ final_or (some o)
unfolding marked empty
final_or-marked delete_empty o = ground arith

module _ {T : TrieCalls} where
  unfoldable pub final : ℕ → StateDb T → ℕ
  unfolding found
  final b s = final_or (found b s)

  -- With the addresses of a list still to do: in `Finalise` those that the journal marks, in
  -- `IntermediateRoot` those that are pending.
  record Settling (L : TrieLaws T) (rest : List ℕ) (s : StateDb T) : Type 0 where
    whole : L.Whole s.nodes s.trie
    no_error : s.db_err ≡ false
    settling :
        (b : ℕ)
        → tracked (mem b rest) (mem b s.pending) (lookup b s.objects) (stored T s.nodes s.trie b)
          ≡ true

  pub record Writing (L : TrieLaws T) (rest : List ℕ) (s : StateDb T) : Type 0 where
    pub whole : L.Whole s.nodes s.trie
    pub no_error : s.db_err ≡ false
    pub writing :
        (b : ℕ) → tracked false (mem b rest) (lookup b s.objects) (stored T s.nodes s.trie b) ≡ true

module _ {T : TrieCalls} (L : TrieLaws T) (delete_empty : Bool) where
  finalised_none :
      (a b : ℕ) (rest : List ℕ) (s : StateDb T)
      → lookup a s.objects ≡ none
      → Settling L (a ∷ rest) s
      → tracked (mem b rest) (mem b s.pending) (lookup b s.objects) (stored T s.nodes s.trie b)
        ≡ true
  finalised_none a b rest s e h = elim (Bool-cases (a == b)) [
    | inl q ↦
        let same : a ≡ b = ground arith in
        let absent : lookup b s.objects ≡ none = subst (λ k. lookup k s.objects ≡ none) same e in
        let held = stored T s.nodes s.trie b in
        rw absent (
          tracked_absent (mem b rest) (mem b (a ∷ rest)) (mem b s.pending) held
            (stored-plain L s.nodes s.trie b)
            (ap (λ t. tracked (mem b (a ∷ rest)) (mem b s.pending) t held) (sym absent)
              ∙ h.settling b))
    | inr q ↦
        ap (λ t. tracked t (mem b s.pending) (lookup b s.objects) (stored T s.nodes s.trie b))
          (sym (mem_other a b rest q))
        ∙ h.settling b
  ]

  finalised_some :
      (a b : ℕ) (rest : List ℕ) (o : StateObject) (s : StateDb T)
      → lookup a s.objects ≡ some o
      → Settling L (a ∷ rest) s
      → tracked
          (mem b rest)
          (if a == b then true else mem b s.pending)
          (if a == b then some (marked delete_empty o) else lookup b s.objects)
          (stored T s.nodes s.trie b)
        ≡ true
  finalised_some a b rest o s e h = elim (Bool-cases (a == b)) [
    | inl q ↦
        let same : a ≡ b = ground arith in
        let there : lookup b s.objects ≡ some o = subst (λ k. lookup k s.objects ≡ some o) same e in
        let held = stored T s.nodes s.trie b in
        rw q (
          tracked_finalised (mem b rest) true o held delete_empty (
            ap fits (sym there)
            ∙ tracked_fits (mem b (a ∷ rest)) (mem b s.pending) (lookup b s.objects) held
                (h.settling b)))
    | inr q ↦ rw q (
        ap (λ t. tracked t (mem b s.pending) (lookup b s.objects) (stored T s.nodes s.trie b))
          (sym (mem_other a b rest q))
        ∙ h.settling b)
  ]

  Settling-finalise_found :
      (a : ℕ) (rest : List ℕ) (o : Option StateObject) (s : StateDb T)
      → lookup a s.objects ≡ o
      → Settling L (a ∷ rest) s
      → Settling L rest (finalise_found delete_empty a o s)
  unfolding set_state_object
  Settling-finalise_found a rest none s e h = record {
    whole = h.whole;
    no_error = h.no_error;
    settling = λ b. finalised_none a b rest s e h;
  }
  Settling-finalise_found a rest (some o) s e h = record {
    whole = h.whole;
    no_error = h.no_error;
    settling = λ b. rw (lookup-insert, mem-put) (finalised_some a b rest o s e h);
  }

  final-finalise_found :
      (a b : ℕ) (o : Option StateObject) (s : StateDb T)
      → lookup a s.objects ≡ o
      → final b (finalise_found delete_empty a o s) ≡ final b s
  unfolding final set_state_object found
  final-finalise_found a b none s e = refl
  final-finalise_found a b (some o) s e = elim (Bool-cases (a == b)) [
    | inl q ↦
        let same : a ≡ b = ground arith in
        let there : lookup b s.objects ≡ some o = subst (λ k. lookup k s.objects ≡ some o) same e in
        rw (lookup-insert, q, there) (final_or-marked delete_empty o)
    | inr q ↦ rw (lookup-insert, q) refl
  ]

  Settling-finalise_all :
      (list : List ℕ) (s : StateDb T)
      → Settling L list s
      → Settling L [] (finalise_all delete_empty list s)
  unfolding finalise_all
  Settling-finalise_all [] s h = h
  Settling-finalise_all (a ∷ rest) s h =
      Settling-finalise_all rest (finalise_found delete_empty a (lookup a s.objects) s)
        (Settling-finalise_found a rest (lookup a s.objects) s refl h)

  final-finalise_all :
      (list : List ℕ) (b : ℕ) (s : StateDb T)
      → final b (finalise_all delete_empty list s) ≡ final b s
  unfolding finalise_all
  final-finalise_all [] b s = refl
  final-finalise_all (a ∷ rest) b s =
      final-finalise_all rest b (finalise_found delete_empty a (lookup a s.objects) s)
      ∙ final-finalise_found a b (lookup a s.objects) s refl

  keys-Settling : (s : StateDb T) → Sound L s → Settling L (keys s.journal.dirties) s
  unfolding tracked_at in_journal
  keys-Settling s h = record {
    whole = h.whole;
    no_error = h.no_error;
    settling = λ b. rw mem-keys (h.all_tracked b);
  }

  pub Writing-finalise :
      (s : StateDb T)
      → Sound L s
      → Writing L (finalise delete_empty s).pending (finalise delete_empty s)
  unfolding finalise clear_journal_and_refund mem
  Writing-finalise s h =
      let done = Settling-finalise_all (keys s.journal.dirties) s (keys-Settling s h) in
      record { whole = done.whole; no_error = done.no_error; writing = λ b. done.settling b }

  pub final-finalise : (b : ℕ) (s : StateDb T) → final b (finalise delete_empty s) ≡ final b s
  unfolding finalise clear_journal_and_refund final found
  final-finalise b s = final-finalise_all (keys s.journal.dirties) b s
