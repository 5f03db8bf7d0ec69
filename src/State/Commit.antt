-- ===== src/State/Commit.antt =====
-- Mitosis/state/statedb.go: `Commit`, and what `New` finds at the root that it returns.
use mitosis.Prelude.{
  ℕ, ◌^◌, ◌<◌, ◌==◌, if◌then◌else◌, Bool, true, false, List, [], ◌∷◌, Option, none, some, ◌≡◌, refl,
  sym, ◌∙◌, ap, subst, inl, inr, arith, Bool-cases,
}
use mitosis.Prelude.Assoc.{lookup}
use mitosis.State.Calls.{TrieCalls, TrieLaws}
use mitosis.State.Journal.{StateObject, new_object}
use mitosis.State.Objects.{StateDb, set_error}
use mitosis.State.Accounts.{some_object}
use mitosis.State.Roots.{
  mem, store_trie, update_state_object, delete_state_object, write_object, write_found, write_all,
}
use mitosis.State.Views.{stored, parsed, read_object, found, balance}
use mitosis.State.Tracked.{fits, tracked}
use mitosis.State.Settled.{mem_first, tracked_fits, final, Writing}

-- An object in the loop, and after it is written.
tracked_there :
    (live held : Option StateObject) → tracked false true live held ≡ true → some_object live ≡ true
tracked_there live held h = ground (arith, h)

tracked_removed :
    (m p : Bool) (o : StateObject) (held : Option StateObject)
    → o.deleted ≡ true
    → tracked false p (some o) held ≡ true
    → tracked false m (some o) none ≡ true
tracked_removed m p o held gone h = ground (arith, gone, h)

tracked_written :
    (m p : Bool) (o : StateObject) (held : Option StateObject)
    → o.deleted ≡ false
    → tracked false p (some o) held ≡ true
    → tracked false m (some o) (some (new_object o.balance)) ≡ true
tracked_written m p o held live h = ground (arith, live, h)

module _ {T : TrieCalls} (L : TrieLaws T) where
  -- What a trie holds under the other addresses after one is written, and under that one.
  Stores : StateDb T → ℕ → Option StateObject → T.Trie → Type 0
  Stores s a o after =
      (k : ℕ) → stored T s.nodes after k ≡ (if a == k then o else stored T s.nodes s.trie k)

  read_if :
      (b : Bool) (read other : Option (List ℕ))
      → read_object T (if b then read else other)
        ≡ (if b then read_object T read else read_object T other)
  read_if true read other = refl
  read_if false read other = refl

  delete-Stores :
      (s : StateDb T) (a : ℕ)
      → L.Whole s.nodes s.trie
      → (after : T.Trie) × (T.try_delete s.nodes s.trie a ≡ some after)
        × L.Whole s.nodes after
        × Stores s a none after
  unfolding stored Stores
  delete-Stores s a whole =
      let (after, done, still, reads) = L.delete_whole s.nodes s.trie a whole in
      (
        after,
        done,
        still,
        λ k. ap (read_object T) (reads k) ∙ read_if (a == k) (some []) (T.try_get s.nodes s.trie k),
      )

  update-Stores :
      (s : StateDb T) (a balance : ℕ)
      → balance < 2 ^ 64
      → L.Whole s.nodes s.trie
      → (after : T.Trie) × (T.try_update s.nodes s.trie a (T.encode_account balance) ≡ some after)
        × L.Whole s.nodes after
        × Stores s a (some (new_object balance)) after
  unfolding stored Stores
  update-Stores s a balance small whole =
      let (b, bytes, e) = L.encode_cons balance in
      let (after, done, still, reads) = L.update_whole s.nodes s.trie a b bytes whole in
      let back : T.decode_account (b ∷ bytes) ≡ some balance =
        ap T.decode_account (sym e) ∙ L.decode-encode balance small in
      (
        after,
        ap (T.try_update s.nodes s.trie a) e ∙ done,
        still,
        λ k.
            ap (read_object T) (reads k)
            ∙ read_if (a == k) (some (b ∷ bytes)) (T.try_get s.nodes s.trie k)
            ∙ ap (λ t. if a == k then parsed t else stored T s.nodes s.trie k) back,
      )

  -- One object in the loop.
  unfoldable pub Wrote : List ℕ → StateDb T → Option (StateDb T) → Type 0
  Wrote rest s result =
      (t : StateDb T) × (result ≡ some t) × Writing L rest t × ((b : ℕ) → final b t ≡ final b s)

  Wrote-store :
      (a : ℕ) (rest : List ℕ) (o : StateObject) (held : Option StateObject) (s : StateDb T)
      (after : T.Trie)
      → lookup a s.objects ≡ some o
      → Stores s a held after
      → L.Whole s.nodes after
      → ((m p : Bool) (old : Option StateObject)
          → tracked false p (some o) old ≡ true
          → tracked false m (some o) held ≡ true)
      → Writing L (a ∷ rest) s
      → Wrote rest s (some (store_trie s (some after)))
  unfolding Stores Wrote final found set_error mem
  Wrote-store a rest o held s after there reads whole settle h = (
    store_trie s (some after),
    refl,
    record {
      whole = whole;
      no_error = h.no_error;
      writing = λ b. rw (reads b) (elim (Bool-cases (a == b)) [
        | inl q ↦
            let same : a ≡ b = ground arith in
            let here : lookup b s.objects ≡ some o =
              subst (λ k. lookup k s.objects ≡ some o) same there in
            rw (q, here)
              (settle (mem b rest) (mem b (a ∷ rest)) (stored T s.nodes s.trie b) (
                ap (λ t. tracked false (mem b (a ∷ rest)) t (stored T s.nodes s.trie b)) (sym here)
                ∙ h.writing b))
        | inr q ↦ rw q (
            ap (λ t. tracked false t (lookup b s.objects) (stored T s.nodes s.trie b)) (rw q refl)
            ∙ h.writing b)
      ]);
    },
    λ b. rw (reads b) (elim (Bool-cases (a == b)) [
      | inl q ↦
          let same : a ≡ b = ground arith in
          let here : lookup b s.objects ≡ some o =
            subst (λ k. lookup k s.objects ≡ some o) same there in
          rw here refl
      | inr q ↦ rw q refl
    ]),
  )

  fits_small : (o : StateObject) → fits (some o) ≡ true → o.balance < 2 ^ 64
  fits_small o e = ground (arith, e)

  Wrote-write_object :
      (a : ℕ) (rest : List ℕ) (o : StateObject) (s : StateDb T)
      → lookup a s.objects ≡ some o
      → Writing L (a ∷ rest) s
      → Wrote rest s (some (write_object a o s))
  unfolding write_object update_state_object delete_state_object set_error
  Wrote-write_object a rest o s there h = elim (Bool-cases o.deleted) [
    | inl gone ↦
        let (after, done, whole, reads) = delete-Stores s a h.whole in
        rw (gone, done)
          (Wrote-store a rest o none s after there reads whole
            (λ m p old e. tracked_removed m p o old gone e) h)
    | inr live ↦
        let small : o.balance < 2 ^ 64 = fits_small o (
          ap fits (sym there)
          ∙ tracked_fits false (mem a (a ∷ rest)) (lookup a s.objects) (stored T s.nodes s.trie a)
              (h.writing a)) in
        let (after, done, whole, reads) = update-Stores s a o.balance small h.whole in
        rw (live, done)
          (Wrote-store a rest o (some (new_object o.balance)) s after there reads whole
            (λ m p old e. tracked_written m p o old live e) h)
  ]

  Wrote-write_found :
      (a : ℕ) (rest : List ℕ) (o : Option StateObject) (s : StateDb T)
      → lookup a s.objects ≡ o
      → Writing L (a ∷ rest) s
      → Wrote rest s (write_found a o s)
  unfolding write_object
  Wrote-write_found a rest none s there h = absurd (
      ground (
        arith,
        ap some_object (sym there)
            ∙ tracked_there (lookup a s.objects) (stored T s.nodes s.trie a) (
                ap (λ t. tracked false t (lookup a s.objects) (stored T s.nodes s.trie a))
                  (sym (mem_first a rest))
                ∙ h.writing a),
      ))
  Wrote-write_found a rest (some o) s there h = Wrote-write_object a rest o s there h

  -- The loop, to its end.
  pub Wrote-write_all :
      (list : List ℕ) (s : StateDb T) → Writing L list s → Wrote [] s (write_all list (some s))
  unfolding write_all Wrote
  Wrote-write_all [] s h = (s, refl, h, λ b. refl)
  Wrote-write_all (a ∷ rest) s h =
      let (t, e, next, kept) = Wrote-write_found a rest (lookup a s.objects) s refl h in
      let (u, f, last, same) = Wrote-write_all rest t next in
      (u, ap (write_all rest) e ∙ f, last, λ b. same b ∙ kept b)
