-- ===== src/State/Copied.antt =====
-- `Copy` of Mitosis/state/statedb.go leaves out objects, and what it leaves out is in the trie.
use mitosis.Prelude.{
  ℕ, ◌^◌, ◌<◌, ◌==◌, Bool, true, false, List, [], ◌∷◌, Option, none, some, ◌≡◌, refl, sym, ◌∙◌, ap,
  subst, inl, inr, arith, Bool-cases, Option-cases,
}
use mathlib.Core.Path.{fun_ext}
use mitosis.Prelude.Assoc.{lookup, lookup-insert}
use mitosis.State.Calls.{TrieCalls, TrieLaws}
use mitosis.State.Journal.{StateObject}
use mitosis.State.Objects.{StateDb, set_state_object, not_deleted}
use mitosis.State.Accounts.{balance_or, some_object, get_balance}
use mitosis.State.Roots.{mem, keys}
use mitosis.State.Copy.{
  deep_copy, copy_dirtied, copy_journal, copy_object, copy_marked, mark_pending, mark_dirty,
  basic_copy, copy,
}
use mitosis.State.Views.{stored, read_object, found, balance, or_else, get_balance_lem}
use mitosis.State.Ledger.{Call, run_calls, replay, run_calls_refines_replay}
use mitosis.State.Tracked.{tracked, plain, tracked_at, in_journal, Sound}
use mitosis.State.Sound.{stored-plain}
use mitosis.State.Settled.{mem_first, mem-keys}

-- Nothing, or the same object.
abbrev pub Within : Option StateObject → Option StateObject → Type 0
Within none o = Unit
Within (some x) o = o ≡ some x

Within-found : (x o : Option StateObject) → Within x o → some_object x ≡ true → x ≡ o
Within-found none o w e = absurd (ground arith)
Within-found (some x) o w e = sym w

module _ {T : TrieCalls} (s : StateDb T) where
  -- What every step of `Copy` keeps: the trie's copy, and objects that are those of the state.
  record Copies (c : StateDb T) : Type 0 where
    nodes : c.nodes ≡ s.nodes
    trie : c.trie ≡ T.copy_trie s.trie
    within : (b : ℕ) → Within (lookup b c.objects) (lookup b s.objects)

  -- A later copy has the objects of an earlier one.
  record Grows (c c' : StateDb T) : Type 0 where
    copies : Copies c'
    grows :
        (b : ℕ) → some_object (lookup b c.objects) ≡ true → some_object (lookup b c'.objects) ≡ true

  Within-insert :
      (a b : ℕ) (o : StateObject) (c : StateDb T)
      → lookup a s.objects ≡ some o
      → Within (lookup b c.objects) (lookup b s.objects)
      → Within (lookup b (set_state_object a (deep_copy o) c).objects) (lookup b s.objects)
  unfolding set_state_object deep_copy
  Within-insert a b o c e w = elim (Bool-cases (a == b)) [
    | inl q ↦
        let same : a ≡ b = ground arith in
        rw (lookup-insert, q) (subst (λ k. lookup k s.objects ≡ some o) same e)
    | inr q ↦ rw (lookup-insert, q) w
  ]

  -- An object of the state is put into the copy.
  Grows-insert :
      (a : ℕ) (o : StateObject) (c : StateDb T)
      → lookup a s.objects ≡ some o
      → Copies c
      → Grows c (set_state_object a (deep_copy o) c)
        × (some_object (lookup a (set_state_object a (deep_copy o) c).objects) ≡ true)
  unfolding set_state_object
  Grows-insert a o c e v = (
    record {
      copies = record {
        nodes = v.nodes;
        trie = v.trie;
        within = λ b. Within-insert a b o c e (v.within b);
      };
      grows = λ b h. rw lookup-insert (ground (arith, h));
    },
    rw lookup-insert (ground arith),
  )

  Grows-copy_dirtied :
      (a : ℕ) (o : Option StateObject) (c : StateDb T)
      → lookup a s.objects ≡ o
      → Copies c
      → Grows c (copy_dirtied a o c)
        × (some_object o ≡ true → some_object (lookup a (copy_dirtied a o c).objects) ≡ true)
  Grows-copy_dirtied a none c e v =
      (record { copies = v; grows = λ b h. h }, λ h. absurd (ground arith))
  Grows-copy_dirtied a (some o) c e v =
      let (g, here) = Grows-insert a o c e v in
      (
        record {
          copies = record {
            nodes = g.copies.nodes;
            trie = g.copies.trie;
            within = g.copies.within;
          };
          grows = g.grows;
        },
        λ h. here,
      )

  Grows-mark_pending : (a : ℕ) (c : StateDb T) → Copies c → Grows c (mark_pending a c)
  Grows-mark_pending a c v = record {
    copies = record { nodes = v.nodes; trie = v.trie; within = v.within };
    grows = λ b h. h;
  }

  Grows-mark_dirty : (a : ℕ) (c : StateDb T) → Copies c → Grows c (mark_dirty a c)
  Grows-mark_dirty a c v = record {
    copies = record { nodes = v.nodes; trie = v.trie; within = v.within };
    grows = λ b h. h;
  }

  Grows-trans : {c d e : StateDb T} → Grows c d → Grows d e → Grows c e
  Grows-trans g h = record { copies = h.copies; grows = λ b p. h.grows b (g.grows b p) }

  -- The loop over the journal.
  Grows-copy_journal :
      (addresses : List ℕ) (c : StateDb T)
      → Copies c
      → Grows c (copy_journal s.objects addresses c)
        × ((b : ℕ)
            → mem b addresses ≡ true
            → some_object (lookup b s.objects) ≡ true
            → some_object (lookup b (copy_journal s.objects addresses c).objects) ≡ true)
  unfolding copy_journal mem
  Grows-copy_journal [] c v =
      (record { copies = v; grows = λ b h. h }, λ b h. absurd (ground arith))
  Grows-copy_journal (a ∷ rest) c v =
      let (g, here) = Grows-copy_dirtied a (lookup a s.objects) c refl v in
      let (more, covers) =
        Grows-copy_journal rest (copy_dirtied a (lookup a s.objects) c) g.copies in
      (
        Grows-trans g more,
        λ b h live. elim (Bool-cases (a == b)) [
          | inl q ↦
              let same : a ≡ b = ground arith in
              more.grows b (
                subst
                  (λ k.
                    some_object (lookup k s.objects) ≡ true
                    → some_object (lookup k (copy_dirtied a (lookup a s.objects) c).objects) ≡ true)
                  same here live)
          | inr q ↦ covers b (ground (arith, h, q)) live
        ],
      )

  module _ (mark : ℕ → StateDb T → StateDb T)
      (marks : (a : ℕ) (c : StateDb T) → Copies c → Grows c (mark a c)) where
    Grows-copy_object :
        (a : ℕ) (old o : Option StateObject) (c : StateDb T)
        → lookup a c.objects ≡ old
        → lookup a s.objects ≡ o
        → some_object o ≡ true
        → Copies c
        → (d : StateDb T) × (copy_object a old o c ≡ some d)
          × Grows c d
          × (some_object (lookup a d.objects) ≡ true)
    Grows-copy_object a (some x) o c here e live v =
        (c, refl, record { copies = v; grows = λ b h. h }, rw here refl)
    Grows-copy_object a none none c here e live v = absurd (ground arith)
    Grows-copy_object a none (some o) c here e live v =
        let (g, there) = Grows-insert a o c e v in (_, refl, g, there)

    -- The loops over the pending and over the dirty addresses.
    Grows-copy_marked :
        (addresses : List ℕ) (c : StateDb T)
        → Copies c
        → ((b : ℕ) → mem b addresses ≡ true → some_object (lookup b s.objects) ≡ true)
        → (d : StateDb T) × (copy_marked mark s.objects addresses (some c) ≡ some d)
          × Grows c d
          × ((b : ℕ) → mem b addresses ≡ true → some_object (lookup b d.objects) ≡ true)
    unfolding copy_marked mem
    Grows-copy_marked [] c v live =
        (c, refl, record { copies = v; grows = λ b h. h }, λ b h. absurd (ground arith))
    Grows-copy_marked (a ∷ rest) c v live =
        let (d, e, g, here) =
          Grows-copy_object a (lookup a c.objects) (lookup a s.objects) c refl refl
            (live a (mem_first a rest)) v in
        let marked = marks a d g.copies in
        let (f, e', more, covers) =
          Grows-copy_marked rest (mark a d) marked.copies (λ b h. live b (ground (arith, h))) in
        (
          f,
          rw e e',
          Grows-trans g (Grows-trans marked more),
          λ b h. elim (Bool-cases (a == b)) [
            | inl q ↦
                let same : a ≡ b = ground arith in
                more.grows b
                  (marked.grows b (subst (λ k. some_object (lookup k d.objects) ≡ true) same here))
            | inr q ↦ covers b (ground (arith, h, q))
          ],
        )

-- An object that `Copy` leaves out reads as the trie does.
left_out :
    (m p : Bool) (live in_trie : Option StateObject)
    → tracked m p live in_trie ≡ true
    → plain in_trie ≡ true
    → p ≡ false
    → (m ≡ true → some_object live ≡ false)
    → balance_or (not_deleted in_trie) ≡ balance_or (not_deleted (or_else live in_trie))
left_out m p none in_trie h clean out free = refl
left_out true p (some o) in_trie h clean out free = absurd (ground (arith, free refl))
left_out false p (some o) none h clean out free = ground (arith, h, out)
left_out false p (some o) (some x) h clean out free = ground (arith, h, out, clean)

small_balance :
    (m p : Bool) (live in_trie : Option StateObject)
    → tracked m p live in_trie ≡ true
    → plain in_trie ≡ true
    → balance_or (not_deleted (or_else live in_trie)) < 2 ^ 64
small_balance m p none none h clean = omega arith
small_balance m p none (some x) h clean = ground (arith, clean)
small_balance m p (some o) in_trie h clean = ground (arith, h)

module _ {T : TrieCalls} (L : TrieLaws T) (s : StateDb T) (h : Sound L s) where
  -- Which objects a copy must have.
  record Complete (c : StateDb T) : Type 0 where
    copies : Copies s c
    journal :
        (b : ℕ)
        → in_journal b s.journal ≡ true
        → some_object (lookup b s.objects) ≡ true
        → some_object (lookup b c.objects) ≡ true
    pending : (b : ℕ) → mem b s.pending ≡ true → some_object (lookup b c.objects) ≡ true

  stored-copied :
      (c : StateDb T) (b : ℕ) → Copies s c → stored T c.nodes c.trie b ≡ stored T s.nodes s.trie b
  unfolding stored
  stored-copied c b v =
      rw (v.nodes, v.trie) (ap (read_object T) ((L.copy_whole s.nodes s.trie h.whole).1 b))

  balance-copied : (c : StateDb T) (b : ℕ) → Complete c → balance b c ≡ balance b s
  unfolding balance found tracked_at
  balance-copied c b v = elim (Option-cases (lookup b c.objects)) [
    | inl e ↦
        let empty : some_object (lookup b c.objects) ≡ false = rw e refl in
        let live = lookup b s.objects in
        let held = stored T s.nodes s.trie b in
        let out : mem b s.pending ≡ false = ground (arith, v.pending b, empty) in
        ap (λ o. balance_or (not_deleted (or_else o (stored T c.nodes c.trie b)))) e
        ∙ ap (λ o. balance_or (not_deleted o)) (stored-copied c b v.copies)
        ∙ left_out (in_journal b s.journal) (mem b s.pending) live held (h.all_tracked b)
            (stored-plain L s.nodes s.trie b) out (λ m. ground (arith, v.journal b m, empty))
    | inr (x, e) ↦
        let same : lookup b s.objects ≡ some x = sym (
          Within-found (some x) (lookup b s.objects)
            (subst (λ o. Within o (lookup b s.objects)) e (v.copies.within b)) refl) in
        rw (e, same)
  ]

  Complete-copy :
      ((b : ℕ) → mem b s.dirty_objects ≡ true → some_object (lookup b s.objects) ≡ true)
      → (c : StateDb T) × (copy s ≡ some c) × Complete c
  unfolding copy lookup in_journal tracked_at
  Complete-copy held =
      let start : Copies s (basic_copy s) = record {
        nodes = refl;
        trie = refl;
        within = λ b. nothing b;
      } in
      let (g, journal) = Grows-copy_journal s (keys s.journal.dirties) (basic_copy s) start in
      let (d, e, g1, pending) =
        Grows-copy_marked s mark_pending (Grows-mark_pending s) s.pending _ g.copies
          (λ b m. ground (arith, h.all_tracked b, m)) in
      let (f, e', g2, dirty) =
        Grows-copy_marked s mark_dirty (Grows-mark_dirty s) s.dirty_objects d g1.copies held in
      (
        f,
        ap (copy_marked mark_dirty s.objects s.dirty_objects) e ∙ e',
        record {
          copies = g2.copies;
          journal = λ b m live.
              g2.grows b (g1.grows b (journal b (mem-keys b s.journal.dirties ∙ m) live));
          pending = λ b m. g2.grows b (pending b m);
        },
      )
    where
      nothing : (b : ℕ) → Within (lookup b []) (lookup b s.objects)
      nothing b = tt

  small : (b : ℕ) → (get_balance b s).1 < 2 ^ 64
  unfolding balance found tracked_at
  small b =
      subst (λ t. t < 2 ^ 64) (sym (get_balance_lem b s))
        (small_balance (in_journal b s.journal) (mem b s.pending) (lookup b s.objects)
          (stored T s.nodes s.trie b) (h.all_tracked b) (stored-plain L s.nodes s.trie b))

  -- A state that is sound, and that has an object at each address of its dirty set, is copied without a panic, and the copy
  -- gives any list of reads, credits, debits, assignments, openings and destructions of accounts the
  -- answers that the state itself gives, though it has only the objects that the journal, the pending
  -- set and the dirty set name.
  pub copy-run_calls :
      ((b : ℕ) → mem b s.dirty_objects ≡ true → some_object (lookup b s.objects) ≡ true)
      → (c : StateDb T) × (copy s ≡ some c)
        × ((calls : List Call) → run_calls calls c ≡ run_calls calls s)
  copy-run_calls held =
      let (c, e, v) = Complete-copy held in
      let same : (b : ℕ) → (get_balance b c).1 ≡ (get_balance b s).1 =
        λ b. get_balance_lem b c ∙ balance-copied c b v ∙ sym (get_balance_lem b s) in
      (
        c,
        e,
        λ calls.
            run_calls_refines_replay calls c (λ b. subst (λ t. t < 2 ^ 64) (sym (same b)) (small b))
            ∙ ap (replay calls) (fun_ext same)
            ∙ sym (run_calls_refines_replay calls s small),
      )
