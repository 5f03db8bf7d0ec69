-- ===== src/State/Reopen.antt =====
-- Mitosis/state/statedb.go: a state that is committed, opened again at the root that `Commit` returns.
use mitosis.Prelude.{
  ℕ, if◌then◌else◌, Bool, true, false, List, [], ◌∷◌, Option, none, some, ◌≡◌, refl, sym, ◌∙◌, ap,
  subst, arith,
}
use mitosis.Prelude.Assoc.{lookup}
use mitosis.State.Calls.{TrieCalls, TrieLaws}
use mitosis.State.Journal.{StateObject, new_journal}
use mitosis.State.Objects.{StateDb, new_on, opened, new, not_deleted}
use mitosis.State.Accounts.{balance_or, suicided_or, get_balance, has_suicided}
use mitosis.State.Roots.{
  mem, finalise, rooted, intermediate_root, Committed, committed, failed, commit_to, commit_rooted,
  commit,
}
use mitosis.State.Views.{
  stored, or_else, read_object, found, balance, get_balance_lem, get_state_object_lem,
}
use mitosis.State.Tracked.{final_or, plain, tracked, in_journal, tracked_at, Sound}
use mitosis.State.Sound.{stored-plain}
use mitosis.State.Settled.{final, Writing, Writing-finalise, final-finalise}
use mitosis.State.Commit.{Wrote, Wrote-write_all}
use mitosis.State.Ledger.{Call, perform}
use mitosis.State.Kept.{Sound-perform}

tracked_more :
    (m : Bool) (live held : Option StateObject)
    → tracked false false live held ≡ true
    → tracked m false live held ≡ true
tracked_more m live held h = ground (arith, h)

tracked_new :
    (m : Bool) (held : Option StateObject) → plain held ≡ true → tracked m false none held ≡ true
tracked_new m none h = ground arith
tracked_new m (some o) h = ground (arith, h)

-- Where nothing is left to write, the trie holds what a commit leaves of an account.
written_final :
    (live held : Option StateObject)
    → tracked false false live held ≡ true
    → plain held ≡ true
    → (balance_or (not_deleted held) ≡ final_or (or_else live held))
      × (balance_or (not_deleted (or_else live held)) ≡ final_or (or_else live held))
written_final none none h clean = (refl, refl)
written_final none (some p) h clean = (ground (arith, h, clean), ground (arith, h, clean))
written_final (some o) none h clean = (ground (arith, h, clean), ground (arith, h, clean))
written_final (some o) (some p) h clean = (ground (arith, h, clean), ground (arith, h, clean))

final_read :
    (o : Option StateObject)
    → final_or o ≡ (if suicided_or (not_deleted o) then 0 else balance_or (not_deleted o))
final_read none = refl
final_read (some o) = ground arith

module _ {T : TrieCalls} where
  -- What is read of an account that a commit leaves.
  unfoldable pub lasting : ℕ → StateDb T → ℕ
  unfolding get_balance has_suicided
  lasting b s = if (has_suicided b s).1 then 0 else (get_balance b s).1

  final-lasting : (b : ℕ) (s : StateDb T) → final b s ≡ lasting b s
  unfolding final lasting has_suicided get_balance
  final-lasting b s = rw (get_state_object_lem b s) (final_read (found b s))

module _ {T : TrieCalls} (L : TrieLaws T) where
  pub Sound-new_on : (n : T.Nodes) (t : T.Trie) → L.Whole n t → Sound L (new_on n t)
  unfolding tracked_at mem lookup
  Sound-new_on n t whole = record {
    whole = whole;
    no_error = refl;
    all_tracked =
        λ b. tracked_new (in_journal b new_journal) (stored T n t b) (stored-plain L n t b);
  }

  -- The state whose trie is written, and one that is opened on what was written.
  still :
      (u : StateDb T) (nodes : T.Nodes) (old : T.Trie) (b : ℕ)
      → Writing L [] u
      → u.pending ≡ []
      → T.try_get nodes old b ≡ T.try_get u.nodes u.trie b
      → tracked_at b (record u { nodes = nodes; trie = old }) ≡ true
  unfolding tracked_at stored mem
  still u nodes old b h empty e =
      let m = in_journal b u.journal in
      let live = lookup b u.objects in
      ap (λ p. tracked m (mem b p) live (stored T nodes old b)) empty
      ∙ ap (λ t. tracked m false live (read_object T t)) e
      ∙ tracked_more m live (stored T u.nodes u.trie b) (h.writing b)

  still_reads :
      (u : StateDb T) (nodes : T.Nodes) (old : T.Trie) (b : ℕ)
      → Writing L [] u
      → T.try_get nodes old b ≡ T.try_get u.nodes u.trie b
      → (get_balance b (record u { nodes = nodes; trie = old })).1 ≡ final b u
  unfolding balance found stored final mem
  still_reads u nodes old b h e =
      let live = lookup b u.objects in
      get_balance_lem b (record u { nodes = nodes; trie = old })
      ∙ ap (λ t. balance_or (not_deleted (or_else live (read_object T t)))) e
      ∙ (written_final live (stored T u.nodes u.trie b) (h.writing b)
          (stored-plain L u.nodes u.trie b)).1

  afresh :
      (u : StateDb T) (nodes : T.Nodes) (again : T.Trie) (b : ℕ)
      → Writing L [] u
      → T.try_get nodes again b ≡ T.try_get u.nodes u.trie b
      → (get_balance b (new_on {T = T} nodes again)).1 ≡ final b u
  unfolding balance found stored final mem lookup
  afresh u nodes again b h e =
      get_balance_lem b (new_on {T = T} nodes again)
      ∙ ap (λ t. balance_or (not_deleted (read_object T t))) e
      ∙ (written_final (lookup b u.objects) (stored T u.nodes u.trie b) (h.writing b)
          (stored-plain L u.nodes u.trie b)).0

  unfoldable pub Lasts : StateDb T → Committed T → Type 0
  Lasts s result =
      (t : StateDb T) × (hash : ℕ) × (fresh : StateDb T) × (result ≡ committed t hash)
      × (new hash t.nodes ≡ some fresh)
      × Sound L t
      × Sound L fresh
      × ((b : ℕ) → ((get_balance b fresh).1 ≡ lasting b s) × ((get_balance b t).1 ≡ lasting b s))

  Lasts-commit_to :
      (s u : StateDb T)
      → Writing L [] u
      → ((b : ℕ) → final b u ≡ final b s)
      → u.pending ≡ []
      → Lasts s (commit_to u (T.commit_trie u.nodes u.trie))
  unfolding Lasts new
  Lasts-commit_to s u h same empty =
      let (nodes, old, hash, again, done, found_again, whole, whole_old, reads_old, reads) =
        L.commit_whole u.nodes u.trie h.whole in
      (
        record u { nodes = nodes; trie = old },
        hash,
        new_on nodes again,
        ap (commit_to u) done,
        ap (opened nodes) found_again,
        record {
          whole = whole_old;
          no_error = h.no_error;
          all_tracked = λ b. still u nodes old b h empty (reads_old b);
        },
        Sound-new_on nodes again whole,
        λ b. (
          afresh u nodes again b h (reads b) ∙ same b ∙ final-lasting b s,
          still_reads u nodes old b h (reads_old b) ∙ same b ∙ final-lasting b s,
        ),
      )

  -- `Commit` of a state that is sound panics on no object and meets no error. It returns a root at which
  -- `New` opens a state in which each address has the balance it had before the commit, or 0 if the
  -- account had been destroyed, and so it is in the state that goes on after the commit; both states
  -- are sound again.
  pub commit-Lasts :
      (delete_empty : Bool) (s : StateDb T) → Sound L s → Lasts s (commit delete_empty s)
  unfolding commit intermediate_root Wrote final found
  commit-Lasts delete_empty s h =
      let s1 = finalise delete_empty s in
      let (u, done, last, same) =
        Wrote-write_all L s1.pending s1 (Writing-finalise L delete_empty s h) in
      let w : StateDb T = record u { pending = []; dirty_objects = [] } in
      let e : commit delete_empty s ≡ commit_to w (T.commit_trie w.nodes w.trie) =
        ap (λ x. if x then failed s else commit_rooted (intermediate_root delete_empty s))
          h.no_error
        ∙ ap (λ r. commit_rooted (rooted r)) done in
      subst (λ r. Lasts s r) (sym e)
        (Lasts-commit_to s w
          (record { whole = last.whole; no_error = last.no_error; writing = last.writing })
          (λ b. same b ∙ final-finalise L delete_empty b s) refl)

module _ {T : TrieCalls} where
  unfoldable pub perform_all : List Call → StateDb T → StateDb T
  perform_all [] s = s
  perform_all (call ∷ calls) s = perform_all calls (perform call s)

module _ {T : TrieCalls} (L : TrieLaws T) where
  -- Over any list of reads, credits, debits, assignments, openings and destructions of accounts a state
  -- stays sound: its trie is whole, no error is remembered, every balance is a uint64 number, every
  -- pending address has an object, and an address that neither the journal marks nor the pending set
  -- holds has in the trie the balance that a commit would leave it.
  pub perform_all-Sound :
      (calls : List Call) (s : StateDb T) → Sound L s → Sound L (perform_all calls s)
  unfolding perform_all
  perform_all-Sound [] s h = h
  perform_all-Sound (call ∷ calls) s h =
      perform_all-Sound calls (perform call s) (Sound-perform L call s h)
