-- ===== src/State/Tracked.antt =====
-- Mitosis/state/statedb.go: which objects differ from what the trie holds, and what keeps track of them,
-- the journal and the set of pending addresses.
use mitosis.Prelude.{
  ℕ, ◌^◌, ◌<◌, ◌==◌, ltb, if◌then◌else◌, Bool, true, false, not, ◌&&◌, ◌||◌, List, Option, none,
  some, ◌≡◌, sym, ◌∙◌, ap, subst, inl, inr, arith, Bool-cases,
}
use mathlib.Core.Option.{some-injective}
use mitosis.Prelude.Assoc.{lookup, lookup-insert}
use mitosis.State.Calls.{TrieCalls, TrieLaws}
use mitosis.State.Journal.{StateObject, new_object, Entry, Journal, dirty, append}
use mitosis.State.Objects.{StateDb, set_state_object, decoded, not_deleted, log_entry}
use mitosis.State.Accounts.{balance_or, some_object}
use mitosis.State.Roots.{mem}
use mitosis.State.Views.{stored, parsed, or_else}

-- What a commit leaves of an account: nothing, if it was destroyed.
abbrev pub final_or : Option StateObject → ℕ
final_or none = 0
final_or (some o) = if o.suicided || o.deleted then 0 else o.balance

abbrev pub fits : Option StateObject → Bool
fits none = true
fits (some o) = ltb o.balance (2 ^ 64)

-- Nothing marks what is read from the trie.
abbrev pub plain : Option StateObject → Bool
plain none = true
plain (some o) = not o.suicided && not o.deleted && ltb o.balance (2 ^ 64)

abbrev pub buried : Option StateObject → Bool
buried none = true
buried (some o) = not o.suicided || o.deleted

-- Of one address: whether the journal marks it, whether it is pending, its object and what the trie holds.
-- An address that the journal does not mark is pending, or the trie is up to date.
abbrev pub tracked : Bool → Bool → Option StateObject → Option StateObject → Bool
tracked in_journal in_pending live in_trie =
    fits live
    && (not in_pending || some_object live)
    && (in_journal
        || (buried live && (in_pending || (final_or (or_else live in_trie) == balance_or in_trie))))

abbrev pub some_count : Option ℕ → Bool
some_count none = false
some_count (some n) = true

unfoldable pub in_journal : ℕ → Journal → Bool
in_journal a j = some_count (lookup a j.dirties)

pub in_journal-dirty :
    (a b : ℕ) (j : Journal) → in_journal b (dirty a j) ≡ (if a == b then true else in_journal b j)
unfolding in_journal dirty
in_journal-dirty a b j = rw lookup-insert (ground arith)

-- An entry of the journal that marks an address.
unfoldable pub Marks : ℕ → Entry → Type 0
Marks a e =
    (b : ℕ) (j : Journal) → in_journal b (append e j) ≡ (if a == b then true else in_journal b j)

-- An object that takes the place of another, and its balance.
pub tracked_replaced :
    (m p : Bool) (live held : Option StateObject) (prev : StateObject)
    → or_else live held ≡ some prev
    → plain held ≡ true
    → tracked m p live held ≡ true
    → tracked m p (some (new_object (balance_or (not_deleted (some prev))))) held ≡ true
tracked_replaced m p none none prev e clean h = absurd (ground (arith, e))
tracked_replaced m p none (some o) prev e clean h =
    subst (λ t. tracked m p (some (new_object (balance_or (not_deleted (some t))))) (some o) ≡ true)
      (some-injective _ _ e) ground (arith, clean, h)
tracked_replaced m p (some o) held prev e clean h =
    subst (λ t. tracked m p (some (new_object (balance_or (not_deleted (some t))))) held ≡ true)
      (some-injective _ _ e) (ground (arith, clean, h))

tracked_loaded :
    (m p : Bool) (balance : ℕ)
    → balance < 2 ^ 64
    → tracked m p none (some (new_object balance)) ≡ true
    → tracked m p (some (new_object balance)) (some (new_object balance)) ≡ true
tracked_loaded m p balance small h = ground (arith, h, small)

module _ {T : TrieCalls} where
  unfoldable pub tracked_at : ℕ → StateDb T → Bool
  unfolding in_journal mem stored
  tracked_at a s =
      tracked (in_journal a s.journal) (mem a s.pending) (lookup a s.objects)
        (stored T s.nodes s.trie a)

  pub record Sound (L : TrieLaws T) (s : StateDb T) : Type 0 where
    pub whole : L.Whole s.nodes s.trie
    pub no_error : s.db_err ≡ false
    pub all_tracked : (a : ℕ) → tracked_at a s ≡ true

  pub tracked_at-set_state_object :
      (a b : ℕ) (o : StateObject) (s : StateDb T)
      → tracked_at b (set_state_object a o s) ≡ (
          if a == b
          then tracked
              (in_journal b s.journal)
              (mem b s.pending)
              (some o)
              (stored T s.nodes s.trie b)
          else tracked_at b s)
  unfolding tracked_at set_state_object
  tracked_at-set_state_object a b o s = rw lookup-insert (ground arith)

  pub tracked_at-write :
      (a b : ℕ) (e : Entry) (o : StateObject) (s : StateDb T)
      → Marks a e
      → o.balance < 2 ^ 64
      → tracked_at b s ≡ true
      → tracked_at b (set_state_object a o (log_entry e s)) ≡ true
  unfolding Marks tracked_at log_entry
  tracked_at-write a b e o s marks small h =
      tracked_at-set_state_object a b o (log_entry e s)
      ∙ ground (arith, marks b s.journal, h, small)

  pub tracked_at-log_entry :
      (a b : ℕ) (e : Entry) (s : StateDb T)
      → Marks a e
      → tracked_at b s ≡ true
      → tracked_at b (log_entry e s) ≡ true
  unfolding Marks tracked_at log_entry
  tracked_at-log_entry a b e s marks h = ground (arith, marks b s.journal, h)

  pub tracked_at-dirty :
      (a b : ℕ) (s : StateDb T)
      → tracked_at b s ≡ true
      → tracked_at b (record s { journal = dirty a s.journal }) ≡ true
  unfolding tracked_at
  tracked_at-dirty a b s h = ground (arith, in_journal-dirty a b s.journal, h)

  -- An account that is loaded.
  pub tracked_at-decoded :
      (L : TrieLaws T) (a b : ℕ) (s : StateDb T) (bytes : List ℕ) (balance : Option ℕ)
      → T.decode_account bytes ≡ balance
      → lookup a s.objects ≡ none
      → stored T s.nodes s.trie a ≡ parsed balance
      → tracked_at b s ≡ true
      → tracked_at b (decoded a s balance).0 ≡ true
  unfolding tracked_at
  tracked_at-decoded L a b s bytes none d new e h = h
  tracked_at-decoded L a b s bytes (some balance) d new e h =
      tracked_at-set_state_object a b (new_object balance) s ∙ elim (Bool-cases (a == b)) [
        | inl q ↦ let same : a ≡ b = ground arith in rw q (loaded same)
        | inr q ↦ rw q h
      ]
    where
      loaded :
          a ≡ b
          → tracked
              (in_journal b s.journal)
              (mem b s.pending)
              (some (new_object balance))
              (stored T s.nodes s.trie b)
            ≡ true
      loaded same =
          let kept = subst (λ k. lookup k s.objects ≡ none) same new in
          let held = subst (λ k. stored T s.nodes s.trie k ≡ some (new_object balance)) same e in
          rw held (
            tracked_loaded (in_journal b s.journal) (mem b s.pending) balance
              (L.decode_small bytes balance d)
              (ap (tracked (in_journal b s.journal) (mem b s.pending) none) (sym held)
                ∙ ap
                    (λ t.
                      tracked (in_journal b s.journal) (mem b s.pending) t
                        (stored T s.nodes s.trie b))
                    (sym kept)
                ∙ h))
