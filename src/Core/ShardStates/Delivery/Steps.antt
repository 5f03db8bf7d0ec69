-- ===== src/Core/ShardStates/Delivery/Steps.antt =====
-- That every event keeps the delivery invariant of Mitosis/core/shardstates.go.
use mathlib.Core.Option.{some-injective}
use mitosis.Prelude.{
  ℕ, ◌+◌, ◌≤◌, ◌≡◌, sym, subst, ap, ◌∙◌, ◌==◌, true, false, ◌&&◌, List, [], ◌∷◌, ◌++◌, Option, none,
  some, arith, Bool-cases, inl, inr,
}
use mitosis.Prelude.Assoc.{lookup, insert, lookup-insert}
use mitosis.Types.Data.{Transaction, Header, OutboundChunk}
use mitosis.Core.ShardStates.{ShardState}
use mitosis.Core.ShardStates.Delivery.{first_from, is_from, copies, HoldsOf}

pub copies-append :
    (shard hash : ℕ) (xs ys : List OutboundChunk)
    → copies shard hash (xs ++ ys) ≡ copies shard hash xs + copies shard hash ys
unfolding copies
copies-append shard hash [] ys = omega arith
copies-append shard hash (c ∷ xs) ys = omega (arith, copies-append shard hash xs ys)

first_from_one :
    (txs : List Transaction) (x s : ℕ) → first_from txs x ≡ true → first_from txs s ≡ (x == s)
first_from_one [] x s e = absurd (ground arith)
first_from_one (tx ∷ txs) x s e = ground (arith, e)

-- A chunk comes from one block of one shard only.
pub is_from_one :
    (x y s b : ℕ) (c : OutboundChunk) → is_from x y c ≡ true → is_from s b c ≡ (x == s && y == b)
is_from_one x y s b c e =
    let shard : first_from c.txs x ≡ true = ground (arith, e) in
    let hash : (c.block_hash == y) ≡ true = ground (arith, e) in
    rw (first_from_one c.txs x s shard) (ground (arith, hash))

-- What the invariant says at a shard's state.
at_shard :
    (s b x k : ℕ) (st : ShardState) (db : List (ℕ × ShardState))
    → (x == s) ≡ true
    → lookup x db ≡ some st
    → HoldsOf s b k (lookup s db)
    → HoldsOf s b k (some st)
at_shard s b x k st db p e holds =
    let same : x ≡ s = ground (arith, p) in
    subst (HoldsOf s b k) (ap (λ t. lookup t db) (sym same) ∙ e) holds

no_more : (s b k a : ℕ) (o : Option ShardState) → a ≡ 0 → HoldsOf s b k o → HoldsOf s b (k + a) o
no_more s b k a o z holds =
    let e : k ≡ k + a = omega (arith, z) in subst (λ t. HoldsOf s b t o) e holds

-- A new header under `y` in the shard `x`, with `a` more delivered copies.
pub header_kept :
    (s b x y k a : ℕ) (h : Header) (st : ShardState) (db : List (ℕ × ShardState))
    → lookup x db ≡ some st
    → lookup y st.headers ≡ none
    → ((x == s && y == b) ≡ false → a ≡ 0)
    → a ≤ 1
    → (lookup y st.inbound_chunks ≡ none → a ≡ 0)
    → HoldsOf s b k (lookup s db)
    → HoldsOf s b (k + a) (lookup s (insert x (record st { headers = insert y h st.headers }) db))
unfolding HoldsOf
header_kept s b x y k a h st db e new away le need holds =
    rw (lookup-insert x s (record st { headers = insert y h st.headers }) db)
      (elim (Bool-cases (x == s)) [
        | inr p ↦ rw p (no_more s b k a (lookup s db) (away (ground (arith, p))) holds)
        | inl p ↦
            let old = at_shard s b x k st db p e holds in
            elim (Bool-cases (y == b)) [
              | inr q ↦
                  let z : a ≡ 0 = away (ground (arith, q)) in
                  rw (p, lookup-insert y b h st.headers, q) (no_more s b k a (some st) z old)
              | inl q ↦
                  let same : y ≡ b = ground (arith, q) in
                  let z : k ≡ 0 = old.2 (ap (λ t. lookup t st.headers) (sym same) ∙ new) in
                  rw (p, lookup-insert y b h st.headers, q)
                    (
                      old.0,
                      omega (arith, z, le),
                      λ i. absurd (ground (arith, i)),
                      λ i.
                          let w = need (ap (λ t. lookup t st.inbound_chunks) same ∙ i) in
                          omega (arith, z, w),
                    )
            ]
      ])

-- The same of a new chunk.
pub chunk_kept :
    (s b x y k a : ℕ) (c : OutboundChunk) (st : ShardState) (db : List (ℕ × ShardState))
    → lookup x db ≡ some st
    → lookup y st.inbound_chunks ≡ none
    → is_from x y c ≡ true
    → ((x == s && y == b) ≡ false → a ≡ 0)
    → a ≤ 1
    → (lookup y st.headers ≡ none → a ≡ 0)
    → HoldsOf s b k (lookup s db)
    → HoldsOf s b
        (k + a)
        (lookup s (insert x (record st { inbound_chunks = insert y c st.inbound_chunks }) db))
unfolding HoldsOf
chunk_kept s b x y k a c st db e new from away le need holds =
    rw (lookup-insert x s (record st { inbound_chunks = insert y c st.inbound_chunks }) db)
      (elim (Bool-cases (x == s)) [
        | inr p ↦ rw p (no_more s b k a (lookup s db) (away (ground (arith, p))) holds)
        | inl p ↦
            let old = at_shard s b x k st db p e holds in
            elim (Bool-cases (y == b)) [
              | inr q ↦
                  let z : a ≡ 0 = away (ground (arith, q)) in
                  rw (p, lookup-insert y b c st.inbound_chunks, q) (no_more s b k a (some st) z old)
              | inl q ↦
                  let same : y ≡ b = ground (arith, q) in
                  let z : k ≡ 0 = old.3 (ap (λ t. lookup t st.inbound_chunks) (sym same) ∙ new) in
                  rw (p, lookup-insert y b c st.inbound_chunks, q)
                    (
                      λ d i.
                          subst (λ t. is_from s b t ≡ true) (some-injective _ _ i)
                            (is_from_one x y s b c from ∙ ground (arith, p, q)),
                      omega (arith, z, le),
                      λ i.
                          let w = need (ap (λ t. lookup t st.headers) same ∙ i) in
                          omega (arith, z, w),
                      λ i. absurd (ground (arith, i)),
                    )
            ]
      ])
