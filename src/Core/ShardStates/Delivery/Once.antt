-- ===== src/Core/ShardStates/Delivery/Once.antt =====
-- The delivery invariant of Mitosis/core/shardstates.go over all events.
use mathlib.Core.Option.{some-injective}
use mitosis.Prelude.{
  ℕ, zero, suc, ◌+◌, ◌≤◌, ◌≡◌, refl, sym, subst, ap, ◌∙◌, ◌==◌, ltb, if◌then◌else◌, Bool, true,
  false, ◌&&◌, List, [], ◌∷◌, ◌++◌, Option, none, some, arith, u32, Bool-cases, Option-cases, inl,
  inr,
}
use mitosis.Prelude.Assoc.{lookup, insert, lookup-insert}
use mitosis.Config.{Config}
use mitosis.Bls.{Herumi, PubKeyStore}
use mitosis.Types.Data.{Transaction, Header, OutboundChunk}
use mitosis.Types.Libraries.{Encoding, Hasher, Verifier}
use mitosis.Core.TxPool.{take_txs1, new_tx_pool}
use mitosis.Core.TxPool.Order.{take_txs1_lem}
use mitosis.Core.ShardStates.{
  ShardState, ShardStates, update_header, update_inbound_chunk, record_header, record_chunk,
  chunk_from, checked_chunk, check_header, deliver, update_with_header, update_header_r_shard,
  update_with_inbound_chunk, new_shard_states, fill_shards, new_shard_state,
}
use mitosis.Core.ShardStates.Step.{record_header_known, record_chunk_known}
use mitosis.Core.ShardStates.Delivery.{
  first_from, is_from, copies, Node, Event, header_arrives, chunk_arrives, block_takes, delivered,
  Holds, HoldsOf, happen, happen_all, after_chunk, and_then,
}
use mitosis.Core.ShardStates.Delivery.Steps.{copies-append, header_kept, chunk_kept}
use mitosis.Core.ShardStates.Delivery.Pool.{added, added_le, added-none, added_away, copies-deliver}

-- The invariant after a change of one shard and of the pool, by what the change adds.
Holds-with :
    (n : Node) (s : ShardStates) (a : ℕ → ℕ → ℕ)
    → ((shard hash : ℕ)
        → copies shard hash s.tx_pool.pending_inbound_chunks
          ≡ copies shard hash n.states.tx_pool.pending_inbound_chunks + a shard hash)
    → ((shard hash : ℕ)
        → HoldsOf shard hash
            (copies shard hash (delivered n) + a shard hash)
            (lookup shard s.state_db))
    → Holds (record n { states = s })
unfolding Holds
Holds-with n s a more h shard hash =
    let before = copies-append shard hash n.taken n.states.tx_pool.pending_inbound_chunks in
    let now = copies-append shard hash n.taken s.tx_pool.pending_inbound_chunks in
    subst (λ t. HoldsOf shard hash t (lookup shard s.state_db))
      (omega (arith, before, now, more shard hash)) (h shard hash)

-- The chunks that are stored under a shard and a hash come from there.
stored_from :
    (n : Node) (x y : ℕ) (st : ShardState)
    → Holds n
    → lookup x n.states.state_db ≡ some st
    → (c : OutboundChunk) → lookup y st.inbound_chunks ≡ some c
    → is_from x y c ≡ true
unfolding Holds HoldsOf
stored_from n x y st holds e =
    let here = subst (HoldsOf x y (copies x y (delivered n))) e (holds x y) in here.0

takes-Holds :
    (k : ℕ) (n : Node)
    → Holds n
    → Holds (record {
      states = record n.states { tx_pool = (take_txs1 k n.states.tx_pool).1 };
      taken = n.taken ++ (take_txs1 k n.states.tx_pool).0;
    })
unfolding Holds
takes-Holds k n holds s b =
    let taken = (take_txs1 k n.states.tx_pool).0 in
    let rest = (take_txs1 k n.states.tx_pool).1.pending_inbound_chunks in
    let whole = ap (copies s b) (take_txs1_lem k n.states.tx_pool).0 in
    let split = copies-append s b (n.taken ++ taken) rest in
    let front = copies-append s b n.taken taken in
    let back = copies-append s b taken rest in
    let before = copies-append s b n.taken n.states.tx_pool.pending_inbound_chunks in
    subst (λ t. HoldsOf s b t (lookup s n.states.state_db))
      (omega (arith, whole, split, front, back, before)) (holds s b)

module _ (E : Encoding) (H : Hasher) (V : Verifier) (config : Config) where
  header_case :
      (h : Header) (n : Node) (st : ShardState) (flag : Bool)
      → lookup h.shard_id n.states.state_db ≡ some st
      → lookup h.hash st.headers ≡ none
      → Holds n
      → Holds (record n {
        states = record {
          state_db =
              insert h.shard_id
                (record st { headers = insert h.hash h st.headers })
                n.states.state_db;
          tx_pool = deliver E H V flag (lookup h.hash st.inbound_chunks) n.states.tx_pool;
        };
      })
  header_case h n st flag e k holds =
      let o = lookup h.hash st.inbound_chunks in
      Holds-with n _ (λ s b. added s b flag o)
        (λ s b. copies-deliver E H V s b flag o n.states.tx_pool)
        (λ s b.
          header_kept s b h.shard_id h.hash (copies s b (delivered n)) (added s b flag o) h st
            n.states.state_db e k
            (added_away h.shard_id h.hash s b flag o (stored_from n h.shard_id h.hash st holds e))
            (added_le s b flag o) (λ i. ap (added s b flag) i ∙ added-none s b flag)
            (unfold Holds in holds s b))

  record_header-Holds :
      (h : Header) (n : Node) (st : ShardState)
      → lookup h.shard_id n.states.state_db ≡ some st
      → Holds n
      → Holds (record n { states = (record_header E H V config h n.states st).0 })
  unfolding record_header update_with_header update_header_r_shard
  record_header-Holds h n st e holds = elim (Option-cases (lookup h.hash st.headers)) [
    | inr (old, k) ↦
        subst (λ t. Holds (record n { states = t.0 }))
          (sym (record_header_known E H V config h old n.states st e k)) holds
    | inl k ↦ elim (Bool-cases (ltb 1000 config.shard_id)) [
      | inl p ↦ rw (p, k) (header_case h n st _ e k holds)
      | inr p ↦ rw (p, k) (header_case h n st false e k holds)
    ]
  ]

  chunk_case :
      (c : OutboundChunk) (x : ℕ) (n : Node) (st : ShardState) (leader : Bool)
      → lookup x n.states.state_db ≡ some st
      → lookup c.block_hash st.inbound_chunks ≡ none
      → is_from x c.block_hash c ≡ true
      → Holds n
      → Holds (record n {
        states = record {
          state_db =
              insert x
                (record st { inbound_chunks = insert c.block_hash c st.inbound_chunks })
                n.states.state_db;
          tx_pool =
              deliver E H V
                (checked_chunk E H V (lookup c.block_hash st.headers) c && leader)
                (some c)
                n.states.tx_pool;
        };
      })
  chunk_case c x n st leader e k from holds =
      let flag = checked_chunk E H V (lookup c.block_hash st.headers) c && leader in
      Holds-with n _ (λ s b. added s b flag (some c))
        (λ s b. copies-deliver E H V s b flag (some c) n.states.tx_pool)
        (λ s b.
          chunk_kept s b x c.block_hash (copies s b (delivered n)) (added s b flag (some c)) c st
            n.states.state_db e k from
            (added_away x c.block_hash s b flag (some c)
              (λ d i. subst (λ t. is_from x c.block_hash t ≡ true) (some-injective _ _ i) from))
            (added_le s b flag (some c))
            (λ i. ap (λ t. added s b (checked_chunk E H V t c && leader) (some c)) i)
            (unfold Holds in holds s b))

  record_chunk-Holds :
      (c : OutboundChunk) (x : ℕ) (n : Node) (st : ShardState)
      → lookup x n.states.state_db ≡ some st
      → is_from x c.block_hash c ≡ true
      → Holds n
      → Holds (record n { states = (record_chunk E H V config c x n.states st).0 })
  unfolding record_chunk update_with_inbound_chunk
  record_chunk-Holds c x n st e from holds =
      elim (Option-cases (lookup c.block_hash st.inbound_chunks)) [
        | inr (old, k) ↦
            subst (λ t. Holds (record n { states = t.0 }))
              (sym (record_chunk_known E H V config c old x n.states st e k)) holds
        | inl k ↦ rw k (chunk_case c x n st config.is_leader e k from holds)
      ]

  chunk_from-Holds :
      (txs : List Transaction) (c : OutboundChunk) (n m : Node)
      → c.txs ≡ txs
      → after_chunk n (chunk_from E H V config txs c n.states) ≡ some m
      → Holds n
      → Holds m
  chunk_from-Holds [] c n m e run holds = absurd (ground (arith, run))
  chunk_from-Holds (tx ∷ txs) c n m e run holds =
      let from : is_from tx.from_shard c.block_hash c ≡ true =
        ap (λ l. first_from l tx.from_shard && c.block_hash == c.block_hash) e ∙ ground arith in
      subst Holds (some-injective _ _ run)
        (elim (Option-cases (lookup tx.from_shard n.states.state_db)) [
          | inl k ↦ rw k holds
          | inr (st, k) ↦ rw k (record_chunk-Holds c tx.from_shard n st k from holds)
        ])

  module _ (B : Herumi) (store : PubKeyStore B) where
    header-Holds :
        (h : Header) (n : Node)
        → Holds n
        → Holds (record n { states = (update_header E H V config B store h n.states).0 })
    unfolding update_header
    header-Holds h n holds = elim (Option-cases (lookup h.shard_id n.states.state_db)) [
      | inl k ↦ rw k holds
      | inr (st, k) ↦ elim (Bool-cases (check_header E H V config B store h)) [
        | inl p ↦ rw (k, p) (record_header-Holds h n st k holds)
        | inr p ↦ rw (k, p) holds
      ]
    ]

    happen-Holds :
        (e : Event) (n m : Node) → happen E H V config B store e n ≡ some m → Holds n → Holds m
    unfolding happen update_inbound_chunk
    happen-Holds (header_arrives h) n m run holds =
        subst Holds (some-injective _ _ run) (header-Holds h n holds)
    happen-Holds (chunk_arrives c) n m run holds = chunk_from-Holds c.txs c n m refl run holds
    happen-Holds (block_takes k) n m run holds =
        subst Holds (some-injective _ _ run) (takes-Holds k n holds)

    happen_all-Holds :
        (es : List Event) (n m : Node)
        → happen_all E H V config B store es n ≡ some m
        → Holds n
        → Holds m
    unfolding happen_all
    happen_all-Holds [] n m run holds = subst Holds (some-injective _ _ run) holds
    happen_all-Holds (e ∷ es) n m run holds =
        elim (Option-cases (happen E H V config B store e n)) [
          | inl k ↦
              absurd
                (ground (arith, ap (and_then (happen_all E H V config B store es)) (sym k) ∙ run))
          | inr (n1, k) ↦
              happen_all-Holds es n1 m
                (ap (and_then (happen_all E H V config B store es)) (sym k) ∙ run)
                (happen-Holds e n n1 k holds)
        ]

new_shard-Holds :
    (flag : Bool) (s b : ℕ) (o : Option ShardState)
    → HoldsOf s b 0 o
    → HoldsOf s b 0 (if flag then some new_shard_state else o)
unfolding HoldsOf lookup
new_shard-Holds false s b o h = h
new_shard-Holds true s b o h =
    (λ c i. absurd (ground (arith, i)), omega arith, λ i. refl, λ i. refl)

fill_shards-Holds :
    (rounds i : ℕ) (db : List (ℕ × ShardState))
    → ((s b : ℕ) → HoldsOf s b 0 (lookup s db))
    → (s b : ℕ) → HoldsOf s b 0 (lookup s (fill_shards rounds i db))
unfolding fill_shards
fill_shards-Holds zero i db h = h
fill_shards-Holds (suc rounds) i db h = fill_shards-Holds rounds (suc i) _ (λ s b.
    rw (lookup-insert (u32 (i + 1001)) s new_shard_state db)
      (new_shard-Holds (u32 (i + 1001) == s) s b (lookup s db) (h s b)))

-- The node before any event.
unfoldable pub start_node : Config → Node
start_node config = record { states = new_shard_states config new_tx_pool; taken = [] }

happened :
    (E : Encoding) (H : Hasher) (V : Verifier) (config : Config) (B : Herumi)
    (store : PubKeyStore B) (events : List Event) (n : Node)
    → happen_all E H V config B store events (start_node config) ≡ some n
    → (shard hash : ℕ)
    → HoldsOf shard hash (copies shard hash (delivered n)) (lookup shard n.states.state_db)
unfolding Holds start_node new_shard_states copies HoldsOf lookup
happened E H V config B store events n run =
    happen_all-Holds E H V config B store events (start_node config) n run
      (fill_shards-Holds config.p_shard_num 0 [] (λ s b. refl))

at_most_one : (s b k : ℕ) (o : Option ShardState) → HoldsOf s b k o → k ≤ 1
unfolding HoldsOf
at_most_one s b k none h = omega (arith, h)
at_most_one s b k (some st) h = h.1

-- From an empty pool, whatever headers and chunks come, in whatever order and however often, and
-- whatever blocks take in between: of the chunks that say that they come from one block of one shard,
-- the pool and the blocks together hold one at most, and hold none until the node has stored the
-- block's header.
pub delivered_once :
    (E : Encoding) (H : Hasher) (V : Verifier) (config : Config) (B : Herumi)
    (store : PubKeyStore B) (events : List Event) (n : Node) (shard hash : ℕ)
    → happen_all E H V config B store events (start_node config) ≡ some n
    → (copies shard hash (delivered n) ≤ 1)
      × ((st : ShardState)
          → lookup shard n.states.state_db ≡ some st
          → lookup hash st.headers ≡ none
          → copies shard hash (delivered n) ≡ 0)
unfolding HoldsOf
delivered_once E H V config B store events n shard hash run =
    let here = happened E H V config B store events n run shard hash in
    (
      at_most_one shard hash _ (lookup shard n.states.state_db) here,
      λ st e missing. (subst (HoldsOf shard hash _) e here).2 missing,
    )
