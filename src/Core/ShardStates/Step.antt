-- ===== src/Core/ShardStates/Step.antt =====
-- One header or one chunk that comes twice, in Mitosis/core/shardstates.go.
use mathlib.Core.Option.{some-injective}
use mitosis.Prelude.{
  ℕ, subst, ◌≡◌, refl, ap, ltb, Bool, false, List, [], ◌∷◌, some, none, arith, Bool-cases,
  Option-cases, inl, inr,
}
use mitosis.Prelude.Assoc.{lookup, insert, lookup-insert, insert_same}
use mitosis.Config.{Config}
use mitosis.Bls.{Herumi, PubKeyStore}
use mitosis.Types.Data.{Transaction, Header, OutboundChunk}
use mitosis.Types.Libraries.{Encoding, Hasher, Verifier}
use mitosis.Core.ShardStates.{
  ShardState, ShardStates, check_header, record_header, update_header, record_chunk,
  record_chunk_in, chunk_from, update_inbound_chunk, update_with_header, update_header_r_shard,
  update_with_inbound_chunk,
}

-- Looking up the entry that was just put in.
pub lookup-insert_self :
    {V : Type 0} (k : ℕ) (v : V) (m : List (ℕ × V)) → lookup k (insert k v m) ≡ some v
lookup-insert_self k v m = ground (arith, lookup-insert k k v m)

module _ (E : Encoding) (H : Hasher) (V : Verifier) (config : Config) where
  pub record_header_known :
      (h old : Header) (s : ShardStates) (st : ShardState)
      → lookup h.shard_id s.state_db ≡ some st
      → lookup h.hash st.headers ≡ some old
      → record_header E H V config h s st ≡ (s, false)
  unfolding record_header update_with_header update_header_r_shard
  record_header_known h old s st e k = elim (Bool-cases (ltb 1000 config.shard_id)) [
    | inl p ↦ rw (p, k, insert_same h.shard_id st s.state_db e) refl
    | inr p ↦ rw (p, k, insert_same h.shard_id st s.state_db e) refl
  ]

  pub record_chunk_known :
      (c old : OutboundChunk) (from : ℕ) (s : ShardStates) (st : ShardState)
      → lookup from s.state_db ≡ some st
      → lookup c.block_hash st.inbound_chunks ≡ some old
      → record_chunk E H V config c from s st ≡ (s, false)
  unfolding record_chunk update_with_inbound_chunk
  record_chunk_known c old from s st e k = rw (k, insert_same from st s.state_db e) refl

  -- What is stored for the shard after a header, and that it holds a header under that hash.
  pub record_header-stored :
      (h : Header) (s : ShardStates) (st : ShardState)
      → lookup h.hash st.headers ≡ none
      → lookup h.shard_id (record_header E H V config h s st).0.state_db
        ≡ some (record st { headers = insert h.hash h st.headers })
  unfolding record_header update_with_header update_header_r_shard
  record_header-stored h s st k = elim (Bool-cases (ltb 1000 config.shard_id)) [
    | inl p ↦ rw (p, k) (lookup-insert_self h.shard_id _ s.state_db)
    | inr p ↦ rw (p, k) (lookup-insert_self h.shard_id _ s.state_db)
  ]

  record_chunk-stored :
      (c : OutboundChunk) (from : ℕ) (s : ShardStates) (st : ShardState)
      → lookup c.block_hash st.inbound_chunks ≡ none
      → lookup from (record_chunk E H V config c from s st).0.state_db
        ≡ some (record st { inbound_chunks = insert c.block_hash c st.inbound_chunks })
  unfolding record_chunk update_with_inbound_chunk
  record_chunk-stored c from s st k = rw k (lookup-insert_self from _ s.state_db)

  record_header_again :
      (h : Header) (s : ShardStates) (st : ShardState)
      → lookup h.shard_id s.state_db ≡ some st
      → let s1 = (record_header E H V config h s st).0 in
        (st1 : ShardState) × (lookup h.shard_id s1.state_db ≡ some st1)
        × (record_header E H V config h s1 st1 ≡ (s1, false))
  record_header_again h s st e = elim (Option-cases (lookup h.hash st.headers)) [
    | inl k ↦
        let e1 = record_header-stored h s st k in
        (_, e1, record_header_known h h _ _ e1 (lookup-insert_self h.hash h st.headers))
    | inr (old, k) ↦ let same = record_header_known h old s st e k in rw same (st, e, same)
  ]

  record_chunk_again :
      (c : OutboundChunk) (from : ℕ) (s : ShardStates) (st : ShardState)
      → lookup from s.state_db ≡ some st
      → let s1 = (record_chunk E H V config c from s st).0 in
        (st1 : ShardState) × (lookup from s1.state_db ≡ some st1)
        × (record_chunk E H V config c from s1 st1 ≡ (s1, false))
  record_chunk_again c from s st e = elim (Option-cases (lookup c.block_hash st.inbound_chunks)) [
    | inl k ↦
        let e1 = record_chunk-stored c from s st k in
        (
          _,
          e1,
          record_chunk_known c c from _ _ e1 (lookup-insert_self c.block_hash c st.inbound_chunks),
        )
    | inr (old, k) ↦ let same = record_chunk_known c old from s st e k in rw same (st, e, same)
  ]

  record_chunk_in_again :
      (c : OutboundChunk) (from : ℕ) (s : ShardStates)
      → let s1 = (record_chunk_in E H V config c from s (lookup from s.state_db)).0 in
        record_chunk_in E H V config c from s1 (lookup from s1.state_db) ≡ (s1, false)
  record_chunk_in_again c from s = elim (Option-cases (lookup from s.state_db)) [
    | inl e ↦ rw (e, e) refl
    | inr (st, e) ↦ let again = record_chunk_again c from s st e in rw (e, again.1) again.2
  ]

  chunk_from_again :
      (txs : List Transaction) (c : OutboundChunk) (s s1 : ShardStates) (first : Bool)
      → chunk_from E H V config txs c s ≡ some (s1, first)
      → chunk_from E H V config txs c s1 ≡ some (s1, false)
  chunk_from_again [] c s s1 first e = absurd (ground arith)
  chunk_from_again (tx ∷ txs) c s s1 first e = ap some (
      subst
        (λ (t : ShardStates).
          record_chunk_in E H V config c tx.from_shard t (lookup tx.from_shard t.state_db)
          ≡ (t, false))
        (ap (λ t. t.0) (some-injective _ _ e)) (record_chunk_in_again c tx.from_shard s))

  -- The same inbound chunk for a second time changes nothing and is reported as not new.
  pub update_inbound_chunk_again :
      (c : OutboundChunk) (s s1 : ShardStates) (first : Bool)
      → update_inbound_chunk E H V config c s ≡ some (s1, first)
      → update_inbound_chunk E H V config c s1 ≡ some (s1, false)
  unfolding update_inbound_chunk
  update_inbound_chunk_again c s s1 first e = chunk_from_again c.txs c s s1 first e

  module _ (B : Herumi) (store : PubKeyStore B) where
    -- The same header for a second time changes nothing and is reported as not new, whether or not it
    -- was accepted the first time.
    pub update_header_again :
        (h : Header) (s : ShardStates)
        → let s1 = (update_header E H V config B store h s).0 in
          update_header E H V config B store h s1 ≡ (s1, false)
    unfolding update_header
    update_header_again h s = elim (Option-cases (lookup h.shard_id s.state_db)) [
      | inl e ↦ rw (e, e) refl
      | inr (st, e) ↦ elim (Bool-cases (check_header E H V config B store h)) [
        | inl p ↦ let again = record_header_again h s st e in rw (e, p, again.1, p) again.2
        | inr p ↦ rw (e, p, e, p) refl
      ]
    ]
