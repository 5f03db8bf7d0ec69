-- ===== src/Core/ShardStates/Confluence.antt =====
-- A header and the chunk of its block, in either order, in Mitosis/core/shardstates.go.
use mitosis.Prelude.{
  ◌≡◌, refl, ap, ◌∙◌, sym, ltb, if◌then◌else◌, Bool, true, false, ◌&&◌, List, ◌∷◌, some, none,
}
use mitosis.Prelude.Assoc.{lookup, insert, insert-insert_self}
use mitosis.Config.{Config}
use mitosis.Bls.{Herumi, PubKeyStore}
use mitosis.Types.Data.{Transaction, Header, OutboundChunk}
use mitosis.Types.Libraries.{Encoding, Hasher, Verifier}
use mitosis.Core.TxPool.{add_inbound_chunk}
use mitosis.Core.ShardStates.{
  ShardState, ShardStates, check_header, check_inbound_chunk, record_header, update_header,
  record_chunk, record_chunk_in, chunk_from, update_inbound_chunk, update_with_header,
  update_with_inbound_chunk, deliver, add_to_tx_pool,
}
use mitosis.Core.ShardStates.Step.{lookup-insert_self}

-- A header and a chunk of one block of another shard, neither of which the node has seen, at a node of
-- a partition shard that accepts the header.
pub record IsPair (E : Encoding) (H : Hasher) (V : Verifier) (config : Config) (B : Herumi)
    (store : PubKeyStore B) (h : Header) (c : OutboundChunk) (st : ShardState) (s : ShardStates)
    : Type 0 where
  pub first_tx : Transaction
  pub other_txs : List Transaction
  pub txs_eq : c.txs ≡ first_tx ∷ other_txs
  pub from_eq : first_tx.from_shard ≡ h.shard_id
  pub hash_eq : c.block_hash ≡ h.hash
  pub known : lookup h.shard_id s.state_db ≡ some st
  pub no_header : lookup h.hash st.headers ≡ none
  pub no_chunk : lookup c.block_hash st.inbound_chunks ≡ none
  pub accepted : check_header E H V config B store h ≡ true
  pub partition : ltb 1000 config.shard_id ≡ true

module _ (E : Encoding) (H : Hasher) (V : Verifier) (config : Config) where
  -- The state that holds both.
  unfoldable pub joined : Header → OutboundChunk → ShardState → ShardStates → ShardStates
  joined h c st s = record {
    state_db =
        insert h.shard_id
          (record {
            headers = insert h.hash h st.headers;
            inbound_chunks = insert c.block_hash c st.inbound_chunks;
          })
          s.state_db;
    tx_pool =
        if check_inbound_chunk E H V h c && config.is_leader
        then add_inbound_chunk c s.tx_pool
        else s.tx_pool;
  }

  module _ (B : Herumi) (store : PubKeyStore B) (h : Header) (c : OutboundChunk) (st : ShardState)
      (s : ShardStates) (pair : IsPair E H V config B store h c st s) where
    deliver_lem :
        (b : Bool)
        → deliver E H V b (some c) s.tx_pool
          ≡ (if b then add_inbound_chunk c s.tx_pool else s.tx_pool)
    unfolding add_to_tx_pool
    deliver_lem true = rw pair.txs_eq refl
    deliver_lem false = refl

    chunk_lem :
        (t : ShardStates)
        → update_inbound_chunk E H V config c t
          ≡ some (record_chunk_in E H V config c h.shard_id t (lookup h.shard_id t.state_db))
    unfolding update_inbound_chunk
    chunk_lem t =
        ap (λ l. chunk_from E H V config l c t) pair.txs_eq
        ∙ ap (λ k. some (record_chunk_in E H V config c k t (lookup k t.state_db))) pair.from_eq

    header_found : lookup c.block_hash (insert h.hash h st.headers) ≡ some h
    header_found =
        ap (λ k. lookup k (insert h.hash h st.headers)) pair.hash_eq
        ∙ lookup-insert_self h.hash h st.headers

    chunk_found : lookup h.hash (insert c.block_hash c st.inbound_chunks) ≡ some c
    chunk_found =
        ap (λ k. lookup k (insert c.block_hash c st.inbound_chunks)) (sym pair.hash_eq)
        ∙ lookup-insert_self c.block_hash c st.inbound_chunks

    header_no_chunk : lookup h.hash st.inbound_chunks ≡ none
    header_no_chunk = ap (λ k. lookup k st.inbound_chunks) (sym pair.hash_eq) ∙ pair.no_chunk

    chunk_no_header : lookup c.block_hash st.headers ≡ none
    chunk_no_header = ap (λ k. lookup k st.headers) pair.hash_eq ∙ pair.no_header

    -- The header comes first.
    header_first :
        (s1 : ShardStates) × (update_header E H V config B store h s ≡ (s1, true))
        × (update_inbound_chunk E H V config c s1 ≡ some (joined h c st s, true))
    unfolding update_header record_header record_chunk update_with_header update_with_inbound_chunk
        joined
    header_first = (
      (record_header E H V config h s st).0,
      rw (pair.known, pair.accepted, pair.partition, pair.no_header, header_no_chunk) refl,
      chunk_lem (record_header E H V config h s st).0
          ∙ rw
              (
                pair.partition,
                pair.no_header,
                header_no_chunk,
                lookup-insert_self h.shard_id _ s.state_db,
                pair.no_chunk,
                header_found,
                deliver_lem (check_inbound_chunk E H V h c && config.is_leader),
                insert-insert_self h.shard_id _ _ s.state_db,
              )
              refl,
    )

    -- The chunk comes first.
    chunk_first :
        (s1 : ShardStates) × (update_inbound_chunk E H V config c s ≡ some (s1, true))
        × (update_header E H V config B store h s1 ≡ (joined h c st s, true))
    unfolding update_header record_header record_chunk update_with_header update_with_inbound_chunk
        joined
    chunk_first = (
      (record_chunk E H V config c h.shard_id s st).0,
      chunk_lem s ∙ rw (pair.known, pair.no_chunk, chunk_no_header) refl,
      rw
          (
            pair.no_chunk,
            chunk_no_header,
            lookup-insert_self h.shard_id _ s.state_db,
            pair.accepted,
            pair.partition,
            pair.no_header,
            chunk_found,
            deliver_lem (check_inbound_chunk E H V h c && config.is_leader),
            insert-insert_self h.shard_id _ _ s.state_db,
          )
          refl,
    )

    -- At a node of a partition shard that accepts the header, a new header and a new chunk of one block of
    -- a shard that it knows end in the same state in either order, and in either order each is reported as
    -- new when it comes: the state holds both, and the chunk stands at the end of the pool where the node is a leader and the
    -- chunk passes the check against the header, and the pool is as it was where not.
    pub header_chunk_commute :
        ((s1 : ShardStates) × (update_header E H V config B store h s ≡ (s1, true))
          × (update_inbound_chunk E H V config c s1 ≡ some (joined h c st s, true)))
        × ((s1 : ShardStates) × (update_inbound_chunk E H V config c s ≡ some (s1, true))
            × (update_header E H V config B store h s1 ≡ (joined h c st s, true)))
    header_chunk_commute = (header_first, chunk_first)
