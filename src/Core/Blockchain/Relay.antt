-- ===== src/Core/Blockchain/Relay.antt =====
-- Mitosis/core/blockchain.go: what `Commit` and the loops over messages send, and that a message that
-- comes again is not sent on again.
use mathlib.Core.Option.{some-injective}
use mitosis.Prelude.{
  ℕ, zero, suc, ◌+◌, ◌^◌, ◌<◌, ◌==◌, if◌then◌else◌, Bool, true, false, not, ◌||◌, List, [], ◌∷◌,
  ◌++◌, Option, none, some, u32, length, append-nil, get_elem?, ◌≡◌, refl, sym, ap, ◌∙◌, subst,
  arith, inl, inr, Bool-cases,
}
use mitosis.Prelude.Assoc.{lookup, insert}
use mitosis.Config.{Config}
use mitosis.Bls.{Herumi, PubKeyStore}
use mitosis.Types.Data.{Transaction, Header, OutboundChunk, Block}
use mitosis.Types.Libraries.{Encoding, Hasher, Verifier}
use mitosis.Core.ShardStates.{ShardStates, update_header, update_inbound_chunk}
use mitosis.Core.ShardStates.Step.{update_header_again, update_inbound_chunk_again}
use mitosis.Core.Blockchain.{StateCalls, Blockchain, roll_back}
use mitosis.Core.Blockchain.Execute.{
  Sent, header_gossip, outbound_chunk_gossip, add_send, chunk_sends, chunks_or, execute_db,
  executed, execute_block, adopt, announce, commit, relay_header, relay_chunk, take_chunk,
  handle_header_msg, handle_inbound_chunk_msg,
}

-- What goes to one shard.
unfoldable pub for_shard : ℕ → List (ℕ × Sent) → List Sent
for_shard dst [] = []
for_shard dst ((shard, m) ∷ rest) =
    let later = for_shard dst rest in if shard == dst then m ∷ later else later

abbrev nonempty : OutboundChunk → List Transaction → List Sent
nonempty c [] = []
nonempty c (tx ∷ txs) = outbound_chunk_gossip c ∷ []

abbrev pub whole_chunk : Option OutboundChunk → List Sent
whole_chunk none = []
whole_chunk (some c) = nonempty c c.txs

-- One round of the loop of `Commit`.
for_shard-add_send :
    (dst to : ℕ) (own : Bool) (c : OutboundChunk) (txs : List Transaction) (rest : List (ℕ × Sent))
    → for_shard dst (if own then rest else add_send to c txs rest)
      ≡ (if own || not (to == dst) then [] else nonempty c txs) ++ for_shard dst rest
unfolding for_shard
for_shard-add_send dst to true c txs rest = refl
for_shard-add_send dst to false c [] rest = ground arith
for_shard-add_send dst to false c (tx ∷ txs) rest = ground arith

for_shard_round :
    (own i dst : ℕ) (c : OutboundChunk) (chunks : List OutboundChunk)
    → for_shard dst (chunk_sends own i (c ∷ chunks))
      ≡ (if (u32 (i + 1001) == own) || not (u32 (i + 1001) == dst) then [] else nonempty c c.txs)
        ++ for_shard dst (chunk_sends own (suc i) chunks)
unfolding chunk_sends
for_shard_round own i dst c chunks =
    for_shard-add_send dst (u32 (i + 1001)) (u32 (i + 1001) == own) c c.txs
      (chunk_sends own (suc i) chunks)

-- Nothing of the loop goes to a shard that none of its rounds is for.
for_shard_other :
    (own i dst : ℕ) (chunks : List OutboundChunk)
    → dst < i + 1001
    → i + length chunks + 1001 < 2 ^ 32
    → for_shard dst (chunk_sends own i chunks) ≡ []
unfolding for_shard chunk_sends
for_shard_other own i dst [] low small = refl
for_shard_other own i dst (c ∷ chunks) low small =
    for_shard_round own i dst c chunks
    ∙ ground (arith, for_shard_other own (suc i) dst chunks (omega arith) (omega arith))

for_shard-chunk_sends :
    (own i k dst : ℕ) (chunks : List OutboundChunk)
    → dst ≡ i + k + 1001
    → i + length chunks + 1001 < 2 ^ 32
    → for_shard dst (chunk_sends own i chunks)
      ≡ (if dst == own then [] else whole_chunk (get_elem? chunks k))
unfolding for_shard chunk_sends
for_shard-chunk_sends own i k dst [] e small = ground arith
for_shard-chunk_sends own i zero dst (c ∷ chunks) e small =
    for_shard_round own i dst c chunks
    ∙ ground (
      arith,
      append-nil (nonempty c c.txs),
      for_shard_other own (suc i) dst chunks (omega arith) (omega arith),
    )
for_shard-chunk_sends own i (suc k) dst (c ∷ chunks) e small =
    for_shard_round own i dst c chunks
    ∙ ground (arith, for_shard-chunk_sends own (suc i) k dst chunks (omega arith) (omega arith))

module _ (E : Encoding) (H : Hasher) (V : Verifier) (S : StateCalls) (config : Config) (B : Herumi)
    (store : PubKeyStore B) where
  -- The header to the root shard, and each chunk that has transactions to its shard, unless that is
  -- the own.
  unfoldable pub Announces : Block → List OutboundChunk → List (ℕ × Sent) → Type 0
  Announces block chunks sends =
      (for_shard config.r_shard_id sends ≡ header_gossip block.header ∷ [])
      × ((k : ℕ)
          → for_shard (k + 1001) sends
            ≡ (if k + 1001 == config.shard_id then [] else whole_chunk (get_elem? chunks k)))

  sends-Announces :
      (block : Block) (chunks : List OutboundChunk)
      → config.r_shard_id < 1001
      → length chunks + 1001 < 2 ^ 32
      → Announces block chunks
          ((config.r_shard_id, header_gossip block.header) ∷ chunk_sends config.shard_id 0 chunks)
  unfolding Announces for_shard
  sends-Announces block chunks low small = (
    ground (
      arith,
      for_shard_other config.shard_id 0 config.r_shard_id chunks (omega arith) (omega arith),
    ),
    λ k. ground (
      arith,
      for_shard-chunk_sends config.shard_id 0 k (k + 1001) chunks (omega arith) (omega arith),
    ),
  )

  announce-Announces :
      (block : Block) (before chain' : Blockchain S) (sends : List (ℕ × Sent))
      (done : Option (Blockchain S))
      → ((chain : Blockchain S)
          → done ≡ some chain
          → chain.outbound_chunk_db ≡ before.outbound_chunk_db)
      → config.r_shard_id < 1001
      → length (chunks_or (lookup block.hash before.outbound_chunk_db)) + 1001 < 2 ^ 32
      → announce E H V S config B store block done ≡ some (chain', sends)
      → Announces block (chunks_or (lookup block.hash before.outbound_chunk_db)) sends
  announce-Announces block before chain' sends none kept low small e = absurd (ground (arith, e))
  announce-Announces block before chain' sends (some chain) kept low small e =
      let chunks = chunks_or (lookup block.hash before.outbound_chunk_db) in
      let same : chunks_or (lookup block.hash chain.outbound_chunk_db) ≡ chunks =
        ap (λ db. chunks_or (lookup block.hash db)) (kept chain refl) in
      subst (Announces block chunks)
        (ap (λ t. (config.r_shard_id, header_gossip block.header) ∷ chunk_sends config.shard_id 0 t)
            (sym same)
          ∙ ap (λ t. t.1) (some-injective _ _ e))
        (sends-Announces block chunks low small)

  executed_chunks :
      (chain after : Blockchain S) (db : Option S.StateDb)
      → executed S config chain db ≡ some after
      → after.outbound_chunk_db ≡ chain.outbound_chunk_db
  executed_chunks chain after none e = absurd (ground (arith, e))
  executed_chunks chain after (some db) e =
      ap (λ c. c.outbound_chunk_db) (sym (some-injective _ _ e))

  adopt_chunks :
      (chain after : Blockchain S) (block : Block) (db : S.StateDb) (ok : Bool)
      → adopt E H V S config B store chain block (db, ok) ≡ some after
      → after.outbound_chunk_db ≡ chain.outbound_chunk_db
  unfolding execute_block
  adopt_chunks chain after block db true e =
      ap (λ c. c.outbound_chunk_db) (sym (some-injective _ _ e))
  adopt_chunks chain after block db false e =
      executed_chunks chain after
        (execute_db S config block chain.latest_block chain.shard_states chain.state_db) e

  -- When `Commit` returns, it has gossiped the block's header to the root shard once, and of the chunks
  -- that were recorded with the block the one at place `k` to shard `1001 + k` once, if it has
  -- transactions and that is not the own shard; nothing else to those shards. The root shard's number is
  -- below 1001 and the number of chunks fits the uint32 of a shard.
  pub commit-Announces :
      (chain chain' : Blockchain S) (block : Block) (sends : List (ℕ × Sent))
      → config.r_shard_id < 1001
      → length (chunks_or (lookup block.hash chain.outbound_chunk_db)) + 1001 < 2 ^ 32
      → commit E H V S config B store chain block ≡ some (chain', sends)
      → Announces block (chunks_or (lookup block.hash chain.outbound_chunk_db)) sends
  unfolding commit
  commit-Announces chain chain' block sends low small e =
      let chain1 : Blockchain S = record chain {
        latest_block = some block;
        block_db = insert block.height block chain.block_db;
      } in
      let (db, ok) = roll_back E H V S config block.state_root chain.state_db in
      announce-Announces block chain chain' sends
        (adopt E H V S config B store chain1 block (db, ok))
        (λ after r. adopt_chunks chain1 after block db ok r) low small e

  relay_header-state :
      (h : Header) (chain : Blockchain S) (s : ShardStates) (first : Bool)
      → (relay_header E H V S config B store h chain (s, first)).0
        ≡ record chain { shard_states = s }
  relay_header-state h chain s true = refl
  relay_header-state h chain s false = refl

  -- A header that comes again, to a node that has dealt with it, changes nothing and is not sent on.
  pub handle_header_msg_again :
      (h : Header) (chain : Blockchain S)
      → let chain1 = (handle_header_msg E H V S config B store h chain).0 in
        handle_header_msg E H V S config B store h chain1 ≡ (chain1, [])
  unfolding handle_header_msg
  handle_header_msg_again h chain =
      let (s, first) = update_header E H V config B store h chain.shard_states in
      subst (λ (c : Blockchain S). handle_header_msg E H V S config B store h c ≡ (c, []))
        (sym (relay_header-state h chain s first))
        (ap (relay_header E H V S config B store h (record chain { shard_states = s }))
          (update_header_again E H V config B store h chain.shard_states))

  relay_chunk_again :
      (c : OutboundChunk) (chain chain1 : Blockchain S) (sends : List (ℕ × Sent))
      (result : Option (ShardStates × Bool))
      → update_inbound_chunk E H V config c chain.shard_states ≡ result
      → relay_chunk E H V S config B store c chain result ≡ some (chain1, sends)
      → relay_chunk E H V S config B store c chain1
          (update_inbound_chunk E H V config c chain1.shard_states)
        ≡ some (chain1, [])
  relay_chunk_again c chain chain1 sends none u e = absurd (ground (arith, e))
  relay_chunk_again c chain chain1 sends (some (s, first)) u e =
      subst
        (λ (t : Blockchain S).
          relay_chunk E H V S config B store c t
            (update_inbound_chunk E H V config c t.shard_states)
          ≡ some (t, []))
        (state first e)
        (ap (relay_chunk E H V S config B store c (record chain { shard_states = s }))
          (update_inbound_chunk_again E H V config c chain.shard_states s first u))
    where
      state :
          (b : Bool)
          → relay_chunk E H V S config B store c chain (some (s, b)) ≡ some (chain1, sends)
          → record chain { shard_states = s } ≡ chain1
      state true q = ap (λ t. t.0) (some-injective _ _ q)
      state false q = ap (λ t. t.0) (some-injective _ _ q)

  take_chunk_again :
      (txs : List Transaction) (c : OutboundChunk) (chain chain1 : Blockchain S)
      (sends : List (ℕ × Sent))
      → take_chunk E H V S config B store txs c chain ≡ some (chain1, sends)
      → take_chunk E H V S config B store txs c chain1 ≡ some (chain1, [])
  take_chunk_again [] c chain chain1 sends e = refl
  take_chunk_again (tx ∷ txs) c chain chain1 sends e =
      elim (Bool-cases (tx.to_shard == config.shard_id)) [
        | inl p ↦ rw p (
            relay_chunk_again c chain chain1 sends
              (update_inbound_chunk E H V config c chain.shard_states) refl (ground (arith, p, e)))
        | inr p ↦ rw p refl
      ]

  -- An inbound chunk that comes again, to a node that has dealt with it, changes nothing and is not sent
  -- on.
  pub handle_inbound_chunk_msg_again :
      (c : OutboundChunk) (chain chain1 : Blockchain S) (sends : List (ℕ × Sent))
      → handle_inbound_chunk_msg E H V S config B store c chain ≡ some (chain1, sends)
      → handle_inbound_chunk_msg E H V S config B store c chain1 ≡ some (chain1, [])
  unfolding handle_inbound_chunk_msg
  handle_inbound_chunk_msg_again c chain chain1 sends e =
      take_chunk_again c.txs c chain chain1 sends e
