-- ===== src/Core/ShardStates/Delivery.antt =====
-- How often an inbound chunk gets to the transaction pool and from there to a block, in
-- Mitosis/core/shardstates.go and `takeTxs1` of Mitosis/core/txpool.go.
mod Steps
mod Pool
pub mod Once
use mitosis.Prelude.{
  ℕ, zero, suc, ◌+◌, ◌≤◌, ◌≡◌, refl, ◌==◌, if◌then◌else◌, Bool, true, false, ◌&&◌, List, [], ◌∷◌,
  ◌++◌, Option, none, some,
}
use mitosis.Prelude.Assoc.{lookup}
use mitosis.Prelude.Count.{one_if}
use mitosis.Config.{Config}
use mitosis.Bls.{Herumi, PubKeyStore}
use mitosis.Types.Data.{Transaction, Header, OutboundChunk}
use mitosis.Types.Libraries.{Encoding, Hasher, Verifier}
use mitosis.Core.TxPool.{take_txs1}
use mitosis.Core.ShardStates.{ShardState, ShardStates, update_header, update_inbound_chunk}

-- Whether a chunk says that it comes from a block of a shard, by its first transaction.
abbrev pub first_from : List Transaction → ℕ → Bool
first_from [] shard = false
first_from (tx ∷ txs) shard = tx.from_shard == shard

abbrev pub is_from : ℕ → ℕ → OutboundChunk → Bool
is_from shard hash c = first_from c.txs shard && c.block_hash == hash

unfoldable pub copies : ℕ → ℕ → List OutboundChunk → ℕ
copies shard hash [] = 0
copies shard hash (c ∷ cs) = one_if (is_from shard hash c) + copies shard hash cs

-- What happens at a node: a header or a chunk comes, or a block takes chunks out of the pool.
pub data Event : Type 0 where
  header_arrives : Header → Event
  chunk_arrives : OutboundChunk → Event
  block_takes : ℕ → Event

-- The states of the shards, and the chunks that blocks have taken so far.
pub record Node : Type 0 where
  pub states : ShardStates
  pub taken : List OutboundChunk

abbrev pub delivered : Node → List OutboundChunk
delivered n = n.taken ++ n.states.tx_pool.pending_inbound_chunks

abbrev pub after_chunk : Node → Option (ShardStates × Bool) → Option Node
after_chunk n none = none
after_chunk n (some (s, first)) = some (record n { states = s })

abbrev pub and_then : (Node → Option Node) → Option Node → Option Node
and_then f none = none
and_then f (some n) = f n

module _ (E : Encoding) (H : Hasher) (V : Verifier) (config : Config) (B : Herumi)
    (store : PubKeyStore B) where
  unfoldable pub happen : Event → Node → Option Node
  happen (header_arrives h) n =
      some (record n { states = (update_header E H V config B store h n.states).0 })
  happen (chunk_arrives c) n = after_chunk n (update_inbound_chunk E H V config c n.states)
  happen (block_takes k) n =
      let (chunks, pool) = take_txs1 k n.states.tx_pool in
      some (record { states = record n.states { tx_pool = pool }; taken = n.taken ++ chunks })

  unfoldable pub happen_all : List Event → Node → Option Node
  happen_all [] n = some n
  happen_all (e ∷ es) n = and_then (happen_all es) (happen e n)

-- The chunks of one block of one shard: at most one was delivered, and none while the header or the
-- chunk is missing.
unfoldable pub HoldsOf : ℕ → ℕ → ℕ → Option ShardState → Type 0
HoldsOf shard hash k none = k ≡ 0
HoldsOf shard hash k (some st) =
    ((c : OutboundChunk) → lookup hash st.inbound_chunks ≡ some c → is_from shard hash c ≡ true)
    × (k ≤ 1)
    × (lookup hash st.headers ≡ none → k ≡ 0)
    × (lookup hash st.inbound_chunks ≡ none → k ≡ 0)

unfoldable pub Holds : Node → Type 0
Holds n =
    (shard hash : ℕ)
    → HoldsOf shard hash (copies shard hash (delivered n)) (lookup shard n.states.state_db)
