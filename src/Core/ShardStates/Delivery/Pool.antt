-- ===== src/Core/ShardStates/Delivery/Pool.antt =====
-- What `AddInboundChunkToTxPool` of Mitosis/core/shardstates.go adds to the delivered chunks.
use mitosis.Prelude.{
  ℕ, ◌+◌, ◌≤◌, ◌≡◌, refl, ap, ◌∙◌, ◌==◌, Bool, true, false, ◌&&◌, List, [], ◌∷◌, Option, none, some,
  arith,
}
use mitosis.Prelude.Count.{one_if}
use mitosis.Types.Data.{Transaction, OutboundChunk}
use mitosis.Types.Copies.{copy_chunk_lem}
use mitosis.Types.Libraries.{Encoding, Hasher, Verifier}
use mitosis.Core.TxPool.{TxPool, add_inbound_chunk}
use mitosis.Core.ShardStates.{deliver, add_to_tx_pool}
use mitosis.Core.ShardStates.Delivery.{is_from, copies}
use mitosis.Core.ShardStates.Delivery.Steps.{copies-append, is_from_one}

-- The copies that a delivery adds.
abbrev pub added : ℕ → ℕ → Bool → Option OutboundChunk → ℕ
added s b false o = 0
added s b true none = 0
added s b true (some c) = one_if (is_from s b c)

pub added_le : (s b : ℕ) (flag : Bool) (o : Option OutboundChunk) → added s b flag o ≤ 1
added_le s b false o = omega arith
added_le s b true none = omega arith
added_le s b true (some c) = ground arith

pub added-none : (s b : ℕ) (flag : Bool) → added s b flag none ≡ 0
added-none s b false = refl
added-none s b true = refl

pub added_away :
    (x y s b : ℕ) (flag : Bool) (o : Option OutboundChunk)
    → ((c : OutboundChunk) → o ≡ some c → is_from x y c ≡ true)
    → (x == s && y == b) ≡ false
    → added s b flag o ≡ 0
added_away x y s b false o from e = refl
added_away x y s b true none from e = refl
added_away x y s b true (some c) from e = ap one_if (is_from_one x y s b c (from c refl) ∙ e)

module _ (E : Encoding) (H : Hasher) (V : Verifier) where
  add_copies :
      (s b : ℕ) (txs : List Transaction) (c : OutboundChunk) (pool : TxPool)
      → c.txs ≡ txs
      → copies s b (add_to_tx_pool c pool).pending_inbound_chunks
        ≡ copies s b pool.pending_inbound_chunks + one_if (is_from s b c)
  unfolding add_to_tx_pool add_inbound_chunk copies
  add_copies s b [] c pool e = rw e (omega arith)
  add_copies s b (tx ∷ txs) c pool e =
      ap
        (λ l.
          copies s b
            (elim l as (λ t. TxPool) [
              | [] ↦ pool
              | t ∷ ts ↦ add_inbound_chunk c pool
            ]).pending_inbound_chunks)
        e
      ∙ rw (copy_chunk_lem c) (copies-append s b pool.pending_inbound_chunks (c ∷ []) ∙ omega arith)

  pub copies-deliver :
      (s b : ℕ) (flag : Bool) (o : Option OutboundChunk) (pool : TxPool)
      → copies s b (deliver E H V flag o pool).pending_inbound_chunks
        ≡ copies s b pool.pending_inbound_chunks + added s b flag o
  copies-deliver s b false o pool = omega arith
  copies-deliver s b true none pool = omega arith
  copies-deliver s b true (some c) pool = add_copies s b c.txs c pool refl
