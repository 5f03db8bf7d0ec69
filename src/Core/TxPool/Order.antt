-- ===== src/Core/TxPool/Order.antt =====
-- What `takeTxs1` and `takeTxs` of Mitosis/core/txpool.go take of the pool.
use mitosis.Prelude.{
  ℕ, zero, suc, ◌+◌, ◌-◌, ◌≤◌, ◌<◌, ◌≡◌, refl, ap, subst, ◌⊎◌, inl, inr, ltb, true, List, [], ◌∷◌,
  ◌++◌, length, drop, arith,
}
use mitosis.Types.Data.{OutboundChunk}
use mitosis.Core.TxPool.{TxPool, take_chunks, take_txs1}

-- The transactions of a list of chunks.
unfoldable pub total : List OutboundChunk → ℕ
total [] = 0
total (c ∷ cs) = length c.txs + total cs

take_chunks-zero : (cs : List OutboundChunk) → take_chunks 0 cs ≡ ([], 0)
unfolding take_chunks
take_chunks-zero [] = refl
take_chunks-zero (c ∷ cs) = refl

take_chunks-suc :
    (n : ℕ) (c : OutboundChunk) (cs : List OutboundChunk)
    → take_chunks (suc n) (c ∷ cs)
      ≡ (c ∷ (take_chunks (suc n - length c.txs) cs).0, (take_chunks (suc n - length c.txs) cs).1)
unfolding take_chunks
take_chunks-suc n c cs = let p : ltb 0 (suc n) ≡ true = ground arith in rw p refl

take_chunks-split :
    (n : ℕ) (cs : List OutboundChunk)
    → (take_chunks n cs).0 ++ drop (length (take_chunks n cs).0) cs ≡ cs
take_chunks-split n [] = unfold take_chunks in refl
take_chunks-split zero (c ∷ cs) = unfold take_chunks in refl
take_chunks-split (suc n) (c ∷ cs) =
    rw (take_chunks-suc n c cs) (ap (λ t. c ∷ t) (take_chunks-split (suc n - length c.txs) cs))

-- How many chunks come off the front, by the transactions that are still wanted.
unfoldable WithinBudget : ℕ → List OutboundChunk → Type 0
WithinBudget n [] = Unit
WithinBudget n (c ∷ cs) = (0 < n) × WithinBudget (n - length c.txs) cs

take_chunks-WithinBudget : (n : ℕ) (cs : List OutboundChunk) → WithinBudget n (take_chunks n cs).0
unfolding WithinBudget
take_chunks-WithinBudget n [] = unfold take_chunks in tt
take_chunks-WithinBudget zero (c ∷ cs) = rw (take_chunks-zero (c ∷ cs)) tt
take_chunks-WithinBudget (suc n) (c ∷ cs) =
    rw (take_chunks-suc n c cs) (omega arith, take_chunks-WithinBudget (suc n - length c.txs) cs)

WithinBudget-lt :
    (n : ℕ) (front : List OutboundChunk) (c : OutboundChunk) (back : List OutboundChunk)
    → WithinBudget n (front ++ (c ∷ back))
    → total front < n
unfolding WithinBudget total
WithinBudget-lt n [] c back h = h.0
WithinBudget-lt n (d ∷ front) c back h =
    let rest = WithinBudget-lt (n - length d.txs) front c back h.1 in omega (arith, rest)

take_chunks-enough :
    (n : ℕ) (cs : List OutboundChunk)
    → ((take_chunks n cs).0 ≡ cs) ⊎ (n ≤ total (take_chunks n cs).0)
unfolding total
take_chunks-enough n [] = inl (unfold take_chunks in refl)
take_chunks-enough zero (c ∷ cs) = inr (omega arith)
take_chunks-enough (suc n) (c ∷ cs) =
    rw (take_chunks-suc n c cs) (elim (take_chunks-enough (suc n - length c.txs) cs) [
      | inl e ↦ inl (ap (λ t. c ∷ t) e)
      | inr le ↦ inr (omega (arith, le))
    ])

-- `takeTxs1` takes chunks off the front of the queue in their order and keeps the others in theirs,
-- and leaves the pending transactions. It takes the whole queue unless the chunks that it takes have
-- as many transactions as were asked for, and all chunks that it takes before another one have fewer.
pub take_txs1_lem :
    (n : ℕ) (pool : TxPool)
    → let taken = (take_txs1 n pool).0 in
      let left = (take_txs1 n pool).1 in
      (taken ++ left.pending_inbound_chunks ≡ pool.pending_inbound_chunks)
      × (left.pending_txs ≡ pool.pending_txs)
      × ((taken ≡ pool.pending_inbound_chunks) ⊎ (n ≤ total taken))
      × ((front : List OutboundChunk) (c : OutboundChunk) (back : List OutboundChunk)
          → taken ≡ front ++ (c ∷ back)
          → total front < n)
unfolding take_txs1
take_txs1_lem n pool = (
  take_chunks-split n pool.pending_inbound_chunks,
  refl,
  take_chunks-enough n pool.pending_inbound_chunks,
  λ front c back e.
      WithinBudget-lt n front c back
        (subst (WithinBudget n) e (take_chunks-WithinBudget n pool.pending_inbound_chunks)),
)
