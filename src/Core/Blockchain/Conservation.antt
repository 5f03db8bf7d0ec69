-- ===== src/Core/Blockchain/Conservation.antt =====
-- Mitosis/core/blockchain.go: what the loops over the transactions of a block do to the sum of the
-- balances of a shard's accounts.
use mitosis.Prelude.{
  ℕ, suc, ◌+◌, ◌^◌, ◌<◌, ◌≤◌, ◌==◌, ltb, if◌then◌else◌, false, not, ◌&&◌, List, [], ◌∷◌, u64, sub64,
  ◌≡◌, refl, sym, ◌∙◌, subst, arith, ◌⊎◌, inl, inr, Bool-cases, All,
}
use mitosis.Types.Data.{Transaction, OutboundChunk}
use mitosis.Core.Blockchain.{
  StateCalls, is_intra_shard, is_outbound, transfer, transfer_txs, credit_txs, credit_chunks,
}

-- What the loops rely on: a balance below 2^64 is changed modulo 2^64, and no other is.
pub record LedgerLaws (S : StateCalls) : Type 0 where
  pub get-add :
      (db : S.StateDb) (a b v : ℕ)
      → S.get_balance db a < 2 ^ 64
      → S.get_balance (S.add_balance db a v) b
        ≡ (if a == b then u64 (S.get_balance db b + v) else S.get_balance db b)
  pub get-sub :
      (db : S.StateDb) (a b v : ℕ)
      → S.get_balance db a < 2 ^ 64
      → S.get_balance (S.sub_balance db a v) b
        ≡ (if a == b then sub64 (S.get_balance db b) v else S.get_balance db b)

unfoldable pub occurs : ℕ → List ℕ → ℕ
occurs a [] = 0
occurs a (b ∷ rest) = let later = occurs a rest in if a == b then suc later else later

unfoldable pub total : (ℕ → ℕ) → List ℕ → ℕ
total f [] = 0
total f (a ∷ rest) = f a + total f rest

total_unchanged :
    (f g : ℕ → ℕ) (a : ℕ) (accounts : List ℕ)
    → occurs a accounts ≡ 0
    → ((b : ℕ) → (a == b) ≡ false → g b ≡ f b)
    → total g accounts ≡ total f accounts
unfolding total occurs
total_unchanged f g a [] none same = refl
total_unchanged f g a (b ∷ rest) none same = elim (Bool-cases (a == b)) [
  | inl q ↦ absurd (ground (arith, q, none))
  | inr q ↦ omega (arith, same b q, total_unchanged f g a rest (ground (arith, q, none)) same)
]

-- One account's balance that goes up, by itself or on the way back.
total_raised :
    (f g : ℕ → ℕ) (a v : ℕ) (accounts : List ℕ)
    → occurs a accounts ≡ 1
    → ((b : ℕ) → (a == b) ≡ false → g b ≡ f b)
    → g a ≡ f a + v
    → total g accounts ≡ total f accounts + v
unfolding total occurs
total_raised f g a v [] once same up = absurd (ground (arith, once))
total_raised f g a v (b ∷ rest) once same up = elim (Bool-cases (a == b)) [
  | inl q ↦
      let e : a ≡ b = ground arith in
      let here : g b ≡ f b + v = subst (λ k. g k ≡ f k + v) e up in
      omega (arith, here, total_unchanged f g a rest (ground (arith, q, once)) same)
  | inr q ↦ omega (arith, same b q, total_raised f g a v rest (ground (arith, q, once)) same up)
]

part_le_total :
    (f : ℕ → ℕ) (a : ℕ) (accounts : List ℕ) → occurs a accounts ≡ 1 → f a ≤ total f accounts
unfolding total occurs
part_le_total f a [] once = absurd (ground (arith, once))
part_le_total f a (b ∷ rest) once = elim (Bool-cases (a == b)) [
  | inl q ↦
      let e : a ≡ b = ground arith in subst (λ k. f k ≤ f b + total f rest) (sym e) (omega arith)
  | inr q ↦ omega (arith, part_le_total f a rest (ground (arith, q, once)))
]

module _ (S : StateCalls) where
  open S use {StateDb, get_balance}

  unfoldable pub funds : List ℕ → StateDb → ℕ
  unfolding total
  funds accounts db = total (get_balance db) accounts

  -- The value of a transaction that leaves the shard, and what of it the state loses, which is nothing where the
  -- sender cannot pay.
  abbrev pub leaves : ℕ → Transaction → ℕ
  leaves shard tx = if is_outbound S shard tx then tx.value else 0

  unfoldable sent_out : ℕ → Transaction → StateDb → ℕ
  sent_out shard tx db =
      if is_outbound S shard tx && not (ltb (get_balance db tx.from_addr) tx.value)
      then tx.value
      else 0

  -- The values of all transactions of a block that leave the shard.
  unfoldable pub outflow : ℕ → List Transaction → ℕ
  outflow shard [] = 0
  outflow shard (tx ∷ txs) = leaves shard tx + outflow shard txs

  -- The values of those among them whose senders cannot pay when their turn comes.
  unfoldable pub unfunded : ℕ → List Transaction → StateDb → ℕ
  unfunded shard [] db = 0
  unfunded shard (tx ∷ txs) db =
      (if ltb (get_balance db tx.from_addr) tx.value then leaves shard tx else 0)
      + unfunded shard txs (transfer S shard tx db)

  -- The accounts hold the sender, and the receiver of what stays in the shard.
  abbrev pub Known : List ℕ → ℕ → Transaction → Type 0
  Known accounts shard tx =
      (occurs tx.from_addr accounts ≡ 1)
      × ((is_intra_shard S shard tx ≡ false) ⊎ (occurs tx.to_addr accounts ≡ 1))

-- What an inbound chunk brings into the shard.
unfoldable pub inflow : ℕ → List Transaction → ℕ
inflow shard [] = 0
inflow shard (tx ∷ txs) =
    (if not (tx.from_shard == shard) && tx.to_shard == shard then tx.value else 0)
    + inflow shard txs

unfoldable pub inflows : ℕ → List OutboundChunk → ℕ
unfolding inflow
inflows shard [] = 0
inflows shard (c ∷ chunks) = inflow shard c.txs + inflows shard chunks

abbrev pub Credited : List ℕ → Transaction → Type 0
Credited accounts tx = occurs tx.to_addr accounts ≡ 1

module _ (S : StateCalls) (L : LedgerLaws S) (accounts : List ℕ) where
  open S use {StateDb, get_balance, add_balance, sub_balance}

  funds-add_balance :
      (db : StateDb) (a v : ℕ)
      → occurs a accounts ≡ 1
      → funds S accounts db + v < 2 ^ 64
      → funds S accounts (add_balance db a v) ≡ funds S accounts db + v
  unfolding funds
  funds-add_balance db a v once small =
      let le = part_le_total (get_balance db) a accounts once in
      total_raised (get_balance db) (get_balance (add_balance db a v)) a v accounts once
        (λ b q. L.get-add db a b v (omega (arith, le)) ∙ rw q refl)
        (L.get-add db a a v (omega (arith, le)) ∙ ground (arith, le))

  funds-sub_balance :
      (db : StateDb) (a v : ℕ)
      → occurs a accounts ≡ 1
      → v ≤ get_balance db a
      → funds S accounts db < 2 ^ 64
      → funds S accounts (sub_balance db a v) + v ≡ funds S accounts db
  unfolding funds
  funds-sub_balance db a v once enough small =
      let le = part_le_total (get_balance db) a accounts once in
      sym (
        total_raised (get_balance (sub_balance db a v)) (get_balance db) a v accounts once
          (λ b q. sym (L.get-sub db a b v (omega (arith, le)) ∙ rw q refl))
          (ground (arith, L.get-sub db a a v (omega (arith, le)), le, enough)))

  module _ (shard : ℕ) where
    funds_intra :
        (tx : Transaction) (db : StateDb)
        → occurs tx.from_addr accounts ≡ 1
        → occurs tx.to_addr accounts ≡ 1
        → tx.value ≤ get_balance db tx.from_addr
        → funds S accounts db < 2 ^ 64
        → funds S accounts (add_balance (sub_balance db tx.from_addr tx.value) tx.to_addr tx.value)
          ≡ funds S accounts db
    funds_intra tx db from to enough small =
        let left = funds-sub_balance db tx.from_addr tx.value from enough small in
        funds-add_balance (sub_balance db tx.from_addr tx.value) tx.to_addr tx.value to
          (omega (arith, left))
        ∙ left

    funds-transfer :
        (tx : Transaction) (db : StateDb)
        → Known S accounts shard tx
        → funds S accounts db < 2 ^ 64
        → funds S accounts (transfer S shard tx db) + sent_out S shard tx db ≡ funds S accounts db
    unfolding transfer sent_out
    funds-transfer tx db known small =
        elim (Bool-cases (ltb (get_balance db tx.from_addr) tx.value)) [
          | inl poor ↦ rw poor (ground arith)
          | inr rich ↦ elim (Bool-cases (is_intra_shard S shard tx)) [
            | inl intra ↦ elim known.1 [
              | inl not_intra ↦ absurd (ground (arith, intra, not_intra))
              | inr to ↦
                  let kept = funds_intra tx db known.0 to (ground (arith, rich)) small in
                  ground (arith, kept)
            ]
            | inr leaves ↦
                let left =
                  funds-sub_balance db tx.from_addr tx.value known.0 (ground (arith, rich)) small in
                ground (arith, left)
          ]
        ]

    sent_out-leaves :
        (tx : Transaction) (db : StateDb)
        → leaves S shard tx
          ≡ sent_out S shard tx db
            + (if ltb (get_balance db tx.from_addr) tx.value then leaves S shard tx else 0)
    unfolding sent_out
    sent_out-leaves tx db = ground arith

    -- The sum of the balances of the shard's accounts after the loop over the transactions of a block, and the
    -- values of all transactions that leave the shard, make the sum before and the values of those that
    -- leave though their senders cannot pay: nothing is lost, and value is made by these alone. The sum is
    -- below 2^64, every sender is one of the accounts and every receiver of an intra-shard transaction is,
    -- and no account of theirs is listed twice.
    pub funds-transfer_txs :
        (txs : List Transaction) (db : StateDb)
        → All (Known S accounts shard) txs
        → funds S accounts db < 2 ^ 64
        → funds S accounts (transfer_txs S shard txs db) + outflow S shard txs
          ≡ funds S accounts db + unfunded S shard txs db
    unfolding transfer_txs outflow unfunded
    funds-transfer_txs [] db known small = omega arith
    funds-transfer_txs (tx ∷ txs) db known small =
        let first = funds-transfer tx db known.0 small in
        omega (
          arith,
          first,
          sent_out-leaves tx db,
          funds-transfer_txs txs (transfer S shard tx db) known.1 (omega (arith, first)),
        )

    funds-credit_txs :
        (txs : List Transaction) (db : StateDb)
        → All (Credited accounts) txs
        → funds S accounts db + inflow shard txs < 2 ^ 64
        → funds S accounts (credit_txs S shard txs db) ≡ funds S accounts db + inflow shard txs
    unfolding credit_txs inflow
    funds-credit_txs [] db known small = omega arith
    funds-credit_txs (tx ∷ txs) db known small =
        elim (Bool-cases (not (tx.from_shard == shard) && tx.to_shard == shard)) [
          | inl q ↦
              let fits : funds S accounts db + (tx.value + inflow shard txs) < 2 ^ 64 =
                ground (arith, q, small) in
              let e = funds-add_balance db tx.to_addr tx.value known.0 (omega (arith, fits)) in
              let rest =
                funds-credit_txs txs (add_balance db tx.to_addr tx.value) known.1
                  (omega (arith, e, fits)) in
              rw q (omega (arith, e, rest))
          | inr q ↦
              let fits : funds S accounts db + inflow shard txs < 2 ^ 64 =
                ground (arith, q, small) in
              rw q (omega (arith, funds-credit_txs txs db known.1 fits))
        ]

    -- The inbound chunks of a block raise the sum of the balances of the shard's accounts by the values of
    -- their transactions from other shards to this one, whether or not the senders could pay. The
    -- receivers are among the accounts, none of them listed twice, and the sum that is reached is below
    -- 2^64.
    pub funds-credit_chunks :
        (chunks : List OutboundChunk) (db : StateDb)
        → All (λ c. All (Credited accounts) c.txs) chunks
        → funds S accounts db + inflows shard chunks < 2 ^ 64
        → funds S accounts (credit_chunks S shard chunks db)
          ≡ funds S accounts db + inflows shard chunks
    unfolding credit_chunks inflows
    funds-credit_chunks [] db known small = omega arith
    funds-credit_chunks (c ∷ chunks) db known small =
        let first = funds-credit_txs c.txs db known.0 (omega arith) in
        let rest =
          funds-credit_chunks chunks (credit_txs S shard c.txs db) known.1 (omega (arith, first)) in
        omega (arith, first, rest)
