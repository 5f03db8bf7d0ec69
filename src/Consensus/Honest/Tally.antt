-- ===== src/Consensus/Honest/Tally.antt =====
-- The count of votes by the loop of HandleBFTMsg in Mitosis/consensus/protocol.go: while each vote is counted
-- and the rest are ignored, enough votes bring a step to its end.
use mitosis.Prelude.{ℕ, suc, ◌+◌, ◌<◌, ◌≤◌, ◌≡◌, refl, false, List, [], ◌∷◌, arith, length, elem}
use mitosis.Prelude.Ascending.{insert_sorted, length-insert_sorted}
use native.Mathlib.Decide.{dec_lt}
use mitosis.Bls.{Herumi}
use mitosis.Types.Data.{BftMessage}
use mitosis.Consensus.Protocol.{ChainCalls, Setting, Bft, done}
use mitosis.Consensus.Run.{run, handle}

-- No key is among `ks`, or comes twice.
abbrev pub Fresh : List ℕ → List ℕ → Type 0
Fresh ks [] = Unit
Fresh ks (j ∷ js) = (elem j ks ≡ false) × Fresh (insert_sorted j ks) js

-- What holds of each key and the value beside it; there are as many of one as of the other.
abbrev pub Each {ℓ} : {A : Type ℓ} → (ℕ → A → Type 0) → List ℕ → List A → Type 0
Each P [] [] = Unit
Each P [] (x ∷ xs) = ⊥
Each P (j ∷ js) [] = ⊥
Each P (j ∷ js) (x ∷ xs) = P j x × Each P js xs

module _ {B : Herumi} {C : ChainCalls} (cfg : Setting B) (threshold : ℕ)
    (IsVote : ℕ → BftMessage → Type 0) (Waiting Through : List ℕ → Bft B C → Type 0) where
  -- A vote of a new key is counted, and the one that reaches the threshold ends the step.
  abbrev pub Counts : Type 0
  Counts =
      (s : Bft B C) (ks : List ℕ) (j : ℕ) (m : BftMessage)
      → Waiting ks s
      → length ks < threshold
      → IsVote j m
      → elem j ks ≡ false
      → (t : Bft B C) × (handle cfg s m ≡ done t)
        × (suc (length ks) < threshold → Waiting (insert_sorted j ks) t)
        × (threshold ≤ suc (length ks) → Through (insert_sorted j ks) t)

  -- A vote that comes after the step changes nothing.
  abbrev pub Ignores : Type 0
  Ignores =
      (s : Bft B C) (ks : List ℕ) (j : ℕ) (m : BftMessage)
      → Through ks s
      → IsVote j m
      → handle cfg s m ≡ done s

  module _ (counts : Counts) (ignores : Ignores) where
    ignored :
        (s : Bft B C) (ks js : List ℕ) (ms : List BftMessage)
        → Through ks s
        → Each IsVote js ms
        → run cfg s ms ≡ done s
    unfolding run
    ignored s ks [] [] over v = refl
    ignored s ks [] (m ∷ ms) over v = absurd v
    ignored s ks (j ∷ js) [] over v = absurd v
    ignored s ks (j ∷ js) (m ∷ ms) over v =
        rw (ignores s ks j m over v.0) (ignored s ks js ms over v.1)

    pub tally :
        (ks js : List ℕ) (ms : List BftMessage) (s : Bft B C)
        → Waiting ks s
        → length ks < threshold
        → threshold ≤ length ks + length js
        → Fresh ks js
        → Each IsVote js ms
        → (t : Bft B C) × (all : List ℕ) × (run cfg s ms ≡ done t)
          × (threshold ≤ length all)
          × Through all t
    unfolding run
    tally ks [] ms s wait few enough new v = absurd (omega (arith, few, enough))
    tally ks (j ∷ js) [] s wait few enough new v = absurd v
    tally ks (j ∷ js) (m ∷ ms) s wait few enough new v =
        let (t, e, more, over) = counts s ks j m wait few v.0 new.0 in
        let long = length-insert_sorted j ks in
        elim (dec_lt (suc (length ks)) threshold) [
          | yes below ↦ rw e (
              tally (insert_sorted j ks) js ms t (more below) (omega (arith, long, below))
                (omega (arith, long, enough)) new.1 v.1)
          | no reached ↦
              let th = over (omega (arith, reached)) in
              (
                t,
                insert_sorted j ks,
                rw e (ignored t (insert_sorted j ks) js ms th v.1),
                omega (arith, long, reached),
                th,
              )
        ]
