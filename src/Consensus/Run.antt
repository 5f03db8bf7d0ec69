-- ===== src/Consensus/Run.antt =====
-- HandleBFTMsg of Mitosis/consensus/protocol.go: a node works off its queue of messages, and only logs an
-- error. Its phase never goes back.
use mitosis.Prelude.{ℕ, ◌≡◌, subst, if◌then◌else◌, List, [], ◌∷◌, some, arith}
use mitosis.Bls.{Herumi}
use mitosis.Types.Data.{Block, BftMessage}
use mitosis.Consensus.Phase.{Phase, AtMost, AtMost-refl, AtMost-trans, switch}
use mitosis.Consensus.Votes.{Vote, counted}
use mitosis.Consensus.Leader.{
  prepare, precommit, commit, prepare_voted, precommit_voted, commit_voted, on_prepare_vote_msg,
  on_precommit_vote_msg, on_commit_vote_msg, handle_leader,
}
use mitosis.Consensus.Validator.{
  vote_prepare, check_prepare, on_prepare_msg, vote_precommit, on_precommit_msg, vote_commit,
  on_commit_msg, handle_validator,
}
use mitosis.Consensus.Protocol.{ChainCalls, Setting, Bft, Outcome, done, failed, panic}

module _ {B : Herumi} {C : ChainCalls} (cfg : Setting B) where
  unfoldable pub handle : Bft B C → BftMessage → Outcome (Bft B C)
  handle s m = if cfg.is_leader then handle_leader cfg s m else handle_validator cfg s m

  abbrev pub proceed : Outcome (Bft B C) → (Bft B C → Outcome (Bft B C)) → Outcome (Bft B C)
  proceed (done t) k = k t
  proceed (failed e t) k = k t
  proceed panic k = panic

  -- The state after the messages of the queue; an error does not stop the loop, a panic does.
  unfoldable pub run : Bft B C → List BftMessage → Outcome (Bft B C)
  unfolding handle
  run s [] = done s
  run s (m ∷ ms) = proceed (handle s m) (λ t. run t ms)

  -- What an outcome leaves is not behind a phase.
  abbrev Keeps : Phase → Outcome (Bft B C) → Type 0
  Keeps p (done t) = AtMost p t.phase
  Keeps p (failed e t) = AtMost p t.phase
  Keeps p panic = Unit {0}

  prepare-Keeps : (s : Bft B C) → Keeps s.phase (prepare cfg s)
  unfolding prepare switch
  prepare-Keeps s = ground arith

  precommit-Keeps : (s : Bft B C) → Keeps s.phase (precommit cfg s)
  unfolding precommit switch
  precommit-Keeps s = ground arith

  commit-Keeps : (s : Bft B C) → Keeps s.phase (commit cfg s)
  unfolding commit switch
  commit-Keeps s = ground arith

  prepare_voted-Keeps : (s : Bft B C) (v : Vote B) → Keeps s.phase (prepare_voted cfg s v)
  unfolding prepare_voted
  prepare_voted-Keeps s (counted merged sum) = ground (
    arith,
    precommit-Keeps (record s { prepare_bitmap = some merged; aggregate_prepare_sig = some sum }),
  )
  prepare_voted-Keeps s v = ground arith

  precommit_voted-Keeps : (s : Bft B C) (v : Vote B) → Keeps s.phase (precommit_voted cfg s v)
  unfolding precommit_voted
  precommit_voted-Keeps s (counted merged sum) = ground (
    arith,
    commit-Keeps (record s { precommit_bitmap = some merged; aggregate_precommit_sig = some sum }),
  )
  precommit_voted-Keeps s v = ground arith

  commit_voted-Keeps : (s : Bft B C) (v : Vote B) → Keeps s.phase (commit_voted cfg s v)
  unfolding commit_voted
  commit_voted-Keeps s (counted merged sum) = ground (
    arith,
    prepare-Keeps (record s { commit_bitmap = some merged; aggregate_commit_sig = some sum }),
  )
  commit_voted-Keeps s v = ground arith

  handle_leader-Keeps : (s : Bft B C) (m : BftMessage) → Keeps s.phase (handle_leader cfg s m)
  unfolding handle_leader on_prepare_vote_msg on_precommit_vote_msg on_commit_vote_msg
  handle_leader-Keeps s m =
      grind (arith, prepare_voted-Keeps, precommit_voted-Keeps, commit_voted-Keeps)

  vote_prepare-Keeps : (s : Bft B C) (m : BftMessage) → Keeps s.phase (vote_prepare cfg s m)
  unfolding vote_prepare switch
  vote_prepare-Keeps s m = ground arith

  check_prepare-Keeps :
      (s : Bft B C) (m : BftMessage) (ks : List ℕ) → Keeps s.phase (check_prepare cfg s m ks)
  unfolding check_prepare
  check_prepare-Keeps s m [] = tt
  check_prepare-Keeps s m (k ∷ ks) = grind (arith, vote_prepare-Keeps)

  vote_precommit-Keeps :
      (s : Bft B C) (b : Block) (m : BftMessage) → Keeps s.phase (vote_precommit cfg s b m)
  unfolding vote_precommit switch
  vote_precommit-Keeps s b m = ground arith

  vote_commit-Keeps :
      (s : Bft B C) (b : Block) (m : BftMessage) → Keeps s.phase (vote_commit cfg s b m)
  unfolding vote_commit switch
  vote_commit-Keeps s b m = ground arith

  handle_validator-Keeps : (s : Bft B C) (m : BftMessage) → Keeps s.phase (handle_validator cfg s m)
  unfolding handle_validator on_prepare_msg on_precommit_msg on_commit_msg
  handle_validator-Keeps s m =
      grind (arith, check_prepare-Keeps, vote_precommit-Keeps, vote_commit-Keeps)

  handle-Keeps : (s : Bft B C) (m : BftMessage) → Keeps s.phase (handle s m)
  unfolding handle
  handle-Keeps s m = ground (arith, handle_leader-Keeps s m, handle_validator-Keeps s m)

  Keeps-trans : (p q : Phase) (o : Outcome (Bft B C)) → AtMost p q → Keeps q o → Keeps p o
  Keeps-trans p q (done t) h k = AtMost-trans p q t.phase h k
  Keeps-trans p q (failed e t) h k = AtMost-trans p q t.phase h k
  Keeps-trans p q panic h k = tt

  proceed-Keeps :
      (p : Phase) (o : Outcome (Bft B C)) (k : Bft B C → Outcome (Bft B C))
      → Keeps p o
      → ((t : Bft B C) → Keeps t.phase (k t))
      → Keeps p (proceed o k)
  proceed-Keeps p (done t) k h next = Keeps-trans p t.phase (k t) h (next t)
  proceed-Keeps p (failed e t) k h next = Keeps-trans p t.phase (k t) h (next t)
  proceed-Keeps p panic k h next = tt

  run-Keeps : (s : Bft B C) (ms : List BftMessage) → Keeps s.phase (run s ms)
  unfolding run
  run-Keeps s [] = AtMost-refl s.phase
  run-Keeps s (m ∷ ms) =
      proceed-Keeps s.phase (handle s m) (λ t. run t ms) (handle-Keeps s m) (λ t. run-Keeps t ms)

  -- Whatever messages a leader or a validator handles, and whatever errors it meets, if it does not
  -- panic, its phase at the end is not behind its phase at the start, by height and then by step.
  pub run_phase :
      (s t : Bft B C) (ms : List BftMessage) → run s ms ≡ done t → AtMost s.phase t.phase
  run_phase s t ms e = subst (Keeps s.phase) e (run-Keeps s ms)
