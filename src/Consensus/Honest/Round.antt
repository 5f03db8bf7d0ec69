-- ===== src/Consensus/Honest/Round.antt =====
-- One round of Mitosis/consensus among the nodes of a shard, where every message arrives once: the leader
-- proposes a block, the validators vote, and the certificates come back to them.
use mitosis.Prelude.{
  ℕ, ◌+◌, ◌≤◌, ◌≡◌, refl, ap, ◌∙◌, true, false, List, [], ◌∷◌, Option, none, some, length,
}
use mitosis.Topics
use mitosis.Types.MessageType
use mitosis.Types.MessageType.{MessageType}
use mitosis.Types.Data.{Block, BftMessage}
use mitosis.Bls.{Herumi}
use mitosis.Bls.Aggregate.{BlsLaws}
use mitosis.Consensus.Phase.{Before, bft_prepare, bft_precommit}
use mitosis.Consensus.Votes.{at_height}
use mitosis.Consensus.Leader.{signed_block, prepare}
use mitosis.Consensus.Certificates.{Certified}
use mitosis.Consensus.Run.{run, handle}
use mitosis.Consensus.Protocol.{ChainCalls, Setting, Bft, Gossip, Outcome, done, failed, panic}
use mitosis.Consensus.Honest.{Shard, IsShard, IsNode, signed-Certified}
use mitosis.Consensus.Honest.Tally.{Fresh, Each, tally}
use mitosis.Consensus.Honest.States.{Carries, IsVote, Announced, Writes}
use mitosis.Consensus.Honest.Proposal.{prepare_lem, prepare_counts, prepare_ignores}
use mitosis.Consensus.Honest.Decision.{precommit_counts, precommit_ignores}
use mitosis.Consensus.Honest.Voter.{IsReady, HasVoted, votes_prepare, votes_precommit, votes_commit}

-- A validator with its own chain.
pub record Voter (B : Herumi) : Type 1 where
  pub calls : ChainCalls
  pub cfg : Setting B
  pub state : Bft B calls

-- What was gossiped last.
abbrev pub newest : List Gossip → Option BftMessage
newest [] = none
newest (g ∷ gs) = some g.message

abbrev pub succeeded {ℓ} : {A : Type ℓ} → Outcome A → Option A
succeeded (done t) = some t
succeeded (failed e t) = none
succeeded panic = none

abbrev pub and_then {ℓ κ} : {A : Type ℓ} {R : Type κ} → Option A → (A → Option R) → Option R
and_then none k = none
and_then (some a) k = k a

abbrev pub also {ℓ} : {A : Type ℓ} → Option A → List A → List A
also none xs = xs
also (some x) xs = x ∷ xs

module _ {B : Herumi} where
  -- Every validator handles the message.
  unfoldable pub hear_all : BftMessage → List (Voter B) → Option (List (Voter B))
  hear_all m [] = some []
  hear_all m (v ∷ vs) =
      and_then (succeeded (handle v.cfg v.state m))
        λ t. and_then (hear_all m vs) λ rest. some (record v { state = t } ∷ rest)

  -- What the validators gossiped last.
  unfoldable pub replies : List (Voter B) → List BftMessage
  replies [] = []
  replies (v ∷ vs) = also (newest v.state.sent) (replies vs)

  -- The leader's message goes to the validators, and their votes go back.
  unfoldable pub exchange :
      {C : ChainCalls} → Setting B → Bft B C → List (Voter B) → Option (Bft B C × List (Voter B))
  unfolding hear_all replies
  exchange cfg s vs = and_then (newest s.sent) λ m.
      and_then (hear_all m vs)
        λ heard. and_then (succeeded (run cfg s (replies heard))) λ t. some (t, heard)

  -- The proposal, the prepare votes, the precommit votes, and the certificate that commits.
  unfoldable pub round :
      {C : ChainCalls} → Setting B → Bft B C → List (Voter B) → Option (Bft B C × List (Voter B))
  unfolding hear_all exchange
  round cfg s vs = and_then (succeeded (prepare cfg s)) λ s1.
      and_then (exchange cfg s1 vs) λ (s2, vs2).
        and_then (exchange cfg s2 vs2) λ (s3, vs3).
          and_then (newest s3.sent) λ m. and_then (hear_all m vs3) λ vs4. some (s3, vs4)

  -- The validators with the states they are in by now, and what holds of each.
  pub data Stage (P : ℕ → (v : Voter B) → Bft B v.calls → Type 0)
      : List ℕ → List (Voter B) → List (Voter B) → Type 1 where
    nobody : Stage P [] [] []
    further :
        {js : List ℕ} {vs now : List (Voter B)} {j : ℕ} {v : Voter B} {t : Bft B v.calls}
        → P j v t
        → Stage P js vs now
        → Stage P (j ∷ js) (v ∷ vs) (record v { state = t } ∷ now)

  hears :
      (P Q : ℕ → (v : Voter B) → Bft B v.calls → Type 0) (m : BftMessage)
      → ((j : ℕ) (v : Voter B) (t : Bft B v.calls)
          → P j v t
          → (u : Bft B v.calls) × (handle v.cfg t m ≡ done u) × Q j v u)
      → {js : List ℕ} {vs now : List (Voter B)} → Stage P js vs now
      → (then : List (Voter B)) × (hear_all m now ≡ some then) × Stage Q js vs then
  unfolding hear_all
  hears P Q m step nobody = ([], refl, nobody)
  hears P Q m step (further {j = j} {v = v} {t = t} p rest) =
      let (u, e, q) = step j v t p in
      let (then, f, more) = hears P Q m step rest in
      (record v { state = u } ∷ then, rw (e, f), further q more)

  replies-Each :
      (P : ℕ → (v : Voter B) → Bft B v.calls → Type 0) (R : ℕ → BftMessage → Type 0)
      → ((j : ℕ) (v : Voter B) (t : Bft B v.calls)
          → P j v t
          → (m : BftMessage) × Announced Topics.consensus_leader m t × R j m)
      → {js : List ℕ} {vs now : List (Voter B)} → Stage P js vs now
      → Each R js (replies now)
  unfolding replies
  replies-Each P R sends nobody = tt
  replies-Each P R sends (further {j = j} {v = v} {t = t} p rest) =
      let (m, sent, r) = sends j v t p in rw sent.newest (r, replies-Each P R sends rest)

module _ {B : Herumi} (L : BlsLaws B) (S : Shard B) (b : Block) where
  -- A validator of the shard that accepts the block.
  pub record IsVoter (j : ℕ) (v : Voter B) : Type 0 where
    pub node : IsNode L S j v.cfg
    pub votes : v.cfg.is_leader ≡ false
    pub ready : IsReady L S v.calls b v.state

  -- It has voted in a step.
  record Voted (step : ℕ) (kind : MessageType) (tail : List ℕ) (j : ℕ) (v : Voter B)
      (t : Bft B v.calls) : Type 0 where
    voter : IsVoter j v
    voted : HasVoted L S v.calls step voter.ready.checked b t
    reply : BftMessage
    sent : Announced Topics.consensus_leader reply t
    vote : IsVote L S kind b tail j reply

  -- It has committed the block with the certificate that the message carries, on top of the chain
  -- with which it has checked the block.
  pub record HasCommitted (m : BftMessage) (j : ℕ) (v : Voter B) (t : Bft B v.calls) : Type 0 where
    pub checked : v.calls.Chain
    pub accepts : v.calls.check_block v.state.chain b ≡ some (checked, true)
    pub written :
        v.calls.commit checked (signed_block b m.sender_sig m.sender_pubkey_bitmap) ≡ some t.chain

  Starts : ℕ → (v : Voter B) → Bft B v.calls → Type 0
  Starts j v t = IsVoter j v × (t ≡ v.state)

  starts : (js : List ℕ) (vs : List (Voter B)) → Each IsVoter js vs → Stage Starts js vs vs
  unfolding Starts
  starts [] [] h = nobody
  starts [] (v ∷ vs) h = absurd h
  starts (j ∷ js) [] h = absurd h
  starts (j ∷ js) (v ∷ vs) h = further (h.0, refl) (starts js vs h.1)

  module _ (shard : IsShard L S) where
    heard_prepare :
        (l : ℕ) (m : BftMessage)
        → Carries L S MessageType.prepare b (MessageType.prepare ∷ []) (l ∷ []) m
        → (j : ℕ) (v : Voter B) (t : Bft B v.calls) → Starts j v t
        → (u : Bft B v.calls) × (handle v.cfg t m ≡ done u)
          × Voted bft_prepare MessageType.prepare_vote (MessageType.prepare ∷ []) j v u
    unfolding Starts
    heard_prepare l m carries j v t (voter, same) =
        let (u, reply, e, voted, sent, vote) =
          votes_prepare L S v.calls shard voter.node voter.votes b v.state l m voter.ready
            carries in
        (
          u,
          ap (λ (x : Bft B v.calls). handle v.cfg x m) same ∙ e,
          record { voter = voter; voted = voted; reply = reply; sent = sent; vote = vote },
        )

    module _ (ks : List ℕ) (m : BftMessage) (enough : S.threshold ≤ length ks) where
      heard_precommit :
          Carries L S MessageType.precommit b (MessageType.prepare ∷ []) ks m
          → (j : ℕ) (v : Voter B) (t : Bft B v.calls)
          → Voted bft_prepare MessageType.prepare_vote (MessageType.prepare ∷ []) j v t
          → (u : Bft B v.calls) × (handle v.cfg t m ≡ done u)
            × Voted bft_precommit MessageType.precommit_vote [] j v u
      heard_precommit carries j v t p =
          let (u, reply, e, voted, sent, vote) =
            votes_precommit L S v.calls shard p.voter.node p.voter.votes b t p.voter.ready.checked
              ks m p.voted carries enough in
          (u, e, record { voter = p.voter; voted = voted; reply = reply; sent = sent; vote = vote })

      heard_commit :
          Carries L S MessageType.commit b [] ks m
          → (j : ℕ) (v : Voter B) (t : Bft B v.calls)
          → Voted bft_precommit MessageType.precommit_vote [] j v t
          → (u : Bft B v.calls) × (handle v.cfg t m ≡ done u) × HasCommitted m j v u
      heard_commit carries j v t p =
          let (u, e, phase, written) =
            votes_commit L S v.calls shard p.voter.node p.voter.votes b t p.voter.ready.checked ks m
              p.voted p.voter.ready.writes carries enough in
          (
            u,
            e,
            record {
              checked = p.voter.ready.checked;
              accepts = p.voter.ready.accepts;
              written = written;
            },
          )

  newest_lem :
      {C : ChainCalls} (s : Bft B C) (m : BftMessage)
      → Announced Topics.consensus_validator m s
      → newest s.sent ≡ some m
  newest_lem s m sent = ap newest sent.newest

  exchange_lem :
      {C : ChainCalls} (cfg : Setting B) (s t : Bft B C) (m : BftMessage)
      (vs heard : List (Voter B))
      → Announced Topics.consensus_validator m s
      → hear_all m vs ≡ some heard
      → run cfg s (replies heard) ≡ done t
      → exchange cfg s vs ≡ some (t, heard)
  unfolding exchange
  exchange_lem cfg s t m vs heard sent e f = rw (newest_lem s m sent, e, f)

  module _ {C : ChainCalls} (cfg : Setting B) (s : Bft B C) (vs : List (Voter B)) where
    round_lem :
        (s1 : Bft B C) (s2 s3 : Bft B C) (vs2 vs3 vs4 : List (Voter B)) (m : BftMessage)
        → prepare cfg s ≡ done s1
        → exchange cfg s1 vs ≡ some (s2, vs2)
        → exchange cfg s2 vs2 ≡ some (s3, vs3)
        → Announced Topics.consensus_validator m s3
        → hear_all m vs3 ≡ some vs4
        → round cfg s vs ≡ some (s3, vs4)
    unfolding round
    round_lem s1 s2 s3 vs2 vs3 vs4 m e1 e2 e3 sent e4 = rw (e1, e2, e3, newest_lem s3 m sent, e4)

  -- Let the leader propose a block at a step that is ahead of its phase, let each validator be one that
  -- accepts the block, let the chains of all take the certified block, and let the leader and the
  -- validators be different nodes that reach the threshold together. Then the round in which each
  -- message arrives once ends with a message that certifies the block, and with it the leader
  -- and every validator have committed the block, each on the chain that it had checked it with.
  pub honest_round :
      {C : ChainCalls} (cfg : Setting B) (s : Bft B C) (c : C.Chain) (l : ℕ) (js : List ℕ)
      (vs : List (Voter B))
      → IsShard L S
      → IsNode L S l cfg
      → cfg.is_leader ≡ true
      → C.create_new_block s.chain ≡ some (c, b)
      → Before s.phase (at_height b.height bft_prepare)
      → Writes C c b
      → Each IsVoter js vs
      → Fresh (l ∷ []) js
      → S.threshold ≤ 1 + length js
      → (s' : Bft B C) × (vs' : List (Voter B)) × (m : BftMessage) × (round cfg s vs
          ≡ some (s', vs'))
        × Certified cfg b [] m
        × (C.commit c (signed_block b m.sender_sig m.sender_pubkey_bitmap) ≡ some s'.chain)
        × Stage (HasCommitted m) js vs vs'
  honest_round {C} cfg s c l js vs shard node led made before writes each fresh enough =
      let (s1, m1, e1, waits, carries, sent) = prepare_lem L S shard node c b s made before in
      let (vs2, h1, st1) =
        hears Starts _ m1 (heard_prepare shard l m1 carries) (starts js vs each) in
      let (s2, ks, t1, many, ready) =
        tally cfg S.threshold _ _ _ (prepare_counts L S shard node c b led)
          (prepare_ignores L S shard node c b led) (l ∷ []) js (replies vs2) s1 waits shard.several
          enough fresh (replies-Each _ _ (λ j v t p. (p.reply, p.sent, p.vote)) st1) in
      let (vs3, h2, st2) =
        hears _ _ ready.message (heard_precommit shard ks ready.message many ready.carries) st1 in
      let (s3, all, t2, full, over) =
        tally cfg S.threshold _ _ _ (precommit_counts L S shard node c b writes led)
          (precommit_ignores L S shard node c b led) (l ∷ []) js (replies vs3) s2 ready.awaits
          shard.several enough fresh
          (replies-Each _ _ (λ j v t p. (p.reply, p.sent, p.vote)) st2) in
      let (vs4, h3, st3) =
        hears _ _ over.message (heard_commit shard all over.message full over.carries) st2 in
      (
        s3,
        vs4,
        over.message,
        round_lem cfg s vs s1 s2 s3 vs2 vs3 vs4 over.message e1
            (exchange_lem cfg s1 s2 m1 vs vs2 sent h1 t1)
            (exchange_lem cfg s2 s3 ready.message vs2 vs3 ready.sent h2 t2) over.sent h3,
        signed-Certified L S shard node b [] all over.message over.carries.signed full,
        over.written,
        st3,
      )
