-- ===== src/Consensus/Honest/Voter.antt =====
-- An honest validator of Mitosis/consensus/validator.go: it votes for a block that extends its chain, then for
-- the certificate of prepare votes, and commits the block with the certificate of precommit votes.
use mitosis.Prelude.{
  ℕ, ◌+◌, ◌<◌, ◌≤◌, ◌≡◌, refl, ap, sym, ◌∙◌, true, false, List, [], ◌∷◌, ◌++◌, Option, none, some,
  arith, length, u32,
}
use mitosis.Topics
use mitosis.Types.MessageType
use mitosis.Types.MessageType.{MessageType}
use mitosis.Types.Copies.{copy_header}
use mitosis.Types.Bitmap.{Bitmap}
use mitosis.Types.Bitmap.Members.{Holds}
use mathlib.Core.Option.{some-injective}
use mitosis.Types.Data.{Block, BftMessage, new_bft_msg}
use mitosis.Bls.{Herumi}
use mitosis.Bls.Aggregate.{BlsLaws}
use mitosis.Consensus.Phase.{Phase, Before, switch, is_new, bft_prepare, bft_precommit, bft_commit}
use mitosis.Consensus.Votes.{at_height}
use mitosis.Consensus.Leader.{signed_block}
use mitosis.Consensus.Validator.{
  header_only, check_height, check_certificate, vote_prepare, check_prepare, on_prepare_msg,
  vote_precommit, on_precommit_msg, vote_commit, on_commit_msg, handle_validator,
}
use mitosis.Consensus.Certificates.{check_certificate_iff}
use mitosis.Consensus.Run.{handle}
use mitosis.Consensus.Protocol.{ChainCalls, Setting, Bft, done, own_bitmap}
use mitosis.Consensus.Honest.{
  Shard, IsShard, IsNode, IsSigned, signed_by, signed_by_one, signer_verified, signed-Certified,
}
use mitosis.Consensus.Honest.States.{
  switch_new, Carries, IsVote, own_bitmap-Holds, own_signature, Announced, Writes,
}

-- The block is one that a node may go on to: the first one, or the successor of the latest committed
-- block where it is higher than the current one.
abbrev pub Follows : Option Block → ℕ → Block → Type 0
Follows none committed b = b.height ≡ 0
Follows (some current) committed b =
    current.height < b.height
    → (b.prev_block_hash ≡ committed) × (b.height ≡ u32 (current.height + 1))

check_height_lem :
    (current : Option Block) (committed : ℕ) (b : Block) (m : BftMessage)
    → Follows current committed b
    → m.block_num ≡ b.height
    → m.block ≡ b
    → check_height current committed m ≡ none
unfolding check_height
check_height_lem none committed b m f n e = ground arith
check_height_lem (some current) committed b m f n e =
    let prev : m.block.prev_block_hash ≡ b.prev_block_hash =
      ap (λ (x : Block). x.prev_block_hash) e in
    ground (arith, n, prev, f)

module _ {B : Herumi} (L : BlsLaws B) (S : Shard B) (C : ChainCalls) where
  -- A validator that a proposal reaches: it is behind the step, may go on to the block, and its chain
  -- accepts the block, and takes it once it is certified.
  pub record IsReady (b : Block) (s : Bft B C) : Type 0 where
    pub behind : Before s.phase (at_height b.height bft_prepare)
    pub follows : Follows s.current_block s.latest_committed_block_hash b
    pub checked : C.Chain
    pub accepts : C.check_block s.chain b ≡ some (checked, true)
    pub writes : Writes C checked b

  -- A validator that has voted for the block in a step.
  pub record HasVoted (step : ℕ) (c : C.Chain) (b : Block) (s : Bft B C) : Type 0 where
    pub phase : s.phase ≡ at_height b.height step
    pub chain : s.chain ≡ c
    pub current : s.current_block ≡ some b

  module _ (shard : IsShard L S) {j : ℕ} {cfg : Setting B} (node : IsNode L S j cfg)
      (votes : cfg.is_leader ≡ false) (b : Block) where
    newer :
        (p : Phase) (step number : ℕ)
        → Before p (at_height b.height step)
        → number ≡ b.height
        → is_new p (at_height number step) ≡ true
    unfolding is_new
    newer p step number before e = ground arith

    handle-prepare :
        (s : Bft B C) (m : BftMessage)
        → m.message_type ≡ MessageType.prepare
        → handle cfg s m ≡ on_prepare_msg cfg s m
    unfolding handle handle_validator
    handle-prepare s m e = rw (votes, e)

    handle-precommit :
        (s : Bft B C) (m : BftMessage)
        → m.message_type ≡ MessageType.precommit
        → handle cfg s m ≡ on_precommit_msg cfg s m
    unfolding handle handle_validator
    handle-precommit s m e = rw (votes, e)

    handle-commit :
        (s : Bft B C) (m : BftMessage)
        → m.message_type ≡ MessageType.commit
        → handle cfg s m ≡ on_commit_msg cfg s m
    unfolding handle handle_validator
    handle-commit s m e = rw (votes, e)

    prepare_accepted :
        (s : Bft B C) (l : ℕ) (m : BftMessage) (c : C.Chain)
        → Before s.phase (at_height b.height bft_prepare)
        → Follows s.current_block s.latest_committed_block_hash b
        → C.check_block s.chain b ≡ some (c, true)
        → Carries L S MessageType.prepare b (MessageType.prepare ∷ []) (l ∷ []) m
        → on_prepare_msg cfg s m ≡ vote_prepare cfg (record s { chain = c }) m
    unfolding on_prepare_msg check_prepare
    prepare_accepted s l m c before follows accepts v =
        let checked : C.check_block s.chain m.block ≡ some (c, true) =
          ap (C.check_block s.chain) v.about ∙ accepts in
        rw (
          newer s.phase bft_prepare m.block_num before v.signed.number,
          check_height_lem s.current_block s.latest_committed_block_hash b m follows v.signed.number
              v.about,
          v.signed.signers.listed,
          signer_verified L S shard node b (MessageType.prepare ∷ []) l m v.signed,
          checked,
        )

    reply-IsVote :
        (kind : MessageType) (block : Block) (tail : List ℕ) (σ : B.Sign) (o : Bitmap)
        → block ≡ b
        → σ ≡ signed_by L S (j ∷ []) (S.text b.hash ++ tail)
        → Holds S.size (j ∷ []) o
        → IsVote L S kind b tail j (new_bft_msg kind (header_only block) (B.serialize σ) o)
    unfolding new_bft_msg header_only copy_header
    reply-IsVote kind block tail σ o same signed held = record {
      kind_of = refl;
      signed = record {
        number = ap (λ (x : Block). x.height) same;
        hash = ap (λ (x : Block). x.hash) same;
        signature = ap B.serialize signed;
        signers = held;
      };
    }

    vote_prepare_lem :
        (t : Bft B C) (m : BftMessage) (o : Bitmap)
        → own_bitmap cfg.config ≡ some o
        → (u : Bft B C) × (vote_prepare cfg t m ≡ done u)
          × (u.phase ≡ switch t.phase m.block.height bft_prepare)
          × (u.chain ≡ t.chain)
          × (u.current_block ≡ some m.block)
          × Announced Topics.consensus_leader
              (new_bft_msg MessageType.prepare_vote
                (header_only m.block)
                (B.serialize (
                  B.sign_byte cfg.secret
                    (cfg.hash_bytes m.block_hash ++ (MessageType.prepare ∷ []))))
                o)
              u
    unfolding vote_prepare
    vote_prepare_lem t m o own =
        rw own (_, refl, refl, refl, refl, record { phase = _; earlier = _; newest = refl })

    vote_precommit_lem :
        (t : Bft B C) (current : Block) (m : BftMessage) (o : Bitmap)
        → own_bitmap cfg.config ≡ some o
        → (u : Bft B C) × (vote_precommit cfg t current m ≡ done u)
          × (u.phase ≡ switch t.phase current.height bft_precommit)
          × (u.chain ≡ t.chain)
          × (u.current_block ≡ t.current_block)
          × Announced Topics.consensus_leader
              (new_bft_msg MessageType.precommit_vote
                (header_only m.block)
                (B.serialize (B.sign_byte cfg.secret (cfg.hash_bytes current.hash)))
                o)
              u
    unfolding vote_precommit
    vote_precommit_lem t current m o own =
        rw own (_, refl, refl, refl, refl, record { phase = _; earlier = _; newest = refl })

    vote_commit_lem :
        (t : Bft B C) (current latest : Block) (m : BftMessage) (o : Bitmap) (c : C.Chain)
        → own_bitmap cfg.config ≡ some o
        → C.commit t.chain
            (signed_block current (B.serialize (B.deserialize m.sender_sig)) m.sender_pubkey_bitmap)
          ≡ some c
        → C.latest_block c ≡ some latest
        → (u : Bft B C) × (vote_commit cfg t current m ≡ done u)
          × (u.phase ≡ switch t.phase current.height bft_commit)
          × (u.chain ≡ c)
    unfolding vote_commit
    vote_commit_lem t current latest m o c own stored top =
        rw (own, stored, top) (_, refl, refl, refl)

    step_lem :
        (p : Phase) (block : Block) (step : ℕ)
        → Before p (at_height b.height step)
        → block ≡ b
        → switch p block.height step ≡ at_height b.height step
    step_lem p block step before same =
        ap (λ (x : Block). switch p x.height step) same ∙ switch_new p b.height step before

    -- A proposal that the validator accepts gets its vote.
    pub votes_prepare :
        (s : Bft B C) (l : ℕ) (m : BftMessage) (ready : IsReady b s)
        → Carries L S MessageType.prepare b (MessageType.prepare ∷ []) (l ∷ []) m
        → (t : Bft B C) × (reply : BftMessage) × (handle cfg s m ≡ done t)
          × HasVoted bft_prepare ready.checked b t
          × Announced Topics.consensus_leader reply t
          × IsVote L S MessageType.prepare_vote b (MessageType.prepare ∷ []) j reply
    votes_prepare s l m ready v =
        let (o, own, held) = own_bitmap-Holds L S shard node in
        let accepted =
          handle-prepare s m v.kind_of
          ∙ prepare_accepted s l m ready.checked ready.behind ready.follows ready.accepts v in
        let (t, e, phase, chain, current, sent) =
          vote_prepare_lem (record s { chain = ready.checked }) m o own in
        (
          t,
          _,
          accepted ∙ e,
          record {
            phase = phase ∙ step_lem s.phase m.block bft_prepare ready.behind v.about;
            chain = chain;
            current = current ∙ ap some v.about;
          },
          sent,
          reply-IsVote MessageType.prepare_vote m.block (MessageType.prepare ∷ []) _ o v.about
              (rw (node.own, node.texts m.block_hash, v.signed.hash)
                (sym (signed_by_one L S j (S.text b.hash ++ (MessageType.prepare ∷ [])))))
              held,
        )

    certificate_accepted :
        (m : BftMessage) (tail ks : List ℕ)
        → IsSigned L S b tail ks m
        → S.threshold ≤ length ks
        → check_certificate cfg b tail m ≡ none
    certificate_accepted m tail ks v enough =
        (check_certificate_iff cfg b tail m).1
          (signed-Certified L S shard node b tail ks m v enough)

    -- The block that a validator has voted for is not below its own height.
    not_above :
        (s : Bft B C) (step : ℕ) (c : C.Chain) (m : BftMessage)
        → HasVoted step c b s
        → m.block_num ≡ b.height
        → check_height s.current_block s.latest_committed_block_hash m ≡ none
    unfolding check_height
    not_above s step c m v n = rw v.current (ground arith)

    precommit_accepted :
        (s : Bft B C) (c : C.Chain) (ks : List ℕ) (m : BftMessage)
        → HasVoted bft_prepare c b s
        → Carries L S MessageType.precommit b (MessageType.prepare ∷ []) ks m
        → S.threshold ≤ length ks
        → on_precommit_msg cfg s m ≡ vote_precommit cfg s b m
    unfolding on_precommit_msg
    precommit_accepted s c ks m v w enough = ground (
      arith,
      newer s.phase bft_precommit m.block_num (rw v.phase (ground arith)) w.signed.number,
      not_above s bft_prepare c m v w.signed.number,
      v.current,
      certificate_accepted m (MessageType.prepare ∷ []) ks w.signed enough,
    )

    commit_accepted :
        (s : Bft B C) (c : C.Chain) (ks : List ℕ) (m : BftMessage)
        → HasVoted bft_precommit c b s
        → Carries L S MessageType.commit b [] ks m
        → S.threshold ≤ length ks
        → on_commit_msg cfg s m ≡ vote_commit cfg s b m
    unfolding on_commit_msg
    commit_accepted s c ks m v w enough = ground (
      arith,
      newer s.phase bft_commit m.block_num (rw v.phase (ground arith)) w.signed.number,
      not_above s bft_precommit c m v w.signed.number,
      v.current,
      certificate_accepted m [] ks w.signed enough,
    )

    -- A certificate of prepare votes gets the validator's precommit vote.
    pub votes_precommit :
        (s : Bft B C) (c : C.Chain) (ks : List ℕ) (m : BftMessage)
        → HasVoted bft_prepare c b s
        → Carries L S MessageType.precommit b (MessageType.prepare ∷ []) ks m
        → S.threshold ≤ length ks
        → (t : Bft B C) × (reply : BftMessage) × (handle cfg s m ≡ done t)
          × HasVoted bft_precommit c b t
          × Announced Topics.consensus_leader reply t
          × IsVote L S MessageType.precommit_vote b [] j reply
    votes_precommit s c ks m v w enough =
        let (o, own, held) = own_bitmap-Holds L S shard node in
        let (t, e, phase, chain, current, sent) = vote_precommit_lem s b m o own in
        (
          t,
          _,
          handle-precommit s m w.kind_of ∙ precommit_accepted s c ks m v w enough ∙ e,
          record {
            phase = phase ∙ step_lem s.phase b bft_precommit (rw v.phase (ground arith)) refl;
            chain = chain ∙ v.chain;
            current = current ∙ v.current;
          },
          sent,
          reply-IsVote MessageType.precommit_vote m.block [] _ o w.about
              (some-injective _ _ (own_signature L S node b)) held,
        )

    -- A certificate of precommit votes commits the block.
    pub votes_commit :
        (s : Bft B C) (c : C.Chain) (ks : List ℕ) (m : BftMessage)
        → HasVoted bft_precommit c b s
        → Writes C c b
        → Carries L S MessageType.commit b [] ks m
        → S.threshold ≤ length ks
        → (t : Bft B C) × (handle cfg s m ≡ done t)
          × (t.phase ≡ at_height b.height bft_commit)
          × (C.commit c (signed_block b m.sender_sig m.sender_pubkey_bitmap) ≡ some t.chain)
    votes_commit s c ks m v writes w enough =
        let (o, own, held) = own_bitmap-Holds L S shard node in
        let (c', latest, stored, top) = writes m.sender_sig m.sender_pubkey_bitmap in
        let same : B.serialize (B.deserialize m.sender_sig) ≡ m.sender_sig =
          rw (w.signed.signature, L.deserialize-serialize) in
        let (t, e, phase, chain) =
          vote_commit_lem s b latest m o c' own
            (ap
                (λ (x : C.Chain). C.commit x (
                  signed_block b (B.serialize (B.deserialize m.sender_sig)) m.sender_pubkey_bitmap))
                v.chain
              ∙ ap (λ (x : List ℕ). C.commit c (signed_block b x m.sender_pubkey_bitmap)) same
              ∙ stored)
            top in
        (
          t,
          handle-commit s m w.kind_of ∙ commit_accepted s c ks m v w enough ∙ e,
          phase ∙ step_lem s.phase b bft_commit (rw v.phase (ground arith)) refl,
          stored ∙ ap some (sym chain),
        )
