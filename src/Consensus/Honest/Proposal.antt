-- ===== src/Consensus/Honest/Proposal.antt =====
-- An honest leader of Mitosis/consensus/leader.go: the votes of enough nodes bring it from the proposal of a
-- block to its certificate, and from there to the commit.
use native.Mathlib.Decide.{dec_lt}
use mitosis.Prelude.{
  ℕ, suc, ◌<◌, ◌≡◌, refl, ap, sym, ◌∙◌, leb, true, false, Bool, List, [], ◌∷◌, ◌++◌, some, arith,
  length, elem, if◌then◌else◌,
}
use mitosis.Prelude.Ascending.{insert_sorted, length-insert_sorted}
use mitosis.Topics
use mitosis.Types.MessageType
use mitosis.Types.MessageType.{MessageType}
use mitosis.Types.Bitmap.{Bitmap, get_size}
use mitosis.Types.Bitmap.Members.{Holds, size-Holds}
use mitosis.Types.Data.{Block, BftMessage, new_bft_msg}
use mitosis.Bls.{Herumi}
use mitosis.Bls.Aggregate.{BlsLaws}
use mitosis.Consensus.Phase.{Phase, Before, switch, bft_prepare, bft_precommit}
use mitosis.Consensus.Votes.{at_height, vote, counted, stale}
use mitosis.Consensus.Leader.{prepare, precommit, prepare_voted, on_prepare_vote_msg, handle_leader}
use mitosis.Consensus.Run.{handle}
use mitosis.Consensus.Protocol.{ChainCalls, Setting, Bft, done, own_bitmap}
use mitosis.Consensus.Honest.{Shard, IsShard, IsNode, signed_by, signed_by_one, vote_counted}
use mitosis.Consensus.Honest.Tally.{Counts, Ignores}
use mitosis.Consensus.Honest.States.{
  switch_new, Carries, IsVote, own_bitmap-Holds, own_signature, stale_lem, Announced, AwaitsPrepare,
  Prepared,
}

module _ {B : Herumi} (L : BlsLaws B) (S : Shard B) {C : ChainCalls} (shard : IsShard L S) {l : ℕ}
    {cfg : Setting B} (node : IsNode L S l cfg) where
  precommit_lem :
      (t : Bft B C) (b : Block) (σ : B.Sign) (v o : Bitmap)
      → t.current_block ≡ some b
      → t.aggregate_prepare_sig ≡ some σ
      → t.prepare_bitmap ≡ some v
      → own_bitmap cfg.config ≡ some o
      → (u : Bft B C) × (precommit cfg t ≡ done u)
        × (u.phase ≡ switch t.phase b.height bft_precommit)
        × (u.chain ≡ t.chain)
        × (u.current_block ≡ t.current_block)
        × (u.precommit_bitmap ≡ some o)
        × (u.aggregate_precommit_sig ≡ some (B.sign_byte cfg.secret (cfg.hash_bytes b.hash)))
        × Announced Topics.consensus_validator
            (new_bft_msg MessageType.precommit b (B.serialize σ) v)
            u
  unfolding precommit
  precommit_lem t b σ v o e1 e2 e3 e4 =
      rw (e1, e2, e3, e4)
        (_, refl, refl, refl, refl, refl, refl, record { phase = _; earlier = _; newest = refl })

  handle-prepare_vote :
      (s : Bft B C) (m : BftMessage)
      → cfg.is_leader ≡ true
      → m.message_type ≡ MessageType.prepare_vote
      → handle cfg s m ≡ on_prepare_vote_msg cfg s m
  unfolding handle handle_leader
  handle-prepare_vote s m led e = rw (led, e)

  module _ (c : C.Chain) (b : Block) where
    -- What the leader sees in a prepare vote.
    prepare_seen :
        (s : Bft B C) (ks : List ℕ) (j : ℕ) (m : BftMessage)
        → AwaitsPrepare L S C c b ks s
        → length ks < S.threshold
        → IsVote L S MessageType.prepare_vote b (MessageType.prepare ∷ []) j m
        → elem j ks ≡ false
        → (merged : Bitmap) × (vote cfg s.phase bft_prepare
              (MessageType.prepare ∷ [])
              s.current_block
              s.prepare_bitmap
              s.aggregate_prepare_sig
              m
            ≡ counted merged
                (signed_by L S (insert_sorted j ks) (S.text b.hash ++ (MessageType.prepare ∷ []))))
          × Holds S.size (insert_sorted j ks) merged
    prepare_seen s ks j m w few v new =
        rw (w.phase, w.current, w.bitmap, w.sum)
          (vote_counted L S shard node b _ ks bft_prepare j w.voters m w.held few v.signed new)

    abbrev with_prepare : Bft B C → Bitmap → B.Sign → Bft B C
    with_prepare s v σ = record s { prepare_bitmap = some v; aggregate_prepare_sig = some σ }

    prepare_step :
        (s : Bft B C) (m : BftMessage) (v : Bitmap) (σ : B.Sign) (full : Bool)
        → cfg.is_leader ≡ true
        → m.message_type ≡ MessageType.prepare_vote
        → vote cfg s.phase bft_prepare
            (MessageType.prepare ∷ [])
            s.current_block
            s.prepare_bitmap
            s.aggregate_prepare_sig
            m
          ≡ counted v σ
        → leb cfg.consensus_threshold (get_size v) ≡ full
        → handle cfg s m
          ≡ (if full then precommit cfg (with_prepare s v σ) else done (with_prepare s v σ))
    unfolding on_prepare_vote_msg prepare_voted
    prepare_step s m v σ full led kind seen test =
        handle-prepare_vote s m led kind
        ∙ ap (prepare_voted cfg s) seen
        ∙ ap
            (λ (t : Bool).
              if t then precommit cfg (with_prepare s v σ) else done (with_prepare s v σ))
            test

    to_precommit :
        (t : Bft B C) (ks : List ℕ)
        → AwaitsPrepare L S C c b ks t
        → (u : Bft B C) × (precommit cfg t ≡ done u) × Prepared L S C l c b ks u
    unfolding new_bft_msg
    to_precommit t ks w =
        let (o, own, own_held) = own_bitmap-Holds L S shard node in
        let (u, e, phase, chain, current, bitmap, sum, sent) =
          precommit_lem t b _ w.voters o w.current w.sum w.bitmap own in
        (
          u,
          e,
          record {
            awaits = record {
              phase =
                  phase
                  ∙ ap (λ (p : Phase). switch p b.height bft_precommit) w.phase
                  ∙ switch_new (at_height b.height bft_prepare) b.height bft_precommit
                      (ground arith);
              chain = chain ∙ w.chain;
              current = current ∙ w.current;
              voters = o;
              bitmap = bitmap;
              held = own_held;
              sum = sum ∙ own_signature L S node b;
            };
            message = _;
            carries = record {
              kind_of = refl;
              about = refl;
              signed = record { number = refl; hash = refl; signature = refl; signers = w.held };
            };
            sent = sent;
          },
        )

    pub prepare_counts :
        cfg.is_leader ≡ true
        → Counts cfg S.threshold
            (IsVote L S MessageType.prepare_vote b (MessageType.prepare ∷ []))
            (AwaitsPrepare L S C c b)
            (Prepared L S C l c b)
    prepare_counts led s ks j m w few v new =
        let (merged, seen, held) = prepare_seen s ks j m w few v new in
        let size = size-Holds S.size shard.small merged (insert_sorted j ks) held in
        let long = length-insert_sorted j ks in
        let t =
          with_prepare s merged
            (signed_by L S (insert_sorted j ks) (S.text b.hash ++ (MessageType.prepare ∷ []))) in
        let waits : AwaitsPrepare L S C c b (insert_sorted j ks) t = record {
          phase = w.phase;
          chain = w.chain;
          current = w.current;
          voters = merged;
          bitmap = refl;
          held = held;
          sum = refl;
        } in
        elim (dec_lt (suc (length ks)) S.threshold) [
          | yes below ↦ (
            t,
            prepare_step s m merged _ false led v.kind_of seen
                (ground (arith, node.enough, size, long)),
            (λ h. waits),
            (λ h. absurd (omega (arith, h, below))),
          )
          | no reached ↦
              let (u, e, ready) = to_precommit t (insert_sorted j ks) waits in
              (
                u,
                prepare_step s m merged _ true led v.kind_of seen
                      (ground (arith, node.enough, size, long, reached))
                    ∙ e,
                (λ h. absurd (reached h)),
                (λ h. ready),
              )
        ]

    pub prepare_ignores :
        cfg.is_leader ≡ true
        → Ignores cfg S.threshold
            (IsVote L S MessageType.prepare_vote b (MessageType.prepare ∷ []))
            (AwaitsPrepare L S C c b)
            (Prepared L S C l c b)
    unfolding on_prepare_vote_msg prepare_voted
    prepare_ignores led s ks j m p v =
        let late : vote cfg s.phase bft_prepare (MessageType.prepare ∷ []) s.current_block
              s.prepare_bitmap s.aggregate_prepare_sig m
            ≡ stale =
          rw (p.awaits.phase, p.awaits.current)
            (stale_lem cfg b b.height bft_prepare bft_precommit _ _ _ m v.signed.number
              (omega arith)) in
        handle-prepare_vote s m led v.kind_of ∙ ap (prepare_voted cfg s) late

    -- The proposal of a block: the leader's own signature is its first vote.
    pub prepare_lem :
        (s : Bft B C)
        → C.create_new_block s.chain ≡ some (c, b)
        → Before s.phase (at_height b.height bft_prepare)
        → (t : Bft B C) × (m : BftMessage) × (prepare cfg s ≡ done t)
          × AwaitsPrepare L S C c b (l ∷ []) t
          × Carries L S MessageType.prepare b (MessageType.prepare ∷ []) (l ∷ []) m
          × Announced Topics.consensus_validator m t
    unfolding prepare new_bft_msg
    prepare_lem s made before =
        let (o, own, held) = own_bitmap-Holds L S shard node in
        let signed : B.sign_byte cfg.secret (cfg.hash_bytes b.hash ++ (MessageType.prepare ∷ []))
            ≡ signed_by L S (l ∷ []) (S.text b.hash ++ (MessageType.prepare ∷ [])) =
          rw (node.own, node.texts b.hash) (sym (signed_by_one L S l _)) in
        rw (made, own)
          (
            _,
            _,
            refl,
            record {
              phase = switch_new s.phase b.height bft_prepare before;
              chain = refl;
              current = refl;
              voters = o;
              bitmap = refl;
              held = held;
              sum = ap some signed;
            },
            record {
              kind_of = refl;
              about = refl;
              signed = record {
                number = refl;
                hash = refl;
                signature = ap B.serialize signed;
                signers = held;
              };
            },
            record { phase = _; earlier = _; newest = refl },
          )
