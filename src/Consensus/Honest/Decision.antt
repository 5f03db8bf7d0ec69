-- ===== src/Consensus/Honest/Decision.antt =====
-- An honest leader of Mitosis/consensus/leader.go: the votes of enough nodes bring it from the certificate of
-- a block to its commit.
use native.Mathlib.Decide.{dec_lt}
use mitosis.Prelude.{
  ℕ, suc, ◌<◌, ◌≡◌, refl, ap, sym, ◌∙◌, leb, true, false, Bool, List, [], ◌++◌, some, arith, length,
  elem, if◌then◌else◌,
}
use mitosis.Prelude.Ascending.{insert_sorted, length-insert_sorted}
use mitosis.Topics
use mitosis.Types.MessageType
use mitosis.Types.MessageType.{MessageType}
use mitosis.Types.Bitmap.{Bitmap, get_size}
use mitosis.Types.Bitmap.Members.{Holds, size-Holds}
use mitosis.Types.Data.{Block, BftMessage, new_bft_msg}
use mitosis.Bls.{Herumi}
use mitosis.Bls.Aggregate.{BlsLaws}
use mitosis.Consensus.Phase.{Phase, switch, bft_precommit, bft_commit}
use mitosis.Consensus.Votes.{at_height, vote, counted, stale}
use mitosis.Consensus.Leader.{
  signed_block, commit, precommit_voted, on_precommit_vote_msg, handle_leader,
}
use mitosis.Consensus.Run.{handle}
use mitosis.Consensus.Protocol.{ChainCalls, Setting, Bft, done, own_bitmap}
use mitosis.Consensus.Honest.{Shard, IsShard, IsNode, signed_by, vote_counted}
use mitosis.Consensus.Honest.Tally.{Counts, Ignores}
use mitosis.Consensus.Honest.States.{
  switch_new, IsVote, own_bitmap-Holds, stale_lem, Announced, AwaitsPrecommit, Committed, Writes,
}

module _ {B : Herumi} (L : BlsLaws B) (S : Shard B) {C : ChainCalls} (shard : IsShard L S) {l : ℕ}
    {cfg : Setting B} (node : IsNode L S l cfg) where
  commit_lem :
      (t : Bft B C) (b latest : Block) (σ : B.Sign) (v o : Bitmap) (c' : C.Chain)
      → t.current_block ≡ some b
      → t.aggregate_precommit_sig ≡ some σ
      → t.precommit_bitmap ≡ some v
      → own_bitmap cfg.config ≡ some o
      → C.commit t.chain (signed_block b (B.serialize σ) v) ≡ some c'
      → C.latest_block c' ≡ some latest
      → (u : Bft B C) × (commit cfg t ≡ done u)
        × (u.phase ≡ switch t.phase b.height bft_commit)
        × (u.chain ≡ c')
        × (u.current_block ≡ some (signed_block b (B.serialize σ) v))
        × Announced Topics.consensus_validator
            (new_bft_msg MessageType.commit b (B.serialize σ) v)
            u
  unfolding commit
  commit_lem t b latest σ v o c' e1 e2 e3 e4 e5 e6 =
      rw (e1, e2, e3, e4, e5, e6)
        (_, refl, refl, refl, refl, record { phase = _; earlier = _; newest = refl })

  handle-precommit_vote :
      (s : Bft B C) (m : BftMessage)
      → cfg.is_leader ≡ true
      → m.message_type ≡ MessageType.precommit_vote
      → handle cfg s m ≡ on_precommit_vote_msg cfg s m
  unfolding handle handle_leader
  handle-precommit_vote s m led e = rw (led, e)

  module _ (c : C.Chain) (b : Block) where
    abbrev with_precommit : Bft B C → Bitmap → B.Sign → Bft B C
    with_precommit s v σ = record s { precommit_bitmap = some v; aggregate_precommit_sig = some σ }

    precommit_step :
        (s : Bft B C) (m : BftMessage) (v : Bitmap) (σ : B.Sign) (full : Bool)
        → cfg.is_leader ≡ true
        → m.message_type ≡ MessageType.precommit_vote
        → vote cfg s.phase bft_precommit [] s.current_block s.precommit_bitmap
            s.aggregate_precommit_sig m
          ≡ counted v σ
        → leb cfg.consensus_threshold (get_size v) ≡ full
        → handle cfg s m
          ≡ (if full then commit cfg (with_precommit s v σ) else done (with_precommit s v σ))
    unfolding on_precommit_vote_msg precommit_voted
    precommit_step s m v σ full led kind seen test =
        handle-precommit_vote s m led kind
        ∙ ap (precommit_voted cfg s) seen
        ∙ ap
            (λ (t : Bool).
              if t then commit cfg (with_precommit s v σ) else done (with_precommit s v σ))
            test

    -- What the leader sees in a precommit vote.
    precommit_seen :
        (s : Bft B C) (ks : List ℕ) (j : ℕ) (m : BftMessage)
        → AwaitsPrecommit L S C c b ks s
        → length ks < S.threshold
        → IsVote L S MessageType.precommit_vote b [] j m
        → elem j ks ≡ false
        → (merged : Bitmap) × (vote cfg s.phase bft_precommit [] s.current_block s.precommit_bitmap
              s.aggregate_precommit_sig m
            ≡ counted merged (signed_by L S (insert_sorted j ks) (S.text b.hash ++ [])))
          × Holds S.size (insert_sorted j ks) merged
    precommit_seen s ks j m w few v new =
        rw (w.phase, w.current, w.bitmap, w.sum)
          (vote_counted L S shard node b _ ks bft_precommit j w.voters m w.held few v.signed new)

    module _ (writes : Writes C c b) where
      to_commit :
          (t : Bft B C) (ks : List ℕ)
          → AwaitsPrecommit L S C c b ks t
          → (u : Bft B C) × (commit cfg t ≡ done u) × Committed L S C c b ks u
      unfolding new_bft_msg
      to_commit t ks w =
          let (o, own, own_held) = own_bitmap-Holds L S shard node in
          let (c', latest, stored, top) =
            writes (B.serialize (signed_by L S ks (S.text b.hash ++ []))) w.voters in
          let here = λ (z : C.Chain).
            C.commit z
              (signed_block b (B.serialize (signed_by L S ks (S.text b.hash ++ []))) w.voters) in
          let (u, e, phase, chain, current, sent) =
            commit_lem t b latest _ w.voters o c' w.current w.sum w.bitmap own
              (ap here w.chain ∙ stored) top in
          (
            u,
            e,
            record {
              phase =
                  phase
                  ∙ ap (λ (p : Phase). switch p b.height bft_commit) w.phase
                  ∙ switch_new (at_height b.height bft_precommit) b.height bft_commit
                      (ground arith);
              block = _;
              current = current;
              message = _;
              carries = record {
                kind_of = refl;
                about = refl;
                signed = record { number = refl; hash = refl; signature = refl; signers = w.held };
              };
              sent = sent;
              written = stored ∙ ap some (sym chain);
            },
          )

      pub precommit_counts :
          cfg.is_leader ≡ true
          → Counts cfg S.threshold
              (IsVote L S MessageType.precommit_vote b [])
              (AwaitsPrecommit L S C c b)
              (Committed L S C c b)
      precommit_counts led s ks j m w few v new =
          let (merged, seen, held) = precommit_seen s ks j m w few v new in
          let size = size-Holds S.size shard.small merged (insert_sorted j ks) held in
          let long = length-insert_sorted j ks in
          let t =
            with_precommit s merged (signed_by L S (insert_sorted j ks) (S.text b.hash ++ [])) in
          let waits : AwaitsPrecommit L S C c b (insert_sorted j ks) t = record {
            phase = w.phase;
            chain = w.chain;
            current = w.current;
            voters = merged;
            bitmap = refl;
            held = held;
            sum = refl;
          } in
          elim (dec_lt (suc (length ks)) S.threshold) [
            | yes below ↦ (
              t,
              precommit_step s m merged _ false led v.kind_of seen
                  (ground (arith, node.enough, size, long)),
              (λ h. waits),
              (λ h. absurd (omega (arith, h, below))),
            )
            | no reached ↦
                let (u, e, over) = to_commit t (insert_sorted j ks) waits in
                (
                  u,
                  precommit_step s m merged _ true led v.kind_of seen
                        (ground (arith, node.enough, size, long, reached))
                      ∙ e,
                  (λ h. absurd (reached h)),
                  (λ h. over),
                )
          ]

    pub precommit_ignores :
        cfg.is_leader ≡ true
        → Ignores cfg S.threshold
            (IsVote L S MessageType.precommit_vote b [])
            (AwaitsPrecommit L S C c b)
            (Committed L S C c b)
    unfolding on_precommit_vote_msg precommit_voted
    precommit_ignores led s ks j m p v =
        let late : vote cfg s.phase bft_precommit [] s.current_block s.precommit_bitmap
              s.aggregate_precommit_sig m
            ≡ stale =
          rw (p.phase, p.current)
            (stale_lem cfg p.block b.height bft_precommit bft_commit _ _ _ m v.signed.number
              (omega arith)) in
        handle-precommit_vote s m led v.kind_of ∙ ap (precommit_voted cfg s) late
