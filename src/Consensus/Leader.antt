-- ===== src/Consensus/Leader.antt =====
-- Mitosis/consensus/leader.go: the leader proposes a block, counts the votes of each step, and moves on
-- when they reach the threshold.
use mitosis.Prelude.{ℕ, ◌==◌, leb, if◌then◌else◌, List, [], ◌∷◌, ◌++◌, some}
use mitosis.Bls.{Herumi, sign}
use mitosis.Topics
use mitosis.Types.MessageType
use mitosis.Types.Bitmap.{Bitmap, copy, get_size}
use mitosis.Types.Data.{Block, BftMessage, new_bft_msg}
use mitosis.Consensus.Phase.{bft_prepare, bft_precommit, bft_commit, switch}
use mitosis.Consensus.Votes.{Vote, vote, stale, refused, crash, known, counted}
use mitosis.Consensus.Protocol.{
  ChainCalls, Setting, Bft, Outcome, done, failed, panic, or_panic, own_bitmap, gossip,
}

-- The signature of the precommit step is filled into the header, and the block is committed.
abbrev pub signed_block : Block → List ℕ → Bitmap → Block
signed_block b sig voters = record b {
  header = record b.header { signature = sig; sign_bit_map = copy voters };
}

module _ {B : Herumi} {C : ChainCalls} (cfg : Setting B) where
  open B use {serialize}

  unfoldable pub prepare : Bft B C → Outcome (Bft B C)
  prepare s = or_panic (C.create_new_block s.chain) λ (chain, block).
      or_panic (own_bitmap cfg.config) λ bitmap.
        let signed = sign B cfg.secret (cfg.hash_bytes block.hash ++ (MessageType.prepare ∷ [])) in
        let m = new_bft_msg MessageType.prepare block (serialize signed) bitmap in
        done (
          gossip m Topics.consensus_validator (record s {
            chain = chain;
            current_block = some block;
            prepare_bitmap = some bitmap;
            aggregate_prepare_sig = some signed;
            phase = switch s.phase block.height bft_prepare;
          }))

  unfoldable pub precommit : Bft B C → Outcome (Bft B C)
  precommit s = or_panic s.current_block λ block. or_panic s.aggregate_prepare_sig λ sum.
      or_panic s.prepare_bitmap λ voters. or_panic (own_bitmap cfg.config) λ bitmap.
        let t = record s { phase = switch s.phase block.height bft_precommit } in
        let m = new_bft_msg MessageType.precommit block (serialize sum) voters in
        done (record (gossip m Topics.consensus_validator t) {
          precommit_bitmap = some bitmap;
          aggregate_precommit_sig = some (sign B cfg.secret (cfg.hash_bytes block.hash));
        })

  unfoldable pub commit : Bft B C → Outcome (Bft B C)
  commit s = or_panic s.current_block λ block. or_panic s.aggregate_precommit_sig λ sum.
      or_panic s.precommit_bitmap λ voters. or_panic (own_bitmap cfg.config) λ bitmap.
        let t = record s { phase = switch s.phase block.height bft_commit } in
        let m = new_bft_msg MessageType.commit block (serialize sum) voters in
        let signed = signed_block block (serialize sum) voters in
        or_panic (C.commit s.chain signed) λ chain. or_panic (C.latest_block chain) λ latest.
          done (record (gossip m Topics.consensus_validator t) {
            commit_bitmap = some bitmap;
            aggregate_commit_sig =
                some (sign B cfg.secret (cfg.hash_bytes block.hash ++ (MessageType.commit ∷ [])));
            current_block = some signed;
            chain = chain;
            latest_committed_block_hash = latest.hash;
          })

  -- What a prepare vote does once it has been looked at.
  unfoldable pub prepare_voted : Bft B C → Vote B → Outcome (Bft B C)
  prepare_voted s stale = done s
  prepare_voted s (refused e) = failed e s
  prepare_voted s crash = panic
  prepare_voted s (known merged) = done (record s { prepare_bitmap = some merged })
  prepare_voted s (counted merged sum) =
      let t = record s { prepare_bitmap = some merged; aggregate_prepare_sig = some sum } in
      if leb cfg.consensus_threshold (get_size merged) then precommit t else done t

  unfoldable pub on_prepare_vote_msg : Bft B C → BftMessage → Outcome (Bft B C)
  on_prepare_vote_msg s m = prepare_voted s (
      vote cfg s.phase bft_prepare (MessageType.prepare ∷ []) s.current_block s.prepare_bitmap
        s.aggregate_prepare_sig m)

  -- What a precommit vote does once it has been looked at.
  unfoldable pub precommit_voted : Bft B C → Vote B → Outcome (Bft B C)
  precommit_voted s stale = done s
  precommit_voted s (refused e) = failed e s
  precommit_voted s crash = panic
  precommit_voted s (known merged) = done (record s { precommit_bitmap = some merged })
  precommit_voted s (counted merged sum) =
      let t = record s { precommit_bitmap = some merged; aggregate_precommit_sig = some sum } in
      if leb cfg.consensus_threshold (get_size merged) then commit t else done t

  unfoldable pub on_precommit_vote_msg : Bft B C → BftMessage → Outcome (Bft B C)
  on_precommit_vote_msg s m = precommit_voted s (
      vote cfg s.phase bft_precommit [] s.current_block s.precommit_bitmap s.aggregate_precommit_sig
        m)

  -- What a commit vote does once it has been looked at.
  unfoldable pub commit_voted : Bft B C → Vote B → Outcome (Bft B C)
  commit_voted s stale = done s
  commit_voted s (refused e) = failed e s
  commit_voted s crash = panic
  commit_voted s (known merged) = done (record s { commit_bitmap = some merged })
  commit_voted s (counted merged sum) =
      let t = record s { commit_bitmap = some merged; aggregate_commit_sig = some sum } in
      if leb cfg.consensus_threshold (get_size merged) then prepare t else done t

  unfoldable pub on_commit_vote_msg : Bft B C → BftMessage → Outcome (Bft B C)
  on_commit_vote_msg s m = commit_voted s (
      vote cfg s.phase bft_commit (MessageType.commit ∷ []) s.current_block s.commit_bitmap
        s.aggregate_commit_sig m)

  -- The `switch` of `HandleBFTMsg` for a leader.
  unfoldable pub handle_leader : Bft B C → BftMessage → Outcome (Bft B C)
  handle_leader s m =
      if m.message_type == MessageType.prepare_vote
      then on_prepare_vote_msg s m
      else if m.message_type == MessageType.precommit_vote
      then on_precommit_vote_msg s m
      else if m.message_type == MessageType.commit_vote
      then on_commit_vote_msg s m
      else done s
