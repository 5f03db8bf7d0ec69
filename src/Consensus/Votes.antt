-- ===== src/Consensus/Votes.antt =====
-- What OnPrepareVoteMsg, OnPrecommitVoteMsg and OnCommitVoteMsg of Mitosis/consensus/leader.go have in
-- common: they check a vote against the current block and step, and merge it into a bitmap of voters
-- and an aggregate of signatures.
use mitosis.Prelude.{ℕ, ◌==◌, leb, if◌then◌else◌, not, List, [], ◌∷◌, ◌++◌, Option, none, some}
use mitosis.Bls.{Herumi, verify_sign}
use mitosis.Types.Bitmap.{Bitmap, get_element, get_size, merge}
use mitosis.Types.Data.{Block, BftMessage}
use mitosis.Consensus.Phase.{Phase, is_out}
use mitosis.Consensus.Protocol.{
  Setting, Error, no_current_block, differs_from_current, wrong_signature, key_to_node_id,
}

-- What the common part of the three vote handlers finds.
pub data Vote (B : Herumi) : Type 0 where
  stale : Vote B
  refused : Error → Vote B
  crash : Vote B
  known : Bitmap → Vote B
  counted : Bitmap → B.Sign → Vote B

abbrev pub at_height : ℕ → ℕ → Phase
at_height h p = record { height = h; bft_phase = p }

module _ {B : Herumi} (cfg : Setting B) where
  open B use {Sign, deserialize, add}

  -- `Merge`, `if len(newSigners) == 0 { return nil }`, `Deserialize` and `Add`.
  unfoldable pub merge_vote : Bitmap × List ℕ → Option Sign → BftMessage → Vote B
  merge_vote (merged, []) sum m = known merged
  merge_vote (merged, new ∷ more) none m = crash
  merge_vote (merged, new ∷ more) (some sum) m = counted merged (add sum (deserialize m.sender_sig))

  -- The signer is `GetElement()[0]`.
  unfoldable pub check_vote : Bitmap → Option Sign → List ℕ → List ℕ → BftMessage → Vote B
  unfolding merge_vote
  check_vote bitmap sum msg [] m = crash
  check_vote bitmap sum msg (key ∷ keys) m =
      if verify_sign B cfg.store m.sender_sig msg (key_to_node_id cfg.config key) cfg.shard_id
      then merge_vote (merge bitmap m.sender_pubkey_bitmap) sum m
      else refused (wrong_signature (key_to_node_id cfg.config key ∷ []))

  -- A vote for the step `step`, whose signed text is the hash of the block and `tail`. (Where the
  -- code signs the hash of the current block, it has found that the two hashes are the same.)
  unfoldable pub vote :
      Phase → ℕ → List ℕ → Option Block → Option Bitmap → Option Sign → BftMessage → Vote B
  unfolding check_vote
  vote phase step tail none bitmap sum m = refused no_current_block
  vote phase step tail (some block) bitmap sum m =
      if is_out phase (at_height m.block_num step)
      then stale
      else if not (m.block_hash == block.hash)
      then refused differs_from_current
      else elim bitmap [
        | none ↦ crash
        | some b ↦
            if leb cfg.consensus_threshold (get_size b)
            then stale
            else check_vote b sum (cfg.hash_bytes m.block_hash ++ tail)
                (get_element m.sender_pubkey_bitmap) m
      ]
