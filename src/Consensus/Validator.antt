-- ===== src/Consensus/Validator.antt =====
-- Mitosis/consensus/validator.go: a validator votes for the block of a prepare message, and for the
-- certificates that the leader has collected for it, and commits the block with the last of them.
use mitosis.Prelude.{
  ℕ, ◌+◌, ◌==◌, ltb, leb, if◌then◌else◌, not, ◌&&◌, ◌||◌, List, [], ◌∷◌, ◌++◌, Option, none, some,
  u32,
}
use mitosis.Bls.{Herumi, sign, verify_sign, verify_aggregate_sig}
use mitosis.Topics
use mitosis.Types.MessageType
use mitosis.Types.Bitmap.{copy, get_element, get_size, merge}
use mitosis.Types.Copies.{copy_header}
use mitosis.Types.Data.{Block, BftMessage, new_bft_msg}
use mitosis.Consensus.Phase.{bft_prepare, bft_precommit, bft_commit, switch, is_new}
use mitosis.Consensus.Votes.{at_height}
use mitosis.Consensus.Leader.{signed_block}
use mitosis.Consensus.Protocol.{
  ChainCalls, Setting, Bft, Error, bad_block, skip_genesis, skip_blocks, fork, wrong_signature,
  not_enough_signatures, Outcome, done, failed, panic, or_panic, or_fail, key_to_node_id,
  get_key_offset, own_bitmap, gossip,
}

-- `types.Block{Header: header.Copy()}`.
unfoldable pub header_only : Block → Block
header_only b = record { header = copy_header b.header; transactions = []; inbound_chunks = [] }

-- The first checks of the three handlers: `none` goes on.
unfoldable pub check_height : Option Block → ℕ → BftMessage → Option Error
check_height none committed m = if ltb 0 m.block_num then some skip_genesis else none
check_height (some current) committed m =
    if ltb current.height m.block_num
      && (not (m.block.prev_block_hash == committed)
          || not (m.block_num == u32 (current.height + 1)))
    then some skip_blocks
    else none

abbrev pub nodes_of : List ℕ → (ℕ → ℕ) → List ℕ
nodes_of [] f = []
nodes_of (k ∷ ks) f = f k ∷ nodes_of ks f

module _ {B : Herumi} (cfg : Setting B) where
  -- The checks of a certificate for the current block, over the hash and `tail`.
  unfoldable pub check_certificate : Block → List ℕ → BftMessage → Option Error
  check_certificate current tail m =
      if not (m.block_hash == current.hash)
      then some fork
      else if not (leb cfg.consensus_threshold (get_size m.sender_pubkey_bitmap))
      then some (not_enough_signatures (get_size m.sender_pubkey_bitmap))
      else if verify_aggregate_sig B cfg.store m.sender_sig (cfg.hash_bytes current.hash ++ tail)
          m.sender_pubkey_bitmap cfg.shard_id (get_key_offset cfg.config)
      then none
      else some (
          wrong_signature
            (nodes_of (get_element m.sender_pubkey_bitmap) (key_to_node_id cfg.config)))

module _ {B : Herumi} {C : ChainCalls} (cfg : Setting B) where
  open B use {serialize, deserialize, add}

  -- From `bft.currentBlock = &bftMsg.Block` on.
  unfoldable pub vote_prepare : Bft B C → BftMessage → Outcome (Bft B C)
  vote_prepare s m = or_panic (own_bitmap cfg.config) λ bitmap.
      let signed = sign B cfg.secret (cfg.hash_bytes m.block_hash ++ (MessageType.prepare ∷ [])) in
      let reply =
        new_bft_msg MessageType.prepare_vote (header_only m.block) (serialize signed) bitmap in
      let t = record s {
        current_block = some m.block;
        phase = switch s.phase m.block.height bft_prepare;
      } in
      done (record (gossip reply Topics.consensus_leader t) {
        aggregate_prepare_sig = some (add (deserialize m.sender_sig) signed);
        prepare_bitmap = some (merge (copy bitmap) m.sender_pubkey_bitmap).0;
      })

  unfoldable pub check_prepare : Bft B C → BftMessage → List ℕ → Outcome (Bft B C)
  unfolding vote_prepare
  check_prepare s m [] = panic
  check_prepare s m (key ∷ keys) =
      let signer = key_to_node_id cfg.config key in
      if verify_sign B cfg.store m.sender_sig
        (cfg.hash_bytes m.block_hash ++ (MessageType.prepare ∷ [])) signer cfg.shard_id
      then (or_panic (C.check_block s.chain m.block) λ (chain, valid).
          let t = record s { chain = chain } in
          if valid then vote_prepare t m else failed bad_block t)
      else failed (wrong_signature (signer ∷ [])) s

  unfoldable pub on_prepare_msg : Bft B C → BftMessage → Outcome (Bft B C)
  on_prepare_msg s m =
      if not (is_new s.phase (at_height m.block_num bft_prepare))
      then done s
      else or_fail (check_height s.current_block s.latest_committed_block_hash m) s
          (check_prepare s m (get_element m.sender_pubkey_bitmap))

  -- From the assignment of `aggregatePrepareSig` on.
  unfoldable pub vote_precommit : Bft B C → Block → BftMessage → Outcome (Bft B C)
  vote_precommit s current m = or_panic (own_bitmap cfg.config) λ bitmap.
      let signed = sign B cfg.secret (cfg.hash_bytes current.hash) in
      let reply =
        new_bft_msg MessageType.precommit_vote (header_only m.block) (serialize signed) bitmap in
      done (
        gossip reply Topics.consensus_leader (record s {
          aggregate_prepare_sig = some (deserialize m.sender_sig);
          prepare_bitmap = some m.sender_pubkey_bitmap;
          precommit_bitmap = some bitmap;
          aggregate_precommit_sig = some signed;
          phase = switch s.phase current.height bft_precommit;
        }))

  unfoldable pub on_precommit_msg : Bft B C → BftMessage → Outcome (Bft B C)
  on_precommit_msg s m =
      if not (is_new s.phase (at_height m.block_num bft_precommit))
      then done s
      else or_fail (check_height s.current_block s.latest_committed_block_hash m) s (
          or_panic s.current_block λ current.
            or_fail (check_certificate cfg current (MessageType.prepare ∷ []) m) s
              (vote_precommit s current m))

  -- From the assignment of `aggregatePrecommitSig` on: the vote, then the commit.
  unfoldable pub vote_commit : Bft B C → Block → BftMessage → Outcome (Bft B C)
  vote_commit s current m = or_panic (own_bitmap cfg.config) λ bitmap.
      let sum = deserialize m.sender_sig in
      let signed = sign B cfg.secret (cfg.hash_bytes current.hash ++ (MessageType.commit ∷ [])) in
      let reply =
        new_bft_msg MessageType.commit_vote (header_only m.block) (serialize signed) bitmap in
      let t = gossip reply Topics.consensus_leader (record s {
        aggregate_precommit_sig = some sum;
        precommit_bitmap = some m.sender_pubkey_bitmap;
        commit_bitmap = some bitmap;
        aggregate_commit_sig = some signed;
        phase = switch s.phase current.height bft_commit;
      }) in
      let block = signed_block current (serialize sum) m.sender_pubkey_bitmap in
      or_panic (C.commit s.chain block) λ chain. or_panic (C.latest_block chain) λ latest.
        done (record t {
          current_block = some block;
          chain = chain;
          latest_committed_block_hash = latest.hash;
        })

  unfoldable pub on_commit_msg : Bft B C → BftMessage → Outcome (Bft B C)
  on_commit_msg s m =
      if not (is_new s.phase (at_height m.block_num bft_commit))
      then done s
      else or_fail (check_height s.current_block s.latest_committed_block_hash m) s (
          or_panic s.current_block
            λ current. or_fail (check_certificate cfg current [] m) s (vote_commit s current m))

  -- The `switch` of `HandleBFTMsg` for a validator.
  unfoldable pub handle_validator : Bft B C → BftMessage → Outcome (Bft B C)
  handle_validator s m =
      if m.message_type == MessageType.prepare
      then on_prepare_msg s m
      else if m.message_type == MessageType.precommit
      then on_precommit_msg s m
      else if m.message_type == MessageType.commit
      then on_commit_msg s m
      else done s
