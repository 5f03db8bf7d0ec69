-- ===== src/Tests/Rounds.antt =====
-- Rounds of consensus among the four nodes of a shard.
use mitosis.Prelude.{
  ◌+◌, ℕ, ◌*◌, ◌≡◌, refl, ◌<◌, ◌&&◌, ◌↔◌, ◌⊎◌, inl, true, false, [], ◌∷◌, some, none, arith,
}
use mitosis.Prelude.Assoc.{lookup}
use mitosis.Prelude.Count.{count}
use mitosis.Bls.{
  verify_aggregate_sig, verify_sign, get_aggregate_pub_key, get_pub_key, db_aggregate, sum_keys,
}
use mitosis.Config.{threshold}
use mitosis.Types.Bitmap.{
  new_bitmap, set_key, get_element, get_size, merge, merge_from, keys_from, byte_keys, byte_size,
  member, copy,
}
use mitosis.Types.Data.{Block, BftMessage}
use mitosis.Consensus.Phase.{Phase, switch, is_new, is_out, Before, AtMost, phase_order}
use mitosis.Consensus.Protocol.{
  Bft, done, failed, fork, after, own_bitmap, node_id_to_key, key_to_node_id, shard_start,
  get_key_offset,
}
use mitosis.Consensus.Votes.{vote, check_vote, merge_vote}
use mitosis.Consensus.Leader.{signed_block, commit, precommit_voted, on_precommit_vote_msg}
use mitosis.Consensus.Validator.{
  check_height, check_certificate, vote_commit, on_commit_msg, handle_validator,
}
use mitosis.Consensus.Certificates.{
  Certified, CommitReady, on_commit_msg-Certified, on_precommit_vote_msg_ready, certificate_refused,
}
use mitosis.Consensus.Quorum.{certificates_overlap}
use mitosis.Consensus.Run.{run, handle, run_phase}
use mitosis.Tests.Toy.{toy_bls, toy_chain, toy_setting, toy_bft, toy_block, toy_message}
use mitosis.Types.Bitmap.Overlap.{beyond}

-- The commit message that three signatures certify, and one that only two do.
abbrev certificate : BftMessage
certificate = toy_message 4 (toy_block 1 7) 24 7

abbrev too_few : BftMessage
too_few = toy_message 4 (toy_block 1 7) 16 3

abbrev validator : Bft toy_bls toy_chain
validator = toy_bft 2

abbrev committed : Bft toy_bls toy_chain
committed = after validator (on_commit_msg (toy_setting 5 false) validator certificate)

committed_run : on_commit_msg (toy_setting 5 false) validator certificate ≡ done committed
unfolding on_commit_msg vote_commit check_height check_certificate verify_aggregate_sig
    get_aggregate_pub_key db_aggregate sum_keys get_element keys_from byte_keys get_size byte_size
    lookup is_new switch own_bitmap set_key new_bitmap node_id_to_key shard_start get_key_offset
committed_run = refl

on_commit_msg-Certified_example :
    (committed ≡ validator)
    ⊎ ((b : Block) × (validator.current_block ≡ some b)
        × Certified (toy_setting 5 false) b [] certificate
        × (some (signed_block b (24 ∷ []) (7 ∷ []) ∷ []) ≡ some committed.chain))
on_commit_msg-Certified_example =
    on_commit_msg-Certified (toy_setting 5 false) validator committed certificate committed_run

-- The committed block is on the chain, with the certificate in its header.
committed_chain : committed.chain ≡ signed_block (toy_block 1 7) (24 ∷ []) (7 ∷ []) ∷ []
unfolding on_commit_msg vote_commit check_height check_certificate verify_aggregate_sig
    get_aggregate_pub_key db_aggregate sum_keys get_element keys_from byte_keys get_size byte_size
    lookup is_new switch own_bitmap set_key new_bitmap node_id_to_key shard_start get_key_offset
    copy
committed_chain = refl

certificate_passes : check_certificate (toy_setting 5 false) (toy_block 1 7) [] certificate ≡ none
unfolding check_certificate verify_aggregate_sig get_aggregate_pub_key db_aggregate sum_keys
    get_element keys_from byte_keys get_size byte_size lookup shard_start get_key_offset
certificate_passes = refl

-- One key of the shard, and three keys beyond it, which have no public key.
abbrev other_certificate : BftMessage
other_certificate = toy_message 4 (toy_block 1 7) 8 228

other_passes : check_certificate (toy_setting 5 false) (toy_block 1 7) [] other_certificate ≡ none
unfolding check_certificate verify_aggregate_sig get_aggregate_pub_key db_aggregate sum_keys
    get_element keys_from byte_keys get_size byte_size lookup shard_start get_key_offset
other_passes = refl

certificates_overlap_example :
    4
    < 3
      * (count 4 (λ i. member (7 ∷ []) i && member (228 ∷ []) i)
          + (beyond 4 (7 ∷ []) + beyond 4 (228 ∷ [])))
certificates_overlap_example =
    certificates_overlap toy_bls (toy_setting 5 false) 4 (toy_block 1 7) (toy_block 1 7) [] []
      certificate other_certificate (unfold threshold in refl) (omega arith) certificate_passes
      other_passes (omega arith, tt) (omega arith, tt) (omega arith) (omega arith)

abbrev refused_state : Bft toy_bls toy_chain
refused_state =
    after validator
      (on_commit_msg (toy_setting 5 false) validator (toy_message 4 (toy_block 1 6) 24 7))

refused_run :
    on_commit_msg (toy_setting 5 false) validator (toy_message 4 (toy_block 1 6) 24 7)
    ≡ failed fork refused_state
unfolding on_commit_msg check_height check_certificate is_new
refused_run = refl

certificate_refused_example : refused_state ≡ validator
certificate_refused_example =
    certificate_refused (toy_setting 5 false) validator refused_state
      (toy_message 4 (toy_block 1 6) 24 7) fork (inl refused_run)

-- The leader, node 8, with one more precommit vote, and the vote of node 5.
abbrev leader : Bft toy_bls toy_chain
leader = record (toy_bft 2) { precommit_bitmap = some (10 ∷ []); aggregate_precommit_sig = some 16 }

abbrev last_vote : BftMessage
last_vote = toy_message 3 (toy_block 1 7) 8 1

abbrev led : Bft toy_bls toy_chain
led = after leader (on_precommit_vote_msg (toy_setting 8 true) leader last_vote)

led_run : on_precommit_vote_msg (toy_setting 8 true) leader last_vote ≡ done led
unfolding on_precommit_vote_msg vote check_vote merge_vote precommit_voted commit verify_sign
    get_pub_key merge merge_from get_element keys_from byte_keys get_size byte_size lookup is_out
    switch own_bitmap set_key new_bitmap node_id_to_key key_to_node_id shard_start
led_run = refl

led_chain : led.chain ≡ signed_block (toy_block 1 7) (24 ∷ []) (11 ∷ []) ∷ []
unfolding on_precommit_vote_msg vote check_vote merge_vote precommit_voted commit verify_sign
    get_pub_key merge merge_from get_element keys_from byte_keys get_size byte_size lookup is_out
    switch own_bitmap set_key new_bitmap node_id_to_key key_to_node_id shard_start copy
led_chain = refl

on_precommit_vote_msg_ready_example :
    (led.chain ≡ leader.chain) ⊎ CommitReady (toy_setting 8 true) leader last_vote led.chain
on_precommit_vote_msg_ready_example =
    on_precommit_vote_msg_ready (toy_setting 8 true) leader led last_vote led_run

abbrev ran : Bft toy_bls toy_chain
ran = after validator (run (toy_setting 5 false) validator (certificate ∷ too_few ∷ []))

ran-run : run (toy_setting 5 false) validator (certificate ∷ too_few ∷ []) ≡ done ran
unfolding run handle handle_validator on_commit_msg vote_commit check_height check_certificate
    verify_aggregate_sig get_aggregate_pub_key db_aggregate sum_keys get_element keys_from byte_keys
    get_size byte_size lookup is_new switch own_bitmap set_key new_bitmap node_id_to_key shard_start
    get_key_offset
ran-run = refl

run_phase_example : AtMost validator.phase ran.phase
run_phase_example =
    run_phase (toy_setting 5 false) validator ran (certificate ∷ too_few ∷ []) ran-run

abbrev at : ℕ → ℕ → Phase
at height step = record { height = height; bft_phase = step }

phase_order_example :
    ((is_new (at 3 1) (at 3 2) ≡ true) ↔ Before (at 3 1) (at 3 2))
    × ((is_out (at 3 1) (at 3 2) ≡ true) ↔ Before (at 3 2) (at 3 1))
phase_order_example = phase_order (at 3 1) (at 3 2)
