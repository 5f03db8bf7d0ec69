-- ===== src/Consensus/Counted.antt =====
-- What it takes for one of the three vote handlers of Mitosis/consensus/leader.go to count a vote.
use mitosis.Prelude.{
  ℕ, ◌<◌, ◌≡◌, refl, subst, inl, inr, true, false, List, [], ◌∷◌, ◌++◌, Option, none, some, arith,
  Bool-cases,
}
use mitosis.Bls.{Herumi, verify_sign}
use mitosis.Types.Bitmap.{Bitmap, get_element, get_size, merge}
use mitosis.Types.Data.{Block, BftMessage}
use mitosis.Consensus.Phase.{Phase, is_out}
use mitosis.Consensus.Votes.{counted, at_height, merge_vote, check_vote, vote}
use mitosis.Consensus.Protocol.{Setting, key_to_node_id}

module _ {B : Herumi} (cfg : Setting B) where
  -- A vote that is counted: it is for the block and not for a step that is over, the bitmap of voters was
  -- below the threshold, the node of the first key in its bitmap has signed it, and it brings keys that the
  -- bitmap of voters lacked; the bitmap becomes the union, and its signature is added to the aggregate.
  pub record Counted (phase : Phase) (step : ℕ) (tail : List ℕ) (block : Block)
      (bitmap : Option Bitmap) (signed : Option B.Sign) (m : BftMessage) (voters : Bitmap)
      (sum : B.Sign) : Type 0 where
    pub before : Bitmap
    pub first_key : ℕ
    pub other_keys : List ℕ
    pub new_key : ℕ
    pub new_keys : List ℕ
    pub aggregate : B.Sign
    pub in_time : is_out phase (at_height m.block_num step) ≡ false
    pub same_block : m.block_hash ≡ block.hash
    pub had : bitmap ≡ some before
    pub below : get_size before < cfg.consensus_threshold
    pub keys : get_element m.sender_pubkey_bitmap ≡ first_key ∷ other_keys
    pub verified :
        verify_sign B cfg.store m.sender_sig
          (cfg.hash_bytes block.hash ++ tail)
          (key_to_node_id cfg.config first_key)
          cfg.shard_id
        ≡ true
    pub merged : merge before m.sender_pubkey_bitmap ≡ (voters, new_key ∷ new_keys)
    pub had_signed : signed ≡ some aggregate
    pub added : sum ≡ B.add aggregate (B.deserialize m.sender_sig)

  merge_vote-Counted :
      (m : BftMessage) (voters : Bitmap) (sum : B.Sign) (merged : Bitmap × List ℕ)
      (signed : Option B.Sign)
      → merge_vote cfg merged signed m ≡ counted voters sum
      → (key : ℕ) × (keys : List ℕ) × (aggregate : B.Sign) × (merged ≡ (voters, key ∷ keys))
        × (signed ≡ some aggregate)
        × (sum ≡ B.add aggregate (B.deserialize m.sender_sig))
  unfolding merge_vote
  merge_vote-Counted m voters sum (merged, []) signed e = absurd (ground (arith, e))
  merge_vote-Counted m voters sum (merged, key ∷ keys) none e = absurd (ground (arith, e))
  merge_vote-Counted m voters sum (merged, key ∷ keys) (some aggregate) e =
      (key, keys, aggregate, ground (arith, e), refl, ground (arith, e))

  check_vote-Counted :
      (phase : Phase) (step : ℕ) (tail : List ℕ) (block : Block) (before : Bitmap)
      (signed : Option B.Sign) (m : BftMessage) (voters : Bitmap) (sum : B.Sign) (keys : List ℕ)
      → get_element m.sender_pubkey_bitmap ≡ keys
      → is_out phase (at_height m.block_num step) ≡ false
      → m.block_hash ≡ block.hash
      → get_size before < cfg.consensus_threshold
      → check_vote cfg before signed (cfg.hash_bytes m.block_hash ++ tail) keys m
        ≡ counted voters sum
      → Counted phase step tail block (some before) signed m voters sum
  unfolding check_vote
  check_vote-Counted phase step tail block before signed m voters sum [] held time same low e =
      absurd (ground (arith, e))
  check_vote-Counted phase step tail block before signed m voters sum (key ∷ keys) held time same
        low e =
      elim (Bool-cases (
        verify_sign B cfg.store m.sender_sig (cfg.hash_bytes m.block_hash ++ tail)
          (key_to_node_id cfg.config key) cfg.shard_id)) [
            | inl ok ↦
                let (new, more, aggregate, merged, had, added) =
                  merge_vote-Counted m voters sum (merge before m.sender_pubkey_bitmap) signed
                    (ground (arith, e, ok)) in
                record {
                  before = before;
                  first_key = key;
                  other_keys = keys;
                  new_key = new;
                  new_keys = more;
                  aggregate = aggregate;
                  in_time = time;
                  same_block = same;
                  had = refl;
                  below = low;
                  keys = held;
                  verified =
                      subst
                        (λ h.
                          verify_sign B cfg.store m.sender_sig (cfg.hash_bytes h ++ tail)
                            (key_to_node_id cfg.config key) cfg.shard_id
                          ≡ true)
                        same ok;
                  merged = merged;
                  had_signed = had;
                  added = added;
                }
            | inr bad ↦ absurd (ground (arith, e, bad))
          ]

  -- A vote is counted only so.
  pub vote-Counted :
      (phase : Phase) (step : ℕ) (tail : List ℕ) (block : Block) (bitmap : Option Bitmap)
      (signed : Option B.Sign) (m : BftMessage) (voters : Bitmap) (sum : B.Sign)
      → vote cfg phase step tail (some block) bitmap signed m ≡ counted voters sum
      → Counted phase step tail block bitmap signed m voters sum
  unfolding vote
  vote-Counted phase step tail block none signed m voters sum e = absurd (ground (arith, e))
  vote-Counted phase step tail block (some before) signed m voters sum e =
      check_vote-Counted phase step tail block before signed m voters sum
        (get_element m.sender_pubkey_bitmap) refl (ground (arith, e)) (ground (arith, e))
        (ground (arith, e)) (ground (arith, e))
