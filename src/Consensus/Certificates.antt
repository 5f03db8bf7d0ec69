-- ===== src/Consensus/Certificates.antt =====
-- What a node of Mitosis/consensus has in hand when it votes for a certificate or commits a block:
-- `check_certificate` of the validator, and the counted votes of the leader.
use mitosis.Prelude.{
  ℕ, ◌≤◌, ◌≡◌, refl, subst, ◌↔◌, ◌⊎◌, inl, inr, true, List, [], ◌++◌, none, some, arith,
  Option-cases,
}
use mitosis.Bls.{Herumi, verify_aggregate_sig}
use mitosis.Types.Bitmap.{Bitmap, get_size}
use mitosis.Types.Data.{Block, BftMessage}
use mitosis.Consensus.Phase.{bft_precommit}
use mitosis.Consensus.Votes.{Vote, stale, refused, crash, known, counted, vote}
use mitosis.Consensus.Counted.{Counted, vote-Counted}
use mitosis.Consensus.Leader.{signed_block, commit, precommit_voted, on_precommit_vote_msg}
use mitosis.Consensus.Validator.{
  check_certificate, vote_precommit, on_precommit_msg, vote_commit, on_commit_msg,
}
use mitosis.Consensus.Protocol.{ChainCalls, Setting, Bft, Error, done, failed, get_key_offset}

module _ {B : Herumi} (cfg : Setting B) where
  -- A certificate for a block: its hash, enough keys in the bitmap, and an aggregate signature of
  -- the hash and `tail` that the keys of the bitmap verify.
  pub record Certified (b : Block) (tail : List ℕ) (m : BftMessage) : Type 0 where
    pub same_block : m.block_hash ≡ b.hash
    pub enough : cfg.consensus_threshold ≤ get_size m.sender_pubkey_bitmap
    pub signed :
        verify_aggregate_sig B cfg.store m.sender_sig
          (cfg.hash_bytes b.hash ++ tail)
          m.sender_pubkey_bitmap
          cfg.shard_id
          (get_key_offset cfg.config)
        ≡ true

  -- `check_certificate` finds no error exactly for a message that names the current block, has at least
  -- the threshold of keys in its bitmap, and carries an aggregate signature that those keys verify.
  pub check_certificate_iff :
      (b : Block) (tail : List ℕ) (m : BftMessage)
      → (check_certificate cfg b tail m ≡ none) ↔ Certified b tail m
  unfolding check_certificate
  check_certificate_iff b tail m = (λ h. ground arith, λ h. ground arith)

module _ {B : Herumi} {C : ChainCalls} (cfg : Setting B) where
  committed :
      (s t : Bft B C) (m : BftMessage) (b : Block)
      → on_commit_msg cfg s m ≡ done t
      → s.current_block ≡ some b
      → (t ≡ s)
        ⊎ ((check_certificate cfg b [] m ≡ none)
            × (C.commit s.chain
                  (signed_block b (B.serialize (B.deserialize m.sender_sig)) m.sender_pubkey_bitmap)
                ≡ some t.chain))
  unfolding on_commit_msg vote_commit
  committed s t m b e cur = ground arith

  no_block :
      (s t : Bft B C) (m : BftMessage)
      → on_commit_msg cfg s m ≡ done t
      → s.current_block ≡ none
      → t ≡ s
  unfolding on_commit_msg
  no_block s t m e cur = ground arith

  -- A commit message that a validator handles without error either leaves its whole state as it was,
  -- or is a certificate of precommit votes for the current block, and then the block that goes to
  -- the chain is the current block with the certificate's signature and bitmap in its header.
  pub on_commit_msg-Certified :
      (s t : Bft B C) (m : BftMessage)
      → on_commit_msg cfg s m ≡ done t
      → (t ≡ s)
        ⊎ ((b : Block) × (s.current_block ≡ some b)
            × Certified cfg b [] m
            × (C.commit s.chain
                  (signed_block b (B.serialize (B.deserialize m.sender_sig)) m.sender_pubkey_bitmap)
                ≡ some t.chain))
  on_commit_msg-Certified s t m e = elim (Option-cases s.current_block) [
    | inl cur ↦ inl (no_block s t m e cur)
    | inr (b, cur) ↦ elim (committed s t m b e cur) [
      | inl same ↦ inl same
      | inr (ok, written) ↦ inr (b, cur, (check_certificate_iff cfg b [] m).0 ok, written)
    ]
  ]

  -- A commit or precommit message that fails leaves the validator's state as it was.
  pub certificate_refused :
      (s t : Bft B C) (m : BftMessage) (e : Error)
      → (on_commit_msg cfg s m ≡ failed e t) ⊎ (on_precommit_msg cfg s m ≡ failed e t)
      → t ≡ s
  unfolding on_commit_msg on_precommit_msg vote_commit vote_precommit
  certificate_refused s t m e (inl h) = ground arith
  certificate_refused s t m e (inr h) = ground arith

  counted_commit :
      (s t : Bft B C) (voters : Bitmap) (sum : B.Sign) (b : Block)
      → precommit_voted cfg s (counted voters sum) ≡ done t
      → s.current_block ≡ some b
      → (t.chain ≡ s.chain)
        ⊎ ((cfg.consensus_threshold ≤ get_size voters)
            × (C.commit s.chain (signed_block b (B.serialize sum) voters) ≡ some t.chain))
  unfolding precommit_voted commit
  counted_commit s t voters sum b e cur = ground arith

  counted_no_block :
      (s t : Bft B C) (voters : Bitmap) (sum : B.Sign)
      → precommit_voted cfg s (counted voters sum) ≡ done t
      → s.current_block ≡ none
      → t.chain ≡ s.chain
  unfolding precommit_voted commit
  counted_no_block s t voters sum e cur = ground arith

  -- What the leader has, when handling a vote has changed its chain.
  pub record CommitReady (s : Bft B C) (m : BftMessage) (chain : C.Chain) : Type 0 where
    pub block : Block
    pub voters : Bitmap
    pub sum : B.Sign
    pub current : s.current_block ≡ some block
    pub counts :
        Counted cfg s.phase bft_precommit [] block s.precommit_bitmap s.aggregate_precommit_sig m
          voters sum
    pub enough : cfg.consensus_threshold ≤ get_size voters
    pub written : C.commit s.chain (signed_block block (B.serialize sum) voters) ≡ some chain

  voted :
      (s t : Bft B C) (m : BftMessage) (v : Vote B)
      → vote cfg s.phase bft_precommit [] s.current_block s.precommit_bitmap
          s.aggregate_precommit_sig m
        ≡ v
      → precommit_voted cfg s v ≡ done t
      → (t.chain ≡ s.chain) ⊎ CommitReady s m t.chain
  voted s t m (counted voters sum) is e = elim (Option-cases s.current_block) [
    | inl cur ↦ inl (counted_no_block s t voters sum e cur)
    | inr (b, cur) ↦ elim (counted_commit s t voters sum b e cur) [
      | inl same ↦ inl same
      | inr (enough, written) ↦ inr (record {
        block = b;
        voters = voters;
        sum = sum;
        current = cur;
        counts =
            vote-Counted cfg s.phase bft_precommit [] b s.precommit_bitmap s.aggregate_precommit_sig
              m voters sum
              (subst
                (λ o.
                  vote cfg s.phase bft_precommit [] o s.precommit_bitmap s.aggregate_precommit_sig m
                  ≡ counted voters sum)
                cur is);
        enough = enough;
        written = written;
      })
    ]
  ]
  voted s t m stale is e = unfold precommit_voted in inl (ground arith)
  voted s t m (refused x) is e = unfold precommit_voted in absurd (ground arith)
  voted s t m crash is e = unfold precommit_voted in absurd (ground arith)
  voted s t m (known merged) is e = unfold precommit_voted in inl (ground arith)

  -- A precommit vote that the leader handles without error leaves its chain alone, or is counted: it is for the
  -- leader's current block and not for a step that is over, the bitmap of voters was below the threshold,
  -- the node of the first key in its bitmap has signed it, and it brings a key that is new. Then the union of
  -- the bitmaps reaches the threshold, and the block that goes to the chain is the current block, with that
  -- union and the sum of the aggregate and the vote's signature in its header.
  pub on_precommit_vote_msg_ready :
      (s t : Bft B C) (m : BftMessage)
      → on_precommit_vote_msg cfg s m ≡ done t
      → (t.chain ≡ s.chain) ⊎ CommitReady s m t.chain
  unfolding on_precommit_vote_msg
  on_precommit_vote_msg_ready s t m e = voted s t m _ refl e
