-- ===== src/Consensus/Honest/States.antt =====
-- The states of an honest leader of Mitosis/consensus/leader.go while it collects the votes for a block, and
-- the messages that it sends.
use mitosis.Prelude.{ℕ, ◌<◌, ◌≡◌, ap, sym, List, [], ◌∷◌, ◌++◌, Option, some, arith, append-nil}
use mitosis.Topics
use mitosis.Types.MessageType
use mitosis.Types.MessageType.{MessageType}
use mitosis.Types.Bitmap.{Bitmap}
use mitosis.Types.Bitmap.Members.{Holds, own-Holds}
use mitosis.Types.Data.{Block, BftMessage}
use mitosis.Bls.{Herumi}
use mitosis.Bls.Aggregate.{BlsLaws}
use mitosis.Consensus.Phase.{Phase, Before, switch, is_out, bft_prepare, bft_precommit, bft_commit}
use mitosis.Consensus.Votes.{at_height, vote, stale}
use mitosis.Consensus.Leader.{signed_block}
use mitosis.Consensus.Protocol.{ChainCalls, Setting, Bft, Gossip, own_bitmap}
use mitosis.Consensus.Honest.{Shard, IsShard, IsNode, IsSigned, signed_by, signed_by_one}

pub switch_new :
    (p : Phase) (h step : ℕ) → Before p (at_height h step) → switch p h step ≡ at_height h step
unfolding switch
switch_new p h step lt = ground arith

-- A vote for a step that the leader has left is stale.
pub stale_lem :
    {B : Herumi} (cfg : Setting B) (b : Block) (height step later : ℕ) (tail : List ℕ)
    (v : Option Bitmap) (σ : Option B.Sign) (m : BftMessage)
    → m.block_num ≡ height
    → step < later
    → vote cfg (at_height height later) step tail (some b) v σ m ≡ stale
unfolding vote is_out
stale_lem cfg b height step later tail v σ m e lt = ground arith

-- Whatever certificate the block gets, the chain takes it and then has a latest block.
abbrev pub Writes : (C : ChainCalls) → C.Chain → Block → Type 0
Writes C c b =
    (signature : List ℕ) (voters : Bitmap)
    → (c' : C.Chain) × (latest : Block) × (C.commit c (signed_block b signature voters) ≡ some c')
      × (C.latest_block c' ≡ some latest)

module _ {B : Herumi} {C : ChainCalls} where
  -- What was gossiped last.
  pub record Announced (topic : Topics.Topic) (m : BftMessage) (s : Bft B C) : Type 0 where
    pub phase : Phase
    pub earlier : List Gossip
    pub newest : s.sent ≡ record { at_phase = phase; message = m; topic = topic } ∷ earlier

module _ {B : Herumi} (L : BlsLaws B) (S : Shard B) where
  -- A message of a given type about a block that carries the signatures of some nodes.
  pub record Carries (kind : MessageType) (b : Block) (tail ks : List ℕ) (m : BftMessage)
      : Type 0 where
    pub kind_of : m.message_type ≡ kind
    pub about : m.block ≡ b
    pub signed : IsSigned L S b tail ks m

  -- The vote of a node in the step of the given type.
  pub record IsVote (kind : MessageType) (b : Block) (tail : List ℕ) (j : ℕ) (m : BftMessage)
      : Type 0 where
    pub kind_of : m.message_type ≡ kind
    pub signed : IsSigned L S b tail (j ∷ []) m

  pub own_bitmap-Holds :
      (shard : IsShard L S) {l : ℕ} {cfg : Setting B}
      → IsNode L S l cfg
      → (o : Bitmap) × (own_bitmap cfg.config ≡ some o) × Holds S.size (l ∷ []) o
  unfolding own_bitmap
  own_bitmap-Holds shard {l} {cfg} node =
      rw (node.place, node.count) (own-Holds S.size shard.small l node.below)

  -- The leader's own signature of the hash.
  pub own_signature :
      {l : ℕ} {cfg : Setting B}
      → IsNode L S l cfg
      → (b : Block)
      → some (B.sign_byte cfg.secret (cfg.hash_bytes b.hash))
        ≡ some (signed_by L S (l ∷ []) (S.text b.hash ++ []))
  own_signature {l} node b =
      rw (node.own, node.texts b.hash, append-nil (S.text b.hash))
        (ap some (sym (signed_by_one L S l (S.text b.hash))))

  module _ (C : ChainCalls) where
    -- The leader collects prepare votes for the block and has those of `ks`.
    pub record AwaitsPrepare (c : C.Chain) (b : Block) (ks : List ℕ) (s : Bft B C) : Type 0 where
      pub phase : s.phase ≡ at_height b.height bft_prepare
      pub chain : s.chain ≡ c
      pub current : s.current_block ≡ some b
      pub voters : Bitmap
      pub bitmap : s.prepare_bitmap ≡ some voters
      pub held : Holds S.size ks voters
      pub sum :
          s.aggregate_prepare_sig
          ≡ some (signed_by L S ks (S.text b.hash ++ (MessageType.prepare ∷ [])))

    -- The leader collects precommit votes for the block and has those of `ks`.
    pub record AwaitsPrecommit (c : C.Chain) (b : Block) (ks : List ℕ) (s : Bft B C) : Type 0 where
      pub phase : s.phase ≡ at_height b.height bft_precommit
      pub chain : s.chain ≡ c
      pub current : s.current_block ≡ some b
      pub voters : Bitmap
      pub bitmap : s.precommit_bitmap ≡ some voters
      pub held : Holds S.size ks voters
      pub sum : s.aggregate_precommit_sig ≡ some (signed_by L S ks (S.text b.hash ++ []))

    -- The votes of `ks` have ended the prepare step: their certificate is sent.
    pub record Prepared (l : ℕ) (c : C.Chain) (b : Block) (ks : List ℕ) (s : Bft B C) : Type 0 where
      pub awaits : AwaitsPrecommit c b (l ∷ []) s
      pub message : BftMessage
      pub carries : Carries MessageType.precommit b (MessageType.prepare ∷ []) ks message
      pub sent : Announced Topics.consensus_validator message s

    -- The votes of `ks` have ended the precommit step: their certificate is sent, and the block with
    -- it is on the chain.
    pub record Committed (c : C.Chain) (b : Block) (ks : List ℕ) (s : Bft B C) : Type 0 where
      pub phase : s.phase ≡ at_height b.height bft_commit
      pub block : Block
      pub current : s.current_block ≡ some block
      pub message : BftMessage
      pub carries : Carries MessageType.commit b [] ks message
      pub sent : Announced Topics.consensus_validator message s
      pub written :
          C.commit c (signed_block b message.sender_sig message.sender_pubkey_bitmap) ≡ some s.chain
