-- ===== src/Consensus/Protocol.antt =====
-- Mitosis/consensus/protocol.go: the state of a node's consensus, what its handlers return, and the keys
-- of a shard's nodes.
use mitosis.Prelude.{ℕ, ◌+◌, ◌*◌, Bool, List, [], ◌∷◌, Option, none, some, u32, sub32}
use mitosis.Config.{Config}
use mitosis.Bls.{Herumi, PubKeyStore}
use mitosis.Topics.{Topic}
use mitosis.Types.Bitmap.{Bitmap, new_bitmap, set_key}
use mitosis.Types.Data.{Block, BftMessage}
use mitosis.Consensus.Phase.{Phase, bft_init}

-- What the handlers call of `core.Blockchain`. `none` is a panic, or a wait that does not end;
-- `CheckBlock` says whether its error is nil.
pub record ChainCalls : Type 1 where
  pub Chain : Type 0
  pub latest_block : Chain → Option Block
  pub create_new_block : Chain → Option (Chain × Block)
  pub check_block : Chain → Block → Option (Chain × Bool)
  pub commit : Chain → Block → Option Chain

-- One start of `TryGossip`: the phase of the sender then, the message, and the topic.
pub record Gossip : Type 0 where
  pub at_phase : Phase
  pub message : BftMessage
  pub topic : Topic

pub data Error : Type 0 where
  no_current_block differs_from_current bad_block skip_genesis skip_blocks fork : Error
  wrong_signature : List ℕ → Error
  not_enough_signatures : ℕ → Error

-- `common.Hash.Bytes`, the node's configuration, the keys of all nodes, and its own secret key.
pub record Setting (B : Herumi) : Type 0 where
  pub hash_bytes : ℕ → List ℕ
  pub config : Config
  pub open config use *
  pub store : PubKeyStore B
  pub secret : B.SecretKey

-- A nil pointer is `none`. `sent` holds what was gossiped, the latest first.
pub record Bft (B : Herumi) (C : ChainCalls) : Type 0 where
  pub chain : C.Chain
  pub phase : Phase
  pub latest_committed_block_hash : ℕ
  pub current_block : Option Block
  pub aggregate_prepare_sig : Option B.Sign
  pub aggregate_precommit_sig : Option B.Sign
  pub aggregate_commit_sig : Option B.Sign
  pub prepare_bitmap : Option Bitmap
  pub precommit_bitmap : Option Bitmap
  pub commit_bitmap : Option Bitmap
  pub sent : List Gossip

-- A handler returns nil, or an error, or panics.
pub data Outcome {ℓ} (S : Type ℓ) : Type ℓ where
  done : S → Outcome S
  failed : Error → S → Outcome S
  panic : Outcome S

-- A dereference, or a call that may panic.
abbrev pub or_panic {ℓ κ} : {A : Type ℓ} {S : Type κ} → Option A → (A → Outcome S) → Outcome S
or_panic none k = panic
or_panic (some a) k = k a

-- `if err != nil { return err }`, where `none` is nil.
abbrev pub or_fail {ℓ} : {S : Type ℓ} → Option Error → S → Outcome S → Outcome S
or_fail none s k = k
or_fail (some e) s k = failed e s

-- The state that a handler leaves; after a panic there is none, and it counts as the old one.
abbrev pub after {ℓ} : {S : Type ℓ} → S → Outcome S → S
after s (done t) = t
after s (failed e t) = t
after s panic = s

unfoldable pub new_bft : (B : Herumi) (C : ChainCalls) → C.Chain → Bft B C
new_bft B C chain = record {
  chain = chain;
  phase = record { height = 0; bft_phase = bft_init };
  latest_committed_block_hash = 0;
  current_block = none;
  aggregate_prepare_sig = none;
  aggregate_precommit_sig = none;
  aggregate_commit_sig = none;
  prepare_bitmap = none;
  precommit_bitmap = none;
  commit_bitmap = none;
  sent = [];
}

-- `(RShardNum + ShardId - 1001) * NodeNumPerShard`, in uint32.
unfoldable pub shard_start : Config → ℕ
shard_start c = u32 (sub32 (u32 (c.r_shard_num + c.shard_id)) 1001 * c.node_num_per_shard)

unfoldable pub node_id_to_key : Config → ℕ
unfolding shard_start
node_id_to_key c = sub32 (sub32 c.node_id (shard_start c)) 1

unfoldable pub key_to_node_id : Config → ℕ → ℕ
unfolding shard_start
key_to_node_id c key = u32 (u32 (key + shard_start c) + 1)

unfoldable pub get_key_offset : Config → ℕ
unfolding shard_start
get_key_offset c = u32 (shard_start c + 1)

-- `NewBitmap(NodeNumPerShard)` with the node's own key set.
unfoldable pub own_bitmap : Config → Option Bitmap
own_bitmap c = set_key (new_bitmap c.node_num_per_shard) (node_id_to_key c)

module _ {B : Herumi} {C : ChainCalls} where
  -- `go bft.TryGossip(...)`.
  abbrev pub gossip : BftMessage → Topic → Bft B C → Bft B C
  gossip m topic s = record s {
    sent = record { at_phase = s.phase; message = m; topic = topic } ∷ s.sent;
  }

  -- `Start`, before the first `Prepare` of a leader.
  unfoldable pub start : Bft B C → Bft B C
  start s = elim (C.latest_block s.chain) [
    | none ↦ s
    | some b ↦ record s { current_block = some b; latest_committed_block_hash = b.hash }
  ]
