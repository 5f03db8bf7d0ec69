-- ===== src/Message.antt =====
-- Mitosis/message/bcmessage.go: the envelope of a message, a topic before the bytes of a payload; and
-- `ProcessMessage` of Mitosis/p2p/basereader.go, which publishes what it reads. The bytes of a payload
-- are RLP, which go-ethereum's `rlp` writes and reads. The cached bytes and the hash that serves as an
-- id are left out.
pub mod Envelope
use mitosis.Prelude.{
  ℕ, ◌==◌, if◌then◌else◌, Bool, true, false, ◌||◌, List, [], ◌∷◌, ◌++◌, Option, none, some, ◌≡◌,
  refl, ap, ◌∙◌,
}
use mitosis.Types.Data.{Header, OutboundChunk, Block, BftMessage}
use mitosis.Topics.{
  Topic, block_gossip, consensus_leader, consensus_validator, outbound_chunk_gossip, header_gossip,
  to_buffer, prepend, extract,
}
use mitosis.EventBus.{EventBus, World, publish}

-- `rlp.EncodeToBytes` and `rlp.DecodeBytes` at the types of payloads.
pub record Codec : Type 0 where
  pub encode_block : Block → List ℕ
  pub decode_block : List ℕ → Option Block
  pub encode_bft : BftMessage → List ℕ
  pub decode_bft : List ℕ → Option BftMessage
  pub encode_chunk : OutboundChunk → List ℕ
  pub decode_chunk : List ℕ → Option OutboundChunk
  pub encode_header : Header → List ℕ
  pub decode_header : List ℕ → Option Header

-- `payload.Safe`, the types that go through messages; `empty` is nil.
pub data Payload : Type 0 where
  empty : Payload
  of_block : Block → Payload
  of_bft : BftMessage → Payload
  of_chunk : OutboundChunk → Payload
  of_header : Header → Payload

pub record BlockchainMessage : Type 0 where
  pub topic : Topic
  pub content : Payload

abbrev pub new_blockchain_message : Topic → Payload → BlockchainMessage
new_blockchain_message t p = record { topic = t; content = p }

-- Whether a payload is of the type that its topic goes with.
unfoldable pub fits : Topic → Payload → Bool
fits t empty = false
fits t (of_block b) = t == block_gossip
fits t (of_bft m) = t == consensus_leader || t == consensus_validator
fits t (of_chunk c) = t == outbound_chunk_gossip
fits t (of_header h) = t == header_gossip

module _ (R : Codec) where
  -- `MarshalBinary`; a topic that is out of range may panic.
  unfoldable pub marshal_payload : Topic → Payload → Option (List ℕ)
  unfolding to_buffer prepend
  marshal_payload t empty = to_buffer t
  marshal_payload t (of_block b) = prepend (R.encode_block b) t
  marshal_payload t (of_bft m) = prepend (R.encode_bft m) t
  marshal_payload t (of_chunk c) = prepend (R.encode_chunk c) t
  marshal_payload t (of_header h) = prepend (R.encode_header h) t

  unfoldable pub marshal_binary : BlockchainMessage → Option (List ℕ)
  unfolding marshal_payload
  marshal_binary m = marshal_payload m.topic m.content

  abbrev read_as : {A : Type 0} → Topic → (A → Payload) → Option A → Option BlockchainMessage
  read_as t wrap none = none
  read_as t wrap (some a) = some (new_blockchain_message t (wrap a))

  -- The `switch` on the topic.
  unfoldable pub read_payload : Topic → List ℕ → Option BlockchainMessage
  read_payload t bytes =
      if t == block_gossip
      then read_as t of_block (R.decode_block bytes)
      else if t == consensus_leader
      then read_as t of_bft (R.decode_bft bytes)
      else if t == consensus_validator
      then read_as t of_bft (R.decode_bft bytes)
      else if t == outbound_chunk_gossip
      then read_as t of_chunk (R.decode_chunk bytes)
      else if t == header_gossip
      then read_as t of_header (R.decode_header bytes)
      else some (new_blockchain_message t empty)

  abbrev read_extracted : Option (Topic × List ℕ) → Option BlockchainMessage
  read_extracted none = none
  read_extracted (some (t, bytes)) = read_payload t bytes

  -- `UnmarshalBinary`; `none` is an error.
  unfoldable pub unmarshal_binary : List ℕ → Option BlockchainMessage
  unfolding read_payload extract
  unmarshal_binary bytes = read_extracted (extract bytes)

  abbrev publish_read :
      EventBus → World BlockchainMessage → Option BlockchainMessage → World BlockchainMessage × Bool
  publish_read bus w none = (w, false)
  publish_read bus w (some m) = ((publish bus m.topic m w).0, true)

  -- Whether the error is nil.
  unfoldable pub process_message :
      EventBus → List ℕ → World BlockchainMessage → World BlockchainMessage × Bool
  unfolding unmarshal_binary publish
  process_message bus bytes w = publish_read bus w (unmarshal_binary bytes)

-- RLP reads what it wrote of a payload.
abbrev pub ReadsBack : Codec → Payload → Type 0
ReadsBack R empty = ◌≡◌ {A = List ℕ} [] []
ReadsBack R (of_block b) = R.decode_block (R.encode_block b) ≡ some b
ReadsBack R (of_bft m) = R.decode_bft (R.encode_bft m) ≡ some m
ReadsBack R (of_chunk c) = R.decode_chunk (R.encode_chunk c) ≡ some c
ReadsBack R (of_header h) = R.decode_header (R.encode_header h) ≡ some h
