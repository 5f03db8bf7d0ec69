-- ===== src/Types/Data.antt =====
-- The records of Mitosis/types: transaction.go, header.go, outboundChunk.go, block.go, bftMsg.go. A
-- hash (32 bytes) and an address (20 bytes) are the numbers that their bytes write; nil and empty
-- slices are one.
use mitosis.Prelude.{ℕ, List}
use mitosis.Types.Bitmap.{Bitmap}
use mitosis.Types.MessageType.{MessageType}

pub record Transaction : Type 0 where
  pub from_shard : ℕ
  pub from_addr : ℕ
  pub to_shard : ℕ
  pub to_addr : ℕ
  pub value : ℕ
  pub data_bytes : List ℕ
  pub hash : ℕ

pub record HeaderForHash : Type 0 where
  pub shard_id : ℕ
  pub prev_block_hash : ℕ
  pub height : ℕ
  pub outbound_dst_bitmap : Bitmap
  pub tx_root : ℕ
  pub state_root : ℕ
  pub timestamp : ℕ

pub record Header : Type 0 where
  pub hashed : HeaderForHash
  pub open hashed use *
  pub hash : ℕ
  pub sign_bit_map : Bitmap
  pub signature : List ℕ

pub record OutboundChunk : Type 0 where
  pub block_hash : ℕ
  pub txs : List Transaction
  pub chunk_proof : List (List ℕ)

pub record Block : Type 0 where
  pub header : Header
  pub open header use *
  pub transactions : List Transaction
  pub inbound_chunks : List OutboundChunk

pub record BftMessage : Type 0 where
  pub message_type : MessageType
  pub block_num : ℕ
  pub block_hash : ℕ
  pub block : Block
  pub sender_sig : List ℕ
  pub sender_pubkey_bitmap : Bitmap

unfoldable pub new_outbound_chunk : ℕ → List Transaction → List (List ℕ) → OutboundChunk
new_outbound_chunk hash txs proof = record { block_hash = hash; txs = txs; chunk_proof = proof }

unfoldable pub new_block : Header → List Transaction → List OutboundChunk → Block
new_block h txs chunks = record { header = h; transactions = txs; inbound_chunks = chunks }

unfoldable pub new_bft_msg : MessageType → Block → List ℕ → Bitmap → BftMessage
new_bft_msg kind block sig bitmap = record {
  message_type = kind;
  block_num = block.height;
  block_hash = block.hash;
  block = block;
  sender_sig = sig;
  sender_pubkey_bitmap = bitmap;
}
