-- ===== src/Types/Copies.antt =====
-- The `Copy` methods of Mitosis/types, field by field.
use mitosis.Prelude.{ℕ, ◌≡◌, refl, ap, List, [], ◌∷◌}
use mitosis.Types.Bitmap.{Bitmap, copy}
use mitosis.Types.Data.{Transaction, Header, OutboundChunk, Block, BftMessage}

-- `make` and `copy` of a slice of bytes.
abbrev pub copy_bytes : List ℕ → List ℕ
copy_bytes [] = []
copy_bytes (x ∷ xs) = x ∷ copy_bytes xs

unfoldable pub copy_transaction : Transaction → Transaction
copy_transaction t = record {
  from_shard = t.from_shard;
  from_addr = t.from_addr;
  to_shard = t.to_shard;
  to_addr = t.to_addr;
  value = t.value;
  data_bytes = copy_bytes t.data_bytes;
  hash = t.hash;
}

-- The literal names no `SignBitMap`, which is nil in the copy.
unfoldable pub copy_header : Header → Header
unfolding copy
copy_header h = record {
  hashed = record {
    shard_id = h.shard_id;
    prev_block_hash = h.prev_block_hash;
    height = h.height;
    outbound_dst_bitmap = copy h.outbound_dst_bitmap;
    tx_root = h.tx_root;
    state_root = h.state_root;
    timestamp = h.timestamp;
  };
  hash = h.hash;
  sign_bit_map = [];
  signature = copy_bytes h.signature;
}

unfoldable pub copy_transactions : List Transaction → List Transaction
unfolding copy_transaction
copy_transactions [] = []
copy_transactions (t ∷ ts) = copy_transaction t ∷ copy_transactions ts

abbrev copy_proof : List (List ℕ) → List (List ℕ)
copy_proof [] = []
copy_proof (p ∷ ps) = copy_bytes p ∷ copy_proof ps

unfoldable pub copy_chunk : OutboundChunk → OutboundChunk
unfolding copy_transactions
copy_chunk c = record {
  block_hash = c.block_hash;
  txs = copy_transactions c.txs;
  chunk_proof = copy_proof c.chunk_proof;
}

unfoldable pub copy_chunks : List OutboundChunk → List OutboundChunk
unfolding copy_chunk
copy_chunks [] = []
copy_chunks (c ∷ cs) = copy_chunk c ∷ copy_chunks cs

unfoldable pub copy_block : Block → Block
unfolding copy_header copy_transactions copy_chunks
copy_block b = record {
  header = copy_header b.header;
  transactions = copy_transactions b.transactions;
  inbound_chunks = copy_chunks b.inbound_chunks;
}

unfoldable pub copy_message : BftMessage → BftMessage
unfolding copy_block
copy_message m = record {
  message_type = m.message_type;
  block_num = m.block_num;
  block_hash = m.block_hash;
  block = copy_block m.block;
  sender_sig = copy_bytes m.sender_sig;
  sender_pubkey_bitmap = copy_bytes m.sender_pubkey_bitmap;
}

copy_bytes_lem : (xs : List ℕ) → copy_bytes xs ≡ xs
copy_bytes_lem [] = refl
copy_bytes_lem (x ∷ xs) = ap (◌∷◌ x) (copy_bytes_lem xs)

copy_bitmap_lem : (b : Bitmap) → copy b ≡ b
unfolding copy
copy_bitmap_lem [] = refl
copy_bitmap_lem (x ∷ xs) = ap (◌∷◌ x) (copy_bitmap_lem xs)

copy_proof_lem : (ps : List (List ℕ)) → copy_proof ps ≡ ps
copy_proof_lem [] = refl
copy_proof_lem (p ∷ ps) = λ i. copy_bytes_lem p i ∷ copy_proof_lem ps i

copy_transaction_lem : (t : Transaction) → copy_transaction t ≡ t
unfolding copy_transaction
copy_transaction_lem t = λ i. record t { data_bytes = copy_bytes_lem t.data_bytes i }

copy_transactions_lem : (ts : List Transaction) → copy_transactions ts ≡ ts
unfolding copy_transactions
copy_transactions_lem [] = refl
copy_transactions_lem (t ∷ ts) = λ i. copy_transaction_lem t i ∷ copy_transactions_lem ts i

-- The copy of a chunk is the chunk.
pub copy_chunk_lem : (c : OutboundChunk) → copy_chunk c ≡ c
unfolding copy_chunk
copy_chunk_lem c = λ i. record {
  block_hash = c.block_hash;
  txs = copy_transactions_lem c.txs i;
  chunk_proof = copy_proof_lem c.chunk_proof i;
}

copy_chunks_lem : (cs : List OutboundChunk) → copy_chunks cs ≡ cs
unfolding copy_chunks
copy_chunks_lem [] = refl
copy_chunks_lem (c ∷ cs) = λ i. copy_chunk_lem c i ∷ copy_chunks_lem cs i

pub copy_header_lem : (h : Header) → copy_header h ≡ record h { sign_bit_map = [] }
unfolding copy_header
copy_header_lem h = λ i. record {
  hashed = record h.hashed { outbound_dst_bitmap = copy_bitmap_lem h.outbound_dst_bitmap i };
  hash = h.hash;
  sign_bit_map = [];
  signature = copy_bytes_lem h.signature i;
}

-- The copy of a consensus message keeps every field of it, its block's transactions and chunks
-- among them, except one: the block's header comes back with an empty `SignBitMap`.
pub copy_message_lem :
    (m : BftMessage)
    → copy_message m
      ≡ record m { block = record m.block { header = record m.block.header { sign_bit_map = [] } } }
unfolding copy_message copy_block
copy_message_lem m = λ i. record {
  message_type = m.message_type;
  block_num = m.block_num;
  block_hash = m.block_hash;
  block = record {
    header = copy_header_lem m.block.header i;
    transactions = copy_transactions_lem m.block.transactions i;
    inbound_chunks = copy_chunks_lem m.block.inbound_chunks i;
  };
  sender_sig = copy_bytes_lem m.sender_sig i;
  sender_pubkey_bitmap = copy_bytes_lem m.sender_pubkey_bitmap i;
}
