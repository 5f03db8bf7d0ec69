-- ===== src/Types/Hashing.antt =====
-- The hashes of Mitosis/types: transaction.go, header.go and derive_sha.go.
use mitosis.Prelude.{ℕ, suc, ◌+◌, ◌≡◌, refl, List, [], ◌∷◌}
use mitosis.Types.Bitmap.{Bitmap}
use mitosis.Types.Data.{Transaction, HeaderForHash, Header, OutboundChunk}
use mitosis.Types.Libraries.{Encoding, Hasher}

-- Go's `copy` of a slice into another: as many elements as both have.
abbrev pub copy_into : List ℕ → List ℕ → List ℕ
copy_into [] source = []
copy_into (d ∷ destination) [] = d ∷ destination
copy_into (d ∷ destination) (x ∷ source) = x ∷ copy_into destination source

module _ (E : Encoding) where
  -- `ComputeHash`. The addresses are copied as arrays, the data into a nil slice.
  unfoldable pub transaction_hash : Transaction → ℕ
  transaction_hash t = E.keccak (
      E.encode_transaction (record {
        from_shard = t.from_shard;
        from_addr = t.from_addr;
        to_shard = t.to_shard;
        to_addr = t.to_addr;
        value = t.value;
        data_bytes = copy_into [] t.data_bytes;
        hash = 0;
      }))

  unfoldable pub new_transaction : ℕ → ℕ → ℕ → ℕ → ℕ → List ℕ → Transaction
  unfolding transaction_hash
  new_transaction from_shard to_shard from_addr to_addr value data_bytes =
      let tx : Transaction = record {
        from_shard = from_shard;
        from_addr = from_addr;
        to_shard = to_shard;
        to_addr = to_addr;
        value = value;
        data_bytes = data_bytes;
        hash = 0;
      } in
      record tx { hash = transaction_hash tx }

  unfoldable pub compute_hash : HeaderForHash → ℕ
  compute_hash h = E.keccak (E.encode_header h)

  unfoldable pub get_hash : Header → ℕ
  unfolding compute_hash
  get_hash h = compute_hash h.hashed

  unfoldable pub new_header : ℕ → ℕ → ℕ → ℕ → ℕ → Bitmap → ℕ → Header
  unfolding compute_hash
  new_header shard_id height prev_block_hash state_root tx_root outbound_bitmap timestamp =
      let fields : HeaderForHash = record {
        shard_id = shard_id;
        prev_block_hash = prev_block_hash;
        height = height;
        outbound_dst_bitmap = outbound_bitmap;
        tx_root = tx_root;
        state_root = state_root;
        timestamp = timestamp;
      } in
      record { hashed = fields; hash = compute_hash fields; sign_bit_map = []; signature = [] }

  module _ (H : Hasher) where
    open H use {Trie, new_trie, reset, update, trie_hash}

    -- `for i := 1; i <= len(txs); i++`: each hash under the encoding of its place.
    unfoldable pub put_txs : ℕ → List Transaction → Trie → Trie
    put_txs i [] t = t
    put_txs i (tx ∷ txs) t = put_txs (suc i) txs (update t (E.encode_uint i) (E.hash_bytes tx.hash))

    unfoldable pub get_chunk_root : List Transaction → Trie → ℕ
    unfolding put_txs
    get_chunk_root txs t = trie_hash (put_txs 1 txs (reset t))

    unfoldable pub root : OutboundChunk → ℕ
    unfolding get_chunk_root
    root c = get_chunk_root c.txs new_trie

    -- `for i := 0; i < len(chunks); i++`: each chunk's root under the encoding of its shard.
    unfoldable pub put_chunks : ℕ → List OutboundChunk → Trie → Trie
    unfolding root
    put_chunks i [] t = t
    put_chunks i (c ∷ chunks) t =
        put_chunks (suc i) chunks (update t (E.encode_uint (i + 1001)) (E.hash_bytes (root c)))

    -- The trie after `GetBlockTxRoot`, which `CreateNewBlock` takes proofs from.
    unfoldable pub block_tx_trie : List OutboundChunk → Trie → Trie
    unfolding put_chunks
    block_tx_trie chunks t = put_chunks 0 chunks (reset t)

    unfoldable pub get_block_tx_root : List OutboundChunk → Trie → ℕ
    unfolding block_tx_trie
    get_block_tx_root chunks t = trie_hash (block_tx_trie chunks t)

-- The hash of a transaction does not cover its data: two that differ in nothing else share it.
transaction_hash_ignores_data :
    (E : Encoding) (from_shard to_shard from_addr to_addr value : ℕ) (payload other : List ℕ)
    → (new_transaction E from_shard to_shard from_addr to_addr value payload).hash
      ≡ (new_transaction E from_shard to_shard from_addr to_addr value other).hash
unfolding new_transaction
transaction_hash_ignores_data E a b c d v payload other = refl

-- A header's recorded hash is the hash that is computed from its fields, and it stays so when the
-- signature and the signers' bitmap are filled in.
pub get_hash-new_header :
    (E : Encoding) (shard height prev state txs : ℕ) (dst : Bitmap) (time : ℕ) (signers : Bitmap)
    (sig : List ℕ)
    → let h = new_header E shard height prev state txs dst time in
      get_hash E (record h { sign_bit_map = signers; signature = sig }) ≡ h.hash
unfolding new_header get_hash
get_hash-new_header E shard height prev state txs dst time signers sig = refl
