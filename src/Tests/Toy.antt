-- ===== src/Tests/Toy.antt =====
-- Concrete libraries and a concrete node for the tests: signatures are numbers that add up, a hash is
-- a sum, and a proof is the root itself.
use mitosis.Prelude.{ℕ, ◌+◌, ◌*◌, ◌==◌, Bool, true, false, List, [], ◌∷◌, Option, none, some, sum}
use mitosis.Config.{Topology, Config}
use mitosis.Bls.{Herumi, PubKeyStore}
use mitosis.Types.Data.{Transaction, Header, OutboundChunk, Block, BftMessage}
use mitosis.Types.Libraries.{Encoding, Hasher, Verifier}
use mitosis.Consensus.Protocol.{ChainCalls, Setting, Bft}

abbrev pub first_or : ℕ → List ℕ → ℕ
first_or d [] = d
first_or d (x ∷ xs) = x

abbrev pub toy_verify : ℕ → Option ℕ → List ℕ → Bool
toy_verify s none msg = false
toy_verify s (some k) msg = s == k * (sum msg + 1)

abbrev pub toy_key : List ℕ → Option ℕ
toy_key [] = none
toy_key (x ∷ xs) = some x

abbrev pub toy_bls : Herumi
toy_bls = record {
  Sign = ℕ;
  PublicKey = ℕ;
  SecretKey = ℕ;
  sign_byte = λ s msg. s * (sum msg + 1);
  get_public_key = λ s. s;
  serialize_key = λ k. k ∷ [];
  serialize = λ s. s ∷ [];
  deserialize = first_or 0;
  add = λ a b. a + b;
  verify_byte = toy_verify;
  no_key = 0;
  add_key = λ a b. a + b;
  deserialize_key = toy_key;
  deserialize_hex = first_or 1;
}

abbrev pub toy_encoding : Encoding
toy_encoding = record {
  hash_bytes = λ h. h ∷ [];
  keccak = sum;
  encode_uint = λ n. n ∷ [];
  encode_transaction = λ t. t.from_shard ∷ t.to_shard ∷ t.value ∷ [];
  encode_header = λ h. h.shard_id ∷ h.height ∷ h.tx_root ∷ [];
}

-- The trie is the sum of what is put into it.
abbrev pub toy_hasher : Hasher
toy_hasher = record {
  Trie = ℕ;
  new_trie = 0;
  reset = λ t. 0;
  update = λ t k v. t + sum k + sum v;
  trie_hash = λ t. t;
  prove = λ t k. (t ∷ []) ∷ [];
}

-- A proof gives the root that it is checked against.
abbrev pub toy_verifier : Verifier
toy_verifier = record { verify_proof = λ r k db. r ∷ []; bytes_to_hash = first_or 0 }

-- One relay shard, two partition shards, four nodes each.
abbrev pub toy_topo : Topology
toy_topo = record { r_shard_ids = 1 ∷ []; p_shard_ids = (1, 1001 ∷ 1002 ∷ []) ∷ [] }

-- The node with the given id of shard 1001.
abbrev pub toy_config : ℕ → Bool → Config
toy_config node leader = record {
  version = "Mitosis-Shard-1";
  topo = toy_topo;
  nodes = (1, 1 ∷ 2 ∷ 3 ∷ 4 ∷ []) ∷ (1001, 5 ∷ 6 ∷ 7 ∷ 8 ∷ []) ∷ (1002, 9 ∷ 10 ∷ 11 ∷ 12 ∷ []) ∷ [];
  node_num_per_shard = 4;
  node_id = node;
  shard_id = 1001;
  r_shard_id = 1;
  is_leader = leader;
  r_shard_num = 1;
  p_shard_num = 2;
  consensus_threshold = 3;
  accounts = 100 ∷ 200 ∷ [];
  bootnode = "";
}

abbrev pub toy_store : PubKeyStore toy_bls
toy_store = (1001, (5, 1) ∷ (6, 1) ∷ (7, 1) ∷ (8, 1) ∷ []) ∷ []

abbrev pub toy_setting : ℕ → Bool → Setting toy_bls
toy_setting node leader = record {
  hash_bytes = λ h. h ∷ [];
  config = toy_config node leader;
  store = toy_store;
  secret = 1;
}

-- A header of the given shard, height, root and hash that the first three nodes have signed.
abbrev pub toy_header : ℕ → ℕ → ℕ → ℕ → Header
toy_header shard height root hash = record {
  hashed = record {
    shard_id = shard;
    prev_block_hash = 0;
    height = height;
    outbound_dst_bitmap = 0 ∷ [];
    tx_root = root;
    state_root = 0;
    timestamp = 0;
  };
  hash = hash;
  sign_bit_map = 7 ∷ [];
  signature = [];
}

abbrev pub toy_block : ℕ → ℕ → Block
toy_block height hash = record {
  header = toy_header 1001 height 0 hash;
  transactions = [];
  inbound_chunks = [];
}

abbrev pub latest : List Block → Option Block
latest [] = none
latest (b ∷ bs) = some b

-- The chain is the list of its blocks, the latest first.
abbrev pub toy_chain : ChainCalls
toy_chain = record {
  Chain = List Block;
  latest_block = latest;
  create_new_block = λ c. some (c, toy_block 1 7);
  check_block = λ c b. some (c, true);
  commit = λ c b. some (b ∷ c);
}

abbrev pub toy_message : ℕ → Block → ℕ → ℕ → BftMessage
toy_message kind block sig keys = record {
  message_type = kind;
  block_num = block.height;
  block_hash = block.hash;
  block = block;
  sender_sig = sig ∷ [];
  sender_pubkey_bitmap = keys ∷ [];
}

-- A node in the given step of height 1, with block 7 and one vote, its own.
abbrev pub toy_bft : ℕ → Bft toy_bls toy_chain
toy_bft step = record {
  chain = [];
  phase = record { height = 1; bft_phase = step };
  latest_committed_block_hash = 0;
  current_block = some (toy_block 1 7);
  aggregate_prepare_sig = some 8;
  aggregate_precommit_sig = some 8;
  aggregate_commit_sig = some 8;
  prepare_bitmap = some (8 ∷ []);
  precommit_bitmap = some (8 ∷ []);
  commit_bitmap = some (8 ∷ []);
  sent = [];
}

abbrev pub toy_tx : ℕ → ℕ → ℕ → Transaction
toy_tx from to value = record {
  from_shard = from;
  from_addr = 100;
  to_shard = to;
  to_addr = 200;
  value = value;
  data_bytes = [];
  hash = value;
}

abbrev pub toy_chunk : ℕ → ℕ → OutboundChunk
toy_chunk from hash = record {
  block_hash = hash;
  txs = toy_tx from 1001 5 ∷ [];
  chunk_proof = (6 ∷ []) ∷ [];
}
