-- ===== src/Types/Libraries.antt =====
-- What Mitosis/types calls outside itself, as parameters: go-ethereum's `rlp`, `crypto` and
-- `common.Hash`, and the hasher of derive_sha.go, for which the program passes a trie of
-- Mitosis/trie, its copy of go-ethereum's.
use mitosis.Prelude.{ℕ, List}
use mitosis.Types.Data.{Transaction, HeaderForHash}

-- `common.Hash.Bytes`, `crypto.Keccak256Hash`, and `rlp.EncodeToBytes` at the types that are hashed.
pub record Encoding : Type 0 where
  pub hash_bytes : ℕ → List ℕ
  pub keccak : List ℕ → ℕ
  pub encode_uint : ℕ → List ℕ
  pub encode_transaction : Transaction → List ℕ
  pub encode_header : HeaderForHash → List ℕ

-- `types.Hasher`, with the zero value of the trie that it is called on, and `Trie.Prove`, which
-- puts the nodes of a path into a list.
pub record Hasher : Type 1 where
  pub Trie : Type 0
  pub new_trie : Trie
  pub reset : Trie → Trie
  pub update : Trie → List ℕ → List ℕ → Trie
  pub trie_hash : Trie → ℕ
  pub prove : Trie → List ℕ → List (List ℕ)

-- `trie.VerifyProof` with its error dropped, on the key-value pairs of a memory database, and
-- `common.BytesToHash`.
pub record Verifier : Type 0 where
  pub verify_proof : ℕ → List ℕ → List (ℕ × List ℕ) → List ℕ
  pub bytes_to_hash : List ℕ → ℕ
