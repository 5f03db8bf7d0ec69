-- ===== src/State/Calls.antt =====
-- What Mitosis/state calls outside itself: the trie of Mitosis/trie behind the interfaces `Database` and
-- `Trie` of database.go, and go-ethereum's `rlp` for an account.
use mitosis.Prelude.{ℕ, ◌^◌, ◌<◌, ◌≡◌, ◌≢◌, ◌==◌, if◌then◌else◌, List, [], ◌∷◌, Option, none, some}

-- `none` is an error. `TryGet` gives no bytes for a missing key. The nodes that `Commit` writes are in
-- the trie's database, which all tries on it share.
pub record TrieCalls : Type 1 where
  pub Trie : Type 0
  pub Nodes : Type 0
  pub open_trie : Nodes → ℕ → Option Trie
  pub try_get : Nodes → Trie → ℕ → Option (List ℕ)
  pub try_update : Nodes → Trie → ℕ → List ℕ → Option Trie
  pub try_delete : Nodes → Trie → ℕ → Option Trie
  pub hash_of : Trie → ℕ
  pub copy_trie : Trie → Trie
  pub commit_trie : Nodes → Trie → Option (Nodes × Trie × ℕ)
  pub encode_account : ℕ → List ℕ
  pub decode_account : List ℕ → Option ℕ

-- What the code relies on. A trie whose nodes are all there is `Whole`: no call of it is an error.
-- `TryUpdate` and `TryDelete` are of one key. A copy of
-- a trie has the same content. `Commit` writes all nodes, so that the trie opens again at
-- the root that it returns, and stays open. An account in RLP is never empty, and its balance is a uint64.
pub record TrieLaws (T : TrieCalls) : Type 1 where
  pub Whole : T.Nodes → T.Trie → Type 0
  pub get_whole : (n : T.Nodes) (t : T.Trie) (k : ℕ) → Whole n t → T.try_get n t k ≢ none
  pub update_whole :
      (n : T.Nodes) (t : T.Trie) (a b : ℕ) (bytes : List ℕ)
      → Whole n t
      → (after : T.Trie) × (T.try_update n t a (b ∷ bytes) ≡ some after)
        × Whole n after
        × ((k : ℕ) → T.try_get n after k ≡ (if a == k then some (b ∷ bytes) else T.try_get n t k))
  pub delete_whole :
      (n : T.Nodes) (t : T.Trie) (a : ℕ)
      → Whole n t
      → (after : T.Trie) × (T.try_delete n t a ≡ some after)
        × Whole n after
        × ((k : ℕ) → T.try_get n after k ≡ (if a == k then some [] else T.try_get n t k))
  pub commit_whole :
      (n : T.Nodes) (t : T.Trie)
      → Whole n t
      → (after : T.Nodes) × (old : T.Trie) × (hash : ℕ) × (again : T.Trie) × (T.commit_trie n t
          ≡ some (after, old, hash))
        × (T.open_trie after hash ≡ some again)
        × Whole after again
        × Whole after old
        × ((k : ℕ) → T.try_get after old k ≡ T.try_get n t k)
        × ((k : ℕ) → T.try_get after again k ≡ T.try_get n t k)
  pub copy_whole :
      (n : T.Nodes) (t : T.Trie)
      → Whole n t
      → Whole n (T.copy_trie t) × ((k : ℕ) → T.try_get n (T.copy_trie t) k ≡ T.try_get n t k)
  pub encode_cons :
      (balance : ℕ) → (b : ℕ) × (bytes : List ℕ) × (T.encode_account balance ≡ b ∷ bytes)
  pub decode-encode :
      (balance : ℕ) → balance < 2 ^ 64 → T.decode_account (T.encode_account balance) ≡ some balance
  pub decode_small :
      (bytes : List ℕ) (balance : ℕ) → T.decode_account bytes ≡ some balance → balance < 2 ^ 64
