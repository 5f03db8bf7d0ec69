-- ===== src/Bls.antt =====
-- Mitosis/bls: bls.go, and the key store of pubkeydb.go. The curve arithmetic is herumi's library, a
-- parameter. Reading a key pair and the certificates from files is not modelled: what `LoadCert` gives is an
-- argument of `Reset`.
pub mod Aggregate
pub mod Reset
use mitosis.Prelude.{
  ℕ, zero, suc, ◌+◌, Bool, true, false, List, [], ◌∷◌, Option, none, some, u32, sub32, length,
  get_elem?,
}
use mitosis.Config.{Topology, shards_of}
use mitosis.Prelude.Assoc.{lookup, insert}
use mitosis.Types.Bitmap.{Bitmap, get_element}

-- `Deserialize` leaves its receiver in some state, whatever the bytes are; a nil key is `none`.
pub record Herumi : Type 1 where
  pub Sign : Type 0
  pub PublicKey : Type 0
  pub SecretKey : Type 0
  pub sign_byte : SecretKey → List ℕ → Sign
  pub get_public_key : SecretKey → PublicKey
  pub serialize_key : PublicKey → List ℕ
  pub serialize : Sign → List ℕ
  pub deserialize : List ℕ → Sign
  pub add : Sign → Sign → Sign
  pub verify_byte : Sign → Option PublicKey → List ℕ → Bool
  pub no_key : PublicKey
  pub add_key : PublicKey → PublicKey → PublicKey
  pub deserialize_key : List ℕ → Option PublicKey
  pub deserialize_hex : List ℕ → PublicKey

-- What `LoadCert` returns: `none` where the file is missing or is no JSON, else the text for each node, which is
-- empty where the file has none.
abbrev pub Certificates : Type 0
Certificates = Option (ℕ → List ℕ)

module _ (B : Herumi) where
  open B use {
    Sign, PublicKey, SecretKey, sign_byte, serialize, serialize_key, add_key, no_key, verify_byte,
    deserialize, deserialize_key, deserialize_hex,
  }

  -- `Sign` and `SignBytes`, with the secret key of the node's key pair.
  abbrev pub sign : SecretKey → List ℕ → Sign
  sign secret msg = sign_byte secret msg

  abbrev pub sign_bytes : SecretKey → List ℕ → List ℕ
  sign_bytes secret msg = serialize (sign_byte secret msg)

  abbrev pub PubKeyDb : Type 0
  PubKeyDb = List (ℕ × PublicKey)

  abbrev pub PubKeyStore : Type 0
  PubKeyStore = List (ℕ × PubKeyDb)

  abbrev pub new_pub_key_db : PubKeyDb
  new_pub_key_db = []

  abbrev pub db_get_pub_key : ℕ → PubKeyDb → Option PublicKey
  db_get_pub_key node db = lookup node db

  -- `Add`: the new map, and whether the node had no key.
  unfoldable pub db_add : ℕ → List ℕ → PubKeyDb → PubKeyDb × Bool
  db_add node bytes db = elim (deserialize_key bytes) [
    | none ↦ (db, false)
    | some key ↦ (insert node key db, elim (lookup node db) [ none ↦ true | some old ↦ false ])
  ]

  abbrev pub add_known : PublicKey → Option PublicKey → PublicKey
  add_known sum none = sum
  add_known sum (some key) = add_key sum key

  -- A key with no entry is logged and passed over.
  unfoldable pub sum_keys : PubKeyDb → ℕ → List ℕ → PublicKey → PublicKey
  sum_keys db offset [] sum = sum
  sum_keys db offset (k ∷ ks) sum =
      sum_keys db offset ks (add_known sum (lookup (u32 (k + offset)) db))

  unfoldable pub db_aggregate : PubKeyDb → Bitmap → ℕ → PublicKey
  db_aggregate db bitmap offset = sum_keys db offset (get_element bitmap) no_key

  -- The loop of `Reset`, and `Reset`, which returns early without certificates.
  unfoldable pub fill_db : (ℕ → List ℕ) → List ℕ → PubKeyDb → PubKeyDb
  fill_db cert [] db = db
  fill_db cert (node ∷ nodes) db = fill_db cert nodes (insert node (deserialize_hex (cert node)) db)

  unfoldable pub db_reset : Certificates → List ℕ → PubKeyDb → PubKeyDb
  unfolding fill_db
  db_reset none nodes db = db
  db_reset (some cert) nodes db = fill_db cert nodes db

  abbrev pub db_of : ℕ → PubKeyStore → PubKeyDb
  db_of shard store = elim (lookup shard store) [ none ↦ new_pub_key_db | some db ↦ db ]

  unfoldable pub add_pub_key : ℕ → ℕ → List ℕ → PubKeyStore → PubKeyStore × Bool
  unfolding db_add
  add_pub_key shard node bytes store =
      let (db, fresh) = db_add node bytes (db_of shard store) in (insert shard db store, fresh)

  unfoldable pub get_aggregate_pub_key : PubKeyStore → ℕ → Bitmap → ℕ → Option PublicKey
  get_aggregate_pub_key store shard bitmap offset = elim (lookup shard store) [
    | none ↦ none
    | some db ↦ some (db_aggregate db bitmap offset)
  ]

  unfoldable pub get_pub_key : PubKeyStore → ℕ → ℕ → Option PublicKey
  get_pub_key store shard node = elim (lookup shard store) [
    | none ↦ none
    | some db ↦ db_get_pub_key node db
  ]

  -- `Reset` over one order of the map of nodes. The file is read again for each shard.
  unfoldable pub reset_store : (ℕ → Certificates) → List (ℕ × List ℕ) → PubKeyStore → PubKeyStore
  unfolding db_reset
  reset_store load [] store = store
  reset_store load ((shard, nodes) ∷ rest) store =
      reset_store load rest (insert shard (db_reset (load shard) nodes (db_of shard store)) store)

  -- `for shardId := 0; shardId <= len(topo.RShardIds); shardId++`, with the rounds left first.
  unfoldable pub relay_dbs : ℕ → ℕ → PubKeyStore → PubKeyStore
  relay_dbs zero shard store = store
  relay_dbs (suc rounds) shard store =
      relay_dbs rounds (suc shard) (insert (u32 shard) new_pub_key_db store)

  unfoldable pub empty_dbs : List ℕ → PubKeyStore → PubKeyStore
  empty_dbs [] store = store
  empty_dbs (shard ∷ shards) store = empty_dbs shards (insert shard new_pub_key_db store)

  -- The shards of `topo.PShardIds[topo.RShardIds[shardId-1]]`; an index out of range panics.
  abbrev pub shard_dbs : Topology → Option ℕ → PubKeyStore → Option PubKeyStore
  shard_dbs topo none store = none
  shard_dbs topo (some relay) store = some (empty_dbs (shards_of relay topo.p_shard_ids) store)

  abbrev pub partition_next : Topology → ℕ → Option PubKeyStore → Option PubKeyStore
  partition_next topo shard none = none
  partition_next topo shard (some store) =
      shard_dbs topo (get_elem? topo.r_shard_ids (sub32 shard 1)) store

  unfoldable pub partition_dbs : Topology → List ℕ → Option PubKeyStore → Option PubKeyStore
  unfolding empty_dbs
  partition_dbs topo [] store = store
  partition_dbs topo (shard ∷ shards) store =
      partition_dbs topo shards (partition_next topo shard store)

  unfoldable pub new_pub_key_store : Topology → Option PubKeyStore
  unfolding relay_dbs partition_dbs
  new_pub_key_store topo =
      partition_dbs topo topo.r_shard_ids (some (relay_dbs (length topo.r_shard_ids + 1) 0 []))

  -- `BLS`: the secret key of the node's key pair, and the store.
  abbrev pub with_keys :
      SecretKey
      → (ℕ → Certificates)
      → List (ℕ × List ℕ)
      → Option PubKeyStore
      → Option (SecretKey × PubKeyStore)
  with_keys secret load nodes none = none
  with_keys secret load nodes (some store) = some (secret, reset_store load nodes store)

  unfoldable pub new_bls :
      (ℕ → Certificates)
      → SecretKey
      → Topology
      → List (ℕ × List ℕ)
      → Option (SecretKey × PubKeyStore)
  unfolding new_pub_key_store reset_store
  new_bls load secret topo nodes = with_keys secret load nodes (new_pub_key_store topo)

  -- The keys in bytes; a nil key panics.
  unfoldable pub get_pub_key_with_node_id : PubKeyStore → ℕ → ℕ → Option (List ℕ)
  unfolding get_pub_key
  get_pub_key_with_node_id store shard node = elim (get_pub_key store shard node) [
    | none ↦ none
    | some key ↦ some (serialize_key key)
  ]

  unfoldable pub verify_aggregate_sig : PubKeyStore → List ℕ → List ℕ → Bitmap → ℕ → ℕ → Bool
  verify_aggregate_sig store sig msg bitmap shard offset =
      verify_byte (deserialize sig) (get_aggregate_pub_key store shard bitmap offset) msg

  unfoldable pub verify_sign : PubKeyStore → List ℕ → List ℕ → ℕ → ℕ → Bool
  verify_sign store sig msg node shard =
      verify_byte (deserialize sig) (get_pub_key store shard node) msg
