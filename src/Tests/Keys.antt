-- ===== src/Tests/Keys.antt =====
-- The key store of a node of the toy topology.
use mitosis.Prelude.{ℕ, ◌==◌, if◌then◌else◌, true, [], ◌∷◌, some, none, ◌≡◌, refl}
use mitosis.Prelude.Assoc.{lookup, insert}
use mitosis.Bls.{
  Certificates, PubKeyStore, get_pub_key, relay_dbs, empty_dbs, partition_dbs, new_pub_key_store,
  new_bls,
}
use mitosis.Bls.Reset.{Unique, certified, get_pub_key-new_bls}
use mitosis.Tests.Toy.{toy_bls, toy_topo, toy_config}

-- The file is there for all shards but 1002.
abbrev certificates : ℕ → Certificates
certificates shard = if shard == 1002 then none else some (λ node. node ∷ [])

abbrev store : PubKeyStore toy_bls
store = (0, []) ∷ (1, []) ∷ (1001, []) ∷ (1002, []) ∷ []

store_lem : new_pub_key_store toy_bls toy_topo ≡ some store
unfolding new_pub_key_store relay_dbs partition_dbs empty_dbs insert lookup
store_lem = refl

nodes-Unique : Unique (toy_config 5 true).nodes
unfolding lookup
nodes-Unique = (refl, (refl, (refl, tt)))

get_pub_key-new_bls_example :
    (filled : PubKeyStore toy_bls) × (new_bls toy_bls certificates 1 toy_topo
        (toy_config 5 true).nodes
      ≡ some (1, filled))
    × ((shard node : ℕ)
        → get_pub_key toy_bls filled shard node
          ≡ certified toy_bls
              (certificates shard)
              (lookup shard (toy_config 5 true).nodes)
              node
              none)
get_pub_key-new_bls_example =
    get_pub_key-new_bls toy_bls certificates 1 toy_topo (toy_config 5 true).nodes store nodes-Unique
      store_lem
