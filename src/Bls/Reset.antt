-- ===== src/Bls/Reset.antt =====
-- The keys that a node holds of the others after NewBLS of Mitosis/bls/bls.go.
use mitosis.Prelude.{
  ℕ, zero, suc, ◌==◌, if◌then◌else◌, List, [], ◌∷◌, Option, none, some, ◌≡◌, refl, sym, ◌∙◌, ap,
  subst, ◌+◌, length, u32, sub32, arith, elem, get_elem?, Bool-cases, Option-cases, inl, inr,
}
use mathlib.Core.Option.{some-injective}
use mitosis.Prelude.Assoc.{lookup, insert, lookup-insert}
use mitosis.Config.{Topology, shards_of}
use mitosis.Bls.{
  Herumi, Certificates, PubKeyDb, PubKeyStore, db_of, fill_db, db_reset, reset_store, get_pub_key,
  relay_dbs, empty_dbs, shard_dbs, partition_next, partition_dbs, new_pub_key_store, with_keys,
  new_bls,
}

-- No key of a map comes twice.
abbrev pub Unique : {V : Type 0} → List (ℕ × V) → Type 0
Unique [] = Unit
Unique ((key, value) ∷ rest) = (lookup key rest ≡ none) × Unique rest

module _ (B : Herumi) where
  open B use {deserialize_hex}

  -- The key that certificates which were read give a node that is among those of a shard, or what was there.
  abbrev pub certified :
      Certificates → Option (List ℕ) → ℕ → Option B.PublicKey → Option B.PublicKey
  certified none nodes node old = old
  certified (some cert) none node old = old
  certified (some cert) (some nodes) node old =
      if elem node nodes then some (deserialize_hex (cert node)) else old

  get_pub_key-insert :
      (shard at node : ℕ) (db : PubKeyDb B) (store : PubKeyStore B)
      → get_pub_key B (insert shard db store) at node
        ≡ (if shard == at then lookup node db else get_pub_key B store at node)
  unfolding get_pub_key
  get_pub_key-insert shard at node db store = ground (arith, lookup-insert shard at db store)

  get_pub_key-db_of :
      (store : PubKeyStore B) (shard node : ℕ)
      → lookup node (db_of B shard store) ≡ get_pub_key B store shard node
  unfolding get_pub_key lookup
  get_pub_key-db_of store shard node = elim (Option-cases (lookup shard store)) [
    | inl e ↦ ground (arith, e)
    | inr (db, e) ↦ ground (arith, e)
  ]

  lookup-fill_db :
      (cert : ℕ → List ℕ) (nodes : List ℕ) (db : PubKeyDb B) (node : ℕ)
      → lookup node (fill_db B cert nodes db)
        ≡ certified (some cert) (some nodes) node (lookup node db)
  unfolding fill_db
  lookup-fill_db cert [] db node = refl
  lookup-fill_db cert (first ∷ rest) db node =
      lookup-fill_db cert rest (insert first (deserialize_hex (cert first)) db) node
      ∙ elim (Bool-cases (first == node)) [
        | inl q ↦
            let same : first ≡ node = ground arith in
            let key = ap (λ (n : ℕ). deserialize_hex (cert n)) same in
            rw lookup-insert (ground (arith, q, key))
        | inr q ↦ rw lookup-insert (ground (arith, q))
      ]

  lookup-db_reset :
      (cert : Certificates) (nodes : List ℕ) (db : PubKeyDb B) (node : ℕ)
      → lookup node (db_reset B cert nodes db) ≡ certified cert (some nodes) node (lookup node db)
  unfolding db_reset
  lookup-db_reset none nodes db node = refl
  lookup-db_reset (some cert) nodes db node = lookup-fill_db cert nodes db node

  certified_unlisted :
      (cert : Certificates) (node : ℕ) (old : Option B.PublicKey)
      → certified cert none node old ≡ old
  certified_unlisted none node old = refl
  certified_unlisted (some cert) node old = refl

  get_pub_key-reset_store :
      (load : ℕ → Certificates) (nodes : List (ℕ × List ℕ)) (store : PubKeyStore B) (shard node : ℕ)
      → Unique nodes
      → get_pub_key B (reset_store B load nodes store) shard node
        ≡ certified (load shard) (lookup shard nodes) node (get_pub_key B store shard node)
  unfolding reset_store lookup
  get_pub_key-reset_store load [] store shard node u = sym (certified_unlisted (load shard) node _)
  get_pub_key-reset_store load ((first, ids) ∷ rest) store shard node u =
      let db = db_reset B (load first) ids (db_of B first store) in
      let old = get_pub_key-insert first shard node db store in
      get_pub_key-reset_store load rest (insert first db store) shard node u.1
      ∙ elim (Bool-cases (first == shard)) [
        | inl q ↦
            let same : first ≡ shard = ground arith in
            let none_later : lookup shard rest ≡ none =
              subst (λ k. lookup k rest ≡ none) same u.0 in
            let known : get_pub_key B store first node ≡ get_pub_key B store shard node =
              ap (λ k. get_pub_key B store k node) same in
            let read : load first ≡ load shard = ap load same in
            rw
              (
                none_later, certified_unlisted, q, old, q, lookup-db_reset, get_pub_key-db_of,
                known, read,
              )
              refl
        | inr q ↦ rw (q, old, q) refl
      ]

  -- A store that has no keys.
  abbrev IsEmpty : PubKeyStore B → Type 0
  IsEmpty store = (shard node : ℕ) → get_pub_key B store shard node ≡ none

  IsEmpty-insert :
      (shard : ℕ) (store : PubKeyStore B) → IsEmpty store → IsEmpty (insert shard [] store)
  unfolding lookup
  IsEmpty-insert shard store h at node =
      get_pub_key-insert shard at node [] store ∙ ground (arith, h at node)

  no_keys : IsEmpty []
  unfolding get_pub_key lookup
  no_keys shard node = refl

  relay_dbs-IsEmpty :
      (rounds shard : ℕ) (store : PubKeyStore B)
      → IsEmpty store
      → IsEmpty (relay_dbs B rounds shard store)
  unfolding relay_dbs
  relay_dbs-IsEmpty zero shard store h = h
  relay_dbs-IsEmpty (suc rounds) shard store h =
      relay_dbs-IsEmpty rounds (suc shard) (insert (u32 shard) [] store)
        (IsEmpty-insert (u32 shard) store h)

  empty_dbs-IsEmpty :
      (shards : List ℕ) (store : PubKeyStore B) → IsEmpty store → IsEmpty (empty_dbs B shards store)
  unfolding empty_dbs
  empty_dbs-IsEmpty [] store h = h
  empty_dbs-IsEmpty (shard ∷ shards) store h =
      empty_dbs-IsEmpty shards (insert shard [] store) (IsEmpty-insert shard store h)

  shard_dbs-IsEmpty :
      (topo : Topology) (relay : Option ℕ) (store first : PubKeyStore B)
      → IsEmpty store
      → shard_dbs B topo relay store ≡ some first
      → IsEmpty first
  shard_dbs-IsEmpty topo none store first h e = absurd (ground (arith, e))
  shard_dbs-IsEmpty topo (some relay) store first h e =
      subst IsEmpty (some-injective _ _ e)
        (empty_dbs-IsEmpty (shards_of relay topo.p_shard_ids) store h)

  partition_next-IsEmpty :
      (topo : Topology) (shard : ℕ) (from : Option (PubKeyStore B))
      → ((store : PubKeyStore B) → from ≡ some store → IsEmpty store)
      → (first : PubKeyStore B) → partition_next B topo shard from ≡ some first
      → IsEmpty first
  partition_next-IsEmpty topo shard none h first e = absurd (ground (arith, e))
  partition_next-IsEmpty topo shard (some store) h first e =
      shard_dbs-IsEmpty topo (get_elem? topo.r_shard_ids (sub32 shard 1)) store first (h store refl)
        e

  partition_dbs-IsEmpty :
      (topo : Topology) (shards : List ℕ) (from : Option (PubKeyStore B)) (store : PubKeyStore B)
      → ((first : PubKeyStore B) → from ≡ some first → IsEmpty first)
      → partition_dbs B topo shards from ≡ some store
      → IsEmpty store
  unfolding partition_dbs
  partition_dbs-IsEmpty topo [] from store h e = h store e
  partition_dbs-IsEmpty topo (shard ∷ shards) from store h e =
      partition_dbs-IsEmpty topo shards (partition_next B topo shard from) store
        (partition_next-IsEmpty topo shard from h) e

  -- Where the topology has no index out of range, `NewBLS` gives a store with the key that the certificates name
  -- for each node that the map of nodes lists in a shard for which they could be read, under that shard, and
  -- with no other key: a shard for which they could not be read has none.
  pub get_pub_key-new_bls :
      (load : ℕ → Certificates) (secret : B.SecretKey) (topo : Topology) (nodes : List (ℕ × List ℕ))
      (store : PubKeyStore B)
      → Unique nodes
      → new_pub_key_store B topo ≡ some store
      → (filled : PubKeyStore B) × (new_bls B load secret topo nodes ≡ some (secret, filled))
        × ((shard node : ℕ)
            → get_pub_key B filled shard node
              ≡ certified (load shard) (lookup shard nodes) node none)
  unfolding new_bls
  get_pub_key-new_bls load secret topo nodes store u e = (
    reset_store B load nodes store,
    ap (with_keys B secret load nodes) e,
    λ shard node.
        get_pub_key-reset_store load nodes store shard node u
        ∙ ap (certified (load shard) (lookup shard nodes) node) (
            partition_dbs-IsEmpty topo topo.r_shard_ids _ store
              (λ first f.
                subst IsEmpty (some-injective _ _ f)
                  (relay_dbs-IsEmpty (length topo.r_shard_ids + 1) 0 [] no_keys))
              e shard node),
  )
