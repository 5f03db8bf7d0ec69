-- ===== src/P2p/Gossip.antt =====
-- Mitosis/p2p/node.go: what is published by `GossipAll` of a node that `Launch` has brought up.
use Prim.Native.String.{String}
use text.Mathlib.Text.{◌==◌ as str_eq}
use text.Mathlib.TextEquality.{eq_iff}
use text.Mathlib.TextPositions.{eq_refl}
use mathlib.Core.Option.{bind-eq-some_iff, some-injective}
use mathlib.Core.List.{map-append}
use mitosis.Prelude.{
  ℕ, ◌==◌, true, List, [], ◌∷◌, map, Option, none, some, ◌≡◌, refl, ◌∙◌, subst, inl, inr, arith,
  Bool-cases,
}
use mitosis.Prelude.Texts.{lookup, insert, lookup-insert}
use mitosis.Config.{Topology, has}
use mitosis.P2p.{
  PubSub, Gossiped, waits, panics, publishes, together, Read, ended, spawned, P2pNode, id_to_topic,
  shard_topics, join_all, subscribe_own, launch, publish_to, gossip, shard_ids, gossip_each,
}

-- The handle that Join returns is of the topic that it was asked for.
abbrev pub NamesTopics : PubSub → Type 0
NamesTopics S =
    (topic : String) (host after : S.Host) (handle : S.Topic)
    → S.join topic host ≡ some (handle, after)
    → S.topic_name handle ≡ topic

module _ (S : PubSub) where
  -- The topics of the calls, with the messages.
  abbrev pub named : List (S.Topic × List ℕ) → List (String × List ℕ)
  named [] = []
  named ((topic, msg) ∷ calls) = (S.topic_name topic, msg) ∷ named calls

  abbrev pub sent : Gossiped S.Topic → Option (List (String × List ℕ))
  sent waits = none
  sent panics = none
  sent (publishes calls) = some (named calls)

  abbrev pub Joined : List (String × S.Topic) → String → Type 0
  Joined entries topic =
      (handle : S.Topic) × (lookup topic entries ≡ some handle) × (S.topic_name handle ≡ topic)

  abbrev pub AllJoined : List (String × S.Topic) → List String → Type 0
  AllJoined entries [] = Unit
  AllJoined entries (topic ∷ topics) = Joined entries topic × AllJoined entries topics

  insert-Joined :
      (entries : List (String × S.Topic)) (topic other : String) (handle : S.Topic)
      → S.topic_name handle ≡ topic
      → Joined entries other
      → Joined (insert topic handle entries) other
  insert-Joined entries topic other handle e (h, found, name) =
      elim (Bool-cases (str_eq topic other)) [
        | inl same ↦ (
          handle,
          ground (arith, lookup-insert topic other handle entries, same),
          e ∙ (eq_iff topic other).0 same,
        )
        | inr apart ↦
            (h, ground (arith, lookup-insert topic other handle entries, apart, found), name)
      ]

  inserted :
      (topic : String) (handle : S.Topic) (entries : List (String × S.Topic))
      → lookup topic (insert topic handle entries) ≡ some handle
  inserted topic handle entries = simp (lookup-insert, eq_refl)

  abbrev pub Joins : P2pNode S → P2pNode S → List String → Type 0
  Joins n m topics =
      (m.conf ≡ n.conf)
      × ((topic : String) → Joined n.joined topic → Joined m.joined topic)
      × AllJoined m.joined topics

  pub join_all-Joins :
      (topics : List String) (n m : P2pNode S)
      → NamesTopics S
      → join_all S topics n ≡ some m
      → Joins n m topics
  unfolding join_all
  join_all-Joins [] n m names e =
      subst (λ t. Joins n t []) (some-injective _ _ e) (refl, (λ topic j. j), tt)
  join_all-Joins (topic ∷ topics) n m names e =
      let ((handle, host), joined, rest) = (bind-eq-some_iff (S.join topic n.host) _).0 e in
      let name = names topic n.host host handle joined in
      let (conf, kept, all) = join_all-Joins topics _ m names rest in
      (
        conf,
        λ other j. kept other (insert-Joined n.joined topic other handle name j),
        (kept topic (handle, inserted topic handle n.joined, name), all),
      )

  pub shard_topics-shard_ids :
      (topo : Topology) (rs : List ℕ)
      → shard_topics S topo rs ≡ map (id_to_topic S) (shard_ids S topo rs)
  unfolding shard_topics shard_ids
  shard_topics-shard_ids topo [] = refl
  shard_topics-shard_ids topo (r ∷ rs) = simp (shard_topics-shard_ids topo rs, map-append)

  pub reached :
      (entries : List (String × S.Topic)) (shards : List ℕ) (x : ℕ)
      → AllJoined entries (map (id_to_topic S) shards)
      → has shards x ≡ true
      → Joined entries (id_to_topic S x)
  reached entries [] x all i = absurd (ground (arith, i))
  reached entries (y ∷ ys) x all i = elim (Bool-cases (y == x)) [
    | inl same ↦ subst (λ z. Joined entries (id_to_topic S z)) (ground (arith, same)) all.0
    | inr apart ↦ reached entries ys x all.1 (ground (arith, apart, i))
  ]

  -- What Launch leaves behind: a node that is up, and a handle for each shard of the topology.
  abbrev pub Ready : P2pNode S → P2pNode S → Type 0
  Ready n m =
      (m.up ≡ true)
      × (m.conf ≡ n.conf)
      × ((x : ℕ)
          → has (shard_ids S n.conf.topo n.conf.topo.r_shard_ids) x ≡ true
          → Joined m.joined (id_to_topic S x))

  subscribe_own-Ready :
      (n ready m : P2pNode S)
      → Joins n ready (shard_topics S n.conf.topo n.conf.topo.r_shard_ids)
      → subscribe_own S ready ≡ some m
      → Ready n m
  unfolding subscribe_own
  subscribe_own-Ready n ready m joins e =
      let (topic, own, rest) =
        (bind-eq-some_iff (lookup (id_to_topic S ready.conf.shard_id) ready.joined) _).0 e in
      let (subscribed, made, last) = (bind-eq-some_iff (S.subscribe topic ready.host) _).0 rest in
      subst (Ready n) (some-injective _ _ last) (
        refl,
        joins.0,
        λ x i.
            reached ready.joined _ x
              (subst (AllJoined ready.joined) (shard_topics-shard_ids n.conf.topo _) joins.2) i,
      )

  pub launch-Ready : (n m : P2pNode S) → NamesTopics S → launch S n ≡ some m → Ready n m
  unfolding launch
  launch-Ready n m names e =
      let (host, started, rest) = (bind-eq-some_iff (S.start n.conf.bootnode n.host) _).0 e in
      let (ready, joined, own) =
        (bind-eq-some_iff (join_all S (shard_topics S n.conf.topo n.conf.topo.r_shard_ids) _) _).0
          rest in
      subscribe_own-Ready n ready m (join_all-Joins _ _ ready names joined) own

  -- The calls that goroutines make which find these shards.
  abbrev pub one_each : List ℕ → List ℕ → List (String × List ℕ)
  one_each msg shards = map (λ shard. (id_to_topic S shard, msg)) shards

  pub gossip_each-Joined :
      (m : P2pNode S) (msg : List ℕ) {shards read : List ℕ}
      → m.up ≡ true
      → ((x : ℕ) → has shards x ≡ true → Joined m.joined (id_to_topic S x))
      → Read shards read
      → sent (gossip_each S m msg read) ≡ some (one_each msg read)
  unfolding gossip_each gossip publish_to together
  gossip_each-Joined m msg up there ended = refl
  gossip_each-Joined m msg up there (spawned found own rest) =
      let (handle, at, name) = there found own in
      let later = gossip_each-Joined m msg up (λ x i. there x (ground (arith, i))) rest in
      ground (arith, up, at, name, later)
