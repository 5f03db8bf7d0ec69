-- ===== src/P2p/Launch.antt =====
-- Mitosis/p2p/node.go: `Launch` brings a node up whose topology has no shard twice and has the node's own, and
-- what `GossipAll` publishes then.
use Prim.Native.String.{String, ◌++◌ as str_append, slice}
use text.Mathlib.Text.{◌==◌ as str_eq}
use text.Mathlib.TextEquality.{eq_iff}
use text.Mathlib.TextLemmas.{append_cancel_left}
use text.Mathlib.TextPositions.{slice-append_left}
use mathlib.Core.Option.{bind-eq-some_iff}
use mitosis.Prelude.{
  ℕ, ◌==◌, leb, Bool, true, false, List, [], ◌∷◌, map, some, ◌≡◌, refl, sym, ap, ◌∙◌, subst, inl,
  inr, arith, Bool-cases,
}
use mitosis.Prelude.Texts.{lookup}
use mitosis.Config.{has}
use mitosis.Config.Assign.{IsDistinct}
use mitosis.P2p.{
  PubSub, Read, P2pNode, r_shard_id_prefix, p_shard_id_prefix, id_to_topic, shard_topics, join_all,
  subscribe_own, launch, shard_ids, gossip_each,
}
use mitosis.P2p.Gossip.{
  NamesTopics, sent, one_each, Joined, join_all-Joins, reached, shard_topics-shard_ids,
  launch-Ready, gossip_each-Joined,
}

-- What the code relies on: a router that has just been started holds no topic; a topic that it does not hold can
-- be joined, which leaves the other topics as they are; a handle can be subscribed; numerals tell numbers apart.
pub record PubSubLaws (S : PubSub) : Type 0 where
  pub held : S.Host → String → Bool
  pub names : NamesTopics S
  pub starts :
      (boot : String) (host after : S.Host)
      → S.start boot host ≡ some after
      → (topic : String) → held after topic ≡ false
  pub joins :
      (topic : String) (host : S.Host)
      → held host topic ≡ false
      → (handle : S.Topic) × (after : S.Host) × (S.join topic host ≡ some (handle, after))
        × ((other : String) → str_eq topic other ≡ false → held after other ≡ held host other)
  pub subscribes :
      (topic : S.Topic) (host : S.Host)
      → (sub : S.Subscription) × (after : S.Host) × (S.subscribe topic host ≡ some (sub, after))
  pub numerals : (a b : ℕ) → S.to_string a ≡ S.to_string b → a ≡ b

apart_of : (shards : List ℕ) (s x : ℕ) → has shards s ≡ false → has shards x ≡ true → s == x ≡ false
apart_of shards s x out i = elim (Bool-cases (s == x)) [
  | inl same ↦
      let there = subst (λ y. has shards y ≡ true) {y = s} (ground (arith, same)) i in
      absurd (ground (arith, out, there))
  | inr e ↦ e
]

prefixes_differ :
    (s t : String) → ¬ (str_append r_shard_id_prefix s ≡ str_append p_shard_id_prefix t)
prefixes_differ s t e = cc ((eq_iff r_shard_id_prefix p_shard_id_prefix).1 same)
  where
    same : r_shard_id_prefix ≡ p_shard_id_prefix
    same =
        sym (slice-append_left r_shard_id_prefix s)
        ∙ ap (λ u. slice u 0 7) e
        ∙ slice-append_left p_shard_id_prefix t

-- The shards of a node's topology.
abbrev pub shards : (S : PubSub) → P2pNode S → List ℕ
shards S n = shard_ids S n.conf.topo n.conf.topo.r_shard_ids

module _ (S : PubSub) (L : PubSubLaws S) where
  relay_topic :
      (a : ℕ) → leb a 1000 ≡ true → id_to_topic S a ≡ str_append r_shard_id_prefix (S.to_string a)
  unfolding id_to_topic
  relay_topic a small = ground (arith, small)

  partition_topic :
      (a : ℕ) → leb a 1000 ≡ false → id_to_topic S a ≡ str_append p_shard_id_prefix (S.to_string a)
  unfolding id_to_topic
  partition_topic a large = ground (arith, large)

  id_to_topic-injective : (a b : ℕ) → id_to_topic S a ≡ id_to_topic S b → a ≡ b
  id_to_topic-injective a b e = elim (Bool-cases (leb a 1000)) [
    | inl i ↦ elim (Bool-cases (leb b 1000)) [
      | inl j ↦
          L.numerals a b (append_cancel_left _ _ _ (sym (relay_topic a i) ∙ e ∙ relay_topic b j))
      | inr j ↦ absurd (prefixes_differ _ _ (sym (relay_topic a i) ∙ e ∙ partition_topic b j))
    ]
    | inr i ↦ elim (Bool-cases (leb b 1000)) [
      | inl j ↦ absurd (prefixes_differ _ _ (sym (relay_topic b j) ∙ sym e ∙ partition_topic a i))
      | inr j ↦
          L.numerals a b
            (append_cancel_left _ _ _ (sym (partition_topic a i) ∙ e ∙ partition_topic b j))
    ]
  ]

  topics_apart : (a b : ℕ) → a == b ≡ false → str_eq (id_to_topic S a) (id_to_topic S b) ≡ false
  topics_apart a b apart = elim (Bool-cases (str_eq (id_to_topic S a) (id_to_topic S b))) [
    | inl same ↦ absurd (ground (arith, apart, id_to_topic-injective a b ((eq_iff _ _).0 same)))
    | inr e ↦ e
  ]

  join_all_total :
      (shards : List ℕ) (n : P2pNode S)
      → IsDistinct shards
      → ((x : ℕ) → has shards x ≡ true → L.held n.host (id_to_topic S x) ≡ false)
      → (m : P2pNode S) × (join_all S (map (id_to_topic S) shards) n ≡ some m)
  unfolding join_all
  join_all_total [] n d free = (n, refl)
  join_all_total (s ∷ shards) n d free =
      let (handle, host, joined, keeps) =
        L.joins (id_to_topic S s) n.host (free s (ground arith)) in
      let (m, rest) = join_all_total shards _ d.1 (λ x i.
        keeps (id_to_topic S x) (topics_apart s x (apart_of shards s x d.0 i))
        ∙ free x (ground (arith, i))) in
      (m, (bind-eq-some_iff (S.join (id_to_topic S s) n.host) _).1 ((handle, host), joined, rest))

  subscribe_own_total :
      (n : P2pNode S)
      → Joined S n.joined (id_to_topic S n.conf.shard_id)
      → (m : P2pNode S) × (subscribe_own S n ≡ some m)
  unfolding subscribe_own
  subscribe_own_total n (handle, own, name) =
      let (sub, host, made) = L.subscribes handle n.host in
      (
        _,
        (bind-eq-some_iff (lookup (id_to_topic S n.conf.shard_id) n.joined) _).1 (
          handle,
          own,
          (bind-eq-some_iff (S.subscribe handle n.host) _).1 ((sub, host), made, refl),
        ),
      )

  -- A started node joins the topics of all shards.
  shards-Joins :
      (n : P2pNode S)
      → IsDistinct (shards S n)
      → ((topic : String) → L.held n.host topic ≡ false)
      → (m : P2pNode S) × (join_all S (shard_topics S n.conf.topo n.conf.topo.r_shard_ids) n
          ≡ some m)
        × (m.conf ≡ n.conf)
        × ((x : ℕ) → has (shards S n) x ≡ true → Joined S m.joined (id_to_topic S x))
  shards-Joins n distinct free =
      let same = shard_topics-shard_ids S n.conf.topo n.conf.topo.r_shard_ids in
      let (m, joined) = join_all_total (shards S n) n distinct (λ x _. free (id_to_topic S x)) in
      let (conf, _, all) = join_all-Joins S _ n m L.names joined in
      (
        m,
        ap (λ topics. join_all S topics n) same ∙ joined,
        conf,
        λ x i. reached S m.joined (shards S n) x all i,
      )

  launch_total :
      (n : P2pNode S) (host : S.Host)
      → S.start n.conf.bootnode n.host ≡ some host
      → IsDistinct (shards S n)
      → has (shards S n) n.conf.shard_id ≡ true
      → (m : P2pNode S) × (launch S n ≡ some m)
  unfolding launch
  launch_total n host started distinct own =
      let begun : P2pNode S = record n { host = host } in
      let (ready, joined, conf, all) = shards-Joins begun distinct (L.starts _ _ _ started) in
      let topic =
        subst (λ c. Joined S ready.joined (id_to_topic S c.shard_id)) (sym conf)
          (all n.conf.shard_id own) in
      let (m, last) = subscribe_own_total ready topic in
      (
        m,
        (bind-eq-some_iff (S.start n.conf.bootnode n.host) _).1
            (host, started, (bind-eq-some_iff (join_all S _ begun) _).1 (ready, joined, last)),
      )

-- A node whose topology has no shard twice and has the node's own shard, and whose router starts: Launch brings
-- it up, and then no goroutine of GossipAll waits or panics, and for each shard of the topology one message goes
-- out, to the topic of the shard that the goroutine found in the variable of the loop, which may be a later one.
-- Assumed of the gossip network and of ToString are the laws of `PubSubLaws`.
pub gossip_each-launch :
    (S : PubSub) (L : PubSubLaws S) (n : P2pNode S) (host : S.Host) (msg read : List ℕ)
    → S.start n.conf.bootnode n.host ≡ some host
    → IsDistinct (shards S n)
    → has (shards S n) n.conf.shard_id ≡ true
    → Read (shards S n) read
    → (m : P2pNode S) × (launch S n ≡ some m)
      × (sent S (gossip_each S m msg read) ≡ some (one_each S msg read))
gossip_each-launch S L n host msg read started distinct own r =
    let (m, e) = launch_total S L n host started distinct own in
    let (up, conf, there) = launch-Ready S n m L.names e in
    (m, e, gossip_each-Joined S m msg up there r)
