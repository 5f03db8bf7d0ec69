-- ===== src/Tests/Network.antt =====
-- The network of a node of the toy topology: a host holds the topics that it has joined, and a handle is the
-- name of its topic.
use Prim.Native.String.{String, ◌++◌ as str_append, slice}
use text.Mathlib.Text.{◌==◌ as str_eq}
use text.Mathlib.TextEquality.{eq_iff}
use text.Mathlib.TextLemmas.{append_cancel_left}
use text.Mathlib.TextPositions.{slice-append_left}
use mathlib.Core.Option.{bind}
use mitosis.Prelude.{
  ℕ, zero, suc, Bool, true, false, ◌||◌, if◌then◌else◌, List, [], ◌∷◌, Option, none, some, ◌≡◌,
  refl, sym, ap, ◌∙◌, arith,
}
use mitosis.Prelude.Assoc.{lookup}
use mitosis.Config.{has}
use mitosis.Config.Assign.{IsDistinct}
use mitosis.P2p.{
  PubSub, Read, ended, spawned, P2pNode, shard_ids, launch, gossip_each, new_p2p_node,
}
use mitosis.P2p.Gossip.{sent, one_each}
use mitosis.P2p.Launch.{PubSubLaws, shards, gossip_each-launch}
use mitosis.Tests.Toy.{toy_config}

-- Numerals of ones.
ones : ℕ → String
ones zero = ""
ones (suc n) = str_append "1" (ones n)

no_one : (n : ℕ) → ¬ ("" ≡ ones (suc n))
unfolding ones
no_one n e = cc ((eq_iff "" "1").1 (ap (λ u. slice u 0 1) e ∙ slice-append_left "1" (ones n)))

one_less : (a b : ℕ) → ones (suc a) ≡ ones (suc b) → ones a ≡ ones b
unfolding ones
one_less a b e = append_cancel_left "1" (ones a) (ones b) e

ones-injective : (a b : ℕ) → ones a ≡ ones b → a ≡ b
unfolding ones
ones-injective zero zero e = refl
ones-injective zero (suc b) e = absurd (no_one b e)
ones-injective (suc a) zero e = absurd (no_one a (sym e))
ones-injective (suc a) (suc b) e = ap suc (ones-injective a b (one_less a b e))

holds : List String → String → Bool
holds [] topic = false
holds (t ∷ topics) topic = str_eq t topic || holds topics topic

toy_join : String → List String → Option (String × List String)
toy_join topic topics = if holds topics topic then none else some (topic, topic ∷ topics)

abbrev toy_start : String → List String → Option (List String)
toy_start boot host = some []

abbrev toy_network : PubSub
toy_network = record {
  Host = List String;
  Topic = String;
  Subscription = String;
  new_host = some [];
  start = toy_start;
  join = toy_join;
  subscribe = λ topic host. some (topic, host);
  topic_name = λ topic. topic;
  to_string = ones;
}

toy_joins :
    (topic : String) (host : List String)
    → holds host topic ≡ false
    → (handle : String) × (after : List String) × (toy_join topic host ≡ some (handle, after))
      × ((other : String) → str_eq topic other ≡ false → holds after other ≡ holds host other)
unfolding toy_join holds
toy_joins topic host free =
    (topic, topic ∷ host, ground (arith, free), λ other apart. ground (arith, apart))

toy_names :
    (topic : String) (host after : List String) (handle : String)
    → toy_join topic host ≡ some (handle, after)
    → handle ≡ topic
unfolding toy_join
toy_names topic host after handle e = ground (arith, e)

toy_starts :
    (boot : String) (host after : List String)
    → toy_start boot host ≡ some after
    → (topic : String) → holds after topic ≡ false
unfolding holds
toy_starts boot host [] e topic = refl
toy_starts boot host (t ∷ after) e topic = absurd (ground (arith, e))

toy_network_laws : PubSubLaws toy_network
toy_network_laws = record {
  held = holds;
  names = toy_names;
  starts = toy_starts;
  joins = toy_joins;
  subscribes = λ topic host. (topic, host, refl);
  numerals = ones-injective;
}

abbrev node : P2pNode toy_network
node = record { host = []; joined = []; sub = none; conf = toy_config 5 true; up = false }

node_lem : new_p2p_node toy_network (toy_config 5 true) ≡ some node
unfolding new_p2p_node bind
node_lem = refl

shards_lem : shards toy_network node ≡ 1 ∷ 1001 ∷ 1002 ∷ []
unfolding shard_ids lookup
shards_lem = refl

-- Every goroutine runs when the loop is over.
late : Read (shards toy_network node) (1002 ∷ 1002 ∷ 1002 ∷ [])
unfolding shard_ids lookup
late = spawned 1002 refl (spawned 1002 refl (spawned 1002 refl ended))

distinct : IsDistinct (shards toy_network node)
unfolding shard_ids lookup
distinct = (refl, (refl, (refl, tt)))

own : has (shards toy_network node) 1001 ≡ true
unfolding shard_ids lookup
own = refl

gossip_each-launch_example :
    (m : P2pNode toy_network) × (launch toy_network node ≡ some m)
    × (sent toy_network (gossip_each toy_network m (7 ∷ []) (1002 ∷ 1002 ∷ 1002 ∷ []))
        ≡ some (one_each toy_network (7 ∷ []) (1002 ∷ 1002 ∷ 1002 ∷ [])))
gossip_each-launch_example =
    gossip_each-launch toy_network toy_network_laws node [] (7 ∷ []) (1002 ∷ 1002 ∷ 1002 ∷ []) refl
      distinct own late
