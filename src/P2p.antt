-- ===== src/P2p.antt =====
-- Mitosis/p2p/node.go and protocol.go: `P2PNode`, what `Launch` joins and subscribes, `Gossip`, `GossipAll`,
-- and the loop over a subscription. libp2p, its gossip and `ToString` are the record `PubSub`; an error of
-- theirs that the code panics on is `none`. Errors of `Publish` are only logged. The search for peers and
-- mDNS are left out.
pub mod Gossip
pub mod Launch
use Prim.Native.String.{String, ◌++◌ as str_append}
use text.Mathlib.Text.{◌==◌ as str_eq}
use mathlib.Core.Option.{bind}
use mitosis.Prelude.{
  ℕ, leb, ◌==◌, if◌then◌else◌, Bool, true, false, List, [], ◌∷◌, ◌++◌, map, Option, none, some, ◌≡◌,
}
use mitosis.Prelude.Texts.{lookup, insert}
use mitosis.Config.{Topology, Config, shards_of, has}

infixl 5 ◌>>=◌
abbrev pub ◌>>=◌ {ℓ κ} : {A : Type ℓ} {B : Type κ} → Option A → (A → Option B) → Option B
o >>= next = bind o next

-- `start` is all of `Launch` up to NewGossipSub: the address of the boot node, the table of peers, the router.
pub record PubSub : Type 1 where
  pub Host : Type 0
  pub Topic : Type 0
  pub Subscription : Type 0
  pub new_host : Option Host
  pub start : String → Host → Option Host
  pub join : String → Host → Option (Topic × Host)
  pub subscribe : Topic → Host → Option (Subscription × Host)
  pub topic_name : Topic → String
  pub to_string : ℕ → String

abbrev pub r_shard_id_prefix : String
r_shard_id_prefix = "RShard-"

abbrev pub p_shard_id_prefix : String
p_shard_id_prefix = "PShard-"

-- What a call of Gossip does: it waits for the node to be up, it panics on a nil topic, or these calls of Publish
-- are made, each of a topic with a message.
pub data Gossiped (Topic : Type 0) : Type 0 where
  waits : Gossiped Topic
  panics : Gossiped Topic
  publishes : List (Topic × List ℕ) → Gossiped Topic

-- Goroutines that all have to end.
unfoldable pub together : {T : Type 0} → Gossiped T → Gossiped T → Gossiped T
together panics second = panics
together waits panics = panics
together waits waits = waits
together waits (publishes calls) = waits
together (publishes calls) panics = panics
together (publishes calls) waits = waits
together (publishes calls) (publishes more) = publishes (calls ++ more)

-- The loop of GossipAll starts one goroutine for each shard. The variable of the loop is one variable (go.mod
-- says go 1.21.1), and a goroutine reads it when it runs: it finds the shard it was started for or a later one.
pub data Read : List ℕ → List ℕ → Type 0 where
  ended : Read [] []
  spawned :
      {shard : ℕ} {shards read : List ℕ} (found : ℕ)
      → has (shard ∷ shards) found ≡ true
      → Read shards read
      → Read (shard ∷ shards) (found ∷ read)

module _ (S : PubSub) where
  -- `pub` is `joined` here, and `broker` is the bus of Message.
  pub record P2pNode : Type 0 where
    pub host : S.Host
    pub joined : List (String × S.Topic)
    pub sub : Option S.Subscription
    pub conf : Config
    pub up : Bool

  unfoldable pub new_p2p_node : Config → Option P2pNode
  new_p2p_node config = do
    host ← S.new_host
    some (record { host = host; joined = []; sub = none; conf = config; up = false })

  unfoldable pub id_to_topic : ℕ → String
  id_to_topic shard =
      if leb shard 1000
      then str_append r_shard_id_prefix (S.to_string shard)
      else str_append p_shard_id_prefix (S.to_string shard)

  unfoldable pub shard_topics : Topology → List ℕ → List String
  shard_topics topo [] = []
  shard_topics topo (r ∷ rs) =
      id_to_topic r ∷ map id_to_topic (shards_of r topo.p_shard_ids) ++ shard_topics topo rs

  unfoldable pub join_all : List String → P2pNode → Option P2pNode
  join_all [] n = some n
  join_all (topic ∷ topics) n = do
    (handle, host) ← S.join topic n.host
    join_all topics (record n { host = host; joined = insert topic handle n.joined })

  -- A topic that was not joined is nil, and its Subscribe panics.
  unfoldable pub subscribe_own : P2pNode → Option P2pNode
  subscribe_own n = do
    topic ← lookup (id_to_topic n.conf.shard_id) n.joined
    (sub, host) ← S.subscribe topic n.host
    some (record n { host = host; sub = some sub; up = true })

  unfoldable pub launch : P2pNode → Option P2pNode
  launch n = do
    host ← S.start n.conf.bootnode n.host
    ready ← join_all (shard_topics n.conf.topo n.conf.topo.r_shard_ids) (record n { host = host })
    subscribe_own ready

  unfoldable pub publish_to : List ℕ → Option S.Topic → Gossiped S.Topic
  publish_to msg none = panics
  publish_to msg (some topic) = publishes ((topic, msg) ∷ [])

  unfoldable pub gossip : P2pNode → List ℕ → ℕ → Gossiped S.Topic
  gossip n msg shard = if n.up then publish_to msg (lookup (id_to_topic shard) n.joined) else waits

  -- The shards of GossipAll.
  unfoldable pub shard_ids : Topology → List ℕ → List ℕ
  shard_ids topo [] = []
  shard_ids topo (r ∷ rs) = r ∷ shards_of r topo.p_shard_ids ++ shard_ids topo rs

  -- The goroutines, each with the shard that it reads.
  unfoldable pub gossip_each : P2pNode → List ℕ → List ℕ → Gossiped S.Topic
  gossip_each n msg [] = publishes []
  gossip_each n msg (found ∷ read) = together (gossip n msg found) (gossip_each n msg read)

  -- GossipAll of Protocol: shard 0 only.
  unfoldable pub protocol_gossip_all : P2pNode → List ℕ → List ℕ → Gossiped S.Topic
  protocol_gossip_all n msg read =
      let sent = gossip_each n msg read in if n.conf.shard_id == 0 then sent else publishes []

  -- The messages that `subscribe` hands to ProcessMessage: all but the node's own.
  unfoldable pub receive : String → List (String × List ℕ) → List (List ℕ)
  receive own [] = []
  receive own ((from, bytes) ∷ messages) =
      let rest = receive own messages in if str_eq from own then rest else bytes ∷ rest
