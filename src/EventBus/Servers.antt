-- ===== src/EventBus/Servers.antt =====
-- `Server` of Mitosis/core/blockchain.go and of Mitosis/consensus/protocol.go: what a node listens to. The
-- channels that they make, and the random ids of their subscriptions, are numbers that are given.
use mitosis.Prelude.{ℕ, ◌==◌, ltb, if◌then◌else◌, List, [], ◌∷◌, ◌≡◌, refl, arith, ◌++◌}
use mitosis.Prelude.Assoc.{lookup, insert, lookup-insert}
use mitosis.Config.{Config}
use mitosis.Topics.{
  Topic, header_gossip, outbound_chunk_gossip, consensus_leader, consensus_validator,
}
use mitosis.EventBus.{
  Listener, chan_listener, IdListener, EventBus, new_event_bus, load, subscribe, World,
}

-- The channels and ids of the subscriptions.
pub record Subscriptions : Type 0 where
  pub header_queue : ℕ
  pub header_id : ℕ
  pub chunk_queue : ℕ
  pub chunk_id : ℕ
  pub bft_queue : ℕ
  pub bft_id : ℕ

module _ {M : Type 0} where
  -- `make(chan message.Message, 1000)`
  abbrev pub make_channel : ℕ → World M → World M
  make_channel c w = record w {
    channels = insert c (record { capacity = 1000; queue = [] }) w.channels;
  }

  unfoldable pub blockchain_server :
      Config → Subscriptions → EventBus × World M → EventBus × World M
  blockchain_server config s (bus, w) =
      let first = subscribe header_gossip (chan_listener s.header_queue) s.header_id bus in
      let ready = make_channel s.header_queue w in
      if ltb 1000 config.shard_id
      then (
        subscribe outbound_chunk_gossip (chan_listener s.chunk_queue) s.chunk_id first,
        make_channel s.chunk_queue ready,
      )
      else (first, ready)

unfoldable pub bft_server : Config → Subscriptions → EventBus → EventBus
bft_server config s bus =
    subscribe (if config.is_leader then consensus_leader else consensus_validator)
      (chan_listener s.bft_queue) s.bft_id bus

-- What is heard of a topic.
abbrev pub heard : Config → Subscriptions → Topic → List IdListener
heard config s t =
    if t == header_gossip
    then record { id = s.header_id; listener = chan_listener s.header_queue } ∷ []
    else if t == outbound_chunk_gossip
    then (if ltb 1000 config.shard_id
        then record { id = s.chunk_id; listener = chan_listener s.chunk_queue } ∷ []
        else [])
    else if t == (if config.is_leader then consensus_leader else consensus_validator)
    then record { id = s.bft_id; listener = chan_listener s.bft_queue } ∷ []
    else []

subscribed :
    (bus : EventBus) (topic at : Topic) (listener : Listener) (id : ℕ)
    → load at (subscribe topic listener id bus) ≡ (
        if topic == at
        then load at bus ++ (record { id = id; listener = listener } ∷ [])
        else load at bus)
unfolding load subscribe
subscribed bus topic at listener id = ground (
  arith,
  lookup-insert topic at (load topic bus ++ (record { id = id; listener = listener } ∷ []))
      bus.listeners,
)

nothing : (t : Topic) → load t new_event_bus ≡ []
unfolding load lookup
nothing t = refl

-- After both Servers of a node on a new bus, headers go to the queue of headers, outbound chunks to the queue of
-- chunks if the node is of a partition shard, the messages of the consensus that are for the node's role to its
-- queue of them, and nothing else is listened to.
pub load-servers :
    {M : Type 0} (config : Config) (s : Subscriptions) (w : World M) (t : Topic)
    → load t (bft_server config s (blockchain_server config s (new_event_bus, w)).0)
      ≡ heard config s t
unfolding blockchain_server bft_server
load-servers config s w t = grind (arith, nothing, subscribed)
