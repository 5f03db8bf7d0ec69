-- ===== src/Tests/Messages.antt =====
-- A message through the envelope, subscriptions to the event bus, and the bits of a byte.
use mitosis.Prelude.{◌++◌, ℕ, ◌+◌, true, List, [], ◌∷◌, none, some, length, ◌≡◌, refl, arith}
use mitosis.Prelude.Assoc.{lookup, insert}
use mitosis.Types.Bitmap.{byte_keys, byte_size}
use mitosis.Types.Bitmap.Rounds.{keys_loop, size_loop, loops_end}
use mitosis.Topics.{Topic, header_gossip, consensus_leader}
use mitosis.EventBus.{
  EventBus, chan_listener, callback_listener, World, new_event_bus, load, subscribe, unsubscribe,
  notify_all,
}
use mitosis.EventBus.Servers.{Subscriptions, blockchain_server, bft_server, heard, load-servers}
use mitosis.EventBus.Delivery.{uses_id, unsubscribe-subscribe, delivered}
use mitosis.EventBus.Reached.{calls_of, with_copies, writers, notify_all-reaches}
use mitosis.Message.{
  Codec, of_header, new_blockchain_message, fits, marshal_binary, unmarshal_binary,
}
use mitosis.Message.Envelope.{unmarshal_binary-marshal_binary}
use mitosis.Tests.Toy.{toy_config, toy_header}

-- A codec that knows one value of each type.
abbrev toy_codec : Codec
toy_codec = record {
  encode_block = λ b. b.hash ∷ [];
  decode_block = λ bytes. none;
  encode_bft = λ m. m.block_hash ∷ [];
  decode_bft = λ bytes. none;
  encode_chunk = λ c. c.block_hash ∷ [];
  decode_chunk = λ bytes. none;
  encode_header = λ h. h.hash ∷ [];
  decode_header = λ bytes. some (toy_header 1002 1 6 9);
}

unmarshal_binary-marshal_binary_example :
    let m = new_blockchain_message header_gossip (of_header (toy_header 1002 1 6 9)) in
    (bytes : List ℕ) × (marshal_binary toy_codec m ≡ some bytes)
    × (unmarshal_binary toy_codec bytes ≡ some m)
unfolding fits
unmarshal_binary-marshal_binary_example =
    unmarshal_binary-marshal_binary toy_codec
      (new_blockchain_message header_gossip (of_header (toy_header 1002 1 6 9))) refl refl

-- One listener to the leader's messages, with id 3.
abbrev bus : EventBus
bus = subscribe consensus_leader (chan_listener 1) 3 new_event_bus

unsubscribe-subscribe_example :
    let after =
      unsubscribe consensus_leader 5 (subscribe consensus_leader (callback_listener 2) 5 bus) in
    (after.1 ≡ true) × ((u : Topic) → load u after.0 ≡ load u bus)
unfolding uses_id load subscribe lookup insert
unsubscribe-subscribe_example =
    unsubscribe-subscribe consensus_leader (callback_listener 2) 5 bus refl

-- A channel that has room for one message.
abbrev world : World ℕ
world = record { channels = (1, record { capacity = 1; queue = [] }) ∷ []; calls = [] }

notify_all-reaches_example :
    let (after, errors) = notify_all (load consensus_leader bus) 7 world in
    (after.calls ≡ world.calls ++ calls_of (load consensus_leader bus) 7)
    × ((c : ℕ)
        → lookup c after.channels
          ≡ with_copies (writers c (load consensus_leader bus)) 7 (lookup c world.channels))
    × (delivered after + errors ≡ delivered world + length (load consensus_leader bus))
notify_all-reaches_example = notify_all-reaches (load consensus_leader bus) 7 world

-- The keys of a byte end within nine tests.
loops_end_example :
    (keys_loop (9 + 5) 200 16 ≡ some (byte_keys 8 200 16))
    × (size_loop (9 + 5) 200 ≡ some (byte_size 8 200))
loops_end_example = loops_end 8 5 200 16 (omega arith)

-- Headers, chunks and the messages of the consensus each have a channel.
abbrev toy_subscriptions : Subscriptions
toy_subscriptions = record {
  header_queue = 1;
  header_id = 30;
  chunk_queue = 2;
  chunk_id = 7;
  bft_queue = 3;
  bft_id = 12;
}

load-servers_example :
    load consensus_leader (
      bft_server
        (toy_config 8 true)
        toy_subscriptions
        (blockchain_server {M = ℕ}
          (toy_config 8 true)
          toy_subscriptions
          (new_event_bus, record { channels = []; calls = [] })).0)
    ≡ heard (toy_config 8 true) toy_subscriptions consensus_leader
load-servers_example =
    load-servers {M = ℕ} (toy_config 8 true) toy_subscriptions
      (record { channels = []; calls = [] }) consensus_leader
