-- ===== src/EventBus.antt =====
-- Mitosis/eventbus: the bus that brings messages to the parts of a node. The channels that listeners
-- write to are kept in one store, with their capacity, and the calls of callbacks in a list, since a
-- callback runs by itself. The random id of a subscription is an argument.
pub mod Delivery
pub mod Servers
pub mod Reached
use mitosis.Prelude.{
  ℕ, zero, suc, ◌+◌, ◌==◌, ltb, if◌then◌else◌, Bool, true, false, List, [], ◌∷◌, ◌++◌, Option, none,
  some, length,
}
use mitosis.Prelude.Assoc.{lookup, insert}
use mitosis.Topics.{Topic}

-- `ChanListener` with its channel, `CallbackListener` with its function.
pub data Listener : Type 0 where
  chan_listener : ℕ → Listener
  callback_listener : ℕ → Listener

pub record IdListener : Type 0 where
  pub id : ℕ
  pub listener : Listener

pub record MultiListener : Type 0 where
  pub topic_set : List Topic
  pub dispatchers : List IdListener

pub record EventBus : Type 0 where
  pub listeners : List (Topic × List IdListener)
  pub default_listener : MultiListener

abbrev pub new_event_bus : EventBus
new_event_bus = record {
  listeners = [];
  default_listener = record { topic_set = []; dispatchers = [] };
}

abbrev pub listeners_or : Option (List IdListener) → List IdListener
listeners_or none = []
listeners_or (some l) = l

-- `Load` of the map of listeners.
unfoldable pub load : Topic → EventBus → List IdListener
load t bus = listeners_or (lookup t bus.listeners)

-- `Subscribe`, with the id that `rand.Int` gives, below 32.
unfoldable pub subscribe : Topic → Listener → ℕ → EventBus → EventBus
unfolding load
subscribe t lis id bus = record bus {
  listeners = insert t (load t bus ++ (record { id = id; listener = lis } ∷ [])) bus.listeners;
}

-- The list without the first listener of the id, and whether there was one.
unfoldable pub delete_id : ℕ → List IdListener → List IdListener × Bool
delete_id id [] = ([], false)
delete_id id (l ∷ rest) =
    let (others, found) = delete_id id rest in
    if l.id == id then (rest, true) else (l ∷ others, found)

-- `Unsubscribe`. The map is written only where the id is found.
abbrev pub unsubscribed : Topic → EventBus → List IdListener × Bool → EventBus × Bool
unsubscribed t bus (others, false) = (bus, false)
unsubscribed t bus (others, true) = (record bus { listeners = insert t others bus.listeners }, true)

unfoldable pub unsubscribe : Topic → ℕ → EventBus → EventBus × Bool
unfolding load delete_id
unsubscribe t id bus = unsubscribed t bus (delete_id id (load t bus))

unfoldable pub has_topic : Topic → List Topic → Bool
has_topic t [] = false
has_topic t (u ∷ rest) = let later = has_topic t rest in if u == t then true else later

unfoldable pub add_topic : Topic → EventBus → EventBus
unfolding has_topic
add_topic t bus =
    let ml = bus.default_listener in
    record bus {
      default_listener = record ml {
        topic_set = if has_topic t ml.topic_set then ml.topic_set else t ∷ ml.topic_set;
      };
    }

unfoldable pub add_topic_default : List Topic → EventBus → EventBus
unfolding add_topic
add_topic_default [] bus = bus
add_topic_default (t ∷ topics) bus = add_topic_default topics (add_topic t bus)

unfoldable pub subscribe_default : Listener → ℕ → EventBus → EventBus
subscribe_default lis id bus =
    let ml = bus.default_listener in
    record bus {
      default_listener = record ml {
        dispatchers = ml.dispatchers ++ (record { id = id; listener = lis } ∷ []);
      };
    }

-- `Delete` of the default listener.
unfoldable pub unsubscribe_default : ℕ → EventBus → EventBus × Bool
unfolding delete_id
unsubscribe_default id bus =
    let (others, found) = delete_id id bus.default_listener.dispatchers in
    (record bus { default_listener = record bus.default_listener { dispatchers = others } }, found)

pub record Channel (M : Type 0) : Type 0 where
  pub capacity : ℕ
  pub queue : List M

pub record World (M : Type 0) : Type 0 where
  pub channels : List (ℕ × Channel M)
  pub calls : List (ℕ × M)

module _ {M : Type 0} where
  -- The `select` of `Notify`: a full channel, or none, is an error.
  abbrev pub push : ℕ → M → World M → Option (Channel M) → World M × Bool
  push c m w none = (w, false)
  push c m w (some ch) =
      if ltb (length ch.queue) ch.capacity
      then (
        record w { channels = insert c (record ch { queue = ch.queue ++ (m ∷ []) }) w.channels },
        true,
      )
      else (w, false)

  -- Whether the error is nil.
  unfoldable pub notify : Listener → M → World M → World M × Bool
  notify (chan_listener c) m w = push c m w (lookup c w.channels)
  notify (callback_listener f) m w = (record w { calls = w.calls ++ ((f, m) ∷ []) }, true)

  -- The loop of `Publish` and of `Forward`, with the number of its errors.
  unfoldable pub notify_all : List IdListener → M → World M → World M × ℕ
  unfolding notify
  notify_all [] m w = (w, 0)
  notify_all (l ∷ rest) m w =
      let (w1, ok) = notify l.listener m w in
      let (w2, errors) = notify_all rest m w1 in (w2, if ok then errors else suc errors)

  unfoldable pub forward : EventBus → Topic → M → World M → World M × ℕ
  unfolding notify_all has_topic
  forward bus t m w =
      if has_topic t bus.default_listener.topic_set
      then notify_all bus.default_listener.dispatchers m w
      else (w, 0)

  -- `Publish`. The default listener is served by a goroutine, here after the loop; its errors are
  -- dropped.
  unfoldable pub publish : EventBus → Topic → M → World M → World M × ℕ
  unfolding notify_all forward load
  publish bus t m w =
      let (w1, errors) = notify_all (load t bus) m w in ((forward bus t m w1).0, errors)
