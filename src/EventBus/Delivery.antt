-- ===== src/EventBus/Delivery.antt =====
-- Mitosis/eventbus: what a subscription and its end do to the listeners, and what a message reaches.
use mathlib.Core.Option.{some-injective}
use mitosis.Prelude.{
  ℕ, suc, ◌+◌, ◌==◌, ltb, if◌then◌else◌, Bool, true, false, List, [], ◌∷◌, ◌++◌, Option, none, some,
  length, length-append, ◌≡◌, refl, ap, ◌∙◌, arith, Bool-cases, inl, inr,
}
use mitosis.Prelude.Assoc.{lookup, insert, lookup-insert}
use mitosis.Prelude.Count.{one_if}
use mitosis.Topics.{Topic}
use mitosis.EventBus.{
  Listener, chan_listener, callback_listener, IdListener, EventBus, load, subscribe, delete_id,
  unsubscribe, unsubscribed, Channel, World, push, notify, notify_all,
}

-- The listeners of an id.
unfoldable pub uses_id : ℕ → List IdListener → Bool
uses_id id [] = false
uses_id id (l ∷ rest) = let later = uses_id id rest in if l.id == id then true else later

delete_id-append :
    (id : ℕ) (lis : Listener) (l : List IdListener)
    → uses_id id l ≡ false
    → delete_id id (l ++ (record { id = id; listener = lis } ∷ [])) ≡ (l, true)
unfolding delete_id uses_id
delete_id-append id lis [] free = ground arith
delete_id-append id lis (x ∷ rest) free = elim (Bool-cases (x.id == id)) [
  | inl q ↦ absurd (ground (arith, q, free))
  | inr q ↦
      let later : uses_id id rest ≡ false = ground (arith, q, free) in
      rw (q, delete_id-append id lis rest later) refl
]

load-written :
    (t u : Topic) (l : List IdListener) (bus : EventBus)
    → load u (record bus { listeners = insert t l bus.listeners })
      ≡ (if t == u then l else load u bus)
unfolding load
load-written t u l bus = rw lookup-insert (ground arith)

load-subscribe :
    (t u : Topic) (lis : Listener) (id : ℕ) (bus : EventBus)
    → load u (subscribe t lis id bus)
      ≡ (if t == u then load t bus ++ (record { id = id; listener = lis } ∷ []) else load u bus)
unfolding load subscribe
load-subscribe t u lis id bus = rw lookup-insert (ground arith)

-- A subscription whose id no other listener of its topic has is undone by the end of it: `Unsubscribe`
-- finds it, and then every topic has the listeners that it had before.
pub unsubscribe-subscribe :
    (t : Topic) (lis : Listener) (id : ℕ) (bus : EventBus)
    → uses_id id (load t bus) ≡ false
    → let after = unsubscribe t id (subscribe t lis id bus) in
      (after.1 ≡ true) × ((u : Topic) → load u after.0 ≡ load u bus)
unfolding unsubscribe
unsubscribe-subscribe t lis id bus free =
    let bus1 = subscribe t lis id bus in
    let e : load t bus1 ≡ load t bus ++ (record { id = id; listener = lis } ∷ []) =
      load-subscribe t t lis id bus ∙ ground arith in
    let d : unsubscribed t bus1 (delete_id id (load t bus1))
        ≡ unsubscribed t bus1 (load t bus, true) =
      ap (λ l. unsubscribed t bus1 (delete_id id l)) e
      ∙ ap (unsubscribed t bus1) (delete_id-append id lis (load t bus) free) in
    (ap (λ r. r.1) d, λ u. ap (λ r. load u r.0) d ∙ load-written t u (load t bus) bus1 ∙ back u)
  where
    back :
        (u : Topic) → (if t == u then load t bus else load u (subscribe t lis id bus)) ≡ load u bus
    back u = elim (Bool-cases (t == u)) [
      | inl q ↦ let same : t ≡ u = ground arith in rw q (ap (λ k. load k bus) same)
      | inr q ↦ rw q (load-subscribe t u lis id bus ∙ rw q refl)
    ]

module _ {M : Type 0} where
  -- How many messages there are in a channel, and in all.
  abbrev queued : Option (Channel M) → ℕ
  queued none = 0
  queued (some ch) = length ch.queue

  unfoldable pub pending_in : List (ℕ × Channel M) → ℕ
  pending_in [] = 0
  pending_in ((c, ch) ∷ rest) = length ch.queue + pending_in rest

  unfoldable pub delivered : World M → ℕ
  unfolding pending_in
  delivered w = pending_in w.channels + length w.calls

  pending_in-insert :
      (c : ℕ) (ch old : Channel M) (channels : List (ℕ × Channel M))
      → lookup c channels ≡ some old
      → pending_in (insert c ch channels) + length old.queue ≡ pending_in channels + length ch.queue
  unfolding pending_in insert lookup
  pending_in-insert c ch old [] e = absurd (ground (arith, e))
  pending_in-insert c ch old ((d, first) ∷ rest) e = elim (Bool-cases (d == c)) [
    | inl q ↦
        let same : first ≡ old = some-injective _ _ (ground (arith, q, e)) in
        rw q (omega (arith, ap (λ (x : Channel M). length x.queue) same))
    | inr q ↦
        let later : lookup c rest ≡ some old = ground (arith, q, e) in
        rw q (omega (arith, pending_in-insert c ch old rest later))
  ]

  delivered-push :
      (c : ℕ) (m : M) (w : World M) (ch : Option (Channel M))
      → lookup c w.channels ≡ ch
      → delivered (push c m w ch).0 ≡ delivered w + one_if (push c m w ch).1
  unfolding delivered
  delivered-push c m w none e = omega arith
  delivered-push c m w (some ch) e = elim (Bool-cases (ltb (length ch.queue) ch.capacity)) [
    | inl q ↦
        let grown =
          pending_in-insert c (record ch { queue = ch.queue ++ (m ∷ []) }) ch w.channels e in
        rw q (omega (arith, grown, length-append ch.queue (m ∷ [])))
    | inr q ↦ rw q (omega arith)
  ]

  delivered-notify :
      (l : Listener) (m : M) (w : World M)
      → delivered (notify l m w).0 ≡ delivered w + one_if (notify l m w).1
  unfolding notify delivered
  delivered-notify (chan_listener c) m w = delivered-push c m w (lookup c w.channels) refl
  delivered-notify (callback_listener f) m w = omega (arith, length-append w.calls ((f, m) ∷ []))

  -- Of the listeners of a topic each is given the message once, or is counted as an error: the messages
  -- in the channels and the calls grow by the number of listeners less that of the errors.
  pub delivered-notify_all :
      (listeners : List IdListener) (m : M) (w : World M)
      → let (after, errors) = notify_all listeners m w in
        delivered after + errors ≡ delivered w + length listeners
  unfolding notify_all
  delivered-notify_all [] m w = refl
  delivered-notify_all (l ∷ rest) m w =
      let (w1, ok) = notify l.listener m w in
      let first = delivered-notify l.listener m w in
      let later = delivered-notify_all rest m w1 in counted ok first later
    where
      counted :
          (ok : Bool)
          → delivered (notify l.listener m w).0 ≡ delivered w + one_if ok
          → delivered (notify_all rest m (notify l.listener m w).0).0
              + (notify_all rest m (notify l.listener m w).0).1
            ≡ delivered (notify l.listener m w).0 + length rest
          → delivered (notify_all rest m (notify l.listener m w).0).0
              + (if ok
                  then (notify_all rest m (notify l.listener m w).0).1
                  else suc (notify_all rest m (notify l.listener m w).0).1)
            ≡ delivered w + suc (length rest)
      counted true first later = omega (arith, first, later)
      counted false first later = omega (arith, first, later)
