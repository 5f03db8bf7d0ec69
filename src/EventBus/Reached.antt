-- ===== src/EventBus/Reached.antt =====
-- Mitosis/eventbus: what every listener gets of a message that `Publish` hands to the listeners of a topic.
use mitosis.Prelude.{
  ℕ, zero, suc, ◌+◌, ◌-◌, ◌==◌, ltb, leb, if◌then◌else◌, List, [], ◌∷◌, ◌++◌, Option, none, some,
  length, length-append, length-replicate, replicate, append-nil, ◌≡◌, refl, sym, ap, ◌∙◌, arith,
  Bool-cases, inl, inr,
}
use native.Mathlib.Nat.{zero-add, suc-add}
use mitosis.Prelude.Assoc.{lookup, lookup-insert}
use mitosis.EventBus.{
  Listener, chan_listener, callback_listener, IdListener, Channel, World, push, notify, notify_all,
}
use mitosis.EventBus.Delivery.{delivered, delivered-notify_all}

-- How many listeners write to a channel.
abbrev one_to : ℕ → Listener → ℕ
one_to c (chan_listener d) = if d == c then 1 else 0
one_to c (callback_listener f) = 0

unfoldable pub writers : ℕ → List IdListener → ℕ
writers c [] = 0
writers c (l ∷ rest) = writers c rest + one_to c l.listener

abbrev pub at_most : ℕ → ℕ → ℕ
at_most room k = if leb k room then k else room

append_assoc : {A : Type 0} (xs ys zs : List A) → (xs ++ ys) ++ zs ≡ xs ++ (ys ++ zs)
append_assoc [] ys zs = refl
append_assoc (x ∷ xs) ys zs = ap (◌∷◌ x) (append_assoc xs ys zs)

module _ {M : Type 0} where
  abbrev call_of : Listener → M → List (ℕ × M)
  call_of (chan_listener c) m = []
  call_of (callback_listener f) m = (f, m) ∷ []

  -- One call of the function of each callback, in the order of the listeners.
  unfoldable pub calls_of : List IdListener → M → List (ℕ × M)
  calls_of [] m = []
  calls_of (l ∷ rest) m = call_of l.listener m ++ calls_of rest m

  -- A channel with `k` more copies of a message, or as many as it has room for.
  abbrev pub with_copies : ℕ → M → Option (Channel M) → Option (Channel M)
  with_copies k m none = none
  with_copies k m (some ch) =
      some
        (record ch { queue = ch.queue ++ replicate (at_most (ch.capacity - length ch.queue) k) m })

  replicate-add : (a b : ℕ) (m : M) → replicate a m ++ replicate b m ≡ replicate (a + b) m
  replicate-add zero b m = ap (λ n. replicate n m) (sym (zero-add b))
  replicate-add (suc a) b m =
      ap (◌∷◌ m) (replicate-add a b m) ∙ ap (λ n. replicate n m) (sym (suc-add a b))

  no_copies : (m : M) (ch : Option (Channel M)) → with_copies 0 m ch ≡ ch
  no_copies m none = refl
  no_copies m (some ch) =
      let e : at_most (ch.capacity - length ch.queue) 0 ≡ 0 = ground arith in
      rw (e, append-nil ch.queue) refl

  more_copies :
      (k : ℕ) (m : M) (ch : Option (Channel M))
      → with_copies k m (with_copies 1 m ch) ≡ with_copies (k + 1) m ch
  more_copies k m none = refl
  more_copies k m (some ch) =
      let room = ch.capacity - length ch.queue in
      let first = replicate (at_most room 1) m in
      let left = ch.capacity - length (ch.queue ++ first) in
      let len = length-append ch.queue first in
      let same : at_most room 1 + at_most left k ≡ at_most room (k + 1) =
        ground (arith, len, length-replicate (at_most room 1) m) in
      ap (λ q. some (record ch { queue = q }))
        (append_assoc ch.queue first (replicate (at_most left k) m)
          ∙ ap (λ t. ch.queue ++ t)
              (replicate-add (at_most room 1) (at_most left k) m ∙ ap (λ n. replicate n m) same))

  one_copy :
      (m : M) (ch : Channel M)
      → with_copies 1 m (some ch)
        ≡ some (
            if ltb (length ch.queue) ch.capacity
            then record ch { queue = ch.queue ++ (m ∷ []) }
            else ch)
  one_copy m ch = elim (Bool-cases (ltb (length ch.queue) ch.capacity)) [
    | inl q ↦
        let e : at_most (ch.capacity - length ch.queue) 1 ≡ 1 = ground (arith, q) in rw (q, e) refl
    | inr q ↦
        let e : at_most (ch.capacity - length ch.queue) 1 ≡ 0 = ground (arith, q) in
        rw (q, e, append-nil ch.queue) refl
  ]

  push-copies :
      (c d : ℕ) (m : M) (w : World M) (ch : Option (Channel M))
      → lookup c w.channels ≡ ch
      → lookup d (push c m w ch).0.channels
        ≡ with_copies (if c == d then 1 else 0) m (lookup d w.channels)
  push-copies c d m w none e = elim (Bool-cases (c == d)) [
    | inl q ↦
        let same : c ≡ d = ground arith in
        let gone : lookup d w.channels ≡ none = ap (λ k. lookup k w.channels) (sym same) ∙ e in
        rw (q, gone) refl
    | inr q ↦ rw q (sym (no_copies m (lookup d w.channels)))
  ]
  push-copies c d m w (some ch) e = elim (Bool-cases (c == d)) [
    | inl q ↦
        let same : c ≡ d = ground arith in
        let here : lookup d w.channels ≡ some ch = ap (λ k. lookup k w.channels) (sym same) ∙ e in
        elim (Bool-cases (ltb (length ch.queue) ch.capacity)) [
          | inl room ↦ rw (room, lookup-insert, q, here) (sym (one_copy m ch ∙ rw room refl))
          | inr full ↦ rw (full, q, here) (sym (one_copy m ch ∙ rw full refl))
        ]
    | inr q ↦ elim (Bool-cases (ltb (length ch.queue) ch.capacity)) [
      | inl room ↦ rw (room, lookup-insert, q) (sym (no_copies m (lookup d w.channels)))
      | inr full ↦ rw (full, q) (sym (no_copies m (lookup d w.channels)))
    ]
  ]

  notify-copies :
      (d : ℕ) (l : Listener) (m : M) (w : World M)
      → lookup d (notify l m w).0.channels ≡ with_copies (one_to d l) m (lookup d w.channels)
  unfolding notify
  notify-copies d (chan_listener c) m w = push-copies c d m w (lookup c w.channels) refl
  notify-copies d (callback_listener f) m w = sym (no_copies m (lookup d w.channels))

  push-calls :
      (c : ℕ) (m : M) (w : World M) (ch : Option (Channel M)) → (push c m w ch).0.calls ≡ w.calls
  push-calls c m w none = refl
  push-calls c m w (some ch) = ground arith

  notify-calls :
      (l : Listener) (m : M) (w : World M) → (notify l m w).0.calls ≡ w.calls ++ call_of l m
  unfolding notify
  notify-calls (chan_listener c) m w =
      push-calls c m w (lookup c w.channels) ∙ sym (append-nil w.calls)
  notify-calls (callback_listener f) m w = refl

  step_copies :
      (k : ℕ) (d : ℕ) (l : Listener) (m : M) (ch : Option (Channel M))
      → with_copies k m (with_copies (one_to d l) m ch) ≡ with_copies (k + one_to d l) m ch
  step_copies k d (chan_listener c) m ch = elim (Bool-cases (c == d)) [
    | inl q ↦ rw q (more_copies k m ch)
    | inr q ↦ rw (q, no_copies m ch) (ap (λ n. with_copies n m ch) (omega arith))
  ]
  step_copies k d (callback_listener f) m ch =
      rw (no_copies m ch) (ap (λ n. with_copies n m ch) (omega arith))

  channels-notify_all :
      (listeners : List IdListener) (m : M) (w : World M) (c : ℕ)
      → lookup c (notify_all listeners m w).0.channels
        ≡ with_copies (writers c listeners) m (lookup c w.channels)
  unfolding notify_all writers
  channels-notify_all [] m w c = sym (no_copies m (lookup c w.channels))
  channels-notify_all (l ∷ rest) m w c =
      channels-notify_all rest m (notify l.listener m w).0 c
      ∙ ap (with_copies (writers c rest) m) (notify-copies c l.listener m w)
      ∙ step_copies (writers c rest) c l.listener m (lookup c w.channels)

  calls-notify_all :
      (listeners : List IdListener) (m : M) (w : World M)
      → (notify_all listeners m w).0.calls ≡ w.calls ++ calls_of listeners m
  unfolding notify_all calls_of
  calls-notify_all [] m w = sym (append-nil w.calls)
  calls-notify_all (l ∷ rest) m w =
      calls-notify_all rest m (notify l.listener m w).0
      ∙ ap (λ t. t ++ calls_of rest m) (notify-calls l.listener m w)
      ∙ append_assoc w.calls (call_of l.listener m) (calls_of rest m)

  -- A message that is handed to listeners: the function of each callback among them is called with it once, in
  -- their order; each channel gets one copy at its end for each of them that writes to it, or as many as it
  -- has room for, and keeps what it had; and there are as many errors as copies that had no room or no channel.
  pub notify_all-reaches :
      (listeners : List IdListener) (m : M) (w : World M)
      → let (after, errors) = notify_all listeners m w in
        (after.calls ≡ w.calls ++ calls_of listeners m)
        × ((c : ℕ)
            → lookup c after.channels ≡ with_copies (writers c listeners) m (lookup c w.channels))
        × (delivered after + errors ≡ delivered w + length listeners)
  notify_all-reaches listeners m w = (
    calls-notify_all listeners m w,
    channels-notify_all listeners m w,
    delivered-notify_all listeners m w,
  )
