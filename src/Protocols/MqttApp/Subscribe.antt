-- ===== src/Protocols/MqttApp/Subscribe.antt =====
-- What `MqttApp_Subscribe` of src/protocols/mqtt_app.c answers, and what it leaves in the table.
use hq_platform.Base.{
  ℕ, zero, suc, ◌+◌, ◌<◌, ◌≤◌, ◌≡◌, inl, inr, refl, sym, ap, ◌∙◌, Bool, true, false, ◌&&◌, ◌||◌,
  List, [], ◌∷◌, none, some, arith, length, set, get_elem?, subst, get_elem?-set_self, take_all,
  if◌then◌else◌, Bool-cases, Option-cases,
}
use hq_platform.Base.Text.{CString, str_eq_refl}
use hq_platform.Protocols.MqttApp.{
  App, Subscription, emit, find_from, free_from, find_subscription, find_free_subscription_slot,
  empty_slot, resubscribe,
}
use hq_platform.Protocols.MqttApp.Connection.{
  Mongoose, connect, connected, ev_handler, handle_command, handle_message, disconnected,
  puback_timer, suback_timer, unsuback_timer, reconnect_timer, Action, act, act_all, event,
  puback_expired, suback_expired, unsuback_expired, reconnect_expired, ev_connect, ev_mqtt_cmd,
  ev_mqtt_msg, ev_close, ev_error, ev_other, cmd_suback, cmd_unsuback, cmd_puback,
}
use hq_platform.Protocols.MqttApp.Api.{
  returned, waiting, new_subscription, subscribe_new, subscribe_begin, subscribe_end,
  unsubscribe_begin,
}
use hq_platform.Protocols.MqttApp.Invariant.{AllSound, AllSound-get, AllSound-set, find_from-get}
use hq_platform.Protocols.MqttApp.Steps.{new_subscription-Sound, act-same}

-- A SUBACK is among the actions.
abbrev pub is_suback : Action → Bool
is_suback (event (ev_mqtt_cmd cmd_suback)) = true
is_suback _ = false

abbrev pub has_suback : List Action → Bool
has_suback [] = false
has_suback (a ∷ later) = is_suback a || has_suback later

resubscribe-acks : (subs : List Subscription) (s : App) → (resubscribe subs s).acks ≡ s.acks
unfolding resubscribe
resubscribe-acks [] s = refl
resubscribe-acks (x ∷ subs) s =
    resubscribe-acks subs (if x.active then emit _ s else s) ∙ ground arith

module _ (M : Mongoose) where
  act-suback :
      (a : Action) (s : App)
      → (act M a s).acks.suback_received ≡ is_suback a || s.acks.suback_received
  unfolding act ev_handler handle_command disconnected handle_message connected connect puback_timer
      suback_timer unsuback_timer reconnect_timer
  act-suback (event ev_connect) s =
      ap (λ k. k.suback_received) (resubscribe-acks s.subscriptions _) ∙ ground arith
  act-suback (event (ev_mqtt_cmd cmd_suback)) s = refl
  act-suback (event (ev_mqtt_cmd cmd_unsuback)) s = refl
  act-suback (event (ev_mqtt_cmd cmd_puback)) s = refl
  act-suback (event (ev_mqtt_cmd _)) s = refl
  act-suback (event (ev_mqtt_msg topic bytes)) s = ground arith
  act-suback (event ev_close) s = refl
  act-suback (event ev_error) s = refl
  act-suback (event ev_other) s = refl
  act-suback puback_expired s = ground arith
  act-suback suback_expired s = ground arith
  act-suback unsuback_expired s = ground arith
  act-suback (reconnect_expired serial answer) s = ground arith

  act_all-suback :
      (actions : List Action) (s : App)
      → (act_all M actions s).acks.suback_received ≡ has_suback actions || s.acks.suback_received
  unfolding act_all
  act_all-suback [] s = refl
  act_all-suback (a ∷ later) s = ground (arith, act_all-suback later (act M a s), act-suback a s)

  pub act_all-same :
      (actions : List Action) (s : App) → (act_all M actions s).subscriptions ≡ s.subscriptions
  unfolding act_all
  act_all-same [] s = refl
  act_all-same (a ∷ later) s = act_all-same later (act M a s) ∙ act-same M a s

-- The slot that is free becomes the place of the topic.
find_from-set_free :
    (subs : List Subscription) (topic : CString) (k j : ℕ) (new : Subscription)
    → find_from subs topic k ≡ none
    → free_from subs k ≡ some j
    → new.active ≡ true
    → new.topic ≡ topic
    → (n : ℕ) × (j ≡ k + n) × (find_from (set subs n new) topic k ≡ some j)
unfolding find_from free_from
find_from-set_free [] topic k j new h e a t = cc
find_from-set_free (x ∷ subs) topic k j new h e a t = elim (Bool-cases x.active) [
  | inl used ↦
      let (n, at, found) =
        find_from-set_free subs topic (k + 1) j new (ground arith) (ground arith) a t in
      (suc n, omega arith, ground arith)
  | inr unused ↦ (0, ground arith, ground (arith, str_eq_refl topic))
]

-- A slot that is emptied does not bring a topic back.
find_from-set_empty :
    (subs : List Subscription) (topic : CString) (k i : ℕ) (new : Subscription)
    → find_from subs topic k ≡ none
    → find_from (set (set subs i new) i empty_slot) topic k ≡ none
unfolding find_from
find_from-set_empty [] topic k i new h = refl
find_from-set_empty (x ∷ subs) topic k zero new h = ground arith
find_from-set_empty (x ∷ subs) topic k (suc i) new h =
    let rest = find_from-set_empty subs topic (k + 1) i new (ground arith) in ground arith

-- Where a call of `MqttApp_Subscribe` waits, it has put the topic into the free slot.
subscribe_begin-waits :
    (s : App) (topic : CString) (qos callback timeout_ms i : ℕ)
    → (subscribe_begin s (some topic) qos (some callback) timeout_ms).1 ≡ waiting i
    → (find_subscription s topic ≡ none)
      × (find_free_subscription_slot s ≡ some i)
      × ((subscribe_begin s (some topic) qos (some callback) timeout_ms).0.acks.suback_received
          ≡ false)
      × ((subscribe_begin s (some topic) qos (some callback) timeout_ms).0.subscriptions
          ≡ set s.subscriptions i (new_subscription topic callback))
unfolding subscribe_begin subscribe_new
subscribe_begin-waits s topic qos callback timeout_ms i h = ground arith

subscribe_end-answer :
    (s : App) (i : ℕ) (taken : Bool)
    → ((subscribe_end s i taken).1 ≡ taken && s.acks.suback_received)
      × ((subscribe_end s i taken).1 ≡ true
          → (subscribe_end s i taken).0.subscriptions ≡ s.subscriptions)
      × ((subscribe_end s i taken).1 ≡ false
          → (subscribe_end s i taken).0.subscriptions ≡ set s.subscriptions i empty_slot)
unfolding subscribe_end
subscribe_end-answer s i taken = (ground arith, λ yes. ground arith, λ no. ground arith)

module _ (M : Mongoose) where
  -- Where `MqttApp_Subscribe` waits, and only events and timers come until it goes on, it returns
  -- true exactly if it took the semaphore and a SUBACK was among them. Then the topic is found in
  -- its slot; if it returns false the topic is not found. The topic has at most 127 bytes.
  pub subscribe-answer :
      (s : App) (topic : CString) (qos callback timeout_ms i : ℕ) (actions : List Action)
      (taken : Bool)
      → length topic ≤ 127
      → (subscribe_begin s (some topic) qos (some callback) timeout_ms).1 ≡ waiting i
      → let waited =
          act_all M actions (subscribe_begin s (some topic) qos (some callback) timeout_ms).0 in
        ((subscribe_end waited i taken).1 ≡ taken && has_suback actions)
        × ((subscribe_end waited i taken).1 ≡ true
            → find_subscription (subscribe_end waited i taken).0 topic ≡ some i)
        × ((subscribe_end waited i taken).1 ≡ false
            → find_subscription (subscribe_end waited i taken).0 topic ≡ none)
  subscribe-answer s topic qos callback timeout_ms i actions taken short h =
      let (fresh, free, unacked, table) =
        subscribe_begin-waits s topic qos callback timeout_ms i h in
      let begun = (subscribe_begin s (some topic) qos (some callback) timeout_ms).0 in
      let waited = act_all M actions begun in
      let new = new_subscription topic callback in
      let here : waited.subscriptions ≡ set s.subscriptions i new =
        act_all-same M actions begun ∙ table in
      let (n, at, found) =
        find_from-set_free s.subscriptions topic 0 i new fresh free refl
          (take_all 127 topic short) in
      let (answer, kept, lost) = subscribe_end-answer waited i taken in
      let heard : waited.acks.suback_received ≡ has_suback actions =
        ground (arith, act_all-suback M actions begun) in
      let emptied = find_from-set_empty s.subscriptions topic 0 i new fresh in
      (
        answer ∙ rw heard refl,
        λ yes.
            ap (λ z. find_from z topic 0)
              (kept yes ∙ here ∙ ap (λ k. set s.subscriptions k new) (omega arith))
            ∙ found,
        λ no. ap (λ z. find_from z topic 0) (lost no ∙ ap (λ z. set z i empty_slot) here) ∙ emptied,
      )

-- A topic that does not fit its buffer is not found, since the whole of it is compared.
long-not_found :
    (s : App) (topic : CString)
    → AllSound s.subscriptions
    → 127 < length topic
    → find_subscription s topic ≡ none
long-not_found s topic sound long = elim (Option-cases (find_subscription s topic)) [
  | inl none_found ↦ none_found
  | inr (i, found) ↦
      let (n, sub, at, here, act, same) = find_from-get s.subscriptions topic 0 i found in
      absurd
        (omega (arith, (AllSound-get s.subscriptions n sub sound here).fits, ap length same, long))
]

free_from-lt :
    (subs : List Subscription) (k j : ℕ) → free_from subs k ≡ some j → j < k + length subs
unfolding free_from
free_from-lt [] k j h = cc
free_from-lt (x ∷ subs) k j h = elim (Bool-cases x.active) [
  | inl used ↦ let rest = free_from-lt subs (k + 1) j (ground arith) in omega arith
  | inr unused ↦ let at : some k ≡ some j = ground arith in ground arith
]

unsubscribe_begin-missing :
    (s : App) (topic : CString) (timeout_ms : ℕ)
    → find_subscription s topic ≡ none
    → unsubscribe_begin s (some topic) timeout_ms ≡ (s, returned false)
unfolding unsubscribe_begin
unsubscribe_begin-missing s topic timeout_ms h = ground arith

subscribe_begin-new :
    (s : App) (topic : CString) (qos callback timeout_ms i : ℕ)
    → s.initialized && s.connected ≡ true
    → find_subscription s topic ≡ none
    → find_free_subscription_slot s ≡ some i
    → (subscribe_begin s (some topic) qos (some callback) timeout_ms).1 ≡ waiting i
unfolding subscribe_begin subscribe_new
subscribe_begin-new s topic qos callback timeout_ms i up fresh free = simp (up, fresh, free) refl

-- A topic of more than 127 bytes is put into a free slot, cut, each time that `MqttApp_Subscribe`
-- is called with it on a client that is connected and has a free slot; `MqttApp_Unsubscribe` of it
-- then returns false and does nothing.
pub subscribe-long :
    (s : App) (topic : CString) (qos callback timeout_ms i : ℕ)
    → AllSound s.subscriptions
    → 127 < length topic
    → s.initialized && s.connected ≡ true
    → find_free_subscription_slot s ≡ some i
    → let t = (subscribe_begin s (some topic) qos (some callback) timeout_ms).0 in
      ((subscribe_begin s (some topic) qos (some callback) timeout_ms).1 ≡ waiting i)
      × (get_elem? t.subscriptions i ≡ some (new_subscription topic callback))
      × (unsubscribe_begin t (some topic) timeout_ms ≡ (t, returned false))
subscribe-long s topic qos callback timeout_ms i sound long up free =
    let fresh = long-not_found s topic sound long in
    let waits = subscribe_begin-new s topic qos callback timeout_ms i up fresh free in
    let (_, _, _, table) = subscribe_begin-waits s topic qos callback timeout_ms i waits in
    let t = (subscribe_begin s (some topic) qos (some callback) timeout_ms).0 in
    let still : AllSound t.subscriptions = subst AllSound (sym table) (
      AllSound-set s.subscriptions i (new_subscription topic callback) sound
        (new_subscription-Sound topic callback)) in
    (
      waits,
      ap (λ z. get_elem? z i) table
          ∙ get_elem?-set_self s.subscriptions i (new_subscription topic callback)
              (omega (arith, free_from-lt s.subscriptions 0 i free)),
      unsubscribe_begin-missing t topic timeout_ms (long-not_found t topic still long),
    )
