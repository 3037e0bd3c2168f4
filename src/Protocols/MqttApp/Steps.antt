-- ===== src/Protocols/MqttApp/Steps.antt =====
-- Every history of the client: the calls, the events and timers while they wait, in any order.
use hq_platform.Base.{
  ℕ, zero, suc, ◌≤◌, ◌≡◌, inl, inr, refl, sym, ap, ◌∙◌, subst, Bool, true, false, ◌&&◌, List,
  Option, none, some, arith, length, take, get_elem?, take_all, length-take, length-set, replicate,
  Bool-cases, Option-cases,
}
use hq_platform.Base.Text.{CString}
use hq_platform.Protocols.MqttConfig.{Device}
use hq_platform.Protocols.MqttApp.{
  App, Message, find_subscription, find_free_subscription_slot, put_subscription, empty_slot,
}
use hq_platform.Protocols.MqttApp.Connection.{
  Mongoose, connect, disconnected, handle_command, handle_message, connected, ev_handler,
  puback_timer, suback_timer, unsuback_timer, reconnect_timer, Action, act, event, puback_expired,
  suback_expired, unsuback_expired, reconnect_expired, ev_connect, ev_mqtt_cmd, ev_mqtt_msg,
  ev_close, ev_error, ev_other, cmd_suback, cmd_unsuback, cmd_puback,
}
use hq_platform.Protocols.MqttApp.Api.{
  set_callback, new_subscription, subscribe_new, subscribe_begin, subscribe_end, unsubscribe_begin,
  unsubscribe_end, task_round, post_data, deinit, init, init_started, no_subscriptions,
}
use hq_platform.Protocols.MqttApp.Invariant.{
  Sound, AllSound, empty_slot-Sound, AllSound-get, Distinct, Distinct-set_same, AllSound-set,
  IsValid, put-IsValid, clear-IsValid, same-IsValid, find_from-get, find_from-Fresh,
  resubscribe-subscriptions,
}

pub new_subscription-Sound :
    (topic : CString) (callback : ℕ) → Sound (new_subscription topic callback)
new_subscription-Sound topic callback = record {
  fits = omega (arith, length-take 127 topic);
  called = λ a. cc;
}

subscribe_new-IsValid :
    (s : App) (topic : CString) (qos callback timeout_ms : ℕ) (slot : Option ℕ)
    → length topic ≤ 127
    → find_subscription s topic ≡ none
    → IsValid s
    → IsValid (subscribe_new s topic qos callback timeout_ms slot).0
unfolding subscribe_new
subscribe_new-IsValid s topic qos callback timeout_ms none short fresh v = v
subscribe_new-IsValid s topic qos callback timeout_ms (some i) short fresh v =
    let whole : take 127 topic ≡ topic = take_all 127 topic short in
    same-IsValid refl (
      put-IsValid s i (new_subscription topic callback) (new_subscription-Sound topic callback)
        (λ a. rw whole (find_from-Fresh s.subscriptions topic 0 fresh)) v)

pub subscribe_begin-IsValid :
    (s : App) (topic : CString) (qos : ℕ) (callback : Option ℕ) (timeout_ms : ℕ)
    → length topic ≤ 127
    → IsValid s
    → IsValid (subscribe_begin s (some topic) qos callback timeout_ms).0
unfolding subscribe_begin
subscribe_begin-IsValid s topic qos none timeout_ms short v = v
subscribe_begin-IsValid s topic qos (some callback) timeout_ms short v =
    elim (Bool-cases (s.initialized && s.connected)) [
      | inr down ↦ rw down v
      | inl up ↦ elim (Option-cases (find_subscription s topic)) [
        | inl fresh ↦
            rw (up, fresh)
              (subscribe_new-IsValid s topic qos callback timeout_ms (find_free_subscription_slot s)
                short fresh v)
        | inr (i, found) ↦ rw (up, found) (update i found)
      ]
    ]
  where
    update :
        (i : ℕ)
        → find_subscription s topic ≡ some i
        → IsValid (put_subscription s i (set_callback (get_elem? s.subscriptions i) callback))
    update i found =
        let (n, sub, at, here, act, same) = find_from-get s.subscriptions topic 0 i found in
        let place : get_elem? s.subscriptions i ≡ some sub =
          ap (λ k. get_elem? s.subscriptions k) (omega arith) ∙ here in
        rw place (record {
          size = length-set s.subscriptions i (record sub { callback = some callback }) ∙ v.size;
          sound =
              AllSound-set s.subscriptions i (record sub { callback = some callback }) v.sound
                (record {
                  fits = (AllSound-get s.subscriptions i sub v.sound place).fits;
                  called = λ a. cc;
                });
          distinct =
              Distinct-set_same s.subscriptions i sub (record sub { callback = some callback })
                place refl refl v.distinct;
        })

pub subscribe_end-IsValid :
    (s : App) (i : ℕ) (taken : Bool) → IsValid s → IsValid (subscribe_end s i taken).0
unfolding subscribe_end
subscribe_end-IsValid s i false v = clear-IsValid s i v
subscribe_end-IsValid s i true v = elim (Bool-cases s.acks.suback_received) [
  | inl acked ↦ simp acked v
  | inr silent ↦ simp silent (clear-IsValid s i v)
]

pub unsubscribe_begin-same :
    (s : App) (topic : Option CString) (timeout_ms : ℕ)
    → (unsubscribe_begin s topic timeout_ms).0.subscriptions ≡ s.subscriptions
unfolding unsubscribe_begin
unsubscribe_begin-same s none timeout_ms = refl
unsubscribe_begin-same s (some topic) timeout_ms = ground arith

pub unsubscribe_end-IsValid :
    (s : App) (i : ℕ) (taken : Bool) → IsValid s → IsValid (unsubscribe_end s i taken).0
unfolding unsubscribe_end
unsubscribe_end-IsValid s i false v = v
unsubscribe_end-IsValid s i true v = elim (Bool-cases s.acks.unsuback_received) [
  | inl acked ↦ simp acked (clear-IsValid s i v)
  | inr silent ↦ simp silent v
]

pub task_round-same :
    (s : App) (msg : Message) → (task_round s msg).0.subscriptions ≡ s.subscriptions
unfolding task_round
task_round-same s msg = ground arith

pub post_data-same :
    (s : App) (topic message : CString) (qos : ℕ) (sent : Bool)
    → (post_data s topic message qos sent).0.subscriptions ≡ s.subscriptions
unfolding post_data
post_data-same s topic message qos sent = ground arith

pub connect-same :
    (serial : Option CString) (answer : Option ℕ) (s : App)
    → (connect serial answer s).subscriptions ≡ s.subscriptions
unfolding connect
connect-same serial answer s = ground arith

AllSound-empty : (n : ℕ) → AllSound (replicate n empty_slot)
AllSound-empty zero = tt
AllSound-empty (suc n) = (empty_slot-Sound, AllSound-empty n)

Distinct-empty : (n : ℕ) → Distinct (replicate n empty_slot)
Distinct-empty zero = tt
Distinct-empty (suc n) = (λ a. cc, Distinct-empty n)

pub no_subscriptions-IsValid : {s : App} → s.subscriptions ≡ no_subscriptions → IsValid s
no_subscriptions-IsValid e = record {
  size = ap length e;
  sound = subst AllSound (sym e) (AllSound-empty 10);
  distinct = subst Distinct (sym e) (Distinct-empty 10);
}

pub deinit-IsValid : (s : App) → IsValid s → IsValid (deinit s)
unfolding deinit
deinit-IsValid s v = elim (Bool-cases s.initialized) [
  | inl up ↦ rw up (no_subscriptions-IsValid refl)
  | inr down ↦ simp down v
]

pub init-IsValid_app :
    (D : Device) (d : D.State) (serial : Option CString) (answer : Option ℕ) (created : Bool)
    (s t : App)
    → init D d serial answer created s ≡ some t
    → IsValid t
unfolding init
init-IsValid_app D d serial answer created s t e =
    no_subscriptions-IsValid (elim (Bool-cases s.initialized) [
      | inl up ↦ absurd (ground arith)
      | inr down ↦ elim (Bool-cases created) [
        | inl made ↦
            let kept : t.subscriptions
                ≡ (connect serial answer (init_started D d s)).subscriptions =
              ground arith in
            kept ∙ connect-same serial answer (init_started D d s)
        | inr missing ↦ absurd (ground arith)
      ]
    ])

module _ (M : Mongoose) where
  connected-same : (s : App) → (connected M s).subscriptions ≡ s.subscriptions
  unfolding connected
  connected-same s = resubscribe-subscriptions s.subscriptions _ ∙ ground arith

  handle_message-same :
      (topic bytes : List ℕ) (s : App)
      → (handle_message M topic bytes s).subscriptions ≡ s.subscriptions
  unfolding handle_message
  handle_message-same topic bytes s = ground arith

  pub act-same : (a : Action) (s : App) → (act M a s).subscriptions ≡ s.subscriptions
  unfolding act ev_handler handle_command disconnected
  act-same (event ev_connect) s = connected-same s
  act-same (event (ev_mqtt_cmd cmd_suback)) s = refl
  act-same (event (ev_mqtt_cmd cmd_unsuback)) s = refl
  act-same (event (ev_mqtt_cmd cmd_puback)) s = refl
  act-same (event (ev_mqtt_cmd _)) s = refl
  act-same (event (ev_mqtt_msg topic bytes)) s = handle_message-same topic bytes s
  act-same (event ev_close) s = refl
  act-same (event ev_error) s = refl
  act-same (event ev_other) s = refl
  act-same puback_expired s = unfold puback_timer in ground arith
  act-same suback_expired s = unfold suback_timer in ground arith
  act-same unsuback_expired s = unfold unsuback_timer in ground arith
  act-same (reconnect_expired serial answer) s =
      unfold reconnect_timer in
      elim (Bool-cases s.connected) [
        | inl up ↦ simp up refl
        | inr down ↦ simp down (connect-same serial answer s)
      ]
