-- ===== src/Protocols/MqttApp/Publish.antt =====
-- What `mqtt_publish_internal` of src/protocols/mqtt_app.c sends while it waits for the PUBACK.
use hq_platform.Base.{
  ℕ, zero, suc, ◌+◌, ◌≤◌, ◌≡◌, refl, ap, ap₂, ◌∙◌, inl, inr, true, false, List, [], ◌∷◌, ◌++◌,
  arith, replicate, ltb, if◌then◌else◌, Bool-cases,
}
use hq_platform.Base.Text.{CString}
use hq_platform.Protocols.MqttApp.{
  App, Subscription, PublishOpts, puback, Call, emit, resubscribe, retry_count, mqtt_pub, mqtt_sub,
  semaphore_give,
}
use hq_platform.Protocols.MqttApp.Connection.{
  Mongoose, connect, connected, ev_handler, handle_command, handle_message, disconnected,
  puback_timer, suback_timer, unsuback_timer, reconnect_timer, Action, act, act_all, event,
  puback_expired, suback_expired, unsuback_expired, reconnect_expired, ev_connect, ev_mqtt_cmd,
  ev_mqtt_msg, ev_close, ev_error, ev_other, cmd_suback, cmd_unsuback, cmd_puback,
}
use hq_platform.Protocols.MqttApp.Api.{publish}

-- The messages that were published, the last one first.
abbrev pub published : List Call → List PublishOpts
published [] = []
published (mqtt_pub opts ∷ log) = opts ∷ published log
published (_ ∷ log) = published log

-- How often the semaphore of the PUBACK was given.
abbrev pub given : List Call → ℕ
given [] = 0
given (semaphore_give puback ∷ log) = 1 + given log
given (_ ∷ log) = given log

-- The step from `s` to `t` sends the pending message again `times` times.
pub record Resends (s t : App) : Type 0 where
  pub times : ℕ
  pub sent : published t.log ≡ replicate times s.publish_opts ++ published s.log
  pub opts : t.publish_opts ≡ s.publish_opts
  pub counted : t.retries ≡ s.retries + times
  pub few : s.retries ≤ retry_count → t.retries ≤ retry_count
  pub acked : s.acks.puback_received ≡ true → (times ≡ 0) × (t.acks.puback_received ≡ true)
  pub woken : given s.log ≤ given t.log

replicate-add :
    (m n : ℕ) (x : PublishOpts) (xs : List PublishOpts)
    → replicate n x ++ (replicate m x ++ xs) ≡ replicate (m + n) x ++ xs
replicate-add m zero x xs = ap (λ k. replicate k x ++ xs) (omega arith)
replicate-add m (suc n) x xs =
    ap (λ z. x ∷ z) (replicate-add m n x xs) ∙ ap (λ k. replicate k x ++ xs) (the_successor m n)
  where
    the_successor : (a b : ℕ) → suc (a + b) ≡ a + suc b
    the_successor a b = omega arith

quiet :
    {s t : App}
    → published t.log ≡ published s.log
    → t.publish_opts ≡ s.publish_opts
    → t.retries ≡ s.retries
    → (s.acks.puback_received ≡ true → t.acks.puback_received ≡ true)
    → given s.log ≤ given t.log
    → Resends s t
quiet sent opts retries acked woken = record {
  times = 0;
  sent = sent;
  opts = opts;
  counted = omega arith;
  few = λ h. omega arith;
  acked = λ h. (refl, acked h);
  woken = woken;
}

then_Resends : {s t u : App} → Resends s t → Resends t u → Resends s u
then_Resends {s} {t} a b = record {
  times = a.times + b.times;
  sent =
      b.sent
      ∙ ap (λ o. replicate b.times o ++ published t.log) a.opts
      ∙ ap (λ z. replicate b.times s.publish_opts ++ z) a.sent
      ∙ replicate-add a.times b.times s.publish_opts (published s.log);
  opts = b.opts ∙ a.opts;
  counted = omega (arith, a.counted, b.counted);
  few = λ h. b.few (a.few h);
  acked = λ h.
      let (none_first, still) = a.acked h in
      let (none_later, at_last) = b.acked still in (omega arith, at_last);
  woken = omega (arith, a.woken, b.woken);
}

resubscribe-Resends : (subs : List Subscription) (s : App) → Resends s (resubscribe subs s)
unfolding resubscribe
resubscribe-Resends [] s = quiet refl refl refl (λ h. h) (omega arith)
resubscribe-Resends (x ∷ subs) s = then_Resends (first x) (resubscribe-Resends subs _)
  where
    first : (y : Subscription) → Resends s (if y.active then emit (mqtt_sub y.topic 0) s else s)
    first y = quiet (ground arith) (ground arith) (ground arith) (λ h. ground arith) (ground arith)

abbrev pub opts_of : CString → CString → ℕ → PublishOpts
opts_of topic message qos = record { qos = qos; topic = topic; message = message }

module _ (M : Mongoose) where
  connected-Resends : (s : App) → Resends s (connected M s)
  unfolding connected
  connected-Resends s =
      then_Resends
        (quiet (ground arith) (ground arith) (ground arith) (λ h. ground arith) (ground arith))
        (resubscribe-Resends s.subscriptions _)

  pub act-Resends : (a : Action) (s : App) → Resends s (act M a s)
  unfolding act ev_handler handle_command disconnected handle_message connect puback_timer
      suback_timer unsuback_timer reconnect_timer
  act-Resends (event ev_connect) s = connected-Resends s
  act-Resends (event (ev_mqtt_cmd cmd_suback)) s = quiet refl refl refl (λ h. h) (omega arith)
  act-Resends (event (ev_mqtt_cmd cmd_unsuback)) s = quiet refl refl refl (λ h. h) (omega arith)
  act-Resends (event (ev_mqtt_cmd cmd_puback)) s = quiet refl refl refl (λ h. refl) (omega arith)
  act-Resends (event (ev_mqtt_cmd _)) s = quiet refl refl refl (λ h. h) (omega arith)
  act-Resends (event (ev_mqtt_msg topic bytes)) s =
      quiet (ground arith) (ground arith) (ground arith) (λ h. ground arith) (ground arith)
  act-Resends (event ev_close) s = quiet refl refl refl (λ h. h) (omega arith)
  act-Resends (event ev_error) s = quiet refl refl refl (λ h. h) (omega arith)
  act-Resends (event ev_other) s = quiet refl refl refl (λ h. h) (omega arith)
  act-Resends puback_expired s = elim (Bool-cases s.acks.puback_received) [
    | inl acked ↦
        quiet (ground arith) (ground arith) (ground arith) (λ h. ground arith) (ground arith)
    | inr waits ↦ elim (Bool-cases (ltb s.retries retry_count)) [
      | inl again ↦
          rw (waits, again)
            (record {
              times = 1;
              sent = refl;
              opts = refl;
              counted = refl;
              few = λ h. ground arith;
              acked = λ h. ground arith;
              woken = omega arith;
            })
      | inr over ↦
          quiet (ground arith) (ground arith) (ground arith) (λ h. ground arith) (ground arith)
    ]
  ]
  act-Resends suback_expired s =
      quiet (ground arith) (ground arith) (ground arith) (λ h. ground arith) (ground arith)
  act-Resends unsuback_expired s =
      quiet (ground arith) (ground arith) (ground arith) (λ h. ground arith) (ground arith)
  act-Resends (reconnect_expired serial answer) s =
      quiet (ground arith) (ground arith) (ground arith) (λ h. ground arith) (ground arith)

  pub act_all-Resends : (actions : List Action) (s : App) → Resends s (act_all M actions s)
  unfolding act_all
  act_all-Resends [] s = quiet refl refl refl (λ h. h) (omega arith)
  act_all-Resends (a ∷ later) s = then_Resends (act-Resends a s) (act_all-Resends later (act M a s))

  act_all-append :
      (before after : List Action) (s : App)
      → act_all M (before ++ after) s ≡ act_all M after (act_all M before s)
  unfolding act_all
  act_all-append [] after s = refl
  act_all-append (a ∷ before) after s = act_all-append before after (act M a s)

  acked-published :
      (after : List Action) (s : App)
      → published (act_all M (event (ev_mqtt_cmd cmd_puback) ∷ after) s).log ≡ published s.log
  unfolding act_all act ev_handler handle_command
  acked-published after s =
      let acked = act M (event (ev_mqtt_cmd cmd_puback)) s in
      let r = act_all-Resends after acked in
      let (none_sent, _) = r.acked refl in
      r.sent ∙ ap (λ n. replicate n acked.publish_opts ++ published acked.log) none_sent

pub publish-begun :
    (s : App) (topic message : CString) (qos : ℕ)
    → (publish s topic message qos).1 ≡ true
    → let t = (publish s topic message qos).0 in
      (published t.log ≡ opts_of topic message qos ∷ published s.log)
      × (t.publish_opts ≡ opts_of topic message qos)
      × (t.retries ≡ 0)
      × (t.acks.puback_received ≡ false)
      × (given t.log ≡ given s.log)
unfolding publish
publish-begun s topic message qos h = ground arith

module _ (M : Mongoose) where
  -- Where `mqtt_publish_internal` waits for a PUBACK, the message was transmitted at least once and
  -- at most four times, it and no other, whatever events and timers come; and once the PUBACK is
  -- there it is not transmitted again.
  pub publish-transmissions :
      (s : App) (topic message : CString) (qos : ℕ) (before after : List Action)
      → (publish s topic message qos).1 ≡ true
      → let begun = (publish s topic message qos).0 in
        ((n : ℕ) × (1 ≤ n)
          × (n ≤ 1 + retry_count)
          × (published (act_all M before begun).log
              ≡ replicate n (opts_of topic message qos) ++ published s.log))
        × (published (act_all M (before ++ event (ev_mqtt_cmd cmd_puback) ∷ after) begun).log
            ≡ published (act_all M before begun).log)
  publish-transmissions s topic message qos before after h =
      let begun = (publish s topic message qos).0 in
      let opts = opts_of topic message qos in
      let (sent, same, fresh, unacked, _) = publish-begun s topic message qos h in
      let r = act_all-Resends M before begun in
      (
        (
          r.times + 1,
          omega arith,
          omega (arith, r.counted, r.few (omega arith)),
          r.sent
              ∙ ap₂ (λ o z. replicate r.times o ++ z) same sent
              ∙ replicate-add 1 r.times opts (published s.log)
              ∙ ap (λ k. replicate k opts ++ published s.log) (omega arith),
        ),
        ap (λ z. published z.log)
              (act_all-append M before (event (ev_mqtt_cmd cmd_puback) ∷ after) begun)
            ∙ acked-published M after (act_all M before begun),
      )
