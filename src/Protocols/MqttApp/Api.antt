-- ===== src/Protocols/MqttApp/Api.antt =====
-- The calls of src/protocols/mqtt_app.c. One that waits is two functions: what it does before the
-- wait, and what it does with the answer of `xSemaphoreTake`; the events and timers in between are
-- actions of Connection.
use hq_platform.Base.{
  ℕ, ◌+◌, ◌/◌, ◌%◌, ◌^◌, Bool, true, false, ◌&&◌, not, List, [], ◌∷◌, Option, none, some, take,
  length, get_elem?, replicate, leb, ◌==◌, if◌then◌else◌,
}
use hq_platform.Base.Text.{CString}
use hq_platform.Protocols.MqttConfig
use hq_platform.Protocols.MqttConfig.{Device}
use hq_platform.Protocols.MqttApp.{
  App, Subscription, PublishOpts, Message, reconnect, puback, suback, unsuback, emit, emit_all,
  timer_start, timer_change_period, timer_create, timer_delete, semaphore_create, semaphore_delete,
  config_set_callback, queue_create, queue_delete, queue_send, task_create, mqtt_sub, mqtt_pub,
  mqtt_send_header, send, mqtt_disconnect, close_connection, empty_slot, no_acks, no_opts,
  find_subscription, find_free_subscription_slot, put_subscription, clear_subscription,
  max_subscriptions,
}
use hq_platform.Protocols.MqttApp.Connection.{connect}

-- TIMEOUT_DEFAULT_MS, RECONNECT_DELAY_MS and MESSAGE_QUEUE_SIZE
abbrev timeout_default_ms : ℕ
timeout_default_ms = 5000

abbrev reconnect_delay_ms : ℕ
reconnect_delay_ms = 30_000

abbrev message_queue_size : ℕ
message_queue_size = 6

-- How a call goes on: it has returned, or it waits, for the subscription at an index.
pub data Begun : Type 0 where
  returned : Bool → Begun
  waiting : ℕ → Begun

abbrev pub set_callback : Option Subscription → ℕ → Subscription
set_callback none callback = record empty_slot { callback = some callback }
set_callback (some sub) callback = record sub { callback = some callback }

abbrev pub new_subscription : CString → ℕ → Subscription
new_subscription topic callback = record {
  topic = take 127 topic;
  callback = some callback;
  active = true;
  pending_unsub = false;
}

-- From `find_free_subscription_slot` on; the topic is cut to its buffer, and the new subscription is
-- active before the answer is there.
unfoldable pub subscribe_new : App → CString → ℕ → ℕ → ℕ → Option ℕ → App × Begun
subscribe_new s topic qos callback timeout_ms none = (s, returned false)
subscribe_new s topic qos callback timeout_ms (some i) =
    let s1 = record (put_subscription s i (new_subscription topic callback)) {
      pending_subscribe_topic = take 127 topic;
      acks = record s.acks { suback_received = false };
    } in
    (
      emit_all
          (mqtt_sub topic qos ∷ timer_change_period suback timeout_ms ∷ timer_start suback ∷ []) s1,
      waiting i,
    )

-- `MqttApp_Subscribe` up to the wait; the topic and the callback may be NULL.
unfoldable pub subscribe_begin : App → Option CString → ℕ → Option ℕ → ℕ → App × Begun
unfolding subscribe_new
subscribe_begin s none qos callback timeout_ms = (s, returned false)
subscribe_begin s (some topic) qos none timeout_ms = (s, returned false)
subscribe_begin s (some topic) qos (some callback) timeout_ms =
    if s.initialized && s.connected
    then (elim (find_subscription s topic) [
      | some i ↦ (
        put_subscription s i (set_callback (get_elem? s.subscriptions i) callback),
        returned true,
      )
      | none ↦ subscribe_new s topic qos callback timeout_ms (find_free_subscription_slot s)
    ])
    else (s, returned false)

-- The end of `MqttApp_Subscribe`; the flag is that the semaphore was taken.
unfoldable pub subscribe_end : App → ℕ → Bool → App × Bool
subscribe_end s i taken =
    if not taken
    then (clear_subscription s i, false)
    else if not s.acks.suback_received
    then (clear_subscription s i, false)
    else (s, true)

abbrev pub two_bytes : ℕ → List ℕ
two_bytes n = (n / 256) % 256 ∷ n % 256 ∷ []

-- From the packet of `MqttApp_Unsubscribe` on.
unfoldable pub unsubscribe_found : App → CString → ℕ → ℕ → App × Begun
unsubscribe_found s topic timeout_ms i =
    let s1 = record s {
      pending_unsubscribe_topic = take 127 topic;
      acks = record s.acks { unsuback_received = false };
      packet_id = (s.packet_id + 1) % 2 ^ 16;
    } in
    (
      emit_all
          (mqtt_send_header (2 + 2 + length topic)
            ∷ send (two_bytes s.packet_id)
            ∷ send (two_bytes (length topic))
            ∷ send topic
            ∷ timer_change_period unsuback timeout_ms
            ∷ timer_start unsuback
            ∷ [])
          s1,
      waiting i,
    )

-- `MqttApp_Unsubscribe` up to the wait
unfoldable pub unsubscribe_begin : App → Option CString → ℕ → App × Begun
unfolding unsubscribe_found
unsubscribe_begin s none timeout_ms = (s, returned false)
unsubscribe_begin s (some topic) timeout_ms =
    if s.initialized && s.connected
    then (elim (find_subscription s topic) [
      | none ↦ (s, returned false)
      | some i ↦ unsubscribe_found s topic timeout_ms i
    ])
    else (s, returned false)

-- The end of `MqttApp_Unsubscribe`
unfoldable pub unsubscribe_end : App → ℕ → Bool → App × Bool
unsubscribe_end s i taken =
    if not taken
    then (s, false)
    else if not s.acks.unsuback_received
    then (s, false)
    else (clear_subscription s i, true)

-- `mqtt_publish_internal` up to the wait, which is the flag; nothing follows it but output.
unfoldable pub publish : App → CString → CString → ℕ → App × Bool
publish s topic message qos =
    let opts : PublishOpts = record { qos = qos; topic = topic; message = message } in
    let s1 = emit (mqtt_pub opts) (record s {
      acks = record s.acks { puback_received = false };
      publish_opts = opts;
      retries = 0;
    }) in
    elim s.nc [
      | none ↦ (s, false)
      | some nc ↦
          if s.connected
          then (if qos == 1 then (emit (timer_start puback) s1, true) else (s1, false))
          else (s, false)
    ]

-- One round of `mongoose_task`, with a message that was received.
unfoldable pub task_round : App → Message → App × Bool
unfolding publish
task_round s msg = if s.connected then publish s msg.topic msg.message msg.qos else (s, false)

-- `MqttApp_PostData`, with the answer of `xQueueSend`
unfoldable pub post_data : App → CString → CString → ℕ → Bool → App × Bool
post_data s topic message qos sent =
    if not s.initialized
    then (s, false)
    else if leb 64 (length topic)
    then (s, false)
    else if leb 256 (length message)
    then (s, false)
    else (
      emit (queue_send (record { topic = take 63 topic; message = take 255 message; qos = qos })) s,
      sent,
    )

-- `MqttApp_IsConnected`
unfoldable pub is_connected : App → Bool
is_connected s = s.initialized && s.connected

abbrev pub no_subscriptions : List Subscription
no_subscriptions = replicate max_subscriptions empty_slot

-- A connection that is NULL would be dereferenced there.
abbrev disconnect_now : App → App
disconnect_now s =
    if s.connected
    then (elim s.nc [
      | none ↦ emit mqtt_disconnect s
      | some nc ↦ emit_all (mqtt_disconnect ∷ close_connection nc ∷ []) s
    ])
    else s

-- `MqttApp_Deinit`
unfoldable pub deinit : App → App
deinit s =
    let s1 = disconnect_now (
      emit_all
        (timer_delete reconnect
          ∷ timer_delete suback
          ∷ timer_delete unsuback
          ∷ timer_delete puback
          ∷ queue_delete
          ∷ semaphore_delete puback
          ∷ semaphore_delete suback
          ∷ semaphore_delete unsuback
          ∷ [])
        s) in
    if s.initialized
    then record s1 {
      initialized = false;
      connected = false;
      nc = none;
      subscriptions = no_subscriptions;
      pending_subscribe_topic = [];
      pending_unsubscribe_topic = [];
      retries = 0;
      publish_opts = no_opts;
      acks = no_acks;
    }
    else s

module _ (D : Device) where
  -- `MqttApp_Init` up to the start of the reconnect timer
  abbrev pub init_started : D.State → App → App
  init_started d s =
      let configured = record s { config = MqttConfig.init D d s.config } in
      let made =
        emit_all
          (config_set_callback
            ∷ timer_create puback timeout_default_ms true
            ∷ timer_create reconnect reconnect_delay_ms true
            ∷ timer_create suback timeout_default_ms false
            ∷ timer_create unsuback timeout_default_ms false
            ∷ queue_create message_queue_size
            ∷ semaphore_create puback
            ∷ semaphore_create suback
            ∷ semaphore_create unsuback
            ∷ [])
          configured in
      emit_all (task_create ∷ timer_start reconnect ∷ [])
        (record made { subscriptions = no_subscriptions; acks = no_acks })

  -- `MqttApp_Init`, with the device, the serial number, what `mg_mqtt_connect` returns, and whether
  -- every timer, queue and semaphore could be made; `none` is an assertion that fails.
  unfoldable pub init : D.State → Option CString → Option ℕ → Bool → App → Option App
  init d serial answer created s =
      if s.initialized
      then none
      else if created
      then some (record (connect serial answer (init_started d s)) { initialized = true })
      else none

  -- `config_update_callback`
  unfoldable pub config_update : D.State → Option CString → Option ℕ → Bool → App → Option App
  unfolding init deinit
  config_update d serial answer created s = init d serial answer created (deinit s)
