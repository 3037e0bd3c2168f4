-- ===== src/Protocols/MqttApp/Connection.antt =====
-- The connection of src/protocols/mqtt_app.c: connecting, the events of mongoose, and the timers.
use hq_platform.Base.{
  ℕ, ◌+◌, Bool, true, false, ◌&&◌, not, List, [], ◌∷◌, Option, none, some, take, ltb, leb, ◌==◌,
  if◌then◌else◌,
}
use hq_platform.Base.Text.{CString, codes}
use hq_platform.Protocols.MqttConfig.{Value, get_string, get_cert}
use hq_platform.Protocols.MqttApp.{
  App, Subscription, ConnectOpts, reconnect, puback, suback, unsuback, emit, timer_start,
  timer_stop, semaphore_give, mqtt_connect, mqtt_pub, tls_init, close_connection, deliver,
  resubscribe, retry_count,
}

-- What is used of mongoose: `mg_match` without captures, `mg_url_is_ssl` and `mg_url_host`.
pub record Mongoose : Type 0 where
  pub match : CString → CString → Bool
  pub url_is_ssl : CString → Bool
  pub url_host : CString → CString

abbrev text_or_empty : Option CString → CString
text_or_empty none = []
text_or_empty (some text) = text

-- The client id of the settings, else the serial number (`DevConfig_GetSerialNumber`), else a constant.
unfoldable pub effective_client_id : Option CString → Option CString → CString
effective_client_id (some (c ∷ client_id)) serial = c ∷ client_id
effective_client_id _ (some (c ∷ serial)) = c ∷ serial
effective_client_id _ _ = codes "esp32_device"

abbrev close_old : App → App
close_old s = elim s.nc [ none ↦ s | some nc ↦ emit (close_connection nc) s ]

-- `mqtt_connect`, with the serial number and what `mg_mqtt_connect` returns.
unfoldable pub connect : Option CString → Option ℕ → App → App
connect serial answer s =
    let opts : ConnectOpts = record {
      user = text_or_empty (get_string s.config Value.username);
      pass = text_or_empty (get_string s.config Value.password);
      client_id = effective_client_id (get_string s.config Value.client_id) serial;
    } in
    let address = text_or_empty (get_string s.config Value.address) in
    record (emit (mqtt_connect address opts) (close_old s)) { nc = answer }

abbrev bytes_or_empty : Option (List ℕ) → List ℕ
bytes_or_empty none = []
bytes_or_empty (some bytes) = bytes

-- A text in a zeroed block: the bytes before the first byte 0.
unfoldable pub until_nul : List ℕ → CString
until_nul [] = []
until_nul (b ∷ bytes) = let rest = until_nul bytes in if b == 0 then [] else b ∷ rest

-- `cmd` of `struct mg_mqtt_message`
pub data Command : Type 0 where
  cmd_suback cmd_unsuback cmd_puback cmd_pingresp cmd_pubrec cmd_pubcomp cmd_other : Command

-- What mongoose hands to `ev_handler`.
pub data Event : Type 0 where
  ev_connect : Event
  ev_mqtt_cmd : Command → Event
  ev_mqtt_msg : List ℕ → List ℕ → Event
  ev_close : Event
  ev_error : Event
  ev_other : Event

-- `mqtt_disconnected`
unfoldable pub disconnected : App → App
disconnected s = emit (timer_start reconnect) (record s { connected = false })

-- `handle_mqtt_command`
unfoldable pub handle_command : Command → App → App
handle_command cmd_suback s =
    emit (semaphore_give suback)
      (emit (timer_stop suback) (record s { acks = record s.acks { suback_received = true } }))
handle_command cmd_unsuback s =
    emit (semaphore_give unsuback)
      (emit (timer_stop unsuback) (record s { acks = record s.acks { unsuback_received = true } }))
handle_command cmd_puback s =
    emit (semaphore_give puback)
      (emit (timer_stop puback) (record s { acks = record s.acks { puback_received = true } }))
handle_command _ s = s

-- `puback_timer_callback`
unfoldable pub puback_timer : App → App
puback_timer s =
    if not s.acks.puback_received && ltb s.retries retry_count
    then emit (mqtt_pub s.publish_opts) (record s { retries = s.retries + 1 })
    else if leb retry_count s.retries
    then emit (timer_stop puback) (emit (semaphore_give puback) s)
    else s

-- `suback_timer_callback` and `unsuback_timer_callback`
unfoldable pub suback_timer : App → App
suback_timer s = if s.acks.suback_received then s else emit (semaphore_give suback) s

unfoldable pub unsuback_timer : App → App
unsuback_timer s = if s.acks.unsuback_received then s else emit (semaphore_give unsuback) s

-- `reconnect_timer_callback`
unfoldable pub reconnect_timer : Option CString → Option ℕ → App → App
reconnect_timer serial answer s = if s.connected then s else connect serial answer s

-- What happens while a call waits: an event or a timer.
pub data Action : Type 0 where
  event : Event → Action
  puback_expired suback_expired unsuback_expired : Action
  reconnect_expired : Option CString → Option ℕ → Action

module _ (M : Mongoose) where
  -- `mqtt_connected`
  unfoldable pub connected : App → App
  connected s =
      let address = text_or_empty (get_string s.config Value.address) in
      let cert = bytes_or_empty (get_cert s.config Value.certificate) in
      let up = record s { connected = true } in
      let secured =
        if M.url_is_ssl address
        then emit (tls_init (until_nul cert) (M.url_host address)) up
        else up in
      resubscribe s.subscriptions (emit (timer_stop reconnect) secured)

  -- The loop of `handle_mqtt_message`: the first subscription that matches.
  unfoldable pub first_match : CString → List Subscription → Option ℕ
  first_match topic [] = none
  first_match topic (sub ∷ subs) =
      let later = first_match topic subs in
      elim sub.callback [
        | none ↦ later
        | some callback ↦ if sub.active && M.match topic sub.topic then some callback else later
      ]

  -- `handle_mqtt_message`, on the bytes of the topic and of the message
  unfoldable pub handle_message : List ℕ → List ℕ → App → App
  handle_message topic bytes s =
      let topic_str = until_nul (take 128 topic) in
      elim (first_match topic_str s.subscriptions) [
        | none ↦ s
        | some callback ↦ emit (deliver callback topic_str bytes) s
      ]

  -- `ev_handler`; it does not look at the connection that it is called for.
  unfoldable pub ev_handler : Event → App → App
  ev_handler ev_connect s = connected s
  ev_handler (ev_mqtt_cmd cmd) s = handle_command cmd s
  ev_handler (ev_mqtt_msg topic bytes) s = handle_message topic bytes s
  ev_handler ev_close s = disconnected s
  ev_handler ev_error s = disconnected s
  ev_handler ev_other s = s

  unfoldable pub act : Action → App → App
  act (event ev) s = ev_handler ev s
  act puback_expired s = puback_timer s
  act suback_expired s = suback_timer s
  act unsuback_expired s = unsuback_timer s
  act (reconnect_expired serial answer) s = reconnect_timer serial answer s

  unfoldable pub act_all : List Action → App → App
  act_all [] s = s
  act_all (a ∷ later) s = act_all later (act a s)
