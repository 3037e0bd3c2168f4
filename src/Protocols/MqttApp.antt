-- ===== src/Protocols/MqttApp.antt =====
-- The MQTT client of src/protocols/mqtt_app.c: its state, and the table of subscriptions.
--
-- Calls of mongoose and of FreeRTOS leave a `Call` in the log, the last one first; what they answer is
-- an argument. A callback is a number.
pub mod Connection
pub mod Api
pub mod Invariant
pub mod Steps
pub mod Reach
pub mod Subscribe
pub mod Publish
pub mod Deliver
pub mod Packet
use Prim.Native.String.{String}
use hq_platform.Base.{
  ℕ, zero, suc, ◌+◌, ◌-◌, ◌%◌, ◌/◌, ◌^◌, Bool, true, false, ◌&&◌, not, List, [], ◌∷◌, Option, none,
  some, take, set, get_elem?, replicate, length, if◌then◌else◌,
}
use hq_platform.Base.Text.{CString, str_eq}
use hq_platform.Protocols.MqttConfig.{ConfigData}

-- MAX_SUBSCRIPTIONS and RETRY_COUNT
abbrev pub max_subscriptions : ℕ
max_subscriptions = 10

abbrev pub retry_count : ℕ
retry_count = 3

-- `mqtt_subscription_t`
pub record Subscription : Type 0 where
  pub topic : CString
  pub callback : Option ℕ
  pub active : Bool
  pub pending_unsub : Bool

-- `mqtt_ack_flags_t`
pub record Acks : Type 0 where
  pub puback_received : Bool
  pub suback_received : Bool
  pub unsuback_received : Bool

-- The parts of `struct mg_mqtt_opts` that a publish sets.
pub record PublishOpts : Type 0 where
  pub qos : ℕ
  pub topic : CString
  pub message : CString

-- `mqtt_message_t`
pub record Message : Type 0 where
  pub topic : CString
  pub message : CString
  pub qos : ℕ

-- The parts of `struct mg_mqtt_opts` that a connection sets.
pub record ConnectOpts : Type 0 where
  pub user : CString
  pub pass : CString
  pub client_id : CString

-- The timers and semaphores of `mqtt_timers_t` and `mqtt_sync_t`.
pub data Waitable : Type 0 where
  reconnect puback suback unsuback : Waitable

-- What is called outside of this file. Times are in milliseconds; a timer is made with its period and
-- whether it reloads, the queue with its size.
pub data Call : Type 0 where
  timer_start : Waitable → Call
  timer_stop : Waitable → Call
  timer_change_period : Waitable → ℕ → Call
  timer_create : Waitable → ℕ → Bool → Call
  timer_delete : Waitable → Call
  semaphore_give : Waitable → Call
  semaphore_create : Waitable → Call
  semaphore_delete : Waitable → Call
  queue_create : ℕ → Call
  queue_delete : Call
  queue_send : Message → Call
  task_create : Call
  config_set_callback : Call
  mqtt_connect : CString → ConnectOpts → Call
  mqtt_sub : CString → ℕ → Call
  mqtt_pub : PublishOpts → Call
  mqtt_send_header : ℕ → Call
  send : List ℕ → Call
  tls_init : CString → CString → Call
  mqtt_disconnect : Call
  close_connection : ℕ → Call
  deliver : ℕ → CString → List ℕ → Call

-- `mqtt_state_t` with the flags, the packet number of `MqttApp_Unsubscribe`, the settings and the log.
pub record App : Type 0 where
  pub initialized : Bool
  pub connected : Bool
  pub nc : Option ℕ
  pub subscriptions : List Subscription
  pub pending_subscribe_topic : CString
  pub pending_unsubscribe_topic : CString
  pub retries : ℕ
  pub publish_opts : PublishOpts
  pub acks : Acks
  pub packet_id : ℕ
  pub config : ConfigData
  pub log : List Call

abbrev pub emit : Call → App → App
emit c s = record s { log = c ∷ s.log }

abbrev pub empty_slot : Subscription
empty_slot = record { topic = []; callback = none; active = false; pending_unsub = false }

abbrev pub no_acks : Acks
no_acks = record { puback_received = false; suback_received = false; unsuback_received = false }

abbrev pub no_opts : PublishOpts
no_opts = record { qos = 0; topic = []; message = [] }

-- The loops of `find_subscription` and `find_free_subscription_slot`, from index `i` on.
unfoldable pub find_from : List Subscription → CString → ℕ → Option ℕ
find_from [] topic i = none
find_from (sub ∷ subs) topic i =
    let later = find_from subs topic (i + 1) in
    if sub.active && str_eq sub.topic topic then some i else later

unfoldable pub free_from : List Subscription → ℕ → Option ℕ
free_from [] i = none
free_from (sub ∷ subs) i =
    let later = free_from subs (i + 1) in if sub.active then later else some i

abbrev pub find_subscription : App → CString → Option ℕ
find_subscription s topic = find_from s.subscriptions topic 0

abbrev pub find_free_subscription_slot : App → Option ℕ
find_free_subscription_slot s = free_from s.subscriptions 0

abbrev pub put_subscription : App → ℕ → Subscription → App
put_subscription s i sub = record s { subscriptions = set s.subscriptions i sub }

-- `clear_subscription`
abbrev pub clear_subscription : App → ℕ → App
clear_subscription s i = put_subscription s i empty_slot

-- The loop of `resubscribe_all`.
unfoldable pub resubscribe : List Subscription → App → App
resubscribe [] s = s
resubscribe (sub ∷ subs) s =
    resubscribe subs (if sub.active then emit (mqtt_sub sub.topic 0) s else s)

-- Several calls, the first one first.
abbrev pub emit_all : List Call → App → App
emit_all [] s = s
emit_all (c ∷ cs) s = emit_all cs (emit c s)
