-- ===== src/Tests/MqttApp.antt =====
-- A client that connects, subscribes, publishes and unsubscribes, with a broker that answers.
use hq_platform.Base.{
  ℕ, ◌+◌, ◌<◌, ◌≤◌, ◌^◌, ◌≡◌, ◌⊎◌, refl, true, false, ◌&&◌, List, [], ◌∷◌, ◌++◌, none, some, arith,
  length, take, get_elem?, replicate,
}
use hq_platform.Base.Text.{CString, codes, str_eq}
use hq_platform.Protocols.MqttConfig.{ConfigData, Device}
use hq_platform.Protocols.MqttApp.{App, deliver, find_subscription, no_acks, no_opts, retry_count}
use hq_platform.Protocols.MqttApp.Connection.{
  Mongoose, connect, connected, handle_message, until_nul, act, act_all, event, puback_expired,
  ev_connect, ev_mqtt_cmd, cmd_suback, cmd_puback, Action,
}
use hq_platform.Protocols.MqttApp.Api.{
  waiting, returned, no_subscriptions, new_subscription, subscribe_begin, subscribe_end,
  unsubscribe_begin, publish, init, init_started,
}
use hq_platform.Protocols.MqttApp.Invariant.{IsValid}
use hq_platform.Protocols.MqttApp.Reach.{Reach, here, later, happens, subscribes, Reach-IsValid}
use hq_platform.Protocols.MqttApp.Subscribe.{has_suback, subscribe-answer, subscribe-long}
use hq_platform.Protocols.MqttApp.Publish.{published, opts_of, publish-transmissions}
use hq_platform.Protocols.MqttApp.Deliver.{
  requests, found, connected-resubscribes, Takes, NoneBefore, handle_message-delivers,
}
use hq_platform.Protocols.MqttApp.Packet.{written, announced, read_unsubscribe, unsubscribe-packet}
use hq_platform.Protocols.MqttApp.{Subscription, free_from, find_from, put_subscription}
use hq_platform.Protocols.MqttApp.Invariant.{put-IsValid, find_from-Fresh}
use hq_platform.Protocols.MqttApp.Steps.{no_subscriptions-IsValid, new_subscription-Sound}

-- Topics match where they are equal, and no address is secured.
abbrev broker : Mongoose
broker = record { match = str_eq; url_is_ssl = λ url. false; url_host = λ url. url }

-- A device without storage.
abbrev bare : Device
bare = record {
  State = Unit {0};
  open_read = λ d. false;
  open_write = λ d. false;
  get_u8 = λ d name. none;
  get_str = λ d name size. none;
  set_u8 = λ d name b. none;
  set_str = λ d name s. none;
  commit = λ d. none;
  read_file = λ d n. none;
  write_file = λ d s. d;
}

abbrev blank : ConfigData
blank = record {
  address = [];
  config_topic = [];
  control_topic = [];
  post_data_topic = [];
  username = [];
  password = [];
  cert = [];
  use_ssl = 0;
}

abbrev boot : App
boot = record {
  initialized = false;
  connected = false;
  nc = none;
  subscriptions = [];
  pending_subscribe_topic = [];
  pending_unsubscribe_topic = [];
  retries = 0;
  publish_opts = no_opts;
  acks = no_acks;
  packet_id = 1;
  config = blank;
  log = [];
}

abbrev started : App
started = record (connect none (some 1) (init_started bare tt boot)) { initialized = true }

abbrev topic : CString
topic = codes "a/b"

abbrev online : App
online = act broker (event ev_connect) started

abbrev subscribed : App
subscribed = (subscribe_begin online (some topic) 0 (some 7) 100).0

abbrev history : Reach broker bare started subscribed
history =
    later (later here (happens (event ev_connect))) (subscribes topic 0 (some 7) 100 (omega arith))

began : init bare tt none (some 1) true boot ≡ some started
unfolding init
began = refl

Reach-IsValid_example : IsValid subscribed
Reach-IsValid_example =
    Reach-IsValid broker bare tt none (some 1) boot started subscribed began history

-- A client that is up, with no subscription.
abbrev up : App
up = record boot {
  initialized = true;
  connected = true;
  nc = some 1;
  subscriptions = no_subscriptions;
}

abbrev suback_and_more : List Action
suback_and_more = puback_expired ∷ event (ev_mqtt_cmd cmd_suback) ∷ []

subscribe-answer_example :
    let waited =
      act_all broker suback_and_more (subscribe_begin up (some topic) 0 (some 7) 100).0 in
    ((subscribe_end waited 0 true).1 ≡ true && has_suback suback_and_more)
    × ((subscribe_end waited 0 true).1 ≡ true
        → find_subscription (subscribe_end waited 0 true).0 topic ≡ some 0)
    × ((subscribe_end waited 0 true).1 ≡ false
        → find_subscription (subscribe_end waited 0 true).0 topic ≡ none)
unfolding subscribe_begin find_from free_from
subscribe-answer_example =
    subscribe-answer broker up topic 0 7 100 0 suback_and_more true (omega arith) refl

abbrev long_topic : CString
long_topic = replicate 130 97

up-IsValid : IsValid up
up-IsValid = no_subscriptions-IsValid refl

subscribe-long_example :
    let t = (subscribe_begin up (some long_topic) 0 (some 7) 100).0 in
    ((subscribe_begin up (some long_topic) 0 (some 7) 100).1 ≡ waiting 0)
    × (get_elem? t.subscriptions 0 ≡ some (new_subscription long_topic 7))
    × (unsubscribe_begin t (some long_topic) 100 ≡ (t, returned false))
unfolding free_from
subscribe-long_example =
    subscribe-long up long_topic 0 7 100 0 up-IsValid.sound (omega arith) refl refl

publish-transmissions_example :
    let begun = (publish up topic (codes "x") 1).0 in
    ((n : ℕ) × (1 ≤ n)
      × (n ≤ 1 + retry_count)
      × (published (act_all broker (puback_expired ∷ []) begun).log
          ≡ replicate n (opts_of topic (codes "x") 1) ++ published up.log))
    × (published
          (act_all broker
            ((puback_expired ∷ []) ++ event (ev_mqtt_cmd cmd_puback) ∷ puback_expired ∷ [])
            begun).log
        ≡ published (act_all broker (puback_expired ∷ []) begun).log)
unfolding publish
publish-transmissions_example =
    publish-transmissions broker up topic (codes "x") 1 (puback_expired ∷ []) (puback_expired ∷ [])
      refl

-- With one subscription.
abbrev listening : App
listening = put_subscription up 3 (new_subscription topic 7)

listening-IsValid : IsValid listening
unfolding find_from
listening-IsValid =
    put-IsValid up 3 (new_subscription topic 7) (new_subscription-Sound topic 7)
      (λ a. find_from-Fresh up.subscriptions topic 0 refl) up-IsValid

connected-resubscribes_example :
    requests topic (connected broker listening).log
    ≡ found (find_subscription listening topic) + requests topic listening.log
connected-resubscribes_example = connected-resubscribes broker listening topic listening-IsValid

handle_message-delivers_example :
    let text = until_nul (take 128 topic) in
    (((handle_message broker topic (1 ∷ []) listening).log ≡ listening.log)
      × NoneBefore broker text listening.subscriptions (length listening.subscriptions))
    ⊎ ((callback : ℕ) × (n : ℕ) × (sub : Subscription) × ((handle_message broker topic
            (1 ∷ [])
            listening).log
          ≡ deliver callback text (1 ∷ []) ∷ listening.log)
        × (get_elem? listening.subscriptions n ≡ some sub)
        × Takes broker text sub callback
        × NoneBefore broker text listening.subscriptions n)
handle_message-delivers_example = handle_message-delivers broker topic (1 ∷ []) listening

unsubscribe-packet_example :
    let t = (unsubscribe_begin listening (some topic) 100).0 in
    (body : List ℕ) × (written t.log ≡ written listening.log ++ body)
    × (announced t.log ≡ some (length body))
    × (read_unsubscribe body ≡ some (1, topic))
    × (t.packet_id < 2 ^ 16)
unfolding unsubscribe_begin find_from str_eq
unsubscribe-packet_example =
    unsubscribe-packet listening topic 100 3 listening-IsValid (omega arith) refl
