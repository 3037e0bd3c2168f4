-- ===== src/Protocols/MqttApp/Reach.antt =====
-- Histories of the client of src/protocols/mqtt_app.c: its calls, and the events and timers that come
-- between them and while they wait, in any order. The client takes no lock: a step is a call up to its
-- wait or its end, an event or a timer, with nothing of another task in between.
use hq_platform.Base.{ℕ, ◌≤◌, ◌≡◌, Bool, true, Option, some, length}
use hq_platform.Base.Text.{CString}
use hq_platform.Protocols.MqttConfig.{Device}
use hq_platform.Protocols.MqttApp.{App, Message}
use hq_platform.Protocols.MqttApp.Connection.{Mongoose, Action, act}
use hq_platform.Protocols.MqttApp.Api.{
  subscribe_begin, subscribe_end, unsubscribe_begin, unsubscribe_end, task_round, post_data, deinit,
  init,
}
use hq_platform.Protocols.MqttApp.Invariant.{IsValid, same-IsValid}
use hq_platform.Protocols.MqttApp.Steps.{
  subscribe_begin-IsValid, subscribe_end-IsValid, unsubscribe_begin-same, unsubscribe_end-IsValid,
  task_round-same, post_data-same, deinit-IsValid, init-IsValid_app, act-same,
}

module _ (M : Mongoose) (D : Device) where
  pub data Step (s : App) : App → Type 0 where
    happens : (a : Action) → Step s (act M a s)
    subscribes :
        (topic : CString) (qos : ℕ) (callback : Option ℕ) (timeout_ms : ℕ)
        → length topic ≤ 127
        → Step s (subscribe_begin s (some topic) qos callback timeout_ms).0
    subscribe_ends : (i : ℕ) (taken : Bool) → Step s (subscribe_end s i taken).0
    unsubscribes :
        (topic : Option CString) (timeout_ms : ℕ) → Step s (unsubscribe_begin s topic timeout_ms).0
    unsubscribe_ends : (i : ℕ) (taken : Bool) → Step s (unsubscribe_end s i taken).0
    publishes : (msg : Message) → Step s (task_round s msg).0
    posts :
        (topic message : CString) (qos : ℕ) (sent : Bool)
        → Step s (post_data s topic message qos sent).0
    deinits : Step s (deinit s)
    inits :
        (d : D.State) (serial : Option CString) (answer : Option ℕ) (created : Bool) (t : App)
        → init D d serial answer created s ≡ some t
        → Step s t

  pub data Reach (s : App) : App → Type 0 where
    here : Reach s s
    later : {t u : App} → Reach s t → Step t u → Reach s u

  Step-IsValid : {s t : App} → Step s t → IsValid s → IsValid t
  Step-IsValid {s} (happens a) v = same-IsValid (act-same M a s) v
  Step-IsValid {s} (subscribes topic qos callback timeout_ms short) v =
      subscribe_begin-IsValid s topic qos callback timeout_ms short v
  Step-IsValid {s} (subscribe_ends i taken) v = subscribe_end-IsValid s i taken v
  Step-IsValid {s} (unsubscribes topic timeout_ms) v =
      same-IsValid (unsubscribe_begin-same s topic timeout_ms) v
  Step-IsValid {s} (unsubscribe_ends i taken) v = unsubscribe_end-IsValid s i taken v
  Step-IsValid {s} (publishes msg) v = same-IsValid (task_round-same s msg) v
  Step-IsValid {s} (posts topic message qos sent) v =
      same-IsValid (post_data-same s topic message qos sent) v
  Step-IsValid {s} deinits v = deinit-IsValid s v
  Step-IsValid {s} (inits d serial answer created t e) v =
      init-IsValid_app D d serial answer created s t e

  Reach-IsValid_from : {s t : App} → Reach s t → IsValid s → IsValid t
  Reach-IsValid_from here v = v
  Reach-IsValid_from (later history step) v = Step-IsValid step (Reach-IsValid_from history v)

  -- After `MqttApp_Init`, in every history of calls, events and timers, each of which runs alone up
  -- to its end or its wait, the table of the MQTT client has ten slots, every topic fits its
  -- buffer, every active slot has a callback, and no topic is active twice, if no topic of more
  -- than 127 bytes is subscribed to.
  pub Reach-IsValid :
      (d : D.State) (serial : Option CString) (answer : Option ℕ) (boot started t : App)
      → init D d serial answer true boot ≡ some started
      → Reach started t
      → IsValid t
  Reach-IsValid d serial answer boot started t e history =
      Reach-IsValid_from history (init-IsValid_app D d serial answer true boot started e)
