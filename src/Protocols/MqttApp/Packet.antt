-- ===== src/Protocols/MqttApp/Packet.antt =====
-- The UNSUBSCRIBE packet that `MqttApp_Unsubscribe` of src/protocols/mqtt_app.c writes out.
use hq_platform.Base.{
  ℕ, ◌+◌, ◌*◌, ◌/◌, ◌%◌, ◌^◌, ◌<◌, ◌≤◌, ◌≡◌, ap, ◌∙◌, List, [], ◌∷◌, ◌++◌, Option, none, some,
  arith, length, if◌then◌else◌, ◌==◌,
}
use mathlib.Core.List.{append_assoc}
use hq_platform.Base.Text.{CString}
use hq_platform.Protocols.MqttApp.{App, Call, find_subscription, mqtt_send_header, send}
use hq_platform.Protocols.MqttApp.Api.{waiting, unsubscribe_begin, unsubscribe_found, two_bytes}
use hq_platform.Protocols.MqttApp.Invariant.{AllSound-get, find_from-get, IsValid}

-- The bytes that were written with `mg_send`, in order.
abbrev pub written : List Call → List ℕ
written [] = []
written (send bytes ∷ log) = written log ++ bytes
written (_ ∷ log) = written log

-- The length that the last header announced.
abbrev pub announced : List Call → Option ℕ
announced [] = none
announced (mqtt_send_header n ∷ log) = some n
announced (_ ∷ log) = announced log

-- What a broker reads in the body of an UNSUBSCRIBE of MQTT 3.1.1: the packet's number, the length of
-- the topic, and a topic that fills the rest.
pub read_unsubscribe : List ℕ → Option (ℕ × CString)
read_unsubscribe (a ∷ b ∷ c ∷ d ∷ topic) =
    if c * 256 + d == length topic then some (a * 256 + b, topic) else none
read_unsubscribe _ = none

read_unsubscribe-two_bytes :
    (id : ℕ) (topic : CString)
    → id < 2 ^ 16
    → length topic < 2 ^ 16
    → read_unsubscribe (two_bytes id ++ two_bytes (length topic) ++ topic) ≡ some (id, topic)
unfolding read_unsubscribe
read_unsubscribe-two_bytes id topic h k =
    let number : id / 256 % 256 * 256 + id % 256 ≡ id = omega arith in
    let size : length topic / 256 % 256 * 256 + length topic % 256 ≡ length topic = omega arith in
    ground arith

unsubscribe_begin-packet :
    (s : App) (topic : CString) (timeout_ms i : ℕ)
    → (unsubscribe_begin s (some topic) timeout_ms).1 ≡ waiting i
    → let t = (unsubscribe_begin s (some topic) timeout_ms).0 in
      (find_subscription s topic ≡ some i)
      × (written t.log
          ≡ ((written s.log ++ two_bytes s.packet_id) ++ two_bytes (length topic)) ++ topic)
      × (announced t.log ≡ some (2 + 2 + length topic))
      × (t.packet_id ≡ (s.packet_id + 1) % 2 ^ 16)
unfolding unsubscribe_begin unsubscribe_found
unsubscribe_begin-packet s topic timeout_ms i h = ground arith

-- On a valid client, the bytes that `MqttApp_Unsubscribe` sends are as many as its header
-- announces, and read as the body of an UNSUBSCRIBE packet they give the packet number and the
-- topic. The number stays a `uint16_t`.
pub unsubscribe-packet :
    (s : App) (topic : CString) (timeout_ms i : ℕ)
    → IsValid s
    → s.packet_id < 2 ^ 16
    → (unsubscribe_begin s (some topic) timeout_ms).1 ≡ waiting i
    → let t = (unsubscribe_begin s (some topic) timeout_ms).0 in
      (body : List ℕ) × (written t.log ≡ written s.log ++ body)
      × (announced t.log ≡ some (length body))
      × (read_unsubscribe body ≡ some (s.packet_id, topic))
      × (t.packet_id < 2 ^ 16)
unsubscribe-packet s topic timeout_ms i v small h =
    let (at, bytes, header, next) = unsubscribe_begin-packet s topic timeout_ms i h in
    let (n, sub, _, here, _, same) = find_from-get s.subscriptions topic 0 i at in
    let short : length topic ≤ 127 =
      omega (arith, (AllSound-get s.subscriptions n sub v.sound here).fits, ap length same) in
    (
      two_bytes s.packet_id ++ two_bytes (length topic) ++ topic,
      bytes
          ∙ append_assoc (written s.log ++ two_bytes s.packet_id) (two_bytes (length topic)) topic
          ∙ append_assoc (written s.log) (two_bytes s.packet_id)
              (two_bytes (length topic) ++ topic),
      header ∙ ap some (omega arith),
      read_unsubscribe-two_bytes s.packet_id topic small (omega arith),
      omega (arith, next),
    )
