-- ===== src/Osal/Esp/Agree.antt =====
-- The queues of the two ports, src/osal/posix/osal_queue_impl.c and src/osal/esp/osal_queue_impl.c,
-- side by side, for calls that do not wait.
use hq_platform.Base.{
  ℕ, ◌<◌, ◌≡◌, ◌≢◌, refl, sym, ap, ◌∙◌, true, false, List, [], ◌∷◌, ◌++◌, Option, none, some, arith,
  length, if◌then◌else◌, Bool-cases, inl, inr,
}
use hq_platform.Osal.Status.{Status, success, queue_full, queue_empty}
use hq_platform.Osal.Queue
use hq_platform.Osal.Queue.{
  Queue, Item, Env, Op, put, get, is_full, is_empty, enqueue, dequeue, apply,
}
use hq_platform.Osal.Queue.Items.{contents, length-contents, contents-empty}
use hq_platform.Osal.Queue.Fifo.{front, pop}
use hq_platform.Osal.Queue.Refine.{Shape, Fits, AllFit, put-refines, get-refines}
use hq_platform.Osal.Queue.Wait.{poll-now}
use hq_platform.Osal.Esp.{RtosQueue, Ticks, timeout_to_ticks}
use hq_platform.Osal.Esp.Queue as EspQueue

-- What FreeRTOS documents of a queue when a call does not wait: it copies items to the back and from
-- the front, and refuses where it is full or empty. Zero milliseconds are zero ticks.
pub record Documented (R : RtosQueue) (T : Ticks) : Type 0 where
  pub items : R.Handle → List Item
  pub capacity : R.Handle → ℕ
  pub no_ticks : T.of_ms 0 ≡ 0
  pub send_room :
      (q : R.Handle) (item : Item)
      → length (items q) < capacity q
      → ((R.send q item 0).0 ≡ true)
        × (items (R.send q item 0).1 ≡ items q ++ item ∷ [])
        × (capacity (R.send q item 0).1 ≡ capacity q)
  pub send_full :
      (q : R.Handle) (item : Item)
      → length (items q) ≡ capacity q
      → ((R.send q item 0).0 ≡ false)
        × (items (R.send q item 0).1 ≡ items q)
        × (capacity (R.send q item 0).1 ≡ capacity q)
  pub receives :
      (q : R.Handle)
      → ((R.receive q 0).0 ≡ front (items q))
        × (items (R.receive q 0).1 ≡ pop (items q))
        × (capacity (R.receive q 0).1 ≡ capacity q)

-- What a call answers: its status and, for a receive, the item.
abbrev pub Reply : Type 0
Reply = Status × Option Item

abbrev sent_reply : Option (Status × Option Queue) → Option (Reply × Option Queue)
sent_reply none = none
sent_reply (some (st, q)) = some ((st, none), q)

abbrev received_reply : Option (Status × Option Item × Option Queue) → Option (Reply × Option Queue)
received_reply none = none
received_reply (some (st, item, q)) = some ((st, item), q)

-- The calls one after the other, with timeout 0, on the posix queue; `none` never returned.
unfoldable pub posix_call : Env → Option Queue → Op → Option (Reply × Option Queue)
posix_call env q (put item) = sent_reply (Queue.send env q (some item) 0)
posix_call env q get = received_reply (Queue.receive env q true 0)

abbrev with_reply : Reply → Option (List Reply) → Option (List Reply)
with_reply reply none = none
with_reply reply (some replies) = some (reply ∷ replies)

abbrev then_calls :
    Option (Reply × Option Queue) → (Option Queue → Option (List Reply)) → Option (List Reply)
then_calls none later = none
then_calls (some (reply, q)) later = with_reply reply (later q)

unfoldable pub posix_calls : Env → Option Queue → List Op → Option (List Reply)
posix_calls env q [] = some []
posix_calls env q (op ∷ ops) = then_calls (posix_call env q op) (λ q'. posix_calls env q' ops)

-- The posix call of a queue that gets the lock.
abbrev reply_now : Queue → Op → Reply
reply_now q (put item) = (if is_full q then queue_full else success, none)
reply_now q get =
    (if is_empty q then queue_empty else success, if is_empty q then none else some (dequeue q).0)

posix_call-now :
    (env : Env) (q : Queue) (op : Op)
    → env.lock_ok ≡ true
    → posix_call env (some q) op ≡ some (reply_now q op, some (apply q op))
unfolding posix_call
posix_call-now env q (put item) locked = ap sent_reply (poll-now env q item locked).0
posix_call-now env q get locked = ap received_reply (poll-now env q [] locked).1

module _ (R : RtosQueue) (T : Ticks) where
  -- The same calls on the queue of the ESP port.
  unfoldable pub esp_call : Option R.Handle → Op → Reply × Option R.Handle
  esp_call q (put item) = let (st, q') = EspQueue.send R T q (some item) 0 in ((st, none), q')
  esp_call q get = let (st, item, q') = EspQueue.receive R T q true 0 in ((st, item), q')

  unfoldable pub esp_calls : Option R.Handle → List Op → List Reply
  esp_calls q [] = []
  esp_calls q (op ∷ ops) = let (reply, q') = esp_call q op in reply ∷ esp_calls q' ops

  module _ (D : Documented R T) (cap size : ℕ) where
    pub record Alike (q : Queue) (e : R.Handle) : Type 0 where
      pub shape : Shape cap size q
      pub same_items : D.items e ≡ contents q
      pub same_capacity : D.capacity e ≡ cap

    esp_send-now :
        (e : R.Handle) (item : Item)
        → esp_call (some e) (put item)
          ≡ ((if (R.send e item 0).0 then success else queue_full, none), some (R.send e item 0).1)
    unfolding esp_call EspQueue.send timeout_to_ticks
    esp_send-now e item = rw D.no_ticks refl

    abbrev got_reply : Option Item → Reply
    got_reply none = (queue_empty, none)
    got_reply (some item) = (success, some item)

    esp_receive-now :
        (e : R.Handle) (got : Option Item)
        → (R.receive e 0).0 ≡ got
        → esp_call (some e) get ≡ (got_reply got, some (R.receive e 0).1)
    unfolding esp_call EspQueue.receive timeout_to_ticks
    esp_receive-now e none h = rw (D.no_ticks, h) refl
    esp_receive-now e (some item) h = rw (D.no_ticks, h) refl

    -- One call.
    call-agrees :
        (env : Env) (q : Queue) (e : R.Handle) (op : Op)
        → Fits size op
        → Alike q e
        → (e' : R.Handle) × (esp_call (some e) op ≡ (reply_now q op, some e'))
          × Alike (apply q op) e'
    unfolding apply
    call-agrees env q e (put item) fits a = elim (Bool-cases (is_full q)) [
      | inl full ↦
          let (said, kept, still) = D.send_full e item (
            ap length a.same_items
            ∙ length-contents q
            ∙ ground (arith, a.shape.cap_at, a.same_capacity)) in
          (
            (R.send e item 0).1,
            esp_send-now e item ∙ rw (said, full) refl,
            rw full (record {
              shape = a.shape;
              same_items = kept ∙ a.same_items;
              same_capacity = still ∙ a.same_capacity;
            }),
          )
      | inr room ↦
          let not_full : q.count ≢ q.max_items = ground arith in
          let (said, more, still) = D.send_room e item (
            omega (
              arith,
              ap length a.same_items,
              length-contents q,
              a.shape.cap_at,
              a.same_capacity,
              a.shape.valid.count_in,
              not_full,
            )) in
          let (shape, holds) = put-refines cap size item a.shape fits room in
          (
            (R.send e item 0).1,
            esp_send-now e item ∙ rw (said, room) refl,
            rw room (record {
              shape = shape;
              same_items = more ∙ ap (λ z. z ++ item ∷ []) a.same_items ∙ sym holds;
              same_capacity = still ∙ a.same_capacity;
            }),
          )
    ]
    call-agrees env q e get fits a = elim (Bool-cases (is_empty q)) [
      | inl nothing ↦
          let (got, less, still) = D.receives e in
          let here = a.same_items ∙ contents-empty q (ground arith) in
          (
            (R.receive e 0).1,
            esp_receive-now e none (got ∙ ap front here) ∙ rw nothing refl,
            rw nothing (record {
              shape = a.shape;
              same_items = less ∙ ap pop here ∙ sym (contents-empty q (ground arith));
              same_capacity = still ∙ a.same_capacity;
            }),
          )
      | inr left ↦
          let (got, less, still) = D.receives e in
          let (shape, holds) = get-refines cap size a.shape left in
          let here = a.same_items ∙ holds in
          (
            (R.receive e 0).1,
            esp_receive-now e (some (dequeue q).0) (got ∙ ap front here) ∙ rw left refl,
            rw left (record {
              shape = shape;
              same_items = less ∙ ap pop here;
              same_capacity = still ∙ a.same_capacity;
            }),
          )
    ]

    -- For every sequence of sends and receives with timeout 0, the posix queue and the queue of the
    -- ESP port give the same statuses and items, if they hold the same items at the start, each
    -- call gets the lock, the items have the item size, and the queues of FreeRTOS do what is
    -- documented of them.
    pub ports-agree :
        (env : Env) (ops : List Op) (q : Queue) (e : R.Handle)
        → env.lock_ok ≡ true
        → AllFit size ops
        → Alike q e
        → posix_calls env (some q) ops ≡ some (esp_calls (some e) ops)
    unfolding posix_calls esp_calls
    ports-agree env [] q e locked fits a = refl
    ports-agree env (op ∷ ops) q e locked fits a =
        let (e', said, still) = call-agrees env q e op fits.0 a in
        ap (λ z. then_calls z (λ q'. posix_calls env q' ops)) (posix_call-now env q op locked)
        ∙ ap (with_reply (reply_now q op)) (ports-agree env ops (apply q op) e' locked fits.1 still)
        ∙ sym (ap (λ z. some (z.0 ∷ esp_calls z.1 ops)) said)
