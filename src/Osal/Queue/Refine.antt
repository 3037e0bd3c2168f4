-- ===== src/Osal/Queue/Refine.antt =====
-- A valid queue behaves as the bounded FIFO of the items that it holds.
use hq_platform.Base.{
  ℕ, ◌≡◌, ◌≢◌, refl, sym, ap, ◌∙◌, Bool, true, false, List, [], ◌∷◌, ◌++◌, Option, none, some,
  arith, length, Bool-cases, inl, inr,
}
use hq_platform.Osal.Status.{Status, success, queue_full, queue_empty}
use hq_platform.Osal.Time.{Timespec}
use hq_platform.Osal.Queue.{
  Queue, Item, Op, put, get, Wake, Outcome, ready, stopped, Env, is_full, is_empty, enqueue,
  dequeue, apply, apply_all, await, sent, received, deadline, send_by, receive_by, lift_sent,
  lift_received, send, receive,
}
use hq_platform.Osal.Queue.Inv.{IsValid, enqueue-IsValid, dequeue-IsValid}
use hq_platform.Osal.Queue.Items.{
  contents, length-contents, contents-empty, contents-enqueue, contents-dequeue,
}
use hq_platform.Osal.Queue.Fifo
use hq_platform.Osal.Queue.Fifo.{Fifo}

-- A valid queue of `cap` items of `size` bytes.
pub record Shape (cap size : ℕ) (q : Queue) : Type 0 where
  pub valid : IsValid q
  pub cap_at : q.max_items ≡ cap
  pub size_at : q.item_size ≡ size

-- Every item put has the item size, as the pointers that callers pass must.
abbrev pub Fits : ℕ → Op → Type 0
Fits size (put item) = length item ≡ size
Fits size get = Unit {0}

abbrev pub AllFit : ℕ → List Op → Type 0
AllFit size [] = Unit {0}
AllFit size (op ∷ ops) = Fits size op × AllFit size ops

abbrev pub WakesFit : ℕ → List Wake → Type 0
WakesFit size [] = Unit {0}
WakesFit size (w ∷ ws) = AllFit size w.others × WakesFit size ws

module _ (cap size : ℕ) where
  keep-enqueue :
      {q : Queue} (item : Item)
      → Shape cap size q
      → IsValid (enqueue q item)
      → Shape cap size (enqueue q item)
  unfolding enqueue
  keep-enqueue item s v = record { valid = v; cap_at = s.cap_at; size_at = s.size_at }

  keep-dequeue :
      {q : Queue} → Shape cap size q → IsValid (dequeue q).1 → Shape cap size (dequeue q).1
  unfolding dequeue
  keep-dequeue s v = record { valid = v; cap_at = s.cap_at; size_at = s.size_at }

  pub put-refines :
      {q : Queue} (item : Item)
      → Shape cap size q
      → length item ≡ size
      → is_full q ≡ false
      → Shape cap size (enqueue q item) × (contents (enqueue q item) ≡ contents q ++ item ∷ [])
  put-refines {q} item s e room =
      let not_full : q.count ≢ q.max_items = ground arith in
      (
        keep-enqueue item s (enqueue-IsValid item s.valid not_full),
        contents-enqueue item s.valid (e ∙ sym s.size_at) not_full,
      )

  pub get-refines :
      {q : Queue}
      → Shape cap size q
      → is_empty q ≡ false
      → Shape cap size (dequeue q).1 × (contents q ≡ (dequeue q).0 ∷ contents (dequeue q).1)
  get-refines {q} s some_left =
      let not_empty : q.count ≢ 0 = ground arith in
      (keep-dequeue s (dequeue-IsValid s.valid not_empty), contents-dequeue s.valid not_empty)

  pub full-refines : {q : Queue} → Shape cap size q → is_full q ≡ Fifo.is_full cap (contents q)
  full-refines {q} s = rw (length-contents q, s.cap_at)

  pub empty-refines : (q : Queue) → is_empty q ≡ Fifo.is_empty (contents q)
  empty-refines q = rw length-contents

  apply-refines :
      {q : Queue} (op : Op)
      → Shape cap size q
      → Fits size op
      → Shape cap size (apply q op) × (contents (apply q op) ≡ Fifo.apply cap (contents q) op)
  unfolding apply Fifo.apply
  apply-refines {q} (put item) s f = elim (Bool-cases (is_full q)) [
    | inl full ↦ rw (← full-refines s, full) (s, refl)
    | inr room ↦ rw (← full-refines s, room) (put-refines item s f room)
  ]
  apply-refines {q} get s f = elim (Bool-cases (is_empty q)) [
    | inl none_left ↦
        let e = contents-empty q (ground arith) in rw none_left (s, e ∙ sym (ap Fifo.pop e))
    | inr some_left ↦
        let (s', e) = get-refines s some_left in rw some_left (s', sym (ap Fifo.pop e))
  ]

  pub apply_all-refines :
      (ops : List Op) {q : Queue}
      → Shape cap size q
      → AllFit size ops
      → Shape cap size (apply_all q ops)
        × (contents (apply_all q ops) ≡ Fifo.apply_all cap (contents q) ops)
  unfolding apply_all Fifo.apply_all
  apply_all-refines [] s f = (s, refl)
  apply_all-refines (op ∷ ops) {q} s f =
      let (s', e) = apply-refines op s f.0 in rw (← e) (apply_all-refines ops s' f.1)

  -- What a call that has returned shows of the queue.
  abbrev see : Option (Outcome × Queue) → Option (Outcome × Fifo)
  see none = none
  see (some (o, q)) = some (o, contents q)

  -- What holds of the queue that a loop hands on.
  abbrev Leaves : (Queue → Bool) → Option (Outcome × Queue) → Type 0
  Leaves blocked none = Unit {0}
  Leaves blocked (some (ready, q)) = Shape cap size q × (blocked q ≡ false)
  Leaves blocked (some (stopped st, q)) = Shape cap size q

  module _ (blocked : Queue → Bool) (blocked' : Fifo → Bool) (refusal : Status)
      (agree : (q : Queue) → Shape cap size q → blocked q ≡ blocked' (contents q)) where
    await-refines :
        (timeout_ms : ℕ) (ws : List Wake) (q : Queue)
        → Shape cap size q
        → WakesFit size ws
        → Leaves blocked (await blocked refusal timeout_ms ws q)
          × (see (await blocked refusal timeout_ms ws q)
              ≡ Fifo.await cap blocked' refusal timeout_ms ws (contents q))
    unfolding await Fifo.await
    await-refines timeout_ms [] q s f = ground (arith, agree q s)
    await-refines timeout_ms (w ∷ ws) q s f =
        let (s', e) = apply_all-refines w.others s f.0 in
        let rest = await-refines timeout_ms ws (apply_all q w.others) s' f.1 in
        ground (arith, agree q s)

  abbrev pub see_sent : Option (Status × Option Queue) → Option (Status × Fifo)
  see_sent none = none
  see_sent (some (st, none)) = some (st, [])
  see_sent (some (st, some q)) = some (st, contents q)

  abbrev pub see_received :
      Option (Status × Option Item × Option Queue) → Option (Status × Option Item × Fifo)
  see_received none = none
  see_received (some (st, item, none)) = some (st, item, [])
  see_received (some (st, item, some q)) = some (st, item, contents q)

  sent-refines :
      (item : Item) (r : Option (Outcome × Queue))
      → length item ≡ size
      → Leaves is_full r
      → see_sent (lift_sent (sent item r)) ≡ Fifo.sent item (see r)
  sent-refines item none e l = refl
  sent-refines item (some (stopped st, q)) e l = refl
  sent-refines item (some (ready, q)) e l =
      ap (λ xs. some (success, xs)) (put-refines item l.0 e l.1).1

  received-refines :
      (r : Option (Outcome × Queue))
      → Leaves is_empty r
      → see_received (lift_received (received r)) ≡ Fifo.received (see r)
  received-refines none l = refl
  received-refines (some (stopped st, q)) l = refl
  received-refines (some (ready, q)) l =
      ap (λ xs. some (success, Fifo.front xs, Fifo.pop xs)) (sym (get-refines l.0 l.1).1)

  send_by-refines :
      (d : Option (Option Timespec)) (env : Env) (q : Queue) (item : Item) (timeout_ms : ℕ)
      → Shape cap size q
      → length item ≡ size
      → ((limit : Option Timespec) → WakesFit size (env.wakes limit))
      → see_sent (lift_sent (send_by d env q item timeout_ms))
        ≡ Fifo.send cap d env (contents q) item timeout_ms
  unfolding send_by Fifo.send
  send_by-refines none env q item timeout_ms s e f = refl
  send_by-refines (some limit) env q item timeout_ms s e f = elim (Bool-cases env.lock_ok) [
    | inl locked ↦
        let (l, r) =
          await-refines is_full (Fifo.is_full cap) queue_full (λ p t. full-refines t) timeout_ms
            (env.wakes limit) q s (f limit) in
        rw locked (sent-refines item _ e l ∙ ap (Fifo.sent item) r)
    | inr refused ↦ rw refused
  ]

  receive_by-refines :
      (d : Option (Option Timespec)) (env : Env) (q : Queue) (timeout_ms : ℕ)
      → Shape cap size q
      → ((limit : Option Timespec) → WakesFit size (env.wakes limit))
      → see_received (lift_received (receive_by d env q timeout_ms))
        ≡ Fifo.receive cap d env (contents q) timeout_ms
  unfolding receive_by Fifo.receive
  receive_by-refines none env q timeout_ms s f = refl
  receive_by-refines (some limit) env q timeout_ms s f = elim (Bool-cases env.lock_ok) [
    | inl locked ↦
        let (l, r) =
          await-refines is_empty Fifo.is_empty queue_empty (λ p t. empty-refines p) timeout_ms
            (env.wakes limit) q s (f limit) in
        rw locked (received-refines _ l ∙ ap Fifo.received r)
    | inr refused ↦ rw refused
  ]

  -- On a valid queue of `cap` items of `size` bytes, and whatever items of that size other threads
  -- put and get while it waits, `osal_queue_send` returns the status that a FIFO of at most `cap`
  -- items gives and leaves the queue with the items of that FIFO; it has not returned exactly where
  -- the FIFO's call has not.
  pub send-refines :
      (env : Env) (q : Queue) (item : Item) (timeout_ms : ℕ)
      → Shape cap size q
      → length item ≡ size
      → ((limit : Option Timespec) → WakesFit size (env.wakes limit))
      → see_sent (send env (some q) (some item) timeout_ms)
        ≡ Fifo.send cap (deadline env timeout_ms) env (contents q) item timeout_ms
  unfolding send
  send-refines env q item timeout_ms s e f =
      send_by-refines (deadline env timeout_ms) env q item timeout_ms s e f

  -- On a valid queue of `cap` items of `size` bytes, and whatever items of that size other threads
  -- put and get while it waits, `osal_queue_receive` returns the status and the item that the FIFO
  -- gives, the oldest one where it succeeds, and leaves the queue with the items of that FIFO.
  pub receive-refines :
      (env : Env) (q : Queue) (timeout_ms : ℕ)
      → Shape cap size q
      → ((limit : Option Timespec) → WakesFit size (env.wakes limit))
      → see_received (receive env (some q) true timeout_ms)
        ≡ Fifo.receive cap (deadline env timeout_ms) env (contents q) timeout_ms
  unfolding receive
  receive-refines env q timeout_ms s f =
      receive_by-refines (deadline env timeout_ms) env q timeout_ms s f
