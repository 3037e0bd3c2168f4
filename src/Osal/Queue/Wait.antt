-- ===== src/Osal/Queue/Wait.antt =====
-- When the waits of `osal_queue_send` and `osal_queue_receive` end, and with what status.
use hq_platform.Base.{
  ℕ, ◌≡◌, ◌≢◌, ◌⊎◌, refl, Bool, true, false, List, [], ◌∷◌, Option, none, some, arith,
  if◌then◌else◌, Bool-cases, inl, inr,
}
use hq_platform.Osal.Status.{Status, success, error, queue_full, queue_empty}
use hq_platform.Osal.Time.{Timespec}
use hq_platform.Osal.Queue.{
  Queue, Item, Wake, signalled, timed_out, Outcome, ready, stopped, Env, max_delay, is_full,
  is_empty, dequeue, apply_all, await, sent, received, send_by, receive_by, lift_sent,
  lift_received, is_timed, put, get, apply, deadline, send, receive,
}

-- Some wait of the list returns ETIMEDOUT or an error.
abbrev pub ends : List Wake → Bool
ends [] = false
ends (w ∷ ws) = elim w.ret [ signalled ↦ ends ws | _ ↦ true ]

-- No wait of the list returns ETIMEDOUT, as `pthread_cond_wait` never does.
abbrev pub never_times_out : List Wake → Bool
never_times_out [] = true
never_times_out (w ∷ ws) = elim w.ret [ timed_out ↦ false | _ ↦ never_times_out ws ]

await-ends :
    (blocked : Queue → Bool) (refusal : Status) (timeout_ms : ℕ) (ws : List Wake) (q : Queue)
    → ends ws ≡ true
    → await blocked refusal timeout_ms ws q ≢ none
unfolding await
await-ends blocked refusal timeout_ms [] q h = ground arith
await-ends blocked refusal timeout_ms (w ∷ ws) q h =
    ground (arith, await-ends blocked refusal timeout_ms ws (apply_all q w.others))

await-now :
    (blocked : Queue → Bool) (refusal : Status) (ws : List Wake) (q : Queue)
    → await blocked refusal 0 ws q ≡ some (if blocked q then (stopped refusal, q) else (ready, q))
unfolding await
await-now blocked refusal [] q = ground arith
await-now blocked refusal (w ∷ ws) q = ground arith

-- Without a timeout the loop ends with the condition met or with OSAL_ERROR.
abbrev Plain : Option (Outcome × Queue) → Type 0
Plain none = Unit {0}
Plain (some (ready, q)) = Unit {0}
Plain (some (stopped st, q)) = st ≡ error

await-Plain :
    (blocked : Queue → Bool) (refusal : Status) (timeout_ms : ℕ) (ws : List Wake) (q : Queue)
    → timeout_ms ≢ 0
    → never_times_out ws ≡ true
    → Plain (await blocked refusal timeout_ms ws q)
unfolding await
await-Plain blocked refusal timeout_ms [] q n h = ground arith
await-Plain blocked refusal timeout_ms (w ∷ ws) q n h =
    ground (arith, await-Plain blocked refusal timeout_ms ws (apply_all q w.others) n)

sent-returns :
    (item : Item) (r : Option (Outcome × Queue)) → r ≢ none → lift_sent (sent item r) ≢ none
sent-returns item none h e = h refl
sent-returns item (some (stopped st, q)) h e = cc
sent-returns item (some (ready, q)) h e = cc

received-returns : (r : Option (Outcome × Queue)) → r ≢ none → lift_received (received r) ≢ none
received-returns none h e = h refl
received-returns (some (stopped st, q)) h e = cc
received-returns (some (ready, q)) h e = cc

by-returns :
    (d : Option (Option Timespec)) (env : Env) (q : Queue) (item : Item) (timeout_ms : ℕ)
    → ((limit : Option Timespec) → d ≡ some limit → ends (env.wakes limit) ≡ true)
    → (lift_sent (send_by d env q item timeout_ms) ≢ none)
      × (lift_received (receive_by d env q timeout_ms) ≢ none)
unfolding send_by receive_by
by-returns none env q item timeout_ms h = (λ e. cc, λ e. cc)
by-returns (some limit) env q item timeout_ms h = elim (Bool-cases env.lock_ok) [
  | inl locked ↦ rw locked (
    sent-returns item _
        (await-ends is_full queue_full timeout_ms (env.wakes limit) q (h limit refl)),
    received-returns _
        (await-ends is_empty queue_empty timeout_ms (env.wakes limit) q (h limit refl)),
  )
  | inr refused ↦ rw refused (λ e. cc, λ e. cc)
]

timed-limit :
    (env : Env) (timeout_ms : ℕ)
    → is_timed timeout_ms ≡ true
    → (limit : Option Timespec) → deadline env timeout_ms ≡ some limit
    → (ts : Timespec) × (limit ≡ some ts)
unfolding deadline
timed-limit env timeout_ms t limit e = ground arith

-- With a finite timeout that is not 0, `osal_queue_send` and `osal_queue_receive` return, if some
-- wait with a deadline returns ETIMEDOUT or an error when nothing else lets the call go on.
pub timed-returns :
    (env : Env) (q : Queue) (item : Item) (timeout_ms : ℕ)
    → is_timed timeout_ms ≡ true
    → ((ts : Timespec) → ends (env.wakes (some ts)) ≡ true)
    → (send env (some q) (some item) timeout_ms ≢ none)
      × (receive env (some q) true timeout_ms ≢ none)
unfolding send receive
timed-returns env q item timeout_ms t h =
    by-returns (deadline env timeout_ms) env q item timeout_ms
      λ limit e. let (ts, at) = timed-limit env timeout_ms t limit e in rw at (h ts)

-- With timeout 0 a call that gets the lock never waits: a send stores the item unless the queue is
-- full, a receive takes the oldest item unless it is empty, and the status says which.
pub poll-now :
    (env : Env) (q : Queue) (item : Item)
    → env.lock_ok ≡ true
    → (send env (some q) (some item) 0
        ≡ some (if is_full q then queue_full else success, some (apply q (put item))))
      × (receive env (some q) true 0
          ≡ some (
            if is_empty q then queue_empty else success,
            if is_empty q then none else some (dequeue q).0,
            some (apply q get),
          ))
unfolding send receive send_by receive_by apply deadline
poll-now env q item locked =
    rw
      (
        locked,
        await-now is_full queue_full (env.wakes none) q,
        await-now is_empty queue_empty (env.wakes none) q,
      )
      (ground arith, ground arith)

abbrev Final : Status → Type 0
Final st = (st ≡ success) ⊎ (st ≡ error)

sent-Final :
    (item : Item) (r : Option (Outcome × Queue)) (st : Status) (q' : Option Queue)
    → Plain r
    → lift_sent (sent item r) ≡ some (st, q')
    → Final st
sent-Final item none st q' p e = cc
sent-Final item (some (stopped s, q)) st q' p e = inr (ground arith)
sent-Final item (some (ready, q)) st q' p e = inl (ground arith)

received-Final :
    (r : Option (Outcome × Queue)) (st : Status) (x : Option Item) (q' : Option Queue)
    → Plain r
    → lift_received (received r) ≡ some (st, x, q')
    → Final st
received-Final none st x q' p e = cc
received-Final (some (stopped s, q)) st x q' p e = inr (ground arith)
received-Final (some (ready, q)) st x q' p e = inl (ground arith)

-- With OSAL_MAX_DELAY the only results of a send or a receive are OSAL_SUCCESS and OSAL_ERROR, if
-- no wait without a deadline returns ETIMEDOUT.
pub max_delay-status :
    (env : Env) (q : Queue) (item : Item)
    → never_times_out (env.wakes none) ≡ true
    → ((st : Status) (q' : Option Queue)
        → send env (some q) (some item) max_delay ≡ some (st, q')
        → (st ≡ success) ⊎ (st ≡ error))
      × ((st : Status) (x : Option Item) (q' : Option Queue)
          → receive env (some q) true max_delay ≡ some (st, x, q')
          → (st ≡ success) ⊎ (st ≡ error))
unfolding send receive send_by receive_by deadline
max_delay-status env q item h = elim (Bool-cases env.lock_ok) [
  | inl locked ↦ rw locked (
    λ st q' e.
        sent-Final item _ st q'
          (await-Plain is_full queue_full max_delay (env.wakes none) q (omega arith) h) e,
    λ st x q' e.
        received-Final _ st x q'
          (await-Plain is_empty queue_empty max_delay (env.wakes none) q (omega arith) h) e,
  )
  | inr refused ↦ rw refused (λ st q' e. inr (ground arith), λ st x q' e. inr (ground arith))
]
