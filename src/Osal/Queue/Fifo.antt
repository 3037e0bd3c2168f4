-- ===== src/Osal/Queue/Fifo.antt =====
-- What a message queue promises: a FIFO of at most `cap` items, oldest first.
use hq_platform.Base.{ℕ, Bool, List, [], ◌∷◌, ◌++◌, Option, none, some, length, ◌==◌, if◌then◌else◌}
use hq_platform.Osal.Status.{Status, success, error, queue_timeout, queue_full, queue_empty}
use hq_platform.Osal.Time.{Timespec}
use hq_platform.Osal.Queue.{
  Item, Op, put, get, Wake, Waited, signalled, timed_out, failed, Outcome, ready, stopped, Env,
}

abbrev pub Fifo : Type 0
Fifo = List Item

abbrev pub pop : Fifo → Fifo
pop [] = []
pop (x ∷ xs) = xs

module _ (cap : ℕ) where
  unfoldable pub apply : Fifo → Op → Fifo
  apply xs (put item) = if length xs == cap then xs else xs ++ item ∷ []
  apply xs get = pop xs

  unfoldable pub apply_all : Fifo → List Op → Fifo
  unfolding apply
  apply_all xs [] = xs
  apply_all xs (op ∷ ops) = apply_all (apply xs op) ops

  abbrev after_wait : Waited → Fifo → Option (Outcome × Fifo) → Option (Outcome × Fifo)
  after_wait signalled xs rest = rest
  after_wait timed_out xs rest = some (stopped queue_timeout, xs)
  after_wait failed xs rest = some (stopped error, xs)

  -- A call waits until it is not blocked, and gives up at once with timeout 0, or when a wait
  -- returns an error.
  unfoldable pub await : (Fifo → Bool) → Status → ℕ → List Wake → Fifo → Option (Outcome × Fifo)
  unfolding apply_all
  await blocked refusal timeout_ms [] xs =
      if blocked xs
      then (if timeout_ms == 0 then some (stopped refusal, xs) else none)
      else some (ready, xs)
  await blocked refusal timeout_ms (w ∷ ws) xs =
      let xs' = apply_all xs w.others in
      let rest = await blocked refusal timeout_ms ws xs' in
      if blocked xs
      then (if timeout_ms == 0 then some (stopped refusal, xs) else after_wait w.ret xs' rest)
      else some (ready, xs)

  abbrev pub is_full : Fifo → Bool
  is_full xs = length xs == cap

abbrev pub is_empty : Fifo → Bool
is_empty xs = length xs == 0

abbrev pub sent : Item → Option (Outcome × Fifo) → Option (Status × Fifo)
sent item none = none
sent item (some (stopped s, xs)) = some (s, xs)
sent item (some (ready, xs)) = some (success, xs ++ item ∷ [])

abbrev pub front : Fifo → Option Item
front [] = none
front (x ∷ xs) = some x

abbrev pub received : Option (Outcome × Fifo) → Option (Status × Option Item × Fifo)
received none = none
received (some (stopped s, xs)) = some (s, none, xs)
received (some (ready, xs)) = some (success, front xs, pop xs)

-- A call fails with the clock or with the lock, and otherwise waits for its turn.
unfoldable pub send : ℕ → Option (Option Timespec) → Env → Fifo → Item → ℕ → Option (Status × Fifo)
unfolding await
send cap none env xs item timeout_ms = some (error, xs)
send cap (some limit) env xs item timeout_ms =
    if env.lock_ok
    then sent item (await cap (is_full cap) queue_full timeout_ms (env.wakes limit) xs)
    else some (error, xs)

unfoldable pub receive :
    ℕ → Option (Option Timespec) → Env → Fifo → ℕ → Option (Status × Option Item × Fifo)
unfolding await
receive cap none env xs timeout_ms = some (error, none, xs)
receive cap (some limit) env xs timeout_ms =
    if env.lock_ok
    then received (await cap is_empty queue_empty timeout_ms (env.wakes limit) xs)
    else some (error, none, xs)
