-- ===== src/Osal/Queue.antt =====
-- The message queue of src/osal/posix/osal_queue_impl.c: a ring of fixed-size items in one block of
-- bytes, guarded by a mutex. A pointer is an `Option`, and `none` is NULL.
--
-- What the mutex hides is explicit: a thread that waits on a condition lets others run, and a `Wake`
-- says what they did in the meantime and what the wait returned.
pub mod Inv
pub mod Fifo
pub mod Items
pub mod Refine
pub mod Wait
pub mod Create
use hq_platform.Base.{
  ℕ, ◌+◌, ◌-◌, ◌*◌, ◌/◌, ◌%◌, ◌^◌, Bool, true, false, ◌||◌, not, List, [], ◌∷◌, Option, none, some,
  take, ltb, ◌==◌, if◌then◌else◌, blit, slice,
}
use hq_platform.Base.Int.{to_uint32}
use hq_platform.Base.Text.{CString, terminated_within}
use hq_platform.Osal.Time.{Timespec, get_deadline}
use hq_platform.Osal.Status.{
  Status, success, error, invalid_pointer, err_name_too_long, queue_invalid_size, queue_full,
  queue_empty, queue_timeout, err_invalid_id, err_not_implemented, code,
}

-- OSAL_MAX_DELAY and OSAL_MAX_NAME_LEN
abbrev pub max_delay : ℕ
max_delay = 0xFFFFFFFF

abbrev pub max_name_len : ℕ
max_name_len = 32

abbrev pub Item : Type 0
Item = List ℕ

-- `struct osal_queue_internal`, less the mutex and the conditions
pub record Queue : Type 0 where
  pub buffer : List ℕ
  pub item_size : ℕ
  pub max_items : ℕ
  pub head : ℕ
  pub tail : ℕ
  pub count : ℕ
  pub name : CString

-- `uint32_t` and `size_t` arithmetic
abbrev pub add_u32 : ℕ → ℕ → ℕ
add_u32 a b = (a + b) % 2 ^ 32

abbrev pub dec_u32 : ℕ → ℕ
dec_u32 a = (a + (2 ^ 32 - 1)) % 2 ^ 32

abbrev pub mul_size : ℕ → ℕ → ℕ
mul_size a b = (a * b) % 2 ^ 64

abbrev pub size_max : ℕ
size_max = 2 ^ 64 - 1

-- The end of `osal_queue_send`, reached with the mutex held and a slot free.
unfoldable pub enqueue : Queue → Item → Queue
enqueue q item = record q {
  buffer = blit q.buffer (mul_size q.tail q.item_size) (take q.item_size item);
  tail = add_u32 q.tail 1 % q.max_items;
  count = add_u32 q.count 1;
}

-- The end of `osal_queue_receive`, with what it copies to the caller.
unfoldable pub dequeue : Queue → Item × Queue
dequeue q = (
  slice q.buffer (mul_size q.head q.item_size) q.item_size,
  record q { head = add_u32 q.head 1 % q.max_items; count = dec_u32 q.count },
)

abbrev pub is_full : Queue → Bool
is_full q = q.count == q.max_items

abbrev pub is_empty : Queue → Bool
is_empty q = q.count == 0

-- What another thread does while it holds the mutex: it moves one item, if it finds a slot.
pub data Op : Type 0 where
  put : Item → Op
  get : Op

unfoldable pub apply : Queue → Op → Queue
apply q (put item) = if is_full q then q else enqueue q item
apply q get = if is_empty q then q else (dequeue q).1

unfoldable pub apply_all : Queue → List Op → Queue
unfolding apply
apply_all q [] = q
apply_all q (op ∷ ops) = apply_all (apply q op) ops

-- What a wait on a condition returns: 0, ETIMEDOUT or another error number.
pub data Waited : Type 0 where
  signalled timed_out failed : Waited

pub record Wake : Type 0 where
  pub others : List Op
  pub ret : Waited

-- How a loop ends: with the condition met, or with a status to return.
pub data Outcome : Type 0 where
  ready : Outcome
  stopped : Status → Outcome

abbrev pub after_wait : Waited → Queue → Option (Outcome × Queue) → Option (Outcome × Queue)
after_wait signalled q rest = rest
after_wait timed_out q rest = some (stopped queue_timeout, q)
after_wait failed q rest = some (stopped error, q)

-- The `while` loops of send and receive, with their test and the status at timeout 0. The list holds
-- the wakes to come; `none` is a thread that is still waiting after them.
unfoldable pub await : (Queue → Bool) → Status → ℕ → List Wake → Queue → Option (Outcome × Queue)
unfolding apply_all
await blocked refusal timeout_ms [] q =
    if blocked q
    then (if timeout_ms == 0 then some (stopped refusal, q) else none)
    else some (ready, q)
await blocked refusal timeout_ms (w ∷ ws) q =
    let q' = apply_all q w.others in
    let rest = await blocked refusal timeout_ms ws q' in
    if blocked q
    then (if timeout_ms == 0 then some (stopped refusal, q) else after_wait w.ret q' rest)
    else some (ready, q)

-- What the system answers during one call: the clock, the lock, and the wakes for a deadline
-- (`none` where the call waits without one).
pub record Env : Type 0 where
  pub now : Option Timespec
  pub lock_ok : Bool
  pub wakes : Option Timespec → List Wake

-- `timeout_ms != 0U && timeout_ms != OSAL_MAX_DELAY`
abbrev pub is_timed : ℕ → Bool
is_timed timeout_ms = not (timeout_ms == 0 || timeout_ms == max_delay)

-- The check before the loops: no deadline is needed, or it is computed, or the clock failed.
unfoldable pub deadline : Env → ℕ → Option (Option Timespec)
unfolding get_deadline
deadline env timeout_ms =
    if is_timed timeout_ms
    then (elim (get_deadline env.now timeout_ms) [ none ↦ none | some ts ↦ some (some ts) ])
    else some none

abbrev pub sent : Item → Option (Outcome × Queue) → Option (Status × Queue)
sent item none = none
sent item (some (stopped s, q)) = some (s, q)
sent item (some (ready, q)) = some (success, enqueue q item)

-- `osal_queue_send` on pointers that are not NULL
unfoldable pub send_by : Option (Option Timespec) → Env → Queue → Item → ℕ → Option (Status × Queue)
unfolding await enqueue
send_by none env q item timeout_ms = some (error, q)
send_by (some limit) env q item timeout_ms =
    if env.lock_ok
    then sent item (await is_full queue_full timeout_ms (env.wakes limit) q)
    else some (error, q)

abbrev pub received : Option (Outcome × Queue) → Option (Status × Option Item × Queue)
received none = none
received (some (stopped s, q)) = some (s, none, q)
received (some (ready, q)) = let (item, q') = dequeue q in some (success, some item, q')

-- `osal_queue_receive` on pointers that are not NULL; the item is what it copies to `buffer`.
pub receive_by : Option (Option Timespec) → Env → Queue → ℕ → Option (Status × Option Item × Queue)
unfolding await dequeue
receive_by none env q timeout_ms = some (error, none, q)
receive_by (some limit) env q timeout_ms =
    if env.lock_ok
    then received (await is_empty queue_empty timeout_ms (env.wakes limit) q)
    else some (error, none, q)

abbrev pub lift_sent : Option (Status × Queue) → Option (Status × Option Queue)
lift_sent none = none
lift_sent (some (st, q)) = some (st, some q)

-- `osal_queue_send`; `none` is a call that has not returned.
unfoldable pub send : Env → Option Queue → Option Item → ℕ → Option (Status × Option Queue)
unfolding send_by deadline
send env none item timeout_ms = some (invalid_pointer, none)
send env (some q) none timeout_ms = some (invalid_pointer, some q)
send env (some q) (some item) timeout_ms =
    lift_sent (send_by (deadline env timeout_ms) env q item timeout_ms)

abbrev pub lift_received :
    Option (Status × Option Item × Queue) → Option (Status × Option Item × Option Queue)
lift_received none = none
lift_received (some (st, item, q)) = some (st, item, some q)

-- `osal_queue_receive`; the flag is `buffer != NULL`.
unfoldable pub receive :
    Env → Option Queue → Bool → ℕ → Option (Status × Option Item × Option Queue)
unfolding receive_by deadline
receive env none buffer timeout_ms = some (invalid_pointer, none, none)
receive env (some q) false timeout_ms = some (invalid_pointer, none, some q)
receive env (some q) true timeout_ms =
    lift_received (receive_by (deadline env timeout_ms) env q timeout_ms)

-- `osal_queue_get_count`, the flag is that the lock was taken. The pointer check returns a status
-- where the function returns `uint32_t`.
pub get_count : Bool → Option Queue → ℕ
unfolding code
get_count lock_ok none = to_uint32 (code invalid_pointer)
get_count lock_ok (some q) = if lock_ok then q.count else 0

-- `osal_queue_send_from_isr` and `osal_queue_receive_from_isr`
pub send_from_isr : Option Queue → Option Item → Status
send_from_isr queue_id item = err_not_implemented

pub receive_from_isr : Option Queue → Bool → Status
receive_from_isr queue_id buffer = err_not_implemented
