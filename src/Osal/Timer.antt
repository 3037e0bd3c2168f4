-- ===== src/Osal/Timer.antt =====
-- The software timers of src/osal/posix/osal_timer_impl.c: a record that callers change under its
-- mutex, and one thread for each timer that waits for the deadline and makes the callback.
--
-- The thread is a machine whose phases are the places where it holds no lock: the two waits and the
-- callback. Between them it runs alone, so one step of it is one function of the timer.
pub mod Create
pub mod Thread
use hq_platform.Base.{
  ℕ, Bool, true, false, ◌&&◌, ◌||◌, not, List, [], ◌∷◌, Option, none, some, ltb, if◌then◌else◌,
}
use hq_platform.Base.Text.{CString}
use hq_platform.Osal.Time.{Timespec, get_deadline}
use hq_platform.Osal.Resources.{Event, release, block, mutex, cond, thread}
use hq_platform.Osal.Status.{
  Status, success, error, invalid_pointer, timer_err_invalid_args, err_not_implemented,
}

-- `struct osal_timer_internal`, less the system's objects; the callback and the context are names.
pub record Timer : Type 0 where
  pub period_ms : ℕ
  pub auto_reload : Bool
  pub active : Bool
  pub stop_requested : Bool
  pub use_static : Bool
  pub callback : ℕ
  pub context : Option ℕ
  pub name : CString

-- Where the thread stands: in `pthread_cond_wait`, in `pthread_cond_timedwait` with its deadline, in
-- the callback, or returned.
pub data Phase : Type 0 where
  waiting : Phase
  armed : Timespec → Phase
  calling : Timespec → Phase
  finished : Phase

-- What `pthread_cond_timedwait` returns.
pub data Waited : Type 0 where
  signalled timed_out failed : Waited

abbrev pub disarm : Timer → Timer
disarm t = record t { active = false }

-- `osal_timer_get_deadline`, on what the clock shows
abbrev pub timer_deadline : Option Timespec → Timer → Option Timespec
timer_deadline clock t = get_deadline clock t.period_ms

-- The thread at the head of the outer loop, with the lock held: it leaves, waits to be started, or
-- reads the clock and arms itself.
unfoldable pub outer : Option Timespec → Timer → Timer × Phase
outer clock t =
    if t.stop_requested
    then (t, finished)
    else if t.active
    then (elim (timer_deadline clock t) [ none ↦ (disarm t, finished) | some d ↦ (t, armed d) ])
    else (t, waiting)

-- At the head of the inner loop.
unfoldable pub inner : Option Timespec → Timer → Timespec → Timer × Phase
unfolding outer
inner clock t d = if t.active && not t.stop_requested then (t, armed d) else outer clock t

-- After a timed wait that ended with the deadline: a one-shot timer goes dormant, another one takes
-- its next deadline, and either way the callback is made.
unfoldable pub expire : Option Timespec → Timer → Timespec → Timer × Phase
expire clock t d =
    if t.auto_reload
    then (elim (timer_deadline clock t) [ none ↦ (disarm t, calling d) | some e ↦ (t, calling e) ])
    else (disarm t, calling d)

-- After a timed wait that was signalled.
unfoldable pub signal : Option Timespec → Timer → Timer × Phase
unfolding outer
signal clock t =
    if not t.active || t.stop_requested
    then outer clock t
    else (elim (timer_deadline clock t) [ none ↦ outer clock (disarm t) | some d ↦ (t, armed d) ])

-- The thread runs on from a wait or from the callback until it next gives up the lock, with what the
-- clock shows if it asks: `osal_timer_thread`.
unfoldable pub resume : Option Timespec → Waited → Timer → Phase → Timer × Phase
unfolding inner expire signal
resume clock ret t waiting = outer clock t
resume clock timed_out t (armed d) = expire clock t d
resume clock failed t (armed d) = outer clock (disarm t)
resume clock signalled t (armed d) = signal clock t
resume clock ret t (calling d) = if t.auto_reload then inner clock t d else outer clock t
resume clock ret t finished = (t, finished)

-- A call on a timer: the pointer, the lock, and the change that it makes.
abbrev pub locked_change : Bool → Option Timer → (Timer → Timer) → Status × Option Timer
locked_change lock_ok none change = (invalid_pointer, none)
locked_change lock_ok (some t) change =
    if lock_ok then (success, some (change t)) else (error, some t)

abbrev pub activate : Timer → Timer
activate t = record t { active = true }

-- `osal_timer_start`, `osal_timer_reset` and `osal_timer_stop`; the timeout is not used.
unfoldable pub start : Bool → Option Timer → ℕ → Status × Option Timer
start lock_ok timer timeout_ms = locked_change lock_ok timer activate

unfoldable pub reset : Bool → Option Timer → ℕ → Status × Option Timer
reset lock_ok timer timeout_ms = locked_change lock_ok timer activate

unfoldable pub stop : Bool → Option Timer → ℕ → Status × Option Timer
stop lock_ok timer timeout_ms = locked_change lock_ok timer disarm

-- `osal_timer_change_period`
unfoldable pub change_period : Bool → Option Timer → ℕ → ℕ → Status × Option Timer
change_period lock_ok none new_period_ms timeout_ms = (invalid_pointer, none)
change_period lock_ok (some t) new_period_ms timeout_ms =
    if ltb 0 new_period_ms
    then locked_change lock_ok (some t) (λ u. record u { period_ms = new_period_ms; active = true })
    else (timer_err_invalid_args, some t)

-- The first part of `osal_timer_delete`, up to the join.
abbrev pub request_stop : Timer → Timer
request_stop t = record t { stop_requested = true; active = false }

-- The end of `osal_timer_delete`, after the join.
unfoldable pub dispose : Bool → Timer → Status × List Event
dispose join_ok t =
    if join_ok
    then (
      success,
      release thread
          ∷ release cond
          ∷ release mutex
          ∷ (if t.use_static then [] else release block ∷ []),
    )
    else (error, [])

-- `osal_timer_delete`, with the timer that is left: none where it was disposed of.
pub delete : Bool → Bool → Option Timer → Status × Option Timer × List Event
unfolding dispose
delete lock_ok join_ok none = (invalid_pointer, none, [])
delete lock_ok join_ok (some t) =
    let (st, trace) = dispose join_ok (request_stop t) in
    if lock_ok
    then (st, if join_ok then none else some (request_stop t), trace)
    else (error, some t, [])

-- `osal_timer_is_active`, `osal_timer_get_context` and `osal_timer_set_context`
unfoldable pub is_active : Bool → Option Timer → Bool
is_active lock_ok none = false
is_active lock_ok (some t) = if lock_ok then t.active else false

unfoldable pub get_context : Bool → Option Timer → Option ℕ
get_context lock_ok none = none
get_context lock_ok (some t) = if lock_ok then t.context else none

unfoldable pub set_context : Bool → Option Timer → Option ℕ → Status × Option Timer
set_context lock_ok timer context =
    locked_change lock_ok timer (λ t. record t { context = context })

-- `osal_timer_start_from_isr`, `osal_timer_stop_from_isr` and `osal_timer_reset_from_isr`
unfoldable pub start_from_isr : Option Timer → Status
start_from_isr timer = err_not_implemented

unfoldable pub stop_from_isr : Option Timer → Status
stop_from_isr timer = err_not_implemented

unfoldable pub reset_from_isr : Option Timer → Status
reset_from_isr timer = err_not_implemented
