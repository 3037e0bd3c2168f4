-- ===== src/Osal/Timer/Thread.antt =====
-- What the timer thread does over any history of calls, waits and callbacks.
use hq_platform.Base.{
  ℕ, ◌+◌, ◌≤◌, ◌≡◌, refl, Bool, true, false, Option, none, some, arith, if◌then◌else◌,
}
use hq_platform.Osal.Time.{Timespec, timespec_add_ms, get_deadline}
use hq_platform.Osal.Status.{success}
use hq_platform.Osal.Timer.{
  Timer, Phase, waiting, armed, calling, finished, Waited, signalled, timed_out, failed, outer,
  inner, expire, signal, resume, disarm, activate, request_stop, start, is_active,
}

-- The timer and its thread.
pub record System : Type 0 where
  pub timer : Timer
  pub phase : Phase
  -- how often the timer was started, and how often the callback was made
  pub starts : ℕ
  pub fired : ℕ

abbrev pub is_calling : Phase → Bool
is_calling (calling d) = true
is_calling _ = false

abbrev after : System → Timer × Phase → System
after s (t, p) = record s {
  timer = t;
  phase = p;
  fired = s.fired + (if is_calling p then 1 else 0);
}

-- The calls change the timer while the thread waits or is in the callback; `osal_timer_start`,
-- `osal_timer_reset` and `osal_timer_change_period` are starts. The callback itself may make calls.
pub data Step (s : System) : System → Type 0 where
  started : Step s (record s { timer = activate s.timer; starts = s.starts + 1 })
  changed :
      (period_ms : ℕ)
      → Step s (record s {
        timer = record (activate s.timer) { period_ms = period_ms };
        starts = s.starts + 1;
      })
  stopped : Step s (record s { timer = disarm s.timer })
  deleted : Step s (record s { timer = request_stop s.timer })
  ran :
      (clock : Option Timespec) (ret : Waited) → Step s (after s (resume clock ret s.timer s.phase))

pub data Reach (s : System) : System → Type 0 where
  here : Reach s s
  next : {t u : System} → Reach s t → Step t u → Reach s u

-- The thread can still fire without another start.
abbrev pub is_loaded : Timer → Phase → Bool
is_loaded t (armed d) = true
is_loaded t finished = false
is_loaded t _ = t.active

-- A one-shot timer and the callbacks that its starts allow.
pub record Counted (s : System) : Type 0 where
  pub one_shot : s.timer.auto_reload ≡ false
  pub count : s.fired + (if is_loaded s.timer s.phase then 1 else 0) ≤ s.starts

-- One step of the thread of a one-shot timer uses up what is loaded when it makes the callback.
resume_loaded :
    (clock : Option Timespec) (ret : Waited) (t : Timer) (p : Phase)
    → t.auto_reload ≡ false
    → let (t', p') = resume clock ret t p in
      (t'.auto_reload ≡ false)
      × ((if is_calling p' then 1 else 0) + (if is_loaded t' p' then 1 else 0)
          ≤ (if is_loaded t p then 1 else 0))
unfolding resume inner outer expire signal
resume_loaded clock ret t waiting h = ground arith
resume_loaded clock signalled t (armed d) h = ground arith
resume_loaded clock timed_out t (armed d) h = ground arith
resume_loaded clock failed t (armed d) h = ground arith
resume_loaded clock ret t (calling d) h = ground arith
resume_loaded clock ret t finished h = ground arith

loaded-le-one : (t : Timer) (p : Phase) → (if is_loaded t p then 1 else 0) ≤ 1
loaded-le-one t p = ground arith

loaded_dormant :
    (t u : Timer) (p : Phase)
    → u.active ≡ false
    → (if is_loaded u p then 1 else 0) ≤ (if is_loaded t p then 1 else 0)
loaded_dormant t u (armed d) h = ground arith
loaded_dormant t u _ h = ground arith

Step-Counted : {s u : System} → Step s u → Counted s → Counted u
Step-Counted {s} started c = record {
  one_shot = c.one_shot;
  count = omega (arith, loaded-le-one (activate s.timer) s.phase, c.count);
}
Step-Counted {s} (changed period_ms) c = record {
  one_shot = c.one_shot;
  count =
      omega (
        arith,
        loaded-le-one (record (activate s.timer) { period_ms = period_ms }) s.phase,
        c.count,
      );
}
Step-Counted {s} stopped c = record {
  one_shot = c.one_shot;
  count = omega (arith, loaded_dormant s.timer (disarm s.timer) s.phase refl, c.count);
}
Step-Counted {s} deleted c = record {
  one_shot = c.one_shot;
  count = omega (arith, loaded_dormant s.timer (request_stop s.timer) s.phase refl, c.count);
}
Step-Counted {s} (ran clock ret) c =
    let (kept, le) = resume_loaded clock ret s.timer s.phase c.one_shot in
    record { one_shot = kept; count = omega (arith, le, c.count) }

Reach-Counted : {s u : System} → Counted s → Reach s u → Counted u
Reach-Counted c here = c
Reach-Counted c (next r st) = Step-Counted st (Reach-Counted c r)

-- A one-shot timer makes at most one callback for each start, in every history of starts, stops,
-- timeouts, spurious wakes and clock failures.
pub fired-le-starts : {s u : System} → Counted s → Reach s u → u.fired ≤ u.starts
fired-le-starts c r = omega (arith, (Reach-Counted c r).count)

-- Once a stop is requested and the timer is not active, the thread has finished two steps later,
-- whatever its waits return and the clock shows, without a callback in the second.
pub stop_requested-finishes :
    (clock clock' : Option Timespec) (ret ret' : Waited) (t : Timer) (p : Phase)
    → t.stop_requested ≡ true
    → t.active ≡ false
    → let (t', p') = resume clock ret t p in
      let (t'', p'') = resume clock' ret' t' p' in
      (p'' ≡ finished) × (t''.active ≡ false) × (is_calling p'' ≡ false)
unfolding resume inner outer expire signal
stop_requested-finishes clock clock' ret ret' t waiting h k = ground arith
stop_requested-finishes clock clock' signalled ret' t (armed d) h k = ground arith
stop_requested-finishes clock clock' timed_out ret' t (armed d) h k = ground arith
stop_requested-finishes clock clock' failed ret' t (armed d) h k = ground arith
stop_requested-finishes clock clock' ret ret' t (calling d) h k = ground arith
stop_requested-finishes clock clock' ret ret' t finished h k = ground arith

-- A stop does not hold back a callback whose deadline has passed: the thread makes it without
-- another look at the flags.
pub stopped-fires :
    (clock : Option Timespec) (t : Timer) (d : Timespec)
    → is_calling (resume clock timed_out (disarm t) (armed d)).1 ≡ true
unfolding resume expire
stopped-fires clock t d = ground arith

-- When the clock fails as the thread of an active timer arms itself, the thread has finished; later
-- starts are accepted, the timer counts as active again, and the thread stays finished.
pub clock_failure-final :
    (ret : Waited) (t : Timer)
    → t.stop_requested ≡ false
    → t.active ≡ true
    → let (t', p') = resume none ret t waiting in
      (p' ≡ finished)
      × ((timeout_ms : ℕ)
          → start true (some t') timeout_ms ≡ (success, some (activate t'))
            × (is_active true (some (activate t')) ≡ true))
      × ((clock : Option Timespec) (ret' : Waited)
          → (resume clock ret' (activate t') p').1 ≡ finished)
unfolding resume outer get_deadline start is_active
clock_failure-final ret t h k = ground (arith)

-- An auto-reload timer that nobody stops takes its next deadline one period after the time that the
-- clock shows at the expiry, makes the callback, and waits for that deadline.
pub expire-rearms :
    (now : Timespec) (clock : Option Timespec) (ret : Waited) (t : Timer) (d : Timespec)
    → t.auto_reload ≡ true
    → t.active ≡ true
    → t.stop_requested ≡ false
    → let next_deadline = timespec_add_ms now t.period_ms in
      (resume (some now) timed_out t (armed d) ≡ (t, calling next_deadline))
      × (resume clock ret t (calling next_deadline) ≡ (t, armed next_deadline))
unfolding resume inner expire get_deadline
expire-rearms now clock ret t d a b c = ground arith
