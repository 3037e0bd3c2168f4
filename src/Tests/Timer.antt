-- ===== src/Tests/Timer.antt =====
-- Runs of the timer's thread.
use hq_platform.Base.{◌≤◌, ◌≡◌, refl, false, none, some, arith, []}
use hq_platform.Osal.Time.{Timespec, get_deadline}
use hq_platform.Osal.Timer.{
  Timer, waiting, armed, finished, signalled, timed_out, failed, resume, request_stop,
}
use hq_platform.Osal.Timer.Thread.{
  System, started, ran, Reach, here, next, Counted, is_calling, fired-le-starts,
  stop_requested-finishes,
}

abbrev one_shot : Timer
one_shot = record {
  period_ms = 1500;
  auto_reload = false;
  active = false;
  stop_requested = false;
  use_static = false;
  callback = 7;
  context = none;
  name = [];
}

abbrev idle : System
idle = record { timer = one_shot; phase = waiting; starts = 0; fired = 0 }

abbrev ten : Timespec
ten = record { tv_sec = 10; tv_nsec = 600_000_000 }

-- Started, armed, timed out, and back to waiting.
abbrev finished_run : System
finished_run = record idle { starts = 1; fired = 1 }

run : Reach idle finished_run
unfolding resume get_deadline
run =
    next (next (next (next here started) (ran (some ten) signalled)) (ran none timed_out))
      (ran none signalled)

idle-Counted : Counted idle
idle-Counted = record { one_shot = refl; count = omega arith }

fired-le-starts_example : 1 ≤ 1
fired-le-starts_example = fired-le-starts idle-Counted run

stop_requested-finishes_example :
    let (t', p') = resume none timed_out (request_stop one_shot) (armed ten) in
    let (t'', p'') = resume (some ten) failed t' p' in
    (p'' ≡ finished) × (t''.active ≡ false) × (is_calling p'' ≡ false)
stop_requested-finishes_example =
    stop_requested-finishes none (some ten) timed_out failed (request_stop one_shot) (armed ten)
      refl refl
