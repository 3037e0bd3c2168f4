-- ===== src/Tests/EspTimer.antt =====
-- Timers that are numbered one after the other.
use hq_platform.Base.{
  ℕ, ◌+◌, ◌%◌, ◌<◌, ◌≤◌, ◌≡◌, ◌≢◌, ◌⊎◌, ◌==◌, ==_refl, refl, Bool, true, false, ◌&&◌, not, ltb,
  Option, none, some, arith, if◌then◌else◌,
}
use hq_platform.Osal.Status.{success}
use hq_platform.Osal.Timer.Create.{CreateEnv}
use hq_platform.Osal.Esp.Timer.Agree.{refusal, posix, create-refuses}
use hq_platform.Osal.Esp.{Ticks, timeout_to_ticks}
use hq_platform.Osal.Esp.Timer.{
  RtosTimer, Request, Sizes, Meta, Timers, calls, behind, create, create_timer, create_at,
  meta_create, set_context, delete, timer_callback, get_context, write, period_to_ticks,
}
use hq_platform.Osal.Esp.Timer.Contract.{Documented, Made, View, put}
use hq_platform.Osal.Esp.Timer.Placement.{meta_create-within}
use hq_platform.Osal.Esp.Timer.Pending.{delete-dangling}
use hq_platform.Osal.Esp.Timer.History.{Reach, begin, creates, sets, Reach-timers}

-- The next handle, the IDs, and which of the handles below it are not deleted.
abbrev Service : Type 0
Service = ℕ × (ℕ → Option ℕ) × (ℕ → Bool)

abbrev make : Service → ℕ → Option ℕ × Service
make (n, ids, there) p =
    (some n, (n + 1, λ g. if n == g then some p else ids g, λ g. if n == g then true else there g))

abbrev numbered : RtosTimer
numbered = record {
  State = Service;
  create = λ s name ticks reload p. make s p;
  create_static = λ s name ticks reload p base. make s p;
  start = λ s h ticks. (true, s);
  reset = λ s h ticks. (true, s);
  stop = λ s h ticks. (true, s);
  delete = λ s h ticks. (true, (s.0, s.1, λ g. not (h == g) && s.2 g));
  change_period = λ s h n ticks. (true, s);
  start_from_isr = λ s h. (true, s);
  stop_from_isr = λ s h. (true, s);
  reset_from_isr = λ s h. (true, s);
  is_active = λ s h. s.2 h;
  get_id = λ s h. s.1 h;
}

abbrev alive : Service → ℕ → Bool
alive (n, ids, there) h = ltb h n && there h

make-Made : (s : Service) (p : ℕ) → Made numbered alive s p (make s p)
make-Made (n, ids, there) p =
    (ground arith, rw (==_refl n) refl, λ g. ground arith, λ g lives. ground arith)

numbered-Documented : Documented numbered
numbered-Documented = record {
  alive = alive;
  makes = λ s r ticks p. makes s r ticks p r.stack_pointer;
  deletes = λ s h ticks g. (ground arith, refl);
  starts = λ s h ticks g. (refl, refl);
  resets = λ s h ticks g. (refl, refl);
  stops = λ s h ticks g. (refl, refl);
  changes = λ s h n ticks g. (refl, refl);
  starts_isr = λ s h g. (refl, refl);
  stops_isr = λ s h g. (refl, refl);
  resets_isr = λ s h g. (refl, refl);
}
  where
    makes :
        (s : Service) (r : Request) (ticks p : ℕ) (stack : Option ℕ)
        → Made numbered alive s p (create_timer numbered s r ticks p stack)
    makes s r ticks p none = make-Made s p
    makes s r ticks p (some base) = make-Made s p

abbrev sizes : Sizes
sizes = record { static_timer = 44; meta = 12 }

abbrev ticks : Ticks
ticks = record { of_ms = λ ms. ms; max_ticks = 0xFFFFFFFF }

abbrev empty : Timers numbered
empty = record { rtos = (1, λ g. none, λ g. false); metas = λ p. none }

abbrev request : Request
request = record {
  name = none;
  period_ms = 100;
  auto_reload = true;
  callback = some 7;
  callback_arg = none;
  stack_pointer = none;
  stack_size = 0;
}

abbrev meta : Option ℕ → Meta
meta context = record { callback = some 7; context = context; free_meta = true }

-- One timer at address 4096
abbrev one : Option ℕ → Timers numbered
one context = record {
  rtos = (make empty.rtos 4096).1;
  metas = write empty.metas 4096 (some (meta context));
}

made : create numbered sizes ticks (some 4096) empty true request ≡ (success, some 1, one none)
unfolding create create_at meta_create period_to_ticks
made = refl

delete-dangling_example :
    (ts' : Timers numbered) × (delete numbered ticks (one none) (some 1) 0 ≡ some (success, ts'))
    × (timer_callback numbered ts' 1 ≡ none)
unfolding write timeout_to_ticks
delete-dangling_example =
    delete-dangling numbered ticks (one none) 1 4096 0 (meta none) refl refl refl refl refl

meta_create-within_example :
    ((meta_create sizes none (some 1002) 64 ≡ some (behind sizes 1002, false))
      × (1002 + 44 ≤ behind sizes 1002)
      × (behind sizes 1002 + 12 ≤ 1002 + 64)
      × (behind sizes 1002 % 4 ≡ 0))
    ⊎ ((meta_create sizes none (some 1002) 64 ≡ meta_create sizes none none 64)
        × (64 < 44 + 12 + 3))
meta_create-within_example = meta_create-within sizes none 1002 64 (omega arith) (omega arith)

abbrev renamed : Timers numbered
renamed = record (one none) { metas = write (one none).metas 4096 (some (meta (some 9))) }

-- A timer is made, and its context is set.
abbrev view : View
view = put (put (λ h. none) 1 (some (7, none))) 1 (some (7, some 9))

reached : Reach numbered numbered-Documented sizes ticks renamed view
unfolding create create_at meta_create period_to_ticks numbered-Documented set_context
reached =
    sets (creates (begin empty (λ h. ground arith)) (some 4096) true request unused) 1 7 none
      (some 9) success renamed refl refl
  where
    unused :
        (p : ℕ) (free_meta : Bool)
        → meta_create sizes (some 4096) none 0 ≡ some (p, free_meta)
        → (g : ℕ) → alive empty.rtos g ≡ true
        → none ≢ some p
    unused p free_meta e g lives same = cc

Reach-timers_example :
    (timer_callback numbered renamed 1 ≡ some (calls 7 1))
    × (get_context numbered renamed (some 1) ≡ some (some 9))
    × ((timeout_ms : ℕ) → delete numbered ticks renamed (some 1) timeout_ms ≢ none)
Reach-timers_example =
    Reach-timers numbered numbered-Documented sizes ticks reached 1 7 (some 9) refl

abbrev answers : CreateEnv
answers = record {
  sizeof_timer = 200;
  block_ok = true;
  mutex_ok = true;
  cond_ok = false;
  thread_ok = true;
}

-- A block of 16 bytes
abbrev cramped : Request
cramped = record request { stack_pointer = some 1000; stack_size = 16 }

create-refuses_example :
    refusal (posix answers true cramped)
    ≡ refusal (create numbered sizes ticks (some 4096) empty true cramped).0
create-refuses_example =
    create-refuses numbered ticks answers sizes empty (some 4096) true cramped refl
