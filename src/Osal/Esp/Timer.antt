-- ===== src/Osal/Esp/Timer.antt =====
-- The timers of the ESP port, src/osal/esp/osal_timer_impl.c, over those of FreeRTOS as an interface.
pub mod Placement
pub mod Contract
pub mod Creation
pub mod Changes
pub mod History
pub mod Pending
pub mod Agree
use hq_platform.Base.{
  ℕ, ◌+◌, ◌*◌, ◌/◌, ◌%◌, ◌^◌, ◌==◌, leb, not, Bool, true, false, [], Option, none, some,
  if◌then◌else◌,
}
use hq_platform.Base.Text.{CString}
use hq_platform.Osal.Status.{
  Status, success, error, invalid_pointer, err_name_too_long, err_invalid_size, err_invalid_id,
  timer_err_invalid_args, timer_err_internal,
}
use hq_platform.Osal.Semaphore.{name_fits}
use hq_platform.Osal.Esp.{Ticks, timeout_to_ticks}

-- What is used of the timers of FreeRTOS. A handle and the ID of a timer are addresses; a command to
-- the timer service is sent with the ticks to wait, but from interrupts.
pub record RtosTimer : Type 1 where
  pub State : Type 0
  pub create : State → CString → ℕ → Bool → ℕ → Option ℕ × State
  pub create_static : State → CString → ℕ → Bool → ℕ → ℕ → Option ℕ × State
  pub start : State → ℕ → ℕ → Bool × State
  pub reset : State → ℕ → ℕ → Bool × State
  pub stop : State → ℕ → ℕ → Bool × State
  pub delete : State → ℕ → ℕ → Bool × State
  pub change_period : State → ℕ → ℕ → ℕ → Bool × State
  pub start_from_isr : State → ℕ → Bool × State
  pub stop_from_isr : State → ℕ → Bool × State
  pub reset_from_isr : State → ℕ → Bool × State
  pub is_active : State → ℕ → Bool
  pub get_id : State → ℕ → Option ℕ

-- `struct osal_timer_meta`
pub record Meta : Type 0 where
  pub callback : Option ℕ
  pub context : Option ℕ
  pub free_meta : Bool

-- OSAL_TIMER_STATIC_SIZE and `sizeof (struct osal_timer_meta)`
pub record Sizes : Type 0 where
  pub static_timer : ℕ
  pub meta : ℕ

-- The arguments of `osal_timer_create` behind the first
pub record Request : Type 0 where
  pub name : Option CString
  pub period_ms : ℕ
  pub auto_reload : Bool
  pub callback : Option ℕ
  pub callback_arg : Option ℕ
  pub stack_pointer : Option ℕ
  pub stack_size : ℕ

-- `osal_period_to_ticks`
unfoldable pub period_to_ticks : Ticks → ℕ → ℕ
period_to_ticks T period_ms = if T.of_ms period_ms == 0 then 1 else T.of_ms period_ms

-- `(addr + (align - 1U)) & ~(align - 1U)` on a `uintptr_t`, for pointers of 4 bytes
abbrev pub aligned : ℕ → ℕ
aligned addr = (addr + 3) % 2 ^ 32 / 4 * 4

-- The address behind the timer in the block of the caller
abbrev pub behind : Sizes → ℕ → ℕ
behind sizes base = aligned ((base + sizes.static_timer) % 2 ^ 32)

abbrev from_heap : Option ℕ → Option (ℕ × Bool)
from_heap none = none
from_heap (some p) = some (p, true)

-- Where `osal_timer_meta_create` puts the structure, with its `free_meta`; `block` is what `malloc`
-- answers.
unfoldable pub meta_create : Sizes → Option ℕ → Option ℕ → ℕ → Option (ℕ × Bool)
meta_create sizes block none stack_size = from_heap block
meta_create sizes block (some base) stack_size =
    if leb ((behind sizes base + sizes.meta) % 2 ^ 32) ((base + stack_size) % 2 ^ 32)
    then some (behind sizes base, false)
    else from_heap block

-- `name != NULL ? name : ""`
abbrev name_or_empty : Option CString → CString
name_or_empty none = []
name_or_empty (some name) = name

abbrev pub large_enough : Sizes → Request → Bool
large_enough sizes r = elim r.stack_pointer [
  | none ↦ true
  | some base ↦ leb sizes.static_timer r.stack_size
]

-- What an expiry does: it calls the function of the timer with its handle, or nothing.
pub data Fired : Type 0 where
  calls : ℕ → ℕ → Fired
  nothing : Fired

-- Memory, and the write of `c` at `p`; `none` is memory that was given back.
abbrev pub Metas : Type 0
Metas = ℕ → Option Meta

unfoldable pub write : Metas → ℕ → Option Meta → Metas
write metas p c q = if p == q then c else metas q

module _ (R : RtosTimer) where
  -- The state of the timer service, and the structures in memory.
  pub record Timers : Type 0 where
    pub rtos : R.State
    pub metas : Metas

  -- `xTimerCreateStatic` or `xTimerCreate`
  abbrev pub create_timer : R.State → Request → ℕ → ℕ → Option ℕ → Option ℕ × R.State
  create_timer s r ticks p none = R.create s (name_or_empty r.name) ticks r.auto_reload p
  create_timer s r ticks p (some base) =
      R.create_static s (name_or_empty r.name) ticks r.auto_reload p base

  -- What the call leaves of the structure, and its result
  abbrev pub created : Metas → ℕ → Bool → Meta → Option ℕ × R.State → Status × Option ℕ × Timers
  created metas p free_meta meta (none, rtos) = (
    error,
    none,
    record {
      rtos = rtos;
      metas =
          let filled = write metas p (some meta) in
          if free_meta then write filled p none else filled;
    },
  )
  created metas p free_meta meta (some handle, rtos) =
      (success, some handle, record { rtos = rtos; metas = write metas p (some meta) })

  -- From the writes of the structure on
  unfoldable pub create_at : Ticks → Timers → Request → ℕ → Bool → Status × Option ℕ × Timers
  unfolding write period_to_ticks
  create_at T ts r p free_meta =
      let meta : Meta = record {
        callback = r.callback;
        context = r.callback_arg;
        free_meta = free_meta;
      } in
      created ts.metas p free_meta meta
        (create_timer ts.rtos r (period_to_ticks T r.period_ms) p r.stack_pointer)

  abbrev pub placed : Ticks → Timers → Request → Option (ℕ × Bool) → Status × Option ℕ × Timers
  placed T ts r none = (error, none, ts)
  placed T ts r (some (p, free_meta)) = create_at T ts r p free_meta

  -- Behind the checks of the two pointers; `place` is what `osal_timer_meta_create` gives.
  abbrev pub checked :
      Ticks → Timers → Sizes → Request → Option (ℕ × Bool) → Status × Option ℕ × Timers
  checked T ts sizes r place =
      if not (name_fits r.name)
      then (err_name_too_long, none, ts)
      else if r.period_ms == 0
      then (timer_err_invalid_args, none, ts)
      else if not (large_enough sizes r)
      then (err_invalid_size, none, ts)
      else placed T ts r place

  abbrev pub with_callback :
      Ticks → Timers → Sizes → Option ℕ → Request → Option ℕ → Status × Option ℕ × Timers
  with_callback T ts sizes block r none = (invalid_pointer, none, ts)
  with_callback T ts sizes block r (some callback) =
      checked T ts sizes r (meta_create sizes block r.stack_pointer r.stack_size)

  -- `osal_timer_create`; the flag is `timer_id != NULL`.
  unfoldable pub create :
      Sizes → Ticks → Option ℕ → Timers → Bool → Request → Status × Option ℕ × Timers
  unfolding create_at meta_create
  create sizes T block ts timer_id r =
      if timer_id then with_callback T ts sizes block r r.callback else (invalid_pointer, none, ts)

  -- A command to the timer service, and its result
  abbrev pub sent : Timers → Bool × R.State → Status × Timers
  sent ts (passed, rtos) =
      (if passed then success else timer_err_internal, record ts { rtos = rtos })

  -- `osal_timer_start`
  unfoldable pub start : Ticks → Timers → Option ℕ → ℕ → Status × Timers
  unfolding timeout_to_ticks
  start T ts none timeout_ms = (invalid_pointer, ts)
  start T ts (some timer) timeout_ms =
      sent ts (R.start ts.rtos timer (timeout_to_ticks T timeout_ms))

  -- `osal_timer_reset`
  unfoldable pub reset : Ticks → Timers → Option ℕ → ℕ → Status × Timers
  unfolding timeout_to_ticks
  reset T ts none timeout_ms = (invalid_pointer, ts)
  reset T ts (some timer) timeout_ms =
      sent ts (R.reset ts.rtos timer (timeout_to_ticks T timeout_ms))

  -- `osal_timer_stop`
  unfoldable pub stop : Ticks → Timers → Option ℕ → ℕ → Status × Timers
  unfolding timeout_to_ticks
  stop T ts none timeout_ms = (invalid_pointer, ts)
  stop T ts (some timer) timeout_ms = sent ts (R.stop ts.rtos timer (timeout_to_ticks T timeout_ms))

  -- The end of `osal_timer_delete`: the structure is freed if it says so, which reads it.
  unfoldable pub free_meta_of : Timers → Option ℕ → Option (Status × Timers)
  unfolding write
  free_meta_of ts none = some (success, ts)
  free_meta_of ts (some p) = elim (ts.metas p) [
    | none ↦ none
    | some meta ↦
        some (success, if meta.free_meta then record ts { metas = write ts.metas p none } else ts)
  ]

  -- `osal_timer_delete`; here and below, `none` is a use of memory that was given back.
  unfoldable pub delete : Ticks → Timers → Option ℕ → ℕ → Option (Status × Timers)
  unfolding timeout_to_ticks free_meta_of
  delete T ts none timeout_ms = some (invalid_pointer, ts)
  delete T ts (some timer) timeout_ms =
      let id = R.get_id ts.rtos timer in
      let (passed, rtos) = R.delete ts.rtos timer (timeout_to_ticks T timeout_ms) in
      if passed
      then free_meta_of (record ts { rtos = rtos }) id
      else some (timer_err_internal, record ts { rtos = rtos })

  -- `osal_timer_change_period`
  unfoldable pub change_period : Ticks → Timers → Option ℕ → ℕ → ℕ → Status × Timers
  unfolding timeout_to_ticks period_to_ticks
  change_period T ts none new_period_ms timeout_ms = (invalid_pointer, ts)
  change_period T ts (some timer) new_period_ms timeout_ms =
      if new_period_ms == 0
      then (timer_err_invalid_args, ts)
      else sent ts (
          R.change_period ts.rtos timer (period_to_ticks T new_period_ms)
            (timeout_to_ticks T timeout_ms))

  -- `osal_timer_is_active`
  pub is_active : Timers → Option ℕ → Bool
  is_active ts none = false
  is_active ts (some timer) = R.is_active ts.rtos timer

  -- The calls from interrupts; a woken task is FreeRTOS's matter.
  unfoldable pub start_from_isr : Timers → Option ℕ → Status × Timers
  start_from_isr ts none = (invalid_pointer, ts)
  start_from_isr ts (some timer) = sent ts (R.start_from_isr ts.rtos timer)

  unfoldable pub stop_from_isr : Timers → Option ℕ → Status × Timers
  stop_from_isr ts none = (invalid_pointer, ts)
  stop_from_isr ts (some timer) = sent ts (R.stop_from_isr ts.rtos timer)

  unfoldable pub reset_from_isr : Timers → Option ℕ → Status × Timers
  reset_from_isr ts none = (invalid_pointer, ts)
  reset_from_isr ts (some timer) = sent ts (R.reset_from_isr ts.rtos timer)

  -- The structure of a timer, where it has one
  abbrev read_meta {ℓ} : {A : Type ℓ} → Timers → ℕ → A → (ℕ → Meta → A) → Option A
  read_meta ts timer missing use_meta = elim (R.get_id ts.rtos timer) [
    | none ↦ some missing
    | some p ↦ elim (ts.metas p) [ none ↦ none | some meta ↦ some (use_meta p meta) ]
  ]

  -- `osal_timer_callback`
  unfoldable pub timer_callback : Timers → ℕ → Option Fired
  timer_callback ts handle =
      read_meta ts handle nothing
        (λ p meta. elim meta.callback [ none ↦ nothing | some callback ↦ calls callback handle ])

  -- `osal_timer_get_context`
  unfoldable pub get_context : Timers → Option ℕ → Option (Option ℕ)
  get_context ts none = some none
  get_context ts (some timer) = read_meta ts timer none (λ p meta. meta.context)

  -- `osal_timer_set_context`
  unfoldable pub set_context : Timers → Option ℕ → Option ℕ → Option (Status × Timers)
  unfolding write
  set_context ts none context = some (invalid_pointer, ts)
  set_context ts (some timer) context =
      read_meta ts timer (err_invalid_id, ts)
        (λ p meta. (
          success,
          record ts { metas = write ts.metas p (some (record meta { context = context })) },
        ))
