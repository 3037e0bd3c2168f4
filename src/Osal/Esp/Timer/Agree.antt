-- ===== src/Osal/Esp/Timer/Agree.antt =====
-- The arguments that `osal_timer_create` refuses on the two ports.
use hq_platform.Base.{
  ℕ, ◌≡◌, refl, sym, ap, ◌∙◌, Bool, true, false, not, ◌&&◌, ◌||◌, Option, none, some, leb, ◌==◌,
  arith, if◌then◌else◌, Bool-cases, inl, inr,
}
use hq_platform.Osal.Status.{
  Status, success, error, err_name_too_long, timer_err_invalid_args, err_invalid_size,
}
use hq_platform.Osal.Semaphore.{name_fits}
use hq_platform.Osal.Timer.Create as PosixCreate
use hq_platform.Osal.Esp.{Ticks}
use hq_platform.Osal.Esp.Timer.{
  RtosTimer, Sizes, Request, Timers, large_enough, meta_create, created, create_at, create, placed,
  checked, with_callback, Metas, Meta,
}
use hq_platform.Base.Text.{CString}
use hq_platform.Osal.Timer.{Timer}

-- The status of a call that was refused for its arguments; one that got past the checks succeeds or
-- fails with OSAL_ERROR.
abbrev pub refusal : Status → Option Status
refusal success = none
refusal error = none
refusal st = some st

abbrev pub has_stack : Request → Bool
has_stack r = elim r.stack_pointer [ none ↦ false | some base ↦ true ]

-- The call of the posix port with the same arguments
abbrev pub posix : PosixCreate.CreateEnv → Bool → Request → Status
posix env timer_id r =
    (PosixCreate.create env timer_id r.name r.period_ms r.auto_reload r.callback r.callback_arg
      (has_stack r) r.stack_size).status

init_and_run-accepts :
    (env : PosixCreate.CreateEnv) (t : Timer)
    → refusal (PosixCreate.init_and_run env t).status ≡ none
unfolding PosixCreate.init_and_run
init_and_run-accepts env t = ground arith

allocate-refuses :
    (env : PosixCreate.CreateEnv) (static : Bool) (stack_size : ℕ) (t : Timer)
    → refusal (PosixCreate.allocate env static stack_size t).status
      ≡ (if static && not (leb env.sizeof_timer stack_size) then some err_invalid_size else none)
unfolding PosixCreate.allocate
allocate-refuses env true stack_size t = elim (Bool-cases (leb env.sizeof_timer stack_size)) [
  | inl large ↦ rw large (init_and_run-accepts env t)
  | inr small ↦ rw small refl
]
allocate-refuses env false stack_size t = elim (Bool-cases env.block_ok) [
  | inl got ↦ simp got (init_and_run-accepts env t)
  | inr out ↦ simp out
]

module _ (R : RtosTimer) (T : Ticks) where
  created-accepts :
      (metas : Metas) (p : ℕ) (free_meta : Bool) (meta : Meta) (made : Option ℕ × R.State)
      → refusal (created R metas p free_meta meta made).0 ≡ none
  created-accepts metas p free_meta meta (none, rtos) = refl
  created-accepts metas p free_meta meta (some h, rtos) = refl

  create_at-accepts :
      (ts : Timers R) (r : Request) (p : ℕ) (free_meta : Bool)
      → refusal (create_at R T ts r p free_meta).0 ≡ none
  unfolding create_at
  create_at-accepts ts r p free_meta = created-accepts _ _ _ _ _

  placed-accepts :
      (ts : Timers R) (r : Request) (place : Option (ℕ × Bool))
      → refusal (placed R T ts r place).0 ≡ none
  placed-accepts ts r none = refl
  placed-accepts ts r (some (p, free_meta)) = create_at-accepts ts r p free_meta

  checked-refuses :
      (ts : Timers R) (sizes : Sizes) (r : Request) (place : Option (ℕ × Bool))
      → refusal (checked R T ts sizes r place).0 ≡ (
          if not (name_fits r.name)
          then some err_name_too_long
          else if r.period_ms == 0
          then some timer_err_invalid_args
          else if not (large_enough sizes r)
          then some err_invalid_size
          else none)
  checked-refuses ts sizes r place = ground (arith, placed-accepts ts r place)

-- What the checks behind the two pointers answer; `large` is that of the block.
abbrev verdict : Option CString → ℕ → Bool → Option Status
verdict name period_ms large =
    if not (name_fits name)
    then some err_name_too_long
    else if period_ms == 0
    then some timer_err_invalid_args
    else if not large
    then some err_invalid_size
    else none

posix-refuses :
    (env : PosixCreate.CreateEnv) (name : Option CString) (period_ms callback : ℕ) (reload : Bool)
    (arg : Option ℕ) (static : Bool) (size : ℕ)
    → refusal
        (PosixCreate.create env true name period_ms reload (some callback) arg static size).status
      ≡ verdict name period_ms (not static || leb env.sizeof_timer size)
unfolding PosixCreate.create
posix-refuses env name period_ms callback reload arg false size = ground (
  arith,
  allocate-refuses env false size (PosixCreate.fresh name period_ms reload callback arg false),
)
posix-refuses env name period_ms callback reload arg true size = ground (
  arith,
  allocate-refuses env true size (PosixCreate.fresh name period_ms reload callback arg true),
)

-- Both ports ask for the size of a block that is given.
same_size :
    (a b : Bool) (block : Option ℕ)
    → a ≡ b
    → not (elim block [ none ↦ false | some base ↦ true ]) || a
      ≡ elim block [ none ↦ true | some base ↦ b ]
same_size a b none same = refl
same_size a b (some base) same = same

module _ (R : RtosTimer) (T : Ticks) where
  with_callback-refuses :
      (env : PosixCreate.CreateEnv) (sizes : Sizes) (ts : Timers R) (block : Option ℕ) (r : Request)
      (callback : Option ℕ)
      → leb env.sizeof_timer r.stack_size ≡ leb sizes.static_timer r.stack_size
      → refusal
          (PosixCreate.create env true r.name r.period_ms r.auto_reload callback r.callback_arg
            (has_stack r)
            r.stack_size).status
        ≡ refusal (with_callback R T ts sizes block r callback).0
  unfolding PosixCreate.create
  with_callback-refuses env sizes ts block r none same = refl
  with_callback-refuses env sizes ts block r (some callback) same =
      posix-refuses env r.name r.period_ms callback r.auto_reload r.callback_arg (has_stack r)
        r.stack_size
      ∙ ap (verdict r.name r.period_ms) (same_size _ _ r.stack_pointer same)
      ∙ sym (checked-refuses R T ts sizes r (meta_create sizes block r.stack_pointer r.stack_size))

  -- With the same arguments, and a block size that is enough for the timer structures of both ports
  -- or for neither, `osal_timer_create` returns OSAL_SUCCESS or OSAL_ERROR on both the posix and
  -- the ESP port, or the same other status on both.
  pub create-refuses :
      (env : PosixCreate.CreateEnv) (sizes : Sizes) (ts : Timers R) (block : Option ℕ)
      (timer_id : Bool) (r : Request)
      → leb env.sizeof_timer r.stack_size ≡ leb sizes.static_timer r.stack_size
      → refusal (posix env timer_id r) ≡ refusal (create R sizes T block ts timer_id r).0
  unfolding create PosixCreate.create
  create-refuses env sizes ts block false r same = refl
  create-refuses env sizes ts block true r same =
      with_callback-refuses env sizes ts block r r.callback same
