-- ===== src/Osal/Task.antt =====
-- The tasks of src/osal/posix/osal_task_impl.c. What the system answers is an argument; a task itself
-- is what runs it.
use hq_platform.Base.{
  ℕ, ◌+◌, ◌-◌, ◌*◌, ◌/◌, ◌%◌, ◌^◌, ◌<◌, ◌≤◌, ◌≡◌, ◌≢◌, ◌⊎◌, inl, inr, refl, Bool, true, false, ◌&&◌,
  ◌||◌, not, List, [], ◌∷◌, ◌++◌, Option, none, some, arith, ltb, ◌==◌, if◌then◌else◌,
}
use hq_platform.Base.Int.{ℤ, pos, negsuc, is_neg, eqb, leb_ℤ}
use hq_platform.Base.Text.{CString, terminated_within}
use hq_platform.Osal.Resources.{
  Resource, Event, acquire, release, block, attributes, thread, acquired, released,
}
use hq_platform.Osal.Status.{
  Status, success, error, invalid_pointer, err_name_too_long, err_invalid_size, err_invalid_id,
  err_invalid_argument, err_invalid_priority,
}
use hq_platform.Osal.Time.{Timespec, nanoseconds}

-- `osal_task_attr_t`, with its four reserved words
pub record TaskAttr : Type 0 where
  pub core_affinity : ℤ
  pub reserved : ℕ × ℕ × ℕ × ℕ

-- OSAL_TASK_NO_AFFINITY
abbrev pub no_affinity : ℤ
no_affinity = negsuc 0

-- `osal_task_attributes_init`; the flag is `attr != NULL`.
unfoldable pub attributes_init : Bool → TaskAttr → TaskAttr × Status
attributes_init attr a =
    if attr
    then (record { core_affinity = no_affinity; reserved = (0, 0, 0, 0) }, success)
    else (a, invalid_pointer)

-- `osal_task_validate_attr`
unfoldable pub validate_attr : Option TaskAttr → Status
validate_attr none = success
validate_attr (some a) =
    let (r0, r1, r2, r3) = a.reserved in
    if not (eqb a.core_affinity no_affinity) && is_neg a.core_affinity
    then err_invalid_argument
    else if not (r0 == 0) || not (r1 == 0) || not (r2 == 0) || not (r3 == 0)
    then err_invalid_argument
    else success

-- What the system answers to `osal_task_create`: the range of priorities, the number of processors,
-- and whether `malloc`, `pthread_attr_init`, the stack, and `pthread_create` succeed.
pub record CreateEnv : Type 0 where
  pub min_pri : ℤ
  pub max_pri : ℤ
  pub cpu_count : ℤ
  pub block_ok : Bool
  pub attr_ok : Bool
  pub stack_ok : Bool
  pub thread_ok : Bool

-- `(int)priority` of a `uint32_t`
abbrev pub as_int : ℕ → ℤ
as_int n = if ltb n (2 ^ 31) then pos n else negsuc (2 ^ 32 - 1 - n)

-- `osal_task_validate_priority`
unfoldable pub validate_priority : CreateEnv → ℕ → Status
validate_priority env priority =
    if eqb env.min_pri (negsuc 0) || eqb env.max_pri (negsuc 0)
    then success
    else if not (leb_ℤ env.min_pri (as_int priority)) || not (leb_ℤ (as_int priority) env.max_pri)
    then err_invalid_priority
    else success

-- The check of the core against the processors that are there.
unfoldable pub core_exists : CreateEnv → Option TaskAttr → Bool
core_exists env none = true
core_exists env (some a) =
    eqb a.core_affinity no_affinity
    || (leb_ℤ env.cpu_count (pos 0) || not (leb_ℤ env.cpu_count a.core_affinity))

abbrev is_ok : Status → Bool
is_ok success = true
is_ok _ = false

-- `osal_task_create` from `malloc` on
unfoldable pub start : CreateEnv → Status × List Event
start env =
    if not env.block_ok
    then (error, [])
    else if not env.attr_ok
    then (error, acquire block ∷ release block ∷ [])
    else if not env.stack_ok
    then (
      err_invalid_size,
      acquire block ∷ acquire attributes ∷ release attributes ∷ release block ∷ [],
    )
    else if env.thread_ok
    then (success, acquire block ∷ acquire attributes ∷ acquire thread ∷ release attributes ∷ [])
    else (error, acquire block ∷ acquire attributes ∷ release attributes ∷ release block ∷ [])

-- `osal_task_create`; the flags are `task_id != NULL` and `routine != NULL`.
unfoldable pub create :
    CreateEnv → Bool → Bool → Option CString → ℕ → ℕ → Option TaskAttr → Status × List Event
unfolding start
create env task_id routine none stack_size priority attr = (invalid_pointer, [])
create env task_id routine (some name) stack_size priority attr =
    if not task_id || not routine
    then (invalid_pointer, [])
    else if not (terminated_within name 32)
    then (err_name_too_long, [])
    else if stack_size == 0
    then (err_invalid_size, [])
    else if not (is_ok (validate_attr attr))
    then (validate_attr attr, [])
    else if not (is_ok (validate_priority env priority))
    then (validate_priority env priority, [])
    else if core_exists env attr
    then start env
    else (err_invalid_argument, [])

-- `osal_task_entry` before the routine
abbrev pub entry : List Event
entry = release block ∷ []

-- `osal_task_delete`, with whether `pthread_cancel` and `pthread_join` succeed
unfoldable pub delete : Bool → Bool → Status × List Event
delete cancelled joined = (
  if not cancelled || not joined then err_invalid_id else success,
  if joined then release thread ∷ [] else [],
)

-- `osal_task_delay_ms`, with what `nanosleep` answers: the time to sleep, and the status.
unfoldable pub delay_ms : ℕ → Bool → Timespec × Status
delay_ms milliseconds slept = (
  record { tv_sec = milliseconds / 1000; tv_nsec = (milliseconds % 1000) * 1_000_000 },
  if slept then success else error,
)

-- `osal_task_get_time_ms`, with what the clock shows
unfoldable pub get_time_ms : Option Timespec → ℕ
get_time_ms none = 0
get_time_ms (some ts) = (ts.tv_sec * 1000 + ts.tv_nsec / 1_000_000) % 2 ^ 32

start-delete :
    (env : CreateEnv) (r : Resource)
    → let (status, trace) = start env in
      ((status ≡ success)
        × (acquired r trace ≡ released r (trace ++ entry ++ (delete true true).1)))
      ⊎ ((status ≢ success) × (acquired r trace ≡ released r trace))
unfolding start delete
start-delete env r = ground arith

not_ok : (st : Status) → is_ok st ≡ false → st ≢ success
not_ok st h e = cc

create-cases :
    (env : CreateEnv) (task_id routine : Bool) (name : Option CString) (stack_size priority : ℕ)
    (attr : Option TaskAttr)
    → (create env task_id routine name stack_size priority attr ≡ start env)
      ⊎ (((create env task_id routine name stack_size priority attr).0 ≢ success)
          × ((create env task_id routine name stack_size priority attr).1 ≡ []))
unfolding create
create-cases env task_id routine none stack_size priority attr = inr (λ e. cc, refl)
create-cases env task_id routine (some name) stack_size priority attr =
    ground (arith, not_ok (validate_attr attr), not_ok (validate_priority env priority))

-- A call of `osal_task_create` of the posix port that fails has given back what it took, and one
-- that succeeds leaves the block of the start, which the task frees first, and the thread, which a
-- deletion that succeeds joins.
pub task_create-delete :
    (env : CreateEnv) (task_id routine : Bool) (name : Option CString) (stack_size priority : ℕ)
    (attr : Option TaskAttr) (r : Resource)
    → let (status, trace) = create env task_id routine name stack_size priority attr in
      ((status ≡ success)
        × (acquired r trace ≡ released r (trace ++ entry ++ (delete true true).1)))
      ⊎ ((status ≢ success) × (acquired r trace ≡ released r trace))
unfolding create delete
task_create-delete env task_id routine name stack_size priority attr r =
    elim (create-cases env task_id routine name stack_size priority attr) [
      | inl started ↦ rw started (start-delete env r)
      | inr (refused, nothing) ↦ inr (refused, rw nothing refl)
    ]

-- The difference of two readings of `osal_task_get_time_ms`, taken as a `uint32_t`, is the number
-- of milliseconds between them, if they are less than 2^32 apart.
pub get_time_ms-elapsed :
    (a b : Timespec)
    → a.tv_nsec < 1_000_000_000
    → b.tv_nsec < 1_000_000_000
    → nanoseconds a ≤ nanoseconds b
    → nanoseconds b / 1_000_000 < nanoseconds a / 1_000_000 + 2 ^ 32
    → (get_time_ms (some b) + 2 ^ 32 - get_time_ms (some a)) % 2 ^ 32
      ≡ nanoseconds b / 1_000_000 - nanoseconds a / 1_000_000
unfolding get_time_ms
get_time_ms-elapsed a b ha hb le near = omega arith

delay_ms-nanoseconds :
    (milliseconds : ℕ) (slept : Bool)
    → (nanoseconds (delay_ms milliseconds slept).0 ≡ milliseconds * 1_000_000)
      × ((delay_ms milliseconds slept).0.tv_nsec < 1_000_000_000)
unfolding delay_ms
delay_ms-nanoseconds milliseconds slept = ground arith
