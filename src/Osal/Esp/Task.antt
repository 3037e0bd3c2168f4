-- ===== src/Osal/Esp/Task.antt =====
-- The tasks of src/osal/esp/osal_task_impl.c, with the registry of the tasks on stacks of the caller,
-- and the mutexes of src/osal/esp/osal_mutex_impl.c. What FreeRTOS answers is an argument.
pub mod Blocks
use hq_platform.Base.{
  ℕ, ◌*◌, ◌/◌, ◌%◌, ◌^◌, ◌==◌, ◌||◌, leb, not, ◌≡◌, ◌≢◌, ◌⊎◌, Bool, true, false, List, [], ◌∷◌,
  ◌++◌, Option, none, some, arith, if◌then◌else◌,
}
use hq_platform.Base.Int.{pos, eqb, leb_ℤ}
use hq_platform.Base.Text.{CString, terminated_within}
use hq_platform.Osal.Resources.{Event, acquire, release, block, storage}
use hq_platform.Osal.Status.{
  Status, success, error, invalid_pointer, err_name_too_long, err_invalid_size, err_invalid_id,
  err_invalid_argument, err_invalid_priority, sem_failure,
}
use hq_platform.Osal.Semaphore.{name_fits}
use hq_platform.Osal.Task.{TaskAttr, no_affinity, validate_attr}
use hq_platform.Osal.Esp.Mount.{is_ok}

-- `struct osal_task_tcb_entry`; the control block goes with its entry.
pub record Entry : Type 0 where
  pub handle : ℕ

-- The registry, the last entry first, and the blocks taken and given back so far: an entry is a
-- `block`, a control block `storage`.
pub record Registry : Type 0 where
  pub entries : List Entry
  pub trace : List Event

-- The loop of `osal_task_registry_detach`: whether an entry was found, and what is left.
unfoldable pub detach : ℕ → List Entry → Bool × List Entry
detach handle [] = (false, [])
detach handle (entry ∷ entries) =
    let (found, rest) = detach handle entries in
    if entry.handle == handle then (true, entries) else (found, entry ∷ rest)

-- configMAX_PRIORITIES, sizeof (StackType_t), portNUM_PROCESSORS, and what the calls answer.
pub record CreateEnv : Type 0 where
  pub max_priorities : ℕ
  pub sizeof_stack : ℕ
  pub processors : ℕ
  pub entry_ok : Bool
  pub tcb_ok : Bool
  pub handle : Option ℕ

abbrev traced : List Event → Registry → Registry
traced es s = record s { trace = s.trace ++ es }

-- The branch of `osal_task_create` for a stack of the caller
unfoldable pub create_static : CreateEnv → Registry → Status × Option ℕ × Registry
create_static env s =
    if not env.entry_ok
    then (error, none, s)
    else if not env.tcb_ok
    then (error, none, traced (acquire block ∷ release block ∷ []) s)
    else (elim env.handle [
      | none ↦ (
        error,
        none,
        traced (acquire block ∷ acquire storage ∷ release storage ∷ release block ∷ []) s,
      )
      | some handle ↦ (
        success,
        some handle,
        traced (acquire block ∷ acquire storage ∷ [])
            (record s { entries = record { handle = handle } ∷ s.entries }),
      )
    ])

-- The other branch
unfoldable pub create_dynamic : CreateEnv → Registry → Status × Option ℕ × Registry
create_dynamic env s = elim env.handle [
  | none ↦ (error, none, s)
  | some handle ↦ (success, some handle, s)
]

-- The check of the core
abbrev core_exists : CreateEnv → Option TaskAttr → Bool
core_exists env none = true
core_exists env (some a) =
    eqb a.core_affinity no_affinity || not (leb_ℤ (pos env.processors) a.core_affinity)

-- `osal_task_create`; the flags are `task_id != NULL`, `routine != NULL` and `stack_pointer != NULL`.
unfoldable pub create :
    CreateEnv
    → Registry
    → Bool
    → Bool
    → Option CString
    → Bool
    → ℕ
    → ℕ
    → Option TaskAttr
    → Status × Option ℕ × Registry
unfolding create_static create_dynamic
create env s task_id routine none stack_pointer stack_size priority attr =
    (invalid_pointer, none, s)
create env s task_id routine (some name) stack_pointer stack_size priority attr =
    if not task_id || not routine
    then (invalid_pointer, none, s)
    else if not (terminated_within name 32)
    then (err_name_too_long, none, s)
    else if stack_size == 0
    then (err_invalid_size, none, s)
    else if not (is_ok (validate_attr attr))
    then (validate_attr attr, none, s)
    else if leb env.max_priorities priority
    then (err_invalid_priority, none, s)
    else if (stack_size / env.sizeof_stack) % 2 ^ 32 == 0
    then (err_invalid_size, none, s)
    else if not (core_exists env attr)
    then (err_invalid_argument, none, s)
    else if stack_pointer
    then create_static env s
    else create_dynamic env s

-- `osal_task_delete`, with the task that runs; a task that deletes itself leaves its entry.
unfoldable pub delete : ℕ → Registry → Option ℕ → Status × Registry
unfolding detach
delete current s none = (err_invalid_id, s)
delete current s (some task_id) =
    let (found, entries) = detach task_id s.entries in
    let freed = if found then release storage ∷ release block ∷ [] else [] in
    if task_id == current
    then (success, s)
    else (success, traced freed (record s { entries = entries }))

-- `osal_task_get_time_ms`, with the ticks of the clock and portTICK_PERIOD_MS
unfoldable pub get_time_ms : ℕ → ℕ → ℕ
get_time_ms ticks period_ms = (ticks * period_ms) % 2 ^ 32

-- `osal_mutex_create`; the flags are `mutex_id != NULL` and that FreeRTOS makes the mutex.
pub mutex_create : Bool → Option CString → Bool → Status
mutex_create mutex_id name made =
    if not mutex_id
    then invalid_pointer
    else if not (name_fits name)
    then err_name_too_long
    else if made
    then success
    else error

-- `osal_mutex_delete`
pub mutex_delete : Bool → Status
mutex_delete mutex_id = if mutex_id then success else invalid_pointer

-- `osal_mutex_take` and `osal_mutex_give`; the second flag is that FreeRTOS returns pdTRUE.
pub mutex_take : Bool → Bool → Status
mutex_take mutex_id taken =
    if not mutex_id then invalid_pointer else if taken then success else sem_failure

pub mutex_give : Bool → Bool → Status
mutex_give mutex_id given =
    if not mutex_id then invalid_pointer else if given then success else sem_failure

-- A creation on a stack of the caller that fails leaves the registry as it is; one that succeeds is
-- undone in it by a deletion from another task.
pub create_static-delete :
    (env : CreateEnv) (s : Registry) (current handle : ℕ)
    → current ≢ handle
    → let (status, made, s') = create_static env s in
      ((status ≢ success) × (made ≡ none) × (s'.entries ≡ s.entries))
      ⊎ ((status ≡ success)
          × (made ≡ some handle → (delete current s' (some handle)).1.entries ≡ s.entries))
unfolding create_static delete
create_static-delete env s current handle other = ground arith
