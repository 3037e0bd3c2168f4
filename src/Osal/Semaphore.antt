-- ===== src/Osal/Semaphore.antt =====
-- The semaphores of src/osal/posix/osal_bin_sem_impl.c and osal_count_sem_impl.c, which differ in
-- `create` and in that only the second has `osal_count_sem_get_count`. `sem_t` is an interface.
pub mod Wait
use hq_platform.Base.{
  ℕ, zero, suc, ◌+◌, ◌<◌, ◌≤◌, ◌≡◌, ◌≢◌, ◌⊎◌, inl, inr, refl, Bool, true, false, ◌&&◌, not, List,
  [], ◌∷◌, Option, none, some, arith, ltb, leb, ◌==◌, if◌then◌else◌,
}
use hq_platform.Base.Int.{ℤ, pos, negsuc, to_uint32}
use hq_platform.Base.Text.{CString, terminated_within}
use hq_platform.Osal.Resources.{Event, acquire, release, block, semaphore}
use hq_platform.Osal.Status.{
  Status, code, success, error, invalid_pointer, err_name_too_long, invalid_sem_value, sem_failure,
  sem_timeout, err_invalid_id, err_not_implemented,
}
use hq_platform.Osal.Time.{Timespec, timespec_add_ms}

-- 0, or -1 with one of the values of `errno` that the code tells apart.
pub data Answer : Type 0 where
  done again interrupted timed_out failed : Answer

-- `sem_wait` may block for good, which is `none`.
pub record PosixSem : Type 1 where
  pub Sem : Type 0
  pub init : ℕ → Option Sem
  pub destroy : Sem → Bool
  pub post : Sem → Answer × Sem
  pub wait : Sem → Option (Answer × Sem)
  pub trywait : Sem → Answer × Sem
  pub timedwait : Sem → Timespec → Answer × Sem
  pub getvalue : Sem → Option ℤ

-- OSAL_MAX_DELAY
abbrev pub max_delay : ℕ
max_delay = 0xFFFFFFFF

abbrev pub name_fits : Option CString → Bool
name_fits none = true
name_fits (some name) = terminated_within name 32

-- The status of `sem_trywait`, and that of the other calls.
abbrev pub polled : Answer → Status
polled done = success
polled again = sem_timeout
polled _ = sem_failure

abbrev pub plain : Answer → Status
plain done = success
plain _ = sem_failure

module _ (P : PosixSem) where
  -- The loop on `sem_timedwait`, which tries again only when a signal interrupts it; it runs on fuel,
  -- and `none` is a call that has not returned with it.
  unfoldable pub wait_until : ℕ → P.Sem → Timespec → Option (Status × P.Sem)
  wait_until zero sem ts = none
  wait_until (suc fuel) sem ts =
      let (answer, sem') = P.timedwait sem ts in
      elim answer [
        | done ↦ some (success, sem')
        | interrupted ↦ wait_until fuel sem' ts
        | timed_out ↦ some (sem_timeout, sem')
        | _ ↦ some (sem_failure, sem')
      ]

  abbrev pub waited : Option (Answer × P.Sem) → Option (Status × P.Sem)
  waited none = none
  waited (some (answer, sem)) = some (plain answer, sem)

  -- `osal_sem_wait_timed`, with what the clock shows; its result is not checked.
  unfoldable pub wait_timed : ℕ → Timespec → P.Sem → ℕ → Option (Status × P.Sem)
  wait_timed fuel now sem timeout_ms =
      let (polled_now, sem1) = P.trywait sem in
      if timeout_ms == 0
      then some (polled polled_now, sem1)
      else if timeout_ms == max_delay
      then waited (P.wait sem)
      else wait_until fuel sem (timespec_add_ms now timeout_ms)

  pub record Created : Type 0 where
    pub status : Status
    pub sem : Option P.Sem
    pub trace : List Event

  abbrev refuse : Status → List Event → Created
  refuse st es = record { status = st; sem = none; trace = es }

  -- `malloc` and `sem_init`; the flag is that `malloc` succeeds.
  abbrev started : Option P.Sem → Created
  started none = refuse error (acquire block ∷ release block ∷ [])
  started (some sem) = record {
    status = success;
    sem = some sem;
    trace = acquire block ∷ acquire semaphore ∷ [];
  }

  unfoldable pub make : Bool → ℕ → Created
  make block_ok initial_value = if block_ok then started (P.init initial_value) else refuse error []

  -- `osal_bin_sem_create`; the flag is `sem_id != NULL`.
  unfoldable pub bin_create : Bool → Bool → Option CString → ℕ → Created
  unfolding make
  bin_create block_ok sem_id name initial_value =
      if not sem_id
      then refuse invalid_pointer []
      else if not (leb initial_value 1)
      then refuse invalid_sem_value []
      else if name_fits name
      then make block_ok initial_value
      else refuse err_name_too_long []

  -- `osal_count_sem_create`
  pub count_create : Bool → Bool → Option CString → ℕ → ℕ → Created
  unfolding make
  count_create block_ok sem_id name initial_value max_value =
      if not sem_id
      then refuse invalid_pointer []
      else if not (name_fits name)
      then refuse err_name_too_long []
      else if not (max_value == 0) && ltb max_value initial_value
      then refuse invalid_sem_value []
      else make block_ok initial_value

  -- `osal_bin_sem_delete` and `osal_count_sem_delete`
  unfoldable pub delete : Option P.Sem → Status × List Event
  delete none = (invalid_pointer, [])
  delete (some sem) =
      if P.destroy sem
      then (success, release semaphore ∷ release block ∷ [])
      else (err_invalid_id, [])

  abbrev of_answer : Answer × P.Sem → Status × Option P.Sem
  of_answer (answer, sem) = (plain answer, some sem)

  -- `osal_bin_sem_give` and `osal_count_sem_give`
  unfoldable pub give : Option P.Sem → Status × Option P.Sem
  give none = (invalid_pointer, none)
  give (some sem) = of_answer (P.post sem)

  abbrev pub kept : Option (Status × P.Sem) → Option (Status × Option P.Sem)
  kept none = none
  kept (some (st, sem)) = some (st, some sem)

  -- `osal_bin_sem_take` and `osal_count_sem_take`; `none` is a call that does not return.
  unfoldable pub take : Option P.Sem → Option (Status × Option P.Sem)
  take none = some (invalid_pointer, none)
  take (some sem) = kept (waited (P.wait sem))

  -- `osal_bin_sem_timed_wait` and `osal_count_sem_timed_wait`
  unfoldable pub timed_wait : ℕ → Timespec → Option P.Sem → ℕ → Option (Status × Option P.Sem)
  unfolding wait_timed
  timed_wait fuel now none timeout_ms = some (invalid_pointer, none)
  timed_wait fuel now (some sem) timeout_ms = kept (wait_timed fuel now sem timeout_ms)

  -- The calls from interrupts.
  pub give_from_isr : Option P.Sem → Status
  give_from_isr sem_id = err_not_implemented

  pub take_from_isr : Option P.Sem → Status
  take_from_isr sem_id = err_not_implemented

  -- `osal_count_sem_get_count`, whose pointer check returns a status as `uint32_t`.
  pub get_count : Option P.Sem → ℕ
  unfolding code
  get_count none = to_uint32 (code invalid_pointer)
  get_count (some sem) = elim (P.getvalue sem) [ none ↦ 0 | some (pos n) ↦ n | some (negsuc n) ↦ 0 ]
