-- ===== src/Osal/Esp/Semaphore.antt =====
-- The semaphores of src/osal/esp/osal_bin_sem_impl.c and osal_count_sem_impl.c, which differ in
-- `create` and in that only the second has `osal_count_sem_get_count`.
use hq_platform.Base.{ℕ, ◌%◌, ◌^◌, ◌==◌, ltb, leb, not, Bool, Option, none, some, if◌then◌else◌}
use hq_platform.Base.Text.{CString}
use hq_platform.Osal.Status.{
  Status, success, error, invalid_pointer, err_name_too_long, invalid_sem_value, sem_failure,
  sem_timeout,
}
use hq_platform.Osal.Semaphore.{max_delay, name_fits}
use hq_platform.Osal.Esp.{RtosSem, Ticks, timeout_to_ticks}

-- The maximum that `osal_count_sem_create` passes on.
abbrev pub effective_max : ℕ → ℕ → ℕ
effective_max initial_value max_value =
    if max_value == 0 then if initial_value == 0 then 1 else initial_value else max_value

module _ (R : RtosSem) (T : Ticks) where
  -- `osal_bin_sem_create`; the flag is `sem_id != NULL`.
  unfoldable pub bin_create : Bool → Option CString → ℕ → Status × Option R.Handle
  bin_create sem_id name initial_value =
      if not sem_id
      then (invalid_pointer, none)
      else if not (leb initial_value 1)
      then (invalid_sem_value, none)
      else if not (name_fits name)
      then (err_name_too_long, none)
      else (elim R.create_binary [
        | none ↦ (error, none)
        | some sem ↦ (success, some (if initial_value == 1 then (R.give sem).1 else sem))
      ])

  -- `osal_count_sem_create`
  unfoldable pub count_create : Bool → Option CString → ℕ → ℕ → Status × Option R.Handle
  count_create sem_id name initial_value max_value =
      let most = effective_max initial_value max_value in
      let made = R.create_counting most initial_value in
      if not sem_id
      then (invalid_pointer, none)
      else if not (name_fits name)
      then (err_name_too_long, none)
      else if ltb most initial_value
      then (invalid_sem_value, none)
      else (elim made [ none ↦ (error, none) | some sem ↦ (success, some sem) ])

  -- `osal_bin_sem_delete` and `osal_count_sem_delete`; the flag is `sem_id != NULL`.
  pub delete : Bool → Status
  delete sem_id = if sem_id then success else invalid_pointer

  -- `osal_bin_sem_give` and `osal_count_sem_give`
  unfoldable pub give : Option R.Handle → Status × Option R.Handle
  give none = (invalid_pointer, none)
  give (some sem) =
      let (given, sem') = R.give sem in (if given then success else sem_failure, some sem')

  -- `osal_bin_sem_take` and `osal_count_sem_take`
  unfoldable pub take : Option R.Handle → Status × Option R.Handle
  take none = (invalid_pointer, none)
  take (some sem) =
      let (taken, sem') = R.take sem T.max_ticks in
      (if taken then success else sem_failure, some sem')

  -- `osal_bin_sem_timed_wait` and `osal_count_sem_timed_wait`
  unfoldable pub timed_wait : Option R.Handle → ℕ → Status × Option R.Handle
  unfolding timeout_to_ticks
  timed_wait none timeout_ms = (invalid_pointer, none)
  timed_wait (some sem) timeout_ms =
      let (taken, sem') = R.take sem (timeout_to_ticks T timeout_ms) in
      (
        if taken then success else if timeout_ms == max_delay then sem_failure else sem_timeout,
        some sem',
      )

  -- The calls from interrupts; a woken task is FreeRTOS's matter.
  pub give_from_isr : Option R.Handle → Status × Option R.Handle
  give_from_isr none = (invalid_pointer, none)
  give_from_isr (some sem) =
      let (given, sem') = R.give_from_isr sem in (if given then success else sem_failure, some sem')

  pub take_from_isr : Option R.Handle → Status × Option R.Handle
  take_from_isr none = (invalid_pointer, none)
  take_from_isr (some sem) =
      let (taken, sem') = R.take_from_isr sem in (if taken then success else sem_timeout, some sem')

  -- `osal_count_sem_get_count`
  pub get_count : Option R.Handle → ℕ
  get_count none = 0
  get_count (some sem) = R.get_count sem % 2 ^ 32
