-- ===== src/Osal/Esp/Queue.antt =====
-- The queues of src/osal/esp/osal_queue_impl.c.
use hq_platform.Base.{ℕ, ◌%◌, ◌^◌, ◌==◌, not, Bool, true, false, Option, none, some, if◌then◌else◌}
use hq_platform.Base.Int.{to_uint32}
use hq_platform.Base.Text.{CString}
use hq_platform.Osal.Status.{
  Status, code, success, error, invalid_pointer, err_name_too_long, queue_invalid_size, queue_full,
  queue_empty, queue_timeout,
}
use hq_platform.Osal.Queue.{Item}
use hq_platform.Osal.Semaphore.{max_delay, name_fits}
use hq_platform.Osal.Esp.{RtosQueue, Ticks, timeout_to_ticks}

-- The status of a call that FreeRTOS refused.
abbrev pub refusal : Status → ℕ → Status
refusal now timeout_ms =
    if timeout_ms == 0 then now else if timeout_ms == max_delay then error else queue_timeout

module _ (R : RtosQueue) (T : Ticks) where
  -- `osal_queue_create`; the flag is `queue_id != NULL`.
  unfoldable pub create : Bool → Option CString → ℕ → ℕ → Status × Option R.Handle
  create queue_id name max_items item_size =
      let made = R.create max_items item_size in
      if not queue_id
      then (invalid_pointer, none)
      else if not (name_fits name)
      then (err_name_too_long, none)
      else if max_items == 0
      then (queue_invalid_size, none)
      else if item_size == 0
      then (queue_invalid_size, none)
      else (elim made [ none ↦ (error, none) | some q ↦ (success, some q) ])

  -- `osal_queue_send`
  unfoldable pub send : Option R.Handle → Option Item → ℕ → Status × Option R.Handle
  unfolding timeout_to_ticks
  send none item timeout_ms = (invalid_pointer, none)
  send (some q) none timeout_ms = (invalid_pointer, some q)
  send (some q) (some item) timeout_ms =
      let (sent, q') = R.send q item (timeout_to_ticks T timeout_ms) in
      (if sent then success else refusal queue_full timeout_ms, some q')

  abbrev handed : Status → Option Item → R.Handle → Status × Option Item × Option R.Handle
  handed refused none q = (refused, none, some q)
  handed refused (some item) q = (success, some item, some q)

  -- `osal_queue_receive`, with what it copies to `buffer`; the flag is `buffer != NULL`.
  unfoldable pub receive : Option R.Handle → Bool → ℕ → Status × Option Item × Option R.Handle
  unfolding timeout_to_ticks
  receive none buffer timeout_ms = (invalid_pointer, none, none)
  receive (some q) false timeout_ms = (invalid_pointer, none, some q)
  receive (some q) true timeout_ms =
      let (got, q') = R.receive q (timeout_to_ticks T timeout_ms) in
      handed (refusal queue_empty timeout_ms) got q'

  -- `osal_queue_delete`; the flag is `queue_id != NULL`.
  pub delete : Bool → Status
  delete queue_id = if queue_id then success else invalid_pointer

  -- `osal_queue_get_count`, whose pointer check returns a status as `uint32_t`.
  pub get_count : Option R.Handle → ℕ
  unfolding code
  get_count none = to_uint32 (code invalid_pointer)
  get_count (some q) = R.messages_waiting q % 2 ^ 32

  -- `osal_queue_send_from_isr` and `osal_queue_receive_from_isr`; a woken task is FreeRTOS's matter.
  pub send_from_isr : Option R.Handle → Option Item → Status × Option R.Handle
  send_from_isr none item = (invalid_pointer, none)
  send_from_isr (some q) none = (invalid_pointer, some q)
  send_from_isr (some q) (some item) =
      let (sent, q') = R.send_from_isr q item in (if sent then success else queue_full, some q')

  pub receive_from_isr : Option R.Handle → Bool → Status × Option Item × Option R.Handle
  receive_from_isr none buffer = (invalid_pointer, none, none)
  receive_from_isr (some q) false = (invalid_pointer, none, some q)
  receive_from_isr (some q) true = let (got, q') = R.receive_from_isr q in handed queue_empty got q'
