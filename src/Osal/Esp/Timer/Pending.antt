-- ===== src/Osal/Esp/Timer/Pending.antt =====
-- A timer of src/osal/esp/osal_timer_impl.c that expires after its deletion was asked for.
use hq_platform.Base.{ℕ, ◌≡◌, true, none, some, arith}
use hq_platform.Osal.Status.{success}
use hq_platform.Osal.Esp.{Ticks, timeout_to_ticks}
use hq_platform.Osal.Esp.Timer.{
  RtosTimer, Meta, Timers, write, delete, free_meta_of, timer_callback,
}

-- `osal_timer_delete` of an ESP timer whose structure is from the heap returns OSAL_SUCCESS where
-- the command is accepted; if the timer then expires before the timer service has handled the
-- command, so that it still has its ID, the expiry reads memory that was given back.
pub delete-dangling :
    (R : RtosTimer) (T : Ticks) (ts : Timers R) (h p timeout_ms : ℕ) (meta : Meta)
    → R.get_id ts.rtos h ≡ some p
    → ts.metas p ≡ some meta
    → meta.free_meta ≡ true
    → (R.delete ts.rtos h (timeout_to_ticks T timeout_ms)).0 ≡ true
    → R.get_id (R.delete ts.rtos h (timeout_to_ticks T timeout_ms)).1 h ≡ some p
    → (ts' : Timers R) × (delete R T ts (some h) timeout_ms ≡ some (success, ts'))
      × (timer_callback R ts' h ≡ none)
unfolding delete free_meta_of timer_callback write
delete-dangling R T ts h p timeout_ms meta id at heap passed pending =
    let rtos = (R.delete ts.rtos h (timeout_to_ticks T timeout_ms)).1 in
    let ts' : Timers R = record { rtos = rtos; metas = write ts.metas p none } in
    (ts', ground arith, ground arith)
