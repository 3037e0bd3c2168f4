-- ===== src/Osal/Semaphore/Wait.antt =====
-- That a timed wait returns, and with what.
use hq_platform.Base.{
  ℕ, zero, suc, ◌<◌, ◌≡◌, ◌≢◌, ◌⊎◌, inl, inr, refl, some, arith, ◌==◌, Bool-cases,
}
use hq_platform.Osal.Status.{Status, success, sem_timeout, sem_failure}
use hq_platform.Osal.Time.{Timespec, timespec_add_ms}
use hq_platform.Osal.Semaphore.{
  PosixSem, Answer, done, again, interrupted, timed_out, failed, polled, wait_until, wait_timed,
  max_delay,
}

-- A status of a wait.
abbrev pub IsWaitStatus : Status → Type 0
IsWaitStatus st = (st ≡ success) ⊎ (st ≡ sem_timeout) ⊎ (st ≡ sem_failure)

Answer-cases :
    (a : Answer) → (a ≡ interrupted) ⊎ (a ≡ done) ⊎ (a ≡ timed_out) ⊎ (a ≡ again) ⊎ (a ≡ failed)
Answer-cases interrupted = inl refl
Answer-cases done = inr (inl refl)
Answer-cases timed_out = inr (inr (inl refl))
Answer-cases again = inr (inr (inr (inl refl)))
Answer-cases failed = inr (inr (inr (inr refl)))

polled-IsWaitStatus : (a : Answer) → IsWaitStatus (polled a)
polled-IsWaitStatus done = inl refl
polled-IsWaitStatus again = inr (inl refl)
polled-IsWaitStatus _ = inr (inr refl)

module _ (P : PosixSem) (signals : P.Sem → ℕ) where
  -- Signals come to an end: a wait that is interrupted uses up one of those that are to come.
  abbrev pub FewSignals : Type 0
  FewSignals =
      (sem : P.Sem) (ts : Timespec)
      → (P.timedwait sem ts).0 ≡ interrupted
      → signals (P.timedwait sem ts).1 < signals sem

  wait_until-returns :
      (fuel : ℕ) (sem : P.Sem) (ts : Timespec)
      → FewSignals
      → signals sem < fuel
      → (st : Status) × (sem' : P.Sem) × (wait_until P fuel sem ts ≡ some (st, sem'))
        × IsWaitStatus st
  unfolding wait_until
  wait_until-returns zero sem ts few h = absurd (omega arith)
  wait_until-returns (suc fuel) sem ts few h =
      let r = P.timedwait sem ts in
      elim (Answer-cases r.0) [
        | inl e ↦
            let (st, sem', at, kind) =
              wait_until-returns fuel r.1 ts few (omega (arith, few sem ts e)) in
            (st, sem', rw (wait_until, e) at, kind)
        | inr (inl e) ↦ (success, r.1, rw (wait_until, e) refl, inl refl)
        | inr (inr (inl e)) ↦ (sem_timeout, r.1, rw (wait_until, e) refl, inr (inl refl))
        | inr (inr (inr (inl e))) ↦ (sem_failure, r.1, rw (wait_until, e) refl, inr (inr refl))
        | inr (inr (inr (inr e))) ↦ (sem_failure, r.1, rw (wait_until, e) refl, inr (inr refl))
      ]

  -- `osal_sem_wait_timed` returns for every timeout but OSAL_MAX_DELAY, with OSAL_SUCCESS,
  -- OSAL_SEM_TIMEOUT or OSAL_SEM_FAILURE, given fuel above the number of signals to come, if each
  -- interrupted `sem_timedwait` uses up one of these.
  pub wait_timed-returns :
      (fuel : ℕ) (now : Timespec) (sem : P.Sem) (timeout_ms : ℕ)
      → timeout_ms ≢ max_delay
      → FewSignals
      → signals sem < fuel
      → (st : Status) × (sem' : P.Sem) × (wait_timed P fuel now sem timeout_ms ≡ some (st, sem'))
        × IsWaitStatus st
  unfolding wait_timed
  wait_timed-returns fuel now sem timeout_ms ends few h = elim (Bool-cases (timeout_ms == 0)) [
    | inl poll ↦ (
      polled (P.trywait sem).0,
      (P.trywait sem).1,
      rw (wait_timed, poll) refl,
      polled-IsWaitStatus (P.trywait sem).0,
    )
    | inr positive ↦ elim (Bool-cases (timeout_ms == max_delay)) [
      | inl forever ↦ absurd (ends (ground arith))
      | inr timed ↦
          let (st, sem', at, kind) =
            wait_until-returns fuel sem (timespec_add_ms now timeout_ms) few h in
          (st, sem', rw (wait_timed, positive, timed) at, kind)
    ]
  ]
