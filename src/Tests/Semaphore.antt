-- ===== src/Tests/Semaphore.antt =====
-- A semaphore that counts, and whose waits are interrupted by the signals that are to come.
use hq_platform.Base.{ℕ, zero, suc, ◌+◌, ◌≡◌, refl, none, some, true, arith}
use hq_platform.Base.Int.{pos}
use hq_platform.Osal.Status.{Status, success}
use hq_platform.Osal.Semaphore.{PosixSem, done, again, interrupted, timed_out, wait_timed, give}
use hq_platform.Osal.Semaphore.Wait.{IsWaitStatus, FewSignals, wait_timed-returns}

-- The value, and the number of signals.
abbrev counter : PosixSem
counter = record {
  Sem = ℕ × ℕ;
  init = λ n. some (n, 0);
  destroy = λ sem. true;
  post = λ sem. (done, (sem.0 + 1, sem.1));
  wait = λ sem. elim sem.0 [ zero ↦ none | suc n ↦ some (done, (n, sem.1)) ];
  trywait = λ sem. elim sem.0 [ zero ↦ (again, sem) | suc n ↦ (done, (n, sem.1)) ];
  timedwait = λ sem ts. elim sem.1 [
    | suc k ↦ (interrupted, (sem.0, k))
    | zero ↦ elim sem.0 [ zero ↦ (timed_out, sem) | suc n ↦ (done, (n, 0)) ]
  ];
  getvalue = λ sem. some (pos sem.0);
}

abbrev signals : ℕ × ℕ → ℕ
signals sem = sem.1

few : FewSignals counter signals
few (n, suc k) ts e = omega arith
few (zero, zero) ts e = cc
few (suc n, zero) ts e = cc

wait_timed-returns_example :
    (st : Status) × (sem' : ℕ × ℕ) × (wait_timed counter 4
        (record { tv_sec = 1; tv_nsec = 2 })
        (1, 3)
        50
      ≡ some (st, sem'))
    × IsWaitStatus st
wait_timed-returns_example =
    wait_timed-returns counter signals 4 (record { tv_sec = 1; tv_nsec = 2 }) (1, 3) 50
      (omega arith) few (omega arith)

-- A binary semaphore that is full can be given again, and then it is taken twice.
give-full : give counter (some (1, 0)) ≡ (success, some (2, 0))
unfolding give
give-full = refl
