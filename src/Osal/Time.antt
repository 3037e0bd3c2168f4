-- ===== src/Osal/Time.antt =====
-- Deadlines: `osal_timespec_add_ms` of src/osal/posix/osal_queue_impl.c, which osal_timer_impl.c
-- repeats and the semaphores' `osal_sem_wait_timed` writes out.
use hq_platform.Base.{
  ℕ, ◌+◌, ◌-◌, ◌*◌, ◌/◌, ◌%◌, ◌<◌, ◌≡◌, Option, none, some, arith, leb, if◌then◌else◌,
}

-- `struct timespec`; both fields count up from an epoch, so neither is negative.
pub record Timespec : Type 0 where
  pub tv_sec : ℕ
  pub tv_nsec : ℕ

abbrev carry : Timespec → Timespec
carry ts =
    if leb 1_000_000_000 ts.tv_nsec
    then record { tv_sec = ts.tv_sec + 1; tv_nsec = ts.tv_nsec - 1_000_000_000 }
    else ts

-- The nanoseconds are an unsigned product, which stays below 2 ^ 32: no wrap is written out.
unfoldable pub timespec_add_ms : Timespec → ℕ → Timespec
timespec_add_ms ts timeout_ms = carry (record {
  tv_sec = ts.tv_sec + timeout_ms / 1000;
  tv_nsec = ts.tv_nsec + (timeout_ms % 1000) * 1_000_000;
})

-- The argument is what `clock_gettime` stored, or `none` if it failed.
unfoldable pub get_deadline : Option Timespec → ℕ → Option Timespec
get_deadline none timeout_ms = none
get_deadline (some now) timeout_ms = some (timespec_add_ms now timeout_ms)

abbrev pub nanoseconds : Timespec → ℕ
nanoseconds ts = ts.tv_sec * 1_000_000_000 + ts.tv_nsec

-- From a normalised time, the deadline lies exactly `timeout_ms` milliseconds later and is
-- normalised again.
pub timespec_add_ms-nanoseconds :
    (ts : Timespec) (timeout_ms : ℕ)
    → ts.tv_nsec < 1_000_000_000
    → (nanoseconds (timespec_add_ms ts timeout_ms) ≡ nanoseconds ts + timeout_ms * 1_000_000)
      × ((timespec_add_ms ts timeout_ms).tv_nsec < 1_000_000_000)
unfolding timespec_add_ms
timespec_add_ms-nanoseconds ts timeout_ms h = ground arith
