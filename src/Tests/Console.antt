-- ===== src/Tests/Console.antt =====
-- A console that starts, is polled once, and ends, on semaphores that count.
use hq_platform.Base.{
  ℕ, zero, suc, ◌+◌, ◌<◌, ◌≡◌, ◌≢◌, ◌⊎◌, refl, true, false, [], none, some, arith,
}
use hq_platform.Base.Int.{pos}
use hq_platform.Base.Text.{codes}
use hq_platform.Osal.Resources.{Resource}
use hq_platform.Osal.Semaphore.{PosixSem, bin_create, done, again, timed_out}
use hq_platform.Osal.Status.{success}
use hq_platform.Osal.Time.{Timespec}
use hq_platform.Cmd.{
  EmbeddedCli, Config, Console, absent, polling, finished, InitEnv, init, poll, finish,
  deinit_begin, deinit_end,
}
use hq_platform.Cmd.Lifecycle.{Counting, Uninterrupted, up, here, later, inits, Ready, live-owns}
use hq_platform.Cmd.Shutdown.{Moves, Ends, have_both, init-balanced, deinit-returns}

abbrev plain_counter : PosixSem
plain_counter = record {
  Sem = ℕ;
  init = λ n. some n;
  destroy = λ sem. true;
  post = λ sem. (done, sem + 1);
  wait = λ sem. elim sem [ zero ↦ none | suc n ↦ some (done, n) ];
  trywait = λ sem. elim sem [ zero ↦ (again, 0) | suc n ↦ (done, n) ];
  timedwait = λ sem ts. elim sem [ zero ↦ (timed_out, 0) | suc n ↦ (done, n) ];
  getvalue = λ sem. some (pos sem);
}

abbrev counts : Counting plain_counter
counts = record {
  value = λ n. n;
  init_value = inits_to;
  post_adds = λ sem room. (refl, refl);
  trywait_takes = takes;
  wait_takes = waits;
  wait_needs = needs;
  destroyed = λ sem. refl;
}
  where
    inits_to : (n sem : ℕ) → plain_counter.init n ≡ some sem → sem ≡ n
    inits_to n sem e = ground arith

    takes : (n : ℕ) → 0 < n → (plain_counter.trywait n).0 ≡ done
    takes zero h = absurd (omega arith)
    takes (suc n) h = refl

    waits : (n : ℕ) → 0 < n → (m : ℕ) × (plain_counter.wait n ≡ some (done, m)) × (m + 1 ≡ n)
    waits zero h = absurd (omega arith)
    waits (suc n) h = (n, refl, omega arith)

    needs : (n m : ℕ) → plain_counter.wait n ≡ some (done, m) → 0 < n
    needs zero m e = cc
    needs (suc n) m e = omega arith

-- A CLI that counts its calls.
abbrev counting_cli : EmbeddedCli
counting_cli = record {
  State = ℕ;
  new = λ config. some 0;
  add_binding = λ c binding. (true, c + 1);
  process = λ c. c + 1;
  receive_char = λ c ch. c + 1;
  print = λ c text. c + 1;
  get_token_count = λ args. 0;
  get_token = λ args n. none;
}

abbrev off : Console counting_cli plain_counter
off = record { g_cli = none; stop_done = none; stop_request = none; task = absent; trace = [] }

abbrev all_good : InitEnv
all_good = record { done_block = true; request_block = true; task_status = success }

abbrev no_memory : InitEnv
no_memory = record { done_block = true; request_block = false; task_status = success }

abbrev config : Config
config = record {
  rx_buffer_size = 64;
  cmd_buffer_size = 64;
  history_buffer_size = 128;
  max_binding_count = 32;
  enable_auto_complete = 1;
  invitation = codes "> ";
}

abbrev started : Console counting_cli plain_counter
started = (init counting_cli plain_counter all_good config off).0

never_interrupted : Uninterrupted plain_counter
never_interrupted zero r e = cc
never_interrupted (suc n) (answer, m) e = ground arith

live-owns_example :
    (started.g_cli ≢ none) × (started.stop_done ≢ none) × (started.stop_request ≢ none)
unfolding init bin_create
live-owns_example =
    live-owns counting_cli plain_counter counts off started refl refl never_interrupted
      (later here (inits all_good config)) refl

init-balanced_example :
    ((off.g_cli ≢ none) × (init counting_cli plain_counter no_memory config off ≡ (off, pos 0)))
    ⊎ ((off.g_cli ≡ none)
        × ((r : Resource)
            → Ends r [] off.trace
                (init counting_cli plain_counter no_memory config off).0.trace
                (init counting_cli plain_counter no_memory config off).1))
init-balanced_example = init-balanced counting_cli plain_counter counts no_memory config off

abbrev running : Console counting_cli plain_counter
running = record {
  g_cli = some 1;
  stop_done = some 0;
  stop_request = some 0;
  task = polling;
  trace = [];
}

abbrev now : Timespec
now = record { tv_sec = 1; tv_nsec = 2 }

deinit-returns_example :
    let ended = finish counting_cli plain_counter (
      poll counting_cli plain_counter now
        (some 65)
        (deinit_begin counting_cli plain_counter running)) in
    Ready counting_cli plain_counter counts ended
    × (ended.task ≡ finished)
    × ((t : Console counting_cli plain_counter) × (deinit_end counting_cli plain_counter ended
          ≡ some t)
        × (t.g_cli ≡ none)
        × ((r : Resource) → Moves r have_both [] running.trace t.trace))
deinit-returns_example =
    deinit-returns counting_cli plain_counter counts now (some 65) running
      (up 1 0 0 refl refl refl (λ l. refl)) refl (λ q e. ground arith)
