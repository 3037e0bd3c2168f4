-- ===== src/Cmd/Lifecycle.antt =====
-- The histories of the console of src/cmd/hq_cmd_core.c, and their invariant. The console takes no
-- lock: its calls are steps where no two of them run at once, with the rounds of the input task in
-- between.
use hq_platform.Base.{
  ℕ, ◌+◌, ◌<◌, ◌≡◌, ◌≢◌, ◌⊎◌, inl, inr, refl, ap, ◌∙◌, subst, Bool, true, false, Option, none, some,
  arith, Bool-cases, Option-cases,
}
use hq_platform.Base.Text.{CString, codes, terminated_within}
use hq_platform.Osal.Semaphore
use hq_platform.Osal.Semaphore.{
  PosixSem, Answer, done, bin_create, make, wait_timed, wait_until, timed_wait, give, plain, polled,
}
use hq_platform.Osal.Time.{Timespec}
use hq_platform.Cmd.{
  EmbeddedCli, Binding, Config, Console, Task, absent, polling, stopping, InitEnv, cli_config,
  is_success, init, init_done, init_request, init_task, init_new, register, print, process,
  receive_char, stop, poll, finish, wait, deinit_begin, deinit_end,
}

-- `sem_t` as a counter, as POSIX documents it below SEM_VALUE_MAX, which is at least 32767.
pub record Counting (P : PosixSem) : Type 0 where
  pub value : P.Sem → ℕ
  pub init_value : (n : ℕ) (sem : P.Sem) → P.init n ≡ some sem → value sem ≡ n
  pub post_adds :
      (sem : P.Sem)
      → value sem < 32_767
      → ((P.post sem).0 ≡ done) × (value (P.post sem).1 ≡ value sem + 1)
  pub trywait_takes : (sem : P.Sem) → 0 < value sem → (P.trywait sem).0 ≡ done
  pub wait_takes :
      (sem : P.Sem)
      → 0 < value sem
      → (sem' : P.Sem) × (P.wait sem ≡ some (done, sem')) × (value sem' + 1 ≡ value sem)
  pub wait_needs : (sem sem' : P.Sem) → P.wait sem ≡ some (done, sem') → 0 < value sem
  pub destroyed : (sem : P.Sem) → P.destroy sem ≡ true

-- No signal interrupts a `sem_wait`, and none fails.
abbrev pub Uninterrupted : PosixSem → Type 0
Uninterrupted P = (sem : P.Sem) (r : Answer × P.Sem) → P.wait sem ≡ some r → r.0 ≡ done

-- The task may still use the console.
abbrev pub is_live : Task → Bool
is_live polling = true
is_live stopping = true
is_live _ = false

module _ (C : EmbeddedCli) (P : PosixSem) (K : Counting P) where
  -- Either there is no console, and no task that uses one; or the console and both semaphores are
  -- there, and nothing was given to the second before the end of the task.
  pub data IsValid (s : Console C P) : Type 0 where
    down : s.g_cli ≡ none → is_live s.task ≡ false → IsValid s
    up :
        (c : C.State) (d r : P.Sem)
        → s.g_cli ≡ some c
        → s.stop_done ≡ some d
        → s.stop_request ≡ some r
        → (is_live s.task ≡ true → K.value d ≡ 0)
        → IsValid s

  -- `osal_bin_sem_take` of the second semaphore returns.
  abbrev pub Ready : Console C P → Type 0
  Ready s = (d : P.Sem) × (s.stop_done ≡ some d) × (0 < K.value d)

  pub data Step (s : Console C P) : Console C P → Type 0 where
    inits : (env : InitEnv) (config : Config) → Step s (init C P env config s).0
    registers : (binding : Option Binding) → Step s (register C P s binding).0
    prints : (text : Option CString) → Step s (print C P s text)
    processes : Step s (process C P s)
    receives : (ch : ℕ) → Step s (receive_char C P s ch)
    stops : Step s (stop C P s)
    polls : (now : Timespec) (ch : Option ℕ) → s.task ≡ polling → Step s (poll C P now ch s)
    finishes : s.task ≡ stopping → Step s (finish C P s)
    waits : (t : Console C P) → wait C P s ≡ some t → Step s t
    deinit_begins : Step s (deinit_begin C P s)
    deinit_ends : (t : Console C P) → deinit_end C P s ≡ some t → Step s t

  pub data Reach (s : Console C P) : Console C P → Type 0 where
    here : Reach s s
    later : {t u : Console C P} → Reach s t → Step t u → Reach s u

  register-IsValid :
      (s : Console C P) (binding : Option Binding) → IsValid s → IsValid (register C P s binding).0
  unfolding register
  register-IsValid s none v = v
  register-IsValid s (some binding) (down off idle) = rw off (down refl idle)
  register-IsValid s (some binding) (up c d r on hd hr free) =
      rw on (up (C.add_binding c binding).1 d r refl hd hr free)

  print-IsValid : (s : Console C P) (text : Option CString) → IsValid s → IsValid (print C P s text)
  unfolding print
  print-IsValid s none v = v
  print-IsValid s (some text) (down off idle) = rw off (down refl idle)
  print-IsValid s (some text) (up c d r on hd hr free) =
      rw on (up (C.print c text) d r refl hd hr free)

  process-IsValid : (s : Console C P) → IsValid s → IsValid (process C P s)
  unfolding process
  process-IsValid s (down off idle) = rw off (down refl idle)
  process-IsValid s (up c d r on hd hr free) = rw on (up (C.process c) d r refl hd hr free)

  receive_char-IsValid : (s : Console C P) (ch : ℕ) → IsValid s → IsValid (receive_char C P s ch)
  unfolding receive_char
  receive_char-IsValid s ch (down off idle) = rw off (down refl idle)
  receive_char-IsValid s ch (up c d r on hd hr free) =
      rw on (up (C.receive_char c ch) d r refl hd hr free)

  stop-IsValid : (s : Console C P) → IsValid s → IsValid (stop C P s)
  unfolding stop give
  stop-IsValid s (down off idle) = down off idle
  stop-IsValid s (up c d r on hd hr free) = up c d (P.post r).1 on hd (rw hr refl) free

  finish-IsValid : (s : Console C P) → s.task ≡ stopping → IsValid s → IsValid (finish C P s)
  unfolding finish give
  finish-IsValid s at (down off idle) = down off refl
  finish-IsValid s at (up c d r on hd hr free) = up c (P.post d).1 r on (rw hd refl) hr (λ l. cc)

  -- The task of a console whose second semaphore could be taken has ended.
  taken-idle :
      (s : Console C P) (d : P.Sem) (r : Answer × P.Sem)
      → Uninterrupted P
      → (is_live s.task ≡ true → K.value d ≡ 0)
      → P.wait d ≡ some r
      → is_live s.task ≡ false
  taken-idle s d (answer, d') quiet free taken = elim (Bool-cases (is_live s.task)) [
    | inr idle ↦ idle
    | inl live ↦
        let given = K.wait_needs d d' (taken ∙ ap (λ a. some (a, d')) (quiet d _ taken)) in
        absurd (omega (arith, free live, given))
  ]

  -- A call that returns leaves a valid console.
  abbrev Returns-IsValid : Option (Console C P) → Type 0
  Returns-IsValid none = Unit {0}
  Returns-IsValid (some t) = IsValid t

  wait-IsValid : (s : Console C P) → Uninterrupted P → IsValid s → Returns-IsValid (wait C P s)
  unfolding wait give Semaphore.take
  wait-IsValid s quiet (down off idle) = rw off (down refl idle)
  wait-IsValid s quiet (up c d r on hd hr free) = elim (Option-cases (P.wait d)) [
    | inl blocked ↦ rw (on, hd, blocked) tt
    | inr ((answer, d'), taken) ↦
        let idle = taken-idle s d (answer, d') quiet free taken in
        rw (on, hd, taken) (up c (P.post d').1 r refl refl hr (λ l. cc))
  ]

  deinit_end-IsValid :
      (s : Console C P) → Uninterrupted P → IsValid s → Returns-IsValid (deinit_end C P s)
  unfolding deinit_end Semaphore.take
  deinit_end-IsValid s quiet (down off idle) = rw off (down refl idle)
  deinit_end-IsValid s quiet (up c d r on hd hr free) = elim (Option-cases (P.wait d)) [
    | inl blocked ↦ rw (on, hd, blocked) tt
    | inr ((answer, d'), taken) ↦
        let idle = taken-idle s d (answer, d') quiet free taken in
        rw (on, hd, taken) (down refl idle)
  ]

  poll-IsValid :
      (now : Timespec) (ch : Option ℕ) (s : Console C P)
      → s.task ≡ polling
      → IsValid s
      → IsValid (poll C P now ch s)
  unfolding poll timed_wait wait_timed
  poll-IsValid now ch s at (down off idle) = absurd (ground arith)
  poll-IsValid now ch s at (up c d r on hd hr free) = rw hr (go ch)
    where
      polled_again : IsValid (record s { stop_request = some (P.trywait r).1 })
      polled_again = up c d (P.trywait r).1 on hd refl free

      go : (ch : Option ℕ) → IsValid (poll C P now ch (record s { stop_request = some r }))
      go ch = elim (Bool-cases (is_success (polled (P.trywait r).0))) [
        | inl asked ↦ rw asked (up c d (P.trywait r).1 on hd refl (λ l. free (ap is_live at)))
        | inr not_asked ↦ rw not_asked (behind ch)
      ]
        where
          behind :
              (ch : Option ℕ)
              → IsValid (elim ch [
                | none ↦ record s { stop_request = some (P.trywait r).1 }
                | some c' ↦
                    process C P
                      (receive_char C P (record s { stop_request = some (P.trywait r).1 }) c')
              ])
          behind none = polled_again
          behind (some c') = process-IsValid _ (receive_char-IsValid _ c' polled_again)

  -- A semaphore that is made is empty.
  bin_create-cases :
      (block_ok : Bool) (name : CString)
      → terminated_within name 32 ≡ true
      → let made = bin_create P block_ok true (some name) 0 in
        ((sem : P.Sem) × (made.sem ≡ some sem)
          × (K.value sem ≡ 0)
          × (is_success made.status ≡ true))
        ⊎ (is_success made.status ≡ false)
  unfolding bin_create make
  bin_create-cases false name fits = inr (ground arith)
  bin_create-cases true name fits = elim (Option-cases (P.init 0)) [
    | inl refused ↦ inr (ground arith)
    | inr (sem, made) ↦ inl (sem, ground arith, K.init_value 0 sem made, ground arith)
  ]

  init_task-IsValid :
      (env : InitEnv) (s : Console C P) (c : C.State) (d r : P.Sem)
      → s.g_cli ≡ some c
      → s.stop_done ≡ some d
      → s.stop_request ≡ some r
      → K.value d ≡ 0
      → is_live s.task ≡ false
      → IsValid (init_task C P env s).0
  unfolding init_task
  init_task-IsValid env s c d r on hd hr zero_d idle =
      elim (Bool-cases (is_success env.task_status)) [
        | inl made ↦ rw made (up c d r on hd hr (λ l. zero_d))
        | inr failed ↦ rw failed (down refl idle)
      ]

  init_request-IsValid :
      (env : InitEnv) (s : Console C P) (c : C.State) (d : P.Sem)
      → s.g_cli ≡ some c
      → s.stop_done ≡ some d
      → K.value d ≡ 0
      → is_live s.task ≡ false
      → IsValid (init_request C P env s).0
  unfolding init_request
  init_request-IsValid env s c d on hd zero_d idle =
      elim (bin_create-cases env.request_block (codes "cmd_stop_req") refl) [
        | inl (r, hr, _, made) ↦ rw made (init_task-IsValid env _ c d r on hd hr zero_d idle)
        | inr failed ↦ rw failed (down refl idle)
      ]

  init_done-IsValid :
      (env : InitEnv) (s : Console C P) (c : C.State)
      → s.g_cli ≡ some c
      → is_live s.task ≡ false
      → IsValid (init_done C P env s).0
  unfolding init_done
  init_done-IsValid env s c on idle =
      elim (bin_create-cases env.done_block (codes "cmd_stop_done") refl) [
        | inl (d, hd, zero_d, made) ↦ rw made (init_request-IsValid env _ c d on hd zero_d idle)
        | inr failed ↦ rw failed (down refl idle)
      ]

  init_new-IsValid :
      (env : InitEnv) (made : Option C.State) (s : Console C P)
      → s.g_cli ≡ none
      → is_live s.task ≡ false
      → IsValid (init_new C P env made s).0
  unfolding init_new register
  init_new-IsValid env none s off idle = down off idle
  init_new-IsValid env (some c) s off idle = init_done-IsValid env _ _ refl idle

  init-IsValid :
      (env : InitEnv) (config : Config) (s : Console C P)
      → IsValid s
      → IsValid (init C P env config s).0
  unfolding init
  init-IsValid env config s (up c d r on hd hr free) = rw on (up c d r refl hd hr free)
  init-IsValid env config s (down off idle) =
      rw off (init_new-IsValid env (C.new (cli_config config)) _ refl idle)

  deinit_begin-IsValid : (s : Console C P) → IsValid s → IsValid (deinit_begin C P s)
  unfolding deinit_begin
  deinit_begin-IsValid s (down off idle) = rw off (down refl idle)
  deinit_begin-IsValid s (up c d r on hd hr free) =
      rw on (stop-IsValid _ (up c d r refl hd hr free))

  Step-IsValid : {s t : Console C P} → Uninterrupted P → Step s t → IsValid s → IsValid t
  Step-IsValid {s} quiet (inits env config) v = init-IsValid env config s v
  Step-IsValid {s} quiet (registers binding) v = register-IsValid s binding v
  Step-IsValid {s} quiet (prints text) v = print-IsValid s text v
  Step-IsValid {s} quiet processes v = process-IsValid s v
  Step-IsValid {s} quiet (receives ch) v = receive_char-IsValid s ch v
  Step-IsValid {s} quiet stops v = stop-IsValid s v
  Step-IsValid {s} quiet (polls now ch at) v = poll-IsValid now ch s at v
  Step-IsValid {s} quiet (finishes at) v = finish-IsValid s at v
  Step-IsValid {s} quiet (waits t e) v = subst Returns-IsValid e (wait-IsValid s quiet v)
  Step-IsValid {s} quiet deinit_begins v = deinit_begin-IsValid s v
  Step-IsValid {s} quiet (deinit_ends t e) v =
      subst Returns-IsValid e (deinit_end-IsValid s quiet v)

  pub Reach-IsValid_from : {s t : Console C P} → Uninterrupted P → Reach s t → IsValid s → IsValid t
  Reach-IsValid_from quiet here v = v
  Reach-IsValid_from quiet (later history step) v =
      Step-IsValid quiet step (Reach-IsValid_from quiet history v)

  -- From a console that is not there, in every history of its input task and of its calls, of which
  -- no two run at the same time, the input task never uses a console or a semaphore that was freed,
  -- if semaphores count, no signal interrupts a `sem_wait` and none fails.
  pub live-owns :
      (s t : Console C P)
      → s.g_cli ≡ none
      → s.task ≡ absent
      → Uninterrupted P
      → Reach s t
      → is_live t.task ≡ true
      → (t.g_cli ≢ none) × (t.stop_done ≢ none) × (t.stop_request ≢ none)
  live-owns s t off idle quiet history live =
      elim (Reach-IsValid_from quiet history (down off (ap is_live idle))) [
        | down gone still ↦ absurd (ground arith)
        | up c d r on hd hr free ↦ (λ e. cc, λ e. cc, λ e. cc)
      ]
