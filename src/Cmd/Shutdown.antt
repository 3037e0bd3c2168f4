-- ===== src/Cmd/Shutdown.antt =====
-- The end of the console of src/cmd/hq_cmd_core.c, and what its calls take and give back.
use mathlib.Core.List.{append_assoc}
use hq_platform.Base.{
  ℕ, ◌+◌, ◌<◌, ◌≡◌, ◌≢◌, ◌⊎◌, inl, inr, refl, sym, ap, subst, ◌∙◌, Bool, true, false, List, [], ◌∷◌,
  ◌++◌, Option, none, some, arith, Bool-cases, Option-cases,
}
use hq_platform.Base.Int.{ℤ, pos, negsuc}
use hq_platform.Base.Text.{CString, codes, terminated_within}
use hq_platform.Osal.Resources.{
  Resource, Event, acquire, release, acquired, released, acquired-append, released-append, cli,
  thread, block, semaphore,
}
use hq_platform.Osal.Semaphore
use hq_platform.Osal.Semaphore.{
  PosixSem, Answer, done, bin_create, make, wait_timed, timed_wait, give, plain, polled,
}
use hq_platform.Osal.Time.{Timespec}
use hq_platform.Cmd.{
  EmbeddedCli, Config, Console, polling, stopping, finished, InitEnv, is_success, init, init_new,
  init_done, init_request, init_task, register, stop, poll, finish, deinit_begin, deinit_end,
}
use hq_platform.Cmd.Lifecycle.{Counting, is_live, IsValid, down, up, Ready}

-- What each semaphore is made of, and what a console that runs holds.
abbrev semaphore_taken : List Event
semaphore_taken = acquire block ∷ acquire semaphore ∷ []

abbrev semaphore_freed : List Event
semaphore_freed = release semaphore ∷ release block ∷ []

abbrev have_cli : List Event
have_cli = acquire cli ∷ []

abbrev have_one : List Event
have_one = have_cli ++ semaphore_taken

abbrev pub have_both : List Event
have_both = have_one ++ semaphore_taken

abbrev pub held : List Event
held = have_both ++ acquire thread ∷ []

-- What was held before and what is taken between the traces is what is given back and held then.
pub record Moves (r : Resource) (before after xs ys : List Event) : Type 0 where
  pub sum :
      acquired r before + acquired r ys + released r xs
      ≡ released r ys + acquired r xs + acquired r after

Moves-append :
    (r : Resource) (before after xs es : List Event)
    → acquired r before + acquired r es ≡ released r es + acquired r after
    → Moves r before after xs (xs ++ es)
Moves-append r before after xs es h = record {
  sum = omega (arith, h, acquired-append r xs es, released-append r xs es);
}

then_Moves :
    (r : Resource) (before between after xs ys zs : List Event)
    → Moves r before between xs ys
    → Moves r between after ys zs
    → Moves r before after xs zs
then_Moves r before between after xs ys zs m n = record { sum = omega (arith, m.sum, n.sum) }

-- How a part of `hq_cmd_init` ends.
pub data Ends (r : Resource) (before xs ys : List Event) (result : ℤ) : Type 0 where
  runs : result ≡ pos 0 → Moves r before held xs ys → Ends r before xs ys result
  fails : result ≡ negsuc 0 → Moves r before [] xs ys → Ends r before xs ys result

then_Ends :
    (r : Resource) (before between xs ys zs : List Event) (result : ℤ)
    → Moves r before between xs ys
    → Ends r between ys zs result
    → Ends r before xs zs result
then_Ends r before between xs ys zs result m (runs e n) =
    runs e (then_Moves r before between held xs ys zs m n)
then_Ends r before between xs ys zs result m (fails e n) =
    fails e (then_Moves r before between [] xs ys zs m n)

free_all : List Event
free_all = semaphore_freed ++ semaphore_freed ++ release cli ∷ []

free_one : List Event
free_one = semaphore_freed ++ release cli ∷ []

both_freed :
    (r : Resource) (xs : List Event)
    → Moves r have_both [] xs (((xs ++ semaphore_freed) ++ semaphore_freed) ++ release cli ∷ [])
both_freed r xs =
    subst (Moves r have_both [] xs)
      (sym (
        append_assoc (xs ++ semaphore_freed) semaphore_freed (release cli ∷ [])
        ∙ append_assoc xs semaphore_freed (semaphore_freed ++ release cli ∷ [])))
      (Moves-append r have_both [] xs (semaphore_freed ++ semaphore_freed ++ release cli ∷ [])
        (omega arith))

one_freed :
    (r : Resource) (xs : List Event)
    → Moves r have_one [] xs ((xs ++ semaphore_freed) ++ release cli ∷ [])
one_freed r xs =
    subst (Moves r have_one [] xs) (sym (append_assoc xs semaphore_freed (release cli ∷ [])))
      (Moves-append r have_one [] xs (semaphore_freed ++ release cli ∷ []) (omega arith))

module _ (C : EmbeddedCli) (P : PosixSem) (K : Counting P) where
  init_task-Ends :
      (r : Resource) (env : InitEnv) (s : Console C P) (d q : P.Sem)
      → s.stop_done ≡ some d
      → s.stop_request ≡ some q
      → Ends r have_both s.trace (init_task C P env s).0.trace (init_task C P env s).1
  unfolding init_task Semaphore.delete
  init_task-Ends r env s d q hd hq = elim (Bool-cases (is_success env.task_status)) [
    | inl made ↦
        rw made
          (runs refl (Moves-append r have_both held s.trace (acquire thread ∷ []) (omega arith)))
    | inr failed ↦
        rw (failed, hd, hq, K.destroyed d, K.destroyed q) (fails refl (both_freed r s.trace))
  ]

  -- A semaphore that is made, and one that is not.
  bin_create-Moves :
      (r : Resource) (block_ok : Bool) (name : CString) (before xs : List Event)
      → terminated_within name 32 ≡ true
      → let made = bin_create P block_ok true (some name) 0 in
        ((sem : P.Sem) × (made.sem ≡ some sem)
          × (is_success made.status ≡ true)
          × Moves r before (before ++ semaphore_taken) xs (xs ++ made.trace))
        ⊎ ((is_success made.status ≡ false) × Moves r before before xs (xs ++ made.trace))
  unfolding bin_create make
  bin_create-Moves r false name before xs fits =
      inr (ground arith, rw fits (Moves-append r before before xs [] (omega arith)))
  bin_create-Moves r true name before xs fits = elim (Option-cases (P.init 0)) [
    | inl refused ↦
        rw (fits, refused)
          (inr (
            refl,
            Moves-append r before before xs (acquire block ∷ release block ∷ []) (omega arith),
          ))
    | inr (sem, made) ↦
        rw (fits, made)
          (inl (
            sem,
            refl,
            refl,
            Moves-append r before (before ++ semaphore_taken) xs semaphore_taken
                (omega (arith, acquired-append r before semaphore_taken)),
          ))
  ]

  init_request-Ends :
      (r : Resource) (env : InitEnv) (s : Console C P) (d : P.Sem)
      → s.stop_done ≡ some d
      → Ends r have_one s.trace (init_request C P env s).0.trace (init_request C P env s).1
  unfolding init_request Semaphore.delete
  init_request-Ends r env s d hd =
      elim (bin_create-Moves r env.request_block (codes "cmd_stop_req") have_one s.trace refl) [
        | inl (q, hq, made, m) ↦
            rw made
              (then_Ends r have_one have_both s.trace _ _ _ m (init_task-Ends r env _ d q hd hq))
        | inr (failed, m) ↦
            rw (failed, hd, K.destroyed d)
              (fails refl (then_Moves r have_one have_one [] s.trace _ _ m (one_freed r _)))
      ]

  init_done-Ends :
      (r : Resource) (env : InitEnv) (s : Console C P)
      → Ends r have_cli s.trace (init_done C P env s).0.trace (init_done C P env s).1
  unfolding init_done
  init_done-Ends r env s =
      elim (bin_create-Moves r env.done_block (codes "cmd_stop_done") have_cli s.trace refl) [
        | inl (d, hd, made, m) ↦
            rw made (then_Ends r have_cli have_one s.trace _ _ _ m (init_request-Ends r env _ d hd))
        | inr (failed, m) ↦ rw failed (
            fails refl (
              then_Moves r have_cli have_cli [] s.trace _ _ m
                (Moves-append r have_cli [] _ (release cli ∷ []) (omega arith))))
      ]

  init_new-Ends :
      (r : Resource) (env : InitEnv) (made : Option C.State) (s : Console C P)
      → Ends r [] s.trace (init_new C P env made s).0.trace (init_new C P env made s).1
  unfolding init_new register
  init_new-Ends r env none s = fails refl (record { sum = omega arith })
  init_new-Ends r env (some c) s =
      then_Ends r [] have_cli s.trace _ _ _
        (Moves-append r [] have_cli s.trace (acquire cli ∷ []) (omega arith))
        (init_done-Ends r env _)

  -- `hq_cmd_init` of a console that is there does nothing and returns 0. Otherwise it returns 0 and
  -- holds the CLI, two semaphores and the task, or it returns -1 and has given back everything,
  -- whichever of its steps fails. `sem_destroy` of a semaphore that was made is assumed to succeed.
  pub init-balanced :
      (env : InitEnv) (config : Config) (s : Console C P)
      → ((s.g_cli ≢ none) × (init C P env config s ≡ (s, pos 0)))
        ⊎ ((s.g_cli ≡ none)
            × ((r : Resource)
                → Ends r [] s.trace (init C P env config s).0.trace (init C P env config s).1))
  unfolding init
  init-balanced env config s = elim (Option-cases s.g_cli) [
    | inr (c, on) ↦ inl (λ e. cc, rw on refl)
    | inl off ↦ inr (off, λ r. rw off (init_new-Ends r env _ _))
  ]

  -- The poll after a stop ends the loop.
  poll-stopped :
      (now : Timespec) (ch : Option ℕ) (s : Console C P) (q : P.Sem)
      → s.stop_request ≡ some q
      → K.value q < 32_767
      → poll C P now ch (stop C P s)
        ≡ record s { stop_request = some (P.trywait (P.post q).1).1; task = stopping }
  unfolding poll timed_wait wait_timed stop give
  poll-stopped now ch s q hq room =
      let taken : (P.trywait (P.post q).1).0 ≡ done =
        K.trywait_takes (P.post q).1 (omega (arith, (K.post_adds q room).1)) in
      rw (hq, taken) refl

  deinit_end-Moves :
      (s : Console C P) (c : C.State) (d d' q : P.Sem)
      → s.g_cli ≡ some c
      → s.stop_done ≡ some d
      → s.stop_request ≡ some q
      → P.wait d ≡ some (done, d')
      → (t : Console C P) × (deinit_end C P s ≡ some t)
        × (t.g_cli ≡ none)
        × ((r : Resource) → Moves r have_both [] s.trace t.trace)
  unfolding deinit_end Semaphore.take Semaphore.delete
  deinit_end-Moves s c d d' q on hd hq taken = (
    record s {
      g_cli = none;
      stop_done = none;
      stop_request = none;
      trace = ((s.trace ++ semaphore_freed) ++ semaphore_freed) ++ release cli ∷ [];
    },
    rw (on, hd, hq, taken, K.destroyed q, K.destroyed d') refl,
    refl,
    λ r. both_freed r s.trace,
  )

  deinit_begin-stops :
      (s : Console C P) (c : C.State) → s.g_cli ≡ some c → deinit_begin C P s ≡ stop C P s
  unfolding deinit_begin
  deinit_begin-stops s c on = rw on refl

  -- On a valid console whose input task polls, `hq_cmd_deinit` ends the task at its next poll, is
  -- then able to return, and gives back the CLI and both semaphores, if the request semaphore is
  -- below the guaranteed maximum, semaphores count and `sem_destroy` succeeds.
  pub deinit-returns :
      (now : Timespec) (ch : Option ℕ) (s : Console C P)
      → IsValid C P K s
      → s.task ≡ polling
      → ((q : P.Sem) → s.stop_request ≡ some q → K.value q < 32_767)
      → let ended = finish C P (poll C P now ch (deinit_begin C P s)) in
        Ready C P K ended
        × (ended.task ≡ finished)
        × ((t : Console C P) × (deinit_end C P ended ≡ some t)
            × (t.g_cli ≡ none)
            × ((r : Resource) → Moves r have_both [] s.trace t.trace))
  unfolding finish give
  deinit-returns now ch s (down off idle) at room = absurd (ground arith)
  deinit-returns now ch s (up c d q on hd hq free) at room =
      let empty : K.value d ≡ 0 = free (ap is_live at) in
      let (posted, more) = K.post_adds d (omega (arith, empty)) in
      let stopped = record s { stop_request = some (P.trywait (P.post q).1).1; task = stopping } in
      let before : poll C P now ch (deinit_begin C P s) ≡ stopped =
        ap (poll C P now ch) (deinit_begin-stops s c on) ∙ poll-stopped now ch s q hq (room q hq) in
      let given : 0 < K.value (P.post d).1 = omega (arith, more) in
      let (d', taken, _) = K.wait_takes (P.post d).1 given in
      let gone =
        deinit_end-Moves (finish C P stopped) c (P.post d).1 d' (P.trywait (P.post q).1).1 on
          (rw hd refl) refl taken in
      rw before (((P.post d).1, rw hd refl, given), refl, gone)
