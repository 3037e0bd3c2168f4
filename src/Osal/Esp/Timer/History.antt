-- ===== src/Osal/Esp/Timer/History.antt =====
-- Every history of calls on the timers of src/osal/esp/osal_timer_impl.c.
use hq_platform.Base.{
  ℕ, ◌≡◌, ◌≢◌, sym, ◌∙◌, subst, Bool, false, Option, none, some, arith, Bool-cases, inl, inr, ◌==◌,
}
use hq_platform.Osal.Status.{Status, success}
use hq_platform.Osal.Esp.{Ticks}
use hq_platform.Osal.Esp.Timer.{
  RtosTimer, Sizes, Request, Timers, calls, create, delete, timer_callback, get_context,
  set_context, start, stop, reset, change_period, start_from_isr, stop_from_isr, reset_from_isr,
}
use hq_platform.Osal.Esp.Timer.Contract.{asked, removed, Documented, View, put, Agrees, Kept-Agrees}
use hq_platform.Osal.Esp.Timer.Creation.{Unused, create-Agrees}
use hq_platform.Osal.Esp.Timer.Changes.{delete-Agrees, set_context-Agrees}

-- A call that sends a command, with its times in ms
pub data Command : Type 0 where
  starts resets stops : ℕ → Command
  changes : ℕ → ℕ → Command
  starts_isr stops_isr resets_isr : Command

pub perform : (R : RtosTimer) → Ticks → Timers R → Command → Option ℕ → Status × Timers R
perform R T ts (starts ms) timer = start R T ts timer ms
perform R T ts (resets ms) timer = reset R T ts timer ms
perform R T ts (stops ms) timer = stop R T ts timer ms
perform R T ts (changes period ms) timer = change_period R T ts timer period ms
perform R T ts starts_isr timer = start_from_isr R ts timer
perform R T ts stops_isr timer = stop_from_isr R ts timer
perform R T ts resets_isr timer = reset_from_isr R ts timer

module _ (R : RtosTimer) (D : Documented R) (sizes : Sizes) (T : Ticks) where
  -- The states that the calls reach, each with what was asked for.
  pub data Reach : Timers R → View → Type 0 where
    begin : (ts : Timers R) → ((h : ℕ) → D.alive ts.rtos h ≡ false) → Reach ts (λ h. none)
    creates :
        {ts : Timers R} {view : View}
        → Reach ts view
        → (block : Option ℕ) (timer_id : Bool) (r : Request) → Unused R D ts sizes block r
        → Reach
            (create R sizes T block ts timer_id r).2
            (asked view r.callback r.callback_arg (create R sizes T block ts timer_id r).1)
    deletes :
        {ts : Timers R} {view : View}
        → Reach ts view
        → (h callback timeout_ms : ℕ) (context : Option ℕ) (st : Status) (ts' : Timers R)
        → view h ≡ some (callback, context)
        → delete R T ts (some h) timeout_ms ≡ some (st, ts')
        → Reach ts' (removed view h st)
    sets :
        {ts : Timers R} {view : View}
        → Reach ts view
        → (h callback : ℕ) (context new : Option ℕ) (st : Status) (ts' : Timers R)
        → view h ≡ some (callback, context)
        → set_context R ts (some h) new ≡ some (st, ts')
        → Reach ts' (put view h (some (callback, new)))
    performs :
        {ts : Timers R} {view : View}
        → Reach ts view
        → (command : Command) (timer : Option ℕ) → Reach (perform R T ts command timer).1 view

  perform-Agrees :
      (ts : Timers R) (view : View) (command : Command) (timer : Option ℕ)
      → Agrees R D ts view
      → Agrees R D (perform R T ts command timer).1 view
  unfolding perform start stop reset change_period start_from_isr stop_from_isr reset_from_isr
  perform-Agrees ts view (starts ms) none a = a
  perform-Agrees ts view (starts ms) (some h) a = Kept-Agrees R D ts view _ (D.starts ts.rtos h _) a
  perform-Agrees ts view (resets ms) none a = a
  perform-Agrees ts view (resets ms) (some h) a = Kept-Agrees R D ts view _ (D.resets ts.rtos h _) a
  perform-Agrees ts view (stops ms) none a = a
  perform-Agrees ts view (stops ms) (some h) a = Kept-Agrees R D ts view _ (D.stops ts.rtos h _) a
  perform-Agrees ts view (changes period ms) none a = a
  perform-Agrees ts view (changes period ms) (some h) a = elim (Bool-cases (period == 0)) [
    | inl wrong ↦ rw wrong a
    | inr right ↦ rw right (Kept-Agrees R D ts view _ (D.changes ts.rtos h _ _) a)
  ]
  perform-Agrees ts view starts_isr none a = a
  perform-Agrees ts view starts_isr (some h) a =
      Kept-Agrees R D ts view _ (D.starts_isr ts.rtos h) a
  perform-Agrees ts view stops_isr none a = a
  perform-Agrees ts view stops_isr (some h) a = Kept-Agrees R D ts view _ (D.stops_isr ts.rtos h) a
  perform-Agrees ts view resets_isr none a = a
  perform-Agrees ts view resets_isr (some h) a =
      Kept-Agrees R D ts view _ (D.resets_isr ts.rtos h) a

  result_eq :
      (st st' : Status) (ts ts' : Timers R)
      → ◌≡◌ {A = Option (Status × Timers R)} (some (st, ts)) (some (st', ts'))
      → (st ≡ st') × (ts ≡ ts')
  result_eq st st' ts ts' e = (cc, cc)

  Reach-Agrees : {ts : Timers R} {view : View} → Reach ts view → Agrees R D ts view
  Reach-Agrees (begin ts nobody) = record {
    counted = nobody;
    stored = λ h callback context e. cc;
    apart = λ h g p ah ag ih ig. cc (nobody h);
  }
  Reach-Agrees (creates {ts} {view} r block timer_id request unused) =
      create-Agrees R D sizes T block ts view timer_id request unused (Reach-Agrees r)
  Reach-Agrees (deletes {ts} {view} r h callback timeout_ms context st ts' e answer) =
      let (st', ts1, answer', a) =
        delete-Agrees R D T ts view h callback timeout_ms context e (Reach-Agrees r) in
      let (same, at) = result_eq st' st ts1 ts' (sym answer' ∙ answer) in
      subst (λ z. Agrees R D ts' (removed view h z)) same
        (subst (λ z. Agrees R D z (removed view h st')) at a)
  Reach-Agrees (sets {ts} {view} r h callback context new st ts' e answer) =
      let (ts1, answer', a) =
        set_context-Agrees R D ts view h callback context new e (Reach-Agrees r) in
      let (same, at) = result_eq success st ts1 ts' (sym answer' ∙ answer) in
      subst (λ z. Agrees R D z (put view h (some (callback, new)))) at a
  Reach-Agrees (performs {ts} {view} r command timer) =
      perform-Agrees ts view command timer (Reach-Agrees r)

  -- The ESP timers implement a map from handles to functions and contexts: in every history of
  -- calls, a timer that was made and whose deletion did not succeed calls its function with its
  -- handle when it expires, has the context that was set last, and deleting it uses no memory that
  -- was given back. FreeRTOS does what is documented, and the memory that a creation uses is not
  -- that of another timer.
  pub Reach-timers :
      {ts : Timers R} {view : View}
      → Reach ts view
      → (h callback : ℕ) (context : Option ℕ) → view h ≡ some (callback, context)
      → (timer_callback R ts h ≡ some (calls callback h))
        × (get_context R ts (some h) ≡ some context)
        × ((timeout_ms : ℕ) → delete R T ts (some h) timeout_ms ≢ none)
  unfolding timer_callback get_context
  Reach-timers {ts} {view} r h callback context e =
      let a = Reach-Agrees r in
      let (p, free_meta, id, at) = a.stored h callback context e in
      (
        ground arith,
        ground arith,
        λ timeout_ms fault.
            let (st, ts', answer, _) =
              delete-Agrees R D T ts view h callback timeout_ms context e a in
            cc (sym answer ∙ fault),
      )
