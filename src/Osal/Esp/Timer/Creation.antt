-- ===== src/Osal/Esp/Timer/Creation.antt =====
-- `osal_timer_create` of src/osal/esp/osal_timer_impl.c agrees with the map.
use hq_platform.Base.{
  ℕ, ◌==◌, ==_iff, ◌≡◌, ◌≢◌, refl, sym, ap, ◌∙◌, subst, inl, inr, Bool, true, false, not, Option,
  none, some, if◌then◌else◌, Bool-cases, Option-cases,
}
use hq_platform.Osal.Status.{Status, err_name_too_long, timer_err_invalid_args, err_invalid_size}
use hq_platform.Osal.Semaphore.{name_fits}
use hq_platform.Osal.Esp.{Ticks}
use hq_platform.Osal.Esp.Timer.{
  RtosTimer, Sizes, Request, Timers, write, create_timer, created, create_at, create, meta_create,
  placed, checked, with_callback, large_enough, period_to_ticks,
}
use hq_platform.Osal.Esp.Timer.Contract.{
  added, asked, Made, Documented, View, known, meta_of, write_self, write_ne, either_ne, known_put,
  entry_eq, Agrees, Kept-Agrees, Fresh, Kept-Fresh, Fresh-Agrees,
}

module _ (R : RtosTimer) (D : Documented R) where
  created-Agrees :
      (ts : Timers R) (view : View) (callback : ℕ) (context : Option ℕ) (p : ℕ) (free_meta : Bool)
      (made : Option ℕ × R.State)
      → Made R D.alive ts.rtos p made
      → Fresh R D ts p
      → Agrees R D ts view
      → Agrees R D (created R ts.metas p free_meta (meta_of callback context free_meta) made).2 (
          added view callback context
            (created R ts.metas p free_meta (meta_of callback context free_meta) made).1)
  created-Agrees ts view callback context p false (none, rtos) kept fresh a =
      Fresh-Agrees R D (record ts { rtos = rtos }) view p _ (Kept-Fresh R D ts rtos p kept fresh)
        (Kept-Agrees R D ts view rtos kept a)
  created-Agrees ts view callback context p true (none, rtos) kept fresh a =
      let fresh' = Kept-Fresh R D ts rtos p kept fresh in
      let meta = some (meta_of callback context true) in
      Fresh-Agrees R D (record { rtos = rtos; metas = write ts.metas p meta }) view p none fresh'
        (Fresh-Agrees R D (record ts { rtos = rtos }) view p meta fresh'
          (Kept-Agrees R D ts view rtos kept a))
  created-Agrees ts view callback context p free_meta (some h, rtos) made fresh a =
      let (new, id, lives, others) = made in
      let was_alive = λ (g : ℕ) (ne : (h == g) ≡ false) (now : D.alive rtos g ≡ true).
        either_ne _ _ ne (sym (lives g) ∙ now) in
      let kept_id =
        λ (g q : ℕ) (ne : (h == g) ≡ false) (now : D.alive rtos g ≡ true)
            (e : R.get_id rtos g ≡ some q).
          sym (others g (was_alive g ne now)) ∙ e in
      record {
        counted = λ g. lives g ∙ known_put (h == g) _ _ (callback, context) (a.counted g);
        stored = λ g callback' context' e. elim (Bool-cases (h == g)) [
          | inl same ↦ (
            p,
            free_meta,
            ap (λ k. R.get_id rtos k) (sym ((==_iff h g).0 same)) ∙ id,
            write_self ts.metas p _ ∙ ap (λ z. some z) (entry_eq _ _ _ _ free_meta (rw same at e)),
          )
          | inr ne ↦
              let (q, free_meta', id', at) = a.stored g callback' context' (rw ne at e) in
              let lived : D.alive ts.rtos g ≡ true = a.counted g ∙ ap known (rw ne at e) in
              let apart : p ≢ q = λ eq. fresh g lived (id' ∙ ap some (sym eq)) in
              (q, free_meta', others g lived ∙ id', write_ne ts.metas p q _ apart ∙ at)
        ];
        apart = λ g k q ag ak ig ik. elim (Bool-cases (h == g)) [
          | inl same ↦ elim (Bool-cases (h == k)) [
            | inl same' ↦ sym ((==_iff h g).0 same) ∙ (==_iff h k).0 same'
            | inr ne ↦
                let here : R.get_id rtos g ≡ some p =
                  ap (λ k. R.get_id rtos k) (sym ((==_iff h g).0 same)) ∙ id in
                absurd (fresh k (was_alive k ne ak) (kept_id k q ne ak ik ∙ sym ig ∙ here))
          ]
          | inr ne ↦ elim (Bool-cases (h == k)) [
            | inl same ↦
                let here : R.get_id rtos k ≡ some p =
                  ap (λ k. R.get_id rtos k) (sym ((==_iff h k).0 same)) ∙ id in
                absurd (fresh g (was_alive g ne ag) (kept_id g q ne ag ig ∙ sym ik ∙ here))
            | inr ne' ↦
                a.apart g k q (was_alive g ne ag) (was_alive k ne' ak) (kept_id g q ne ag ig)
                  (kept_id k q ne' ak ik)
          ]
        ];
      }

  create_at-Agrees :
      (T : Ticks) (ts : Timers R) (view : View) (r : Request) (callback p : ℕ) (free_meta : Bool)
      → r.callback ≡ some callback
      → Fresh R D ts p
      → Agrees R D ts view
      → let (status, timer, ts') = create_at R T ts r p free_meta in
        Agrees R D ts' (added view callback r.callback_arg timer)
  unfolding create_at
  create_at-Agrees T ts view r callback p free_meta e fresh a =
      let ticks = period_to_ticks T r.period_ms in
      let made = create_timer R ts.rtos r ticks p r.stack_pointer in
      let result = λ (c : Option ℕ).
        created R ts.metas p free_meta
          (record { callback = c; context = r.callback_arg; free_meta = free_meta }) made in
      subst (λ c. Agrees R D (result c).2 (added view callback r.callback_arg (result c).1)) (sym e)
        (created-Agrees ts view callback r.callback_arg p free_meta made (D.makes ts.rtos r ticks p)
          fresh a)

  -- The memory that the call uses is not that of a timer that is alive: `malloc` gives none that is in
  -- use, and the caller hands over no block that is.
  abbrev pub Unused : Timers R → Sizes → Option ℕ → Request → Type 0
  Unused ts sizes block r =
      (p : ℕ) (free_meta : Bool)
      → meta_create sizes block r.stack_pointer r.stack_size ≡ some (p, free_meta)
      → Fresh R D ts p

  checked-Agrees :
      (T : Ticks) (ts : Timers R) (view : View) (sizes : Sizes) (r : Request) (callback : ℕ)
      (place : Option (ℕ × Bool))
      → r.callback ≡ some callback
      → ((p : ℕ) (free_meta : Bool) → place ≡ some (p, free_meta) → Fresh R D ts p)
      → Agrees R D ts view
      → Agrees R D
          (checked R T ts sizes r place).2
          (added view callback r.callback_arg (checked R T ts sizes r place).1)
  checked-Agrees T ts view sizes r callback place e unused a =
      let made = placed R T ts r place in
      let sized = if not (large_enough sizes r) then (err_invalid_size, none, ts) else made in
      let timed = if r.period_ms == 0 then (timer_err_invalid_args, none, ts) else sized in
      unless (not (name_fits r.name)) err_name_too_long timed (
        unless (r.period_ms == 0) timer_err_invalid_args sized
          (unless (not (large_enough sizes r)) err_invalid_size made (placed-Agrees place unused)))
    where
      P : Status × Option ℕ × Timers R → Type 0
      P z = Agrees R D z.2 (added view callback r.callback_arg z.1)

      unless :
          (b : Bool) (st : Status) (y : Status × Option ℕ × Timers R)
          → P y
          → P (if b then (st, none, ts) else y)
      unless true st y py = a
      unless false st y py = py

      placed-Agrees :
          (place : Option (ℕ × Bool))
          → ((p : ℕ) (free_meta : Bool) → place ≡ some (p, free_meta) → Fresh R D ts p)
          → P (placed R T ts r place)
      placed-Agrees none unused = a
      placed-Agrees (some (p, free_meta)) unused =
          create_at-Agrees T ts view r callback p free_meta e (unused p free_meta refl) a

  pub create-Agrees :
      (sizes : Sizes) (T : Ticks) (block : Option ℕ) (ts : Timers R) (view : View) (timer_id : Bool)
      (r : Request)
      → Unused ts sizes block r
      → Agrees R D ts view
      → Agrees R D
          (create R sizes T block ts timer_id r).2
          (asked view r.callback r.callback_arg (create R sizes T block ts timer_id r).1)
  unfolding create
  create-Agrees sizes T block ts view false r unused a = elim (Option-cases r.callback) [
    | inl missing ↦ rw missing a
    | inr (callback, e) ↦ rw e a
  ]
  create-Agrees sizes T block ts view true r unused a = elim (Option-cases r.callback) [
    | inl missing ↦ subst Goal (sym missing) a
    | inr (callback, e) ↦ subst Goal (sym e) (
        checked-Agrees T ts view sizes r callback
          (meta_create sizes block r.stack_pointer r.stack_size) e unused a)
  ]
    where
      Goal : Option ℕ → Type 0
      Goal c =
          Agrees R D (with_callback R T ts sizes block r c).2
            (asked view c r.callback_arg (with_callback R T ts sizes block r c).1)
