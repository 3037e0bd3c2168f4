-- ===== src/Osal/Esp/Timer/Contract.antt =====
-- What FreeRTOS documents of its timers, and when the timers of src/osal/esp/osal_timer_impl.c agree
-- with a map from handles to functions and contexts.
use hq_platform.Base.{
  ℕ, ◌==◌, ==_refl, ◌≡◌, ◌≢◌, refl, sym, ap, ◌∙◌, Bool, true, false, ◌&&◌, ◌||◌, not, Option, none,
  some, arith, if◌then◌else◌,
}
use hq_platform.Osal.Status.{Status, success}
use hq_platform.Osal.Esp.Timer.{RtosTimer, Meta, Request, Metas, Timers, write, create_timer}

module _ (R : RtosTimer) where
  -- A call leaves the timers and their IDs alone.
  abbrev pub Kept : (R.State → ℕ → Bool) → R.State → R.State → Type 0
  Kept alive s s' = (g : ℕ) → (alive s' g ≡ alive s g) × (R.get_id s' g ≡ R.get_id s g)

  -- A call that was to make a timer with the ID `p` made a new one, or none; the others stay.
  abbrev pub Made : (R.State → ℕ → Bool) → R.State → ℕ → Option ℕ × R.State → Type 0
  Made alive s p (none, s') = Kept alive s s'
  Made alive s p (some h, s') =
      (alive s h ≡ false)
      × (R.get_id s' h ≡ some p)
      × ((g : ℕ) → alive s' g ≡ (h == g) || alive s g)
      × ((g : ℕ) → alive s g ≡ true → R.get_id s' g ≡ R.get_id s g)

  -- A deletion ends one timer if the command is accepted.
  abbrev pub Deleted : (R.State → ℕ → Bool) → R.State → ℕ → Bool × R.State → Type 0
  Deleted alive s h (false, s') = Kept alive s s'
  Deleted alive s h (true, s') =
      (g : ℕ) → (alive s' g ≡ not (h == g) && alive s g) × (R.get_id s' g ≡ R.get_id s g)

-- What FreeRTOS documents of its timers. One is alive from its creation to the command that deletes
-- it.
pub record Documented (R : RtosTimer) : Type 0 where
  pub alive : R.State → ℕ → Bool
  pub makes :
      (s : R.State) (r : Request) (ticks p : ℕ)
      → Made R alive s p (create_timer R s r ticks p r.stack_pointer)
  pub deletes : (s : R.State) (h ticks : ℕ) → Deleted R alive s h (R.delete s h ticks)
  pub starts : (s : R.State) (h ticks : ℕ) → Kept R alive s (R.start s h ticks).1
  pub resets : (s : R.State) (h ticks : ℕ) → Kept R alive s (R.reset s h ticks).1
  pub stops : (s : R.State) (h ticks : ℕ) → Kept R alive s (R.stop s h ticks).1
  pub changes : (s : R.State) (h n ticks : ℕ) → Kept R alive s (R.change_period s h n ticks).1
  pub starts_isr : (s : R.State) (h : ℕ) → Kept R alive s (R.start_from_isr s h).1
  pub stops_isr : (s : R.State) (h : ℕ) → Kept R alive s (R.stop_from_isr s h).1
  pub resets_isr : (s : R.State) (h : ℕ) → Kept R alive s (R.reset_from_isr s h).1

-- The abstract view: the function and the context of each timer that is there.
abbrev pub View : Type 0
View = ℕ → Option (ℕ × Option ℕ)

abbrev pub put : View → ℕ → Option (ℕ × Option ℕ) → View
put view h entry g = if h == g then entry else view g

abbrev pub added : View → ℕ → Option ℕ → Option ℕ → View
added view callback context none = view
added view callback context (some h) = put view h (some (callback, context))

-- The view after a call of `osal_timer_create`
abbrev pub asked : View → Option ℕ → Option ℕ → Option ℕ → View
asked view none context timer = view
asked view (some callback) context timer = added view callback context timer

-- The view after a deletion with this result
abbrev pub removed : View → ℕ → Status → View
removed view h success = put view h none
removed view h _ = view

abbrev pub known : Option (ℕ × Option ℕ) → Bool
known none = false
known (some entry) = true

abbrev pub meta_of : ℕ → Option ℕ → Bool → Meta
meta_of callback context free_meta = record {
  callback = some callback;
  context = context;
  free_meta = free_meta;
}

pub write_self : (metas : Metas) (p : ℕ) (c : Option Meta) → write metas p c p ≡ c
unfolding write
write_self metas p c = rw (==_refl p) refl

pub write_ne : (metas : Metas) (p q : ℕ) (c : Option Meta) → p ≢ q → write metas p c q ≡ metas q
unfolding write
write_ne metas p q c ne = ground arith

pub either_ne : (b c : Bool) → b ≡ false → b || c ≡ true → c ≡ true
either_ne b c e h = ground arith

pub known_put :
    (same alive : Bool) (old : Option (ℕ × Option ℕ)) (entry : ℕ × Option ℕ)
    → alive ≡ known old
    → same || alive ≡ known (if same then some entry else old)
known_put true alive old entry h = refl
known_put false alive old entry h = h

pub known-none :
    (same alive : Bool) (old : Option (ℕ × Option ℕ))
    → alive ≡ known old
    → not same && alive ≡ known (if same then none else old)
known-none true alive old h = refl
known-none false alive old h = h

pub put-none :
    (view : View) (h g : ℕ) (entry : ℕ × Option ℕ)
    → put view h none g ≡ some entry
    → view g ≡ some entry
put-none view h g entry e = ground arith

pub and_both : (b c : Bool) → not b && c ≡ true → (b ≡ false) × (c ≡ true)
and_both true c h = cc
and_both false c h = (refl, h)

pub not_self : (h g : ℕ) → (h == g) ≡ false → h ≢ g
not_self h g ne = ground arith

pub entry_eq :
    (cb cb' : ℕ) (cx cx' : Option ℕ) (free_meta : Bool)
    → ◌≡◌ {A = Option (ℕ × Option ℕ)} (some (cb, cx)) (some (cb', cx'))
    → meta_of cb cx free_meta ≡ meta_of cb' cx' free_meta
entry_eq cb cb' cx cx' free_meta e = cc

module _ (R : RtosTimer) (D : Documented R) where
  -- The structure of a timer holds what the view says.
  abbrev pub Stored : R.State → Metas → ℕ → ℕ → Option ℕ → Type 0
  Stored s metas h callback context =
      (p : ℕ) × (free_meta : Bool) × (R.get_id s h ≡ some p)
      × (metas p ≡ some (meta_of callback context free_meta))

  pub record Agrees (ts : Timers R) (view : View) : Type 0 where
    pub counted : (h : ℕ) → D.alive ts.rtos h ≡ known (view h)
    pub stored :
        (h callback : ℕ) (context : Option ℕ)
        → view h ≡ some (callback, context)
        → Stored ts.rtos ts.metas h callback context
    pub apart :
        (h g p : ℕ)
        → D.alive ts.rtos h ≡ true
        → D.alive ts.rtos g ≡ true
        → R.get_id ts.rtos h ≡ some p
        → R.get_id ts.rtos g ≡ some p
        → h ≡ g

  pub Kept-Agrees :
      (ts : Timers R) (view : View) (rtos : R.State)
      → Kept R D.alive ts.rtos rtos
      → Agrees ts view
      → Agrees (record ts { rtos = rtos }) view
  Kept-Agrees ts view rtos kept a = record {
    counted = λ h. (kept h).0 ∙ a.counted h;
    stored = λ h callback context e.
        let (p, free_meta, id, at) = a.stored h callback context e in
        (p, free_meta, (kept h).1 ∙ id, at);
    apart = λ h g p ah ag ih ig.
        a.apart h g p (sym (kept h).0 ∙ ah) (sym (kept g).0 ∙ ag) (sym (kept h).1 ∙ ih)
          (sym (kept g).1 ∙ ig);
  }

  -- The address is not that of the structure of a timer that is alive.
  abbrev pub Fresh : Timers R → ℕ → Type 0
  Fresh ts p = (g : ℕ) → D.alive ts.rtos g ≡ true → R.get_id ts.rtos g ≢ some p

  pub Kept-Fresh :
      (ts : Timers R) (rtos : R.State) (p : ℕ)
      → Kept R D.alive ts.rtos rtos
      → Fresh ts p
      → Fresh (record ts { rtos = rtos }) p
  Kept-Fresh ts rtos p kept fresh g lives e = fresh g (sym (kept g).0 ∙ lives) (sym (kept g).1 ∙ e)

  -- What is written at such an address is not seen.
  pub Fresh-Agrees :
      (ts : Timers R) (view : View) (p : ℕ) (c : Option Meta)
      → Fresh ts p
      → Agrees ts view
      → Agrees (record ts { metas = write ts.metas p c }) view
  Fresh-Agrees ts view p c fresh a = record {
    counted = a.counted;
    stored = λ h callback context e.
        let (q, free_meta, id, at) = a.stored h callback context e in
        let lives : D.alive ts.rtos h ≡ true = a.counted h ∙ ap known e in
        let ne : p ≢ q = λ same. fresh h lives (id ∙ ap some (sym same)) in
        (q, free_meta, id, write_ne ts.metas p q c ne ∙ at);
    apart = a.apart;
  }
