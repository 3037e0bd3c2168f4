-- ===== src/Osal/Esp/Timer/Changes.antt =====
-- The deletion of a timer and the change of its context, src/osal/esp/osal_timer_impl.c, agree with
-- the map.
use hq_platform.Base.{
  ℕ, ◌==◌, ==_iff, ◌≡◌, ◌≢◌, refl, sym, ap, ◌∙◌, inl, inr, Bool, true, false, Option, none, some,
  arith, if◌then◌else◌, Bool-cases,
}
use hq_platform.Osal.Status.{Status, success, timer_err_internal}
use hq_platform.Osal.Esp.{Ticks, timeout_to_ticks}
use hq_platform.Osal.Esp.Timer.{RtosTimer, Timers, write, free_meta_of, delete, set_context}
use hq_platform.Osal.Esp.Timer.Contract.{
  removed, Deleted, Documented, View, put, known, meta_of, write_self, write_ne, known-none,
  put-none, and_both, not_self, entry_eq, Agrees, Kept-Agrees, Fresh, Fresh-Agrees,
}

module _ (R : RtosTimer) (D : Documented R) where
  Deleted-Agrees :
      (ts : Timers R) (view : View) (h : ℕ) (rtos : R.State)
      → Deleted R D.alive ts.rtos h (true, rtos)
      → Agrees R D ts view
      → Agrees R D (record ts { rtos = rtos }) (put view h none)
  Deleted-Agrees ts view h rtos gone a =
      let was = λ (g : ℕ) (now : D.alive rtos g ≡ true). (and_both _ _ (sym (gone g).0 ∙ now)).1 in
      record {
        counted = λ g. (gone g).0 ∙ known-none (h == g) _ _ (a.counted g);
        stored = λ g callback context e.
            let (q, free_meta, id, at) = a.stored g callback context (put-none view h g _ e) in
            (q, free_meta, (gone g).1 ∙ id, at);
        apart = λ g k q ag ak ig ik.
            a.apart g k q (was g ag) (was k ak) (sym (gone g).1 ∙ ig) (sym (gone k).1 ∙ ik);
      }

  abbrev finished : Timers R → Option ℕ → Bool × R.State → Option (Status × Timers R)
  finished ts id (passed, rtos) =
      if passed
      then free_meta_of R (record ts { rtos = rtos }) id
      else some (timer_err_internal, record ts { rtos = rtos })

  finished-Agrees :
      (ts : Timers R) (view : View) (h callback : ℕ) (context : Option ℕ) (answer : Bool × R.State)
      → Deleted R D.alive ts.rtos h answer
      → view h ≡ some (callback, context)
      → Agrees R D ts view
      → (st : Status) × (ts' : Timers R) × (finished ts (R.get_id ts.rtos h) answer
          ≡ some (st, ts'))
        × Agrees R D ts' (removed view h st)
  unfolding free_meta_of
  finished-Agrees ts view h callback context (false, rtos) kept e a =
      (timer_err_internal, record ts { rtos = rtos }, refl, Kept-Agrees R D ts view rtos kept a)
  finished-Agrees ts view h callback context (true, rtos) gone e a =
      let (p, free_meta, id, at) = a.stored h callback context e in
      let lives : D.alive ts.rtos h ≡ true = a.counted h ∙ ap known e in
      let ts1 = record ts { rtos = rtos } in
      let after = Deleted-Agrees ts view h rtos gone a in
      let fresh : Fresh R D ts1 p = λ g now ig.
        let (other, was) = and_both _ _ (sym (gone g).0 ∙ now) in
        not_self h g other (a.apart h g p lives was id (sym (gone g).1 ∙ ig)) in
      elim (Bool-cases free_meta) [
        | inl heap ↦ (
          success,
          record ts1 { metas = write ts.metas p none },
          rw (id, at, heap) refl,
          Fresh-Agrees R D ts1 (put view h none) p none fresh after,
        )
        | inr own ↦ (success, ts1, rw (id, at, own) refl, after)
      ]

  pub delete-Agrees :
      (T : Ticks) (ts : Timers R) (view : View) (h callback timeout_ms : ℕ) (context : Option ℕ)
      → view h ≡ some (callback, context)
      → Agrees R D ts view
      → (st : Status) × (ts' : Timers R) × (delete R T ts (some h) timeout_ms ≡ some (st, ts'))
        × Agrees R D ts' (removed view h st)
  unfolding delete
  delete-Agrees T ts view h callback timeout_ms context e a =
      finished-Agrees ts view h callback context
        (R.delete ts.rtos h (timeout_to_ticks T timeout_ms))
        (D.deletes ts.rtos h (timeout_to_ticks T timeout_ms)) e a

  pub set_context-Agrees :
      (ts : Timers R) (view : View) (h callback : ℕ) (context new : Option ℕ)
      → view h ≡ some (callback, context)
      → Agrees R D ts view
      → (ts' : Timers R) × (set_context R ts (some h) new ≡ some (success, ts'))
        × Agrees R D ts' (put view h (some (callback, new)))
  unfolding set_context
  set_context-Agrees ts view h callback context new e a =
      let (p, free_meta, id, at) = a.stored h callback context e in
      let lives : D.alive ts.rtos h ≡ true = a.counted h ∙ ap known e in
      let meta = meta_of callback new free_meta in
      (
        record ts { metas = write ts.metas p (some meta) },
        ground arith,
        record {
          counted = λ g. elim (Bool-cases (h == g)) [
            | inl same ↦ rw same (ap (λ k. D.alive ts.rtos k) (sym ((==_iff h g).0 same)) ∙ lives)
            | inr ne ↦ rw ne (a.counted g)
          ];
          stored = λ g callback' context' e'. elim (Bool-cases (h == g)) [
            | inl same ↦ (
              p,
              free_meta,
              ap (λ k. R.get_id ts.rtos k) (sym ((==_iff h g).0 same)) ∙ id,
              write_self ts.metas p _
                  ∙ ap (λ z. some z) (entry_eq _ _ _ _ free_meta (rw same at e')),
            )
            | inr ne ↦
                let old : view g ≡ some (callback', context') = rw ne at e' in
                let (q, free_meta', id', at') = a.stored g callback' context' old in
                let apart : p ≢ q = λ eq.
                  not_self h g ne (
                    a.apart h g p lives (a.counted g ∙ ap known old) id (id' ∙ ap some (sym eq))) in
                (q, free_meta', id', write_ne ts.metas p q _ apart ∙ at')
          ];
          apart = a.apart;
        },
      )
