-- ===== src/Osal/Transfer/Whole.antt =====
-- The loops of `osal_cp` end, and copy the whole of the source where they report no error.
use mathlib.Core.List.{append_assoc, append-nil}
use hq_platform.Base.{
  ℕ, zero, suc, ◌+◌, ◌≤◌, ◌<◌, ◌≡◌, ◌⊎◌, inl, inr, refl, sym, ap, ◌∙◌, subst, List, [], ◌∷◌, ◌++◌,
  Option, none, some, arith, length, take, drop, length-drop, length-append, take-drop,
  Option-cases,
}
use hq_platform.Base.Int.{ℤ, pos, negsuc, ℤ-cases}
use hq_platform.Osal.Transfer.{write_rest, transfer, Streams}

module _ {S : Type 0} (rd : S → ℤ × List ℕ × S) (wr : S → List ℕ → ℤ × S) (size : ℕ)
    (Holds : S → List ℕ → List ℕ → Type 0) (streams : Streams rd wr size Holds) where
  write_rest-whole :
      (fuel : ℕ) (s : S) (rest copied bytes : List ℕ)
      → Holds s rest copied
      → length bytes ≤ size
      → length bytes ≤ fuel
      → (s' : S) × (((write_rest wr fuel s bytes ≡ some (pos 0, s'))
            × Holds s' rest (copied ++ bytes))
          ⊎ ((e : ℕ) × (write_rest wr fuel s bytes ≡ some (negsuc e, s'))))
  unfolding write_rest
  write_rest-whole fuel s rest copied [] holds small h =
      (s, inl (refl, subst (λ z. Holds s rest z) (sym (append-nil copied)) holds))
  write_rest-whole zero s rest copied (b ∷ bytes) holds small h = absurd (omega arith)
  write_rest-whole (suc fuel) s rest copied (b ∷ bytes) holds small h =
      let w = wr s (b ∷ bytes) in
      elim (ℤ-cases w.0) [
        | inr (e, failed) ↦ (w.1, inr (e, rw (failed, write_rest) refl))
        | inl (zero, stuck) ↦
            let (some_taken, few, holds') =
              streams.writes s rest copied b bytes 0 holds small stuck in
            absurd (omega arith)
        | inl (suc n, wrote) ↦
            let (some_taken, few, holds') =
              streams.writes s rest copied b bytes (suc n) holds small wrote in
            let (s', ends) =
              write_rest-whole fuel w.1 rest (copied ++ take (suc n) (b ∷ bytes))
                (drop (suc n) (b ∷ bytes)) holds' (omega (arith, length-drop n bytes))
                (omega (arith, length-drop n bytes)) in
            (
              s',
              elim ends [
                | inl (ok, whole) ↦ inl (
                  rw (wrote, write_rest) ok,
                  subst (λ z. Holds s' rest z)
                      (append_assoc copied _ _
                        ∙ ap (λ z. copied ++ z) (take-drop (suc n) (b ∷ bytes)))
                      whole,
                )
                | inr (e, failed) ↦ inr (e, rw (wrote, write_rest) failed)
              ],
            )
      ]

  -- With fuel above the length of the source plus that of the buffer
  pub transfer-whole :
      (fuel : ℕ) (s : S) (rest copied : List ℕ)
      → Holds s rest copied
      → length rest + size < fuel
      → (s' : S) × (((transfer rd wr fuel s ≡ some (pos 0, s')) × Holds s' [] (copied ++ rest))
          ⊎ ((e : ℕ) × (transfer rd wr fuel s ≡ some (negsuc e, s'))))
  unfolding transfer
  transfer-whole zero s rest copied holds h = absurd (omega arith)
  transfer-whole (suc fuel) s rest copied holds h =
      let r = rd s in
      elim (ℤ-cases r.0) [
        | inr (e, failed) ↦ (r.2, inr (e, rw (failed, transfer) refl))
        | inl (zero, done) ↦
            let (rest', split, size_ok, few, end, holds') =
              streams.reads s rest copied 0 holds done in
            let nothing : rest ≡ [] = end refl in
            (
              r.2,
              inl (
                rw (done, transfer) refl,
                subst (λ z. Holds r.2 [] z)
                    (sym (ap (λ z. copied ++ z) nothing ∙ append-nil copied))
                    (subst (λ z. Holds r.2 z copied) (sym split ∙ nothing) holds'),
              ),
            )
        | inl (suc n, got) ↦
            let (rest', split, size_ok, few, end, holds') =
              streams.reads s rest copied (suc n) holds got in
            let piece = take (suc n) r.1 in
            let shorter : length rest ≡ length piece + length rest' =
              ap length split ∙ length-append piece rest' in
            let (s2, wrote) =
              write_rest-whole fuel r.2 rest' copied piece holds' (omega arith) (omega arith) in
            elim wrote [
              | inr (e, failed) ↦ (s2, inr (e, rw (got, transfer, failed) refl))
              | inl (ok, holds2) ↦
                  let (s3, ends) =
                    transfer-whole fuel s2 rest' (copied ++ piece) holds2 (omega arith) in
                  (
                    s3,
                    elim ends [
                      | inl (ok', whole) ↦ inl (
                        rw (got, transfer, ok) ok',
                        subst (λ z. Holds s3 [] z)
                            (append_assoc copied piece rest' ∙ ap (λ z. copied ++ z) (sym split))
                            whole,
                      )
                      | inr (e, failed) ↦ inr (e, rw (got, transfer, ok) failed)
                    ],
                  )
            ]
      ]

-- What every read and every write keeps, the loops keep.
module _ {S : Type 0} (rd : S → ℤ × List ℕ × S) (wr : S → List ℕ → ℤ × S) (Keeps : S → Type 0)
    (read_keeps : (s : S) → Keeps s → Keeps (rd s).2)
    (write_keeps : (s : S) (b : ℕ) (bytes : List ℕ) → Keeps s → Keeps (wr s (b ∷ bytes)).1) where
  end_state : (a b : ℤ) (s s' : S) → ◌≡◌ {A = Option (ℤ × S)} (some (a, s)) (some (b, s')) → s ≡ s'
  end_state a b s s' e = cc

  write_rest-Keeps :
      (fuel : ℕ) (s : S) (bytes : List ℕ) (st : ℤ) (s' : S)
      → Keeps s
      → write_rest wr fuel s bytes ≡ some (st, s')
      → Keeps s'
  unfolding write_rest
  write_rest-Keeps fuel s [] st s' k e = subst Keeps (end_state (pos 0) st s s' e) k
  write_rest-Keeps zero s (b ∷ bytes) st s' k e = cc
  write_rest-Keeps (suc fuel) s (b ∷ bytes) st s' k e =
      let w = wr s (b ∷ bytes) in
      let kept = write_keeps s b bytes k in
      elim (ℤ-cases w.0) [
        | inr (n, failed) ↦
            subst Keeps (end_state (negsuc n) st w.1 s' (rw (failed, write_rest) at e)) kept
        | inl (n, wrote) ↦
            write_rest-Keeps fuel w.1 (drop n (b ∷ bytes)) st s' kept (rw (wrote, write_rest) at e)
      ]

  pub transfer-Keeps :
      (fuel : ℕ) (s : S) (st : ℤ) (s' : S)
      → Keeps s
      → transfer rd wr fuel s ≡ some (st, s')
      → Keeps s'
  unfolding transfer
  transfer-Keeps zero s st s' k e = cc
  transfer-Keeps (suc fuel) s st s' k e =
      let r = rd s in
      let kept = read_keeps s k in
      elim (ℤ-cases r.0) [
        | inr (n, failed) ↦
            subst Keeps (end_state (negsuc n) st r.2 s' (rw (failed, transfer) at e)) kept
        | inl (zero, done) ↦
            subst Keeps (end_state (pos 0) st r.2 s' (rw (done, transfer) at e)) kept
        | inl (suc n, got) ↦ elim (Option-cases (write_rest wr fuel r.2 (take (suc n) r.1))) [
          | inl unended ↦
              let nothing : ◌≡◌ {A = Option (ℤ × S)} none (some (st, s')) =
                rw (got, transfer, unended) at e in
              cc
          | inr ((st2, s2), ended) ↦
              let kept2 = write_rest-Keeps fuel r.2 (take (suc n) r.1) st2 s2 kept ended in
              elim (ℤ-cases st2) [
                | inl (m, ok) ↦
                    transfer-Keeps fuel s2 st s' kept2 (rw (got, transfer, ended, ok) at e)
                | inr (m, bad) ↦
                    subst Keeps
                      (end_state (negsuc m) st s2 s' (rw (got, transfer, ended, bad) at e)) kept2
              ]
        ]
      ]
