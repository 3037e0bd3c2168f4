-- ===== src/Osal/Transfer.antt =====
-- The two loops of `osal_cp`, src/osal/esp/osal_file_impl.c, over the read of a source and the write
-- to a destination. They run on fuel: the outer one spends a unit on each read and hands what is left
-- to the inner one, which spends a unit on each write; `none` is a copy that has not ended with it.
pub mod Whole
use hq_platform.Base.{
  ℕ, zero, suc, ◌+◌, ◌≤◌, ◌<◌, ◌≡◌, ◌⊎◌, inl, inr, refl, sym, ap, ◌∙◌, List, [], ◌∷◌, ◌++◌, Option,
  none, some, arith, length, take, drop, length-drop, length-append,
}
use hq_platform.Base.Int.{ℤ, pos, negsuc}

module _ {S : Type 0} where
  -- The inner loop, on the bytes that are still to be written; the status is 0 or an error.
  unfoldable pub write_rest : (S → List ℕ → ℤ × S) → ℕ → S → List ℕ → Option (ℤ × S)
  write_rest wr fuel s [] = some (pos 0, s)
  write_rest wr zero s (b ∷ bytes) = none
  write_rest wr (suc fuel) s (b ∷ bytes) =
      let (written, s') = wr s (b ∷ bytes) in
      elim written [
        | negsuc e ↦ some (negsuc e, s')
        | pos n ↦ write_rest wr fuel s' (drop n (b ∷ bytes))
      ]

  -- The outer loop
  unfoldable pub transfer : (S → ℤ × List ℕ × S) → (S → List ℕ → ℤ × S) → ℕ → S → Option (ℤ × S)
  transfer rd wr zero s = none
  transfer rd wr (suc fuel) s =
      let (nread, bytes, s1) = rd s in
      elim nread [
        | negsuc e ↦ some (negsuc e, s1)
        | pos zero ↦ some (pos 0, s1)
        | pos (suc n) ↦ elim (write_rest wr fuel s1 (take (suc n) bytes)) [
          | none ↦ none
          | some (pos k, s2) ↦ transfer rd wr fuel s2
          | some (negsuc e, s2) ↦ some (negsuc e, s2)
        ]
      ]

-- What the loops rely on: in a state that holds `rest` to be read and `copied` so far, a read that
-- succeeds takes bytes from the front of `rest`, at most `size` of them, and none only at its end; a
-- write of at most `size` bytes that succeeds adds at least one of them to `copied`, from their front.
pub record Streams {S : Type 0} (rd : S → ℤ × List ℕ × S) (wr : S → List ℕ → ℤ × S) (size : ℕ)
    (Holds : S → List ℕ → List ℕ → Type 0) : Type 0 where
  pub reads :
      (s : S) (rest copied : List ℕ) (n : ℕ)
      → Holds s rest copied
      → (rd s).0 ≡ pos n
      → (rest' : List ℕ) × (rest ≡ take n (rd s).1 ++ rest')
        × (length (take n (rd s).1) ≡ n)
        × (n ≤ size)
        × (n ≡ 0 → rest ≡ [])
        × Holds (rd s).2 rest' copied
  pub writes :
      (s : S) (rest copied : List ℕ) (b : ℕ) (bytes : List ℕ) (n : ℕ)
      → Holds s rest copied
      → length (b ∷ bytes) ≤ size
      → (wr s (b ∷ bytes)).0 ≡ pos n
      → (0 < n)
        × (n ≤ length (b ∷ bytes))
        × Holds (wr s (b ∷ bytes)).1 rest (copied ++ take n (b ∷ bytes))
