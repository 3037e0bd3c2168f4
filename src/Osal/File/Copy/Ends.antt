-- ===== src/Osal/File/Copy/Ends.antt =====
-- When a copy ends.
use hq_platform.Base.{
  ℕ, zero, suc, ◌+◌, ◌≤◌, ◌<◌, ◌≡◌, ◌≢◌, inl, inr, refl, true, List, [], ◌∷◌, none, some, arith,
  length, length-drop, length-take, take, drop, Option-cases,
}
use hq_platform.Base.Int.{ℤ, ℤ-cases, pos, negsuc}
use hq_platform.Base.Text.{CString}
use hq_platform.Osal.Littlefs.{Littlefs}
use hq_platform.Osal.Transfer.{transfer, write_rest}
use hq_platform.Osal.Mount.{Fs}
use hq_platform.Osal.File.{
  max_open_files, open_create, close, read, write, flag_create, flag_truncate,
}
use hq_platform.Osal.File.Copy.{write_bytes, copy_loop, copy_to, cp, buffer_size}
use hq_platform.Osal.File.Copy.Balance.{is_some, cp-used}
use hq_platform.Osal.File.Table.{used}

module _ (L : Littlefs) (rank : Fs L → ℕ) where
  -- What the code relies on while it copies from one descriptor to another: a read gives at most as
  -- many bytes as it is asked for and brings the end of the source nearer by the measure `rank`, and
  -- a write takes at least one byte or fails, and puts the end of the source no further away.
  pub record Progress (src_fd dst_fd : ℤ) : Type 0 where
    pub reads :
        (fs : Fs L) (n : ℕ)
        → (read L fs src_fd true buffer_size).0 ≡ pos (suc n)
        → (n < buffer_size) × (rank (read L fs src_fd true buffer_size).2 < rank fs)
    pub writes :
        (fs : Fs L) (b : ℕ) (bytes : List ℕ) → (write L fs dst_fd (some (b ∷ bytes))).0 ≢ pos 0
    pub apart : (fs : Fs L) (bytes : List ℕ) → rank (write L fs dst_fd (some bytes)).1 ≤ rank fs

  -- The inner loop ends with a unit of fuel for each byte, and the source is no further from its end.
  write_rest-ends :
      (src_fd dst_fd : ℤ) (fuel : ℕ) (fs : Fs L) (bytes : List ℕ)
      → Progress src_fd dst_fd
      → length bytes ≤ fuel
      → (st : ℤ) × (fs' : Fs L) × (write_rest (write_bytes L dst_fd) fuel fs bytes ≡ some (st, fs'))
        × (rank fs' ≤ rank fs)
  unfolding write_rest
  write_rest-ends src_fd dst_fd fuel fs [] p h = (pos 0, fs, refl, omega arith)
  write_rest-ends src_fd dst_fd zero fs (b ∷ bytes) p h = absurd (omega arith)
  write_rest-ends src_fd dst_fd (suc fuel) fs (b ∷ bytes) p h =
      let w = write L fs dst_fd (some (b ∷ bytes)) in
      elim (ℤ-cases w.0) [
        | inl (zero, stuck) ↦ absurd (p.writes fs b bytes stuck)
        | inl (suc n, ok) ↦
            let (st, fs', e, le) =
              write_rest-ends src_fd dst_fd fuel w.1 (drop (suc n) (b ∷ bytes)) p
                (omega (arith, length-drop n bytes)) in
            (st, fs', rw (write_rest, ok) e, omega (arith, le, p.apart fs (b ∷ bytes)))
        | inr (n, bad) ↦ (negsuc n, w.1, rw (write_rest, bad) refl, p.apart fs (b ∷ bytes))
      ]

  copy_loop-ends :
      (src_fd dst_fd : ℤ) (fuel : ℕ) (fs : Fs L)
      → Progress src_fd dst_fd
      → rank fs + buffer_size < fuel
      → copy_loop L fuel fs src_fd dst_fd ≢ none
  unfolding transfer
  copy_loop-ends src_fd dst_fd zero fs p h e = omega arith
  copy_loop-ends src_fd dst_fd (suc fuel) fs p h e =
      let r = read L fs src_fd true buffer_size in
      elim (ℤ-cases r.0) [
        | inr (n, bad) ↦ is_some (negsuc n, r.2) (rw (bad, transfer) at e)
        | inl (zero, done) ↦ is_some (pos 0, r.2) (rw (done, transfer) at e)
        | inl (suc n, got) ↦
            let (small, nearer) = p.reads fs n got in
            let (st, fs2, wrote, le) =
              write_rest-ends src_fd dst_fd fuel r.2 (take (suc n) r.1) p
                (omega (arith, length-take (suc n) r.1)) in
            elim (ℤ-cases st) [
              | inl (k, ok) ↦
                  copy_loop-ends src_fd dst_fd fuel fs2 p (omega arith)
                    (rw (got, transfer, wrote, ok) at e)
              | inr (k, bad) ↦ is_some (negsuc k, fs2) (rw (got, transfer, wrote, bad) at e)
            ]
      ]

  -- The state in which the copy starts, with both files open.
  abbrev pub both_open : Fs L → CString → CString → Fs L
  both_open fs src dest =
      (open_create L (open_create L fs (some src) 0 0).1 (some dest) (flag_create + flag_truncate)
        1).1

  cp-defined :
      (fuel : ℕ) (fs : Fs L) (src dest : CString)
      → ((src_fd dst_fd : ℤ) → Progress src_fd dst_fd)
      → rank (both_open fs src dest) + buffer_size < fuel
      → cp L fuel fs (some src) (some dest) ≢ none
  unfolding cp copy_to
  cp-defined fuel fs src dest p h e =
      let a = open_create L fs (some src) 0 0 in
      let b = open_create L a.1 (some dest) (flag_create + flag_truncate) 1 in
      elim (ℤ-cases a.0) [
        | inr (n, bad) ↦ is_some (negsuc n, a.1) (rw (bad, cp) at e)
        | inl (n, ok) ↦ elim (ℤ-cases b.0) [
          | inr (m, bad) ↦
              is_some (negsuc m, (close L b.1 (pos n)).1) (rw (ok, cp, copy_to, bad) at e)
          | inl (m, ok') ↦ elim (Option-cases (copy_loop L fuel b.1 (pos n) (pos m))) [
            | inl unended ↦ copy_loop-ends (pos n) (pos m) fuel b.1 (p (pos n) (pos m)) h unended
            | inr ((st, fs3), ended) ↦
                is_some (st, (close L (close L fs3 (pos n)).1 (pos m)).1)
                  (rw (ok, cp, copy_to, ok', ended) at e)
          ]
        ]
      ]

  -- With a table of 32 slots, and a littlefs whose reads give at most what is asked for and bring
  -- the end of the source nearer by a measure, whose writes take at least one byte or fail and do
  -- not put that end further away, `osal_cp` of two paths returns with fuel above the measure of
  -- the state with both files open plus 512, and leaves as many files open as there were, whatever
  -- fails on the way.
  pub cp-balanced :
      (fuel : ℕ) (fs : Fs L) (src dest : CString)
      → length fs.open_files ≡ max_open_files
      → ((src_fd dst_fd : ℤ) → Progress src_fd dst_fd)
      → rank (both_open fs src dest) + buffer_size < fuel
      → (st : ℤ) × (fs' : Fs L) × (cp L fuel fs (some src) (some dest) ≡ some (st, fs'))
        × (used L fs'.open_files ≡ used L fs.open_files)
  cp-balanced fuel fs src dest full p h =
      elim (Option-cases (cp L fuel fs (some src) (some dest))) [
        | inl unended ↦ absurd (cp-defined fuel fs src dest p h unended)
        | inr ((st, fs'), ended) ↦
            (st, fs', ended, cp-used L fuel fs (some src) (some dest) st fs' full ended)
      ]
