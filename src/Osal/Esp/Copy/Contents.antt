-- ===== src/Osal/Esp/Copy/Contents.antt =====
-- What a copy of src/osal/esp/osal_file_impl.c leaves in its destination.
use hq_platform.Base.{
  ℕ, ◌+◌, ◌<◌, ◌≡◌, ◌≢◌, ◌⊎◌, inl, inr, refl, sym, ap, ◌∙◌, subst, Bool, true, false, List, [],
  Option, none, some, arith, length, Option-cases, Bool-cases, set,
}
use hq_platform.Base.Int.{ℤ, pos, negsuc, is_neg}
use hq_platform.Base.Text.{CString}
use hq_platform.Osal.Status.{code}
use hq_platform.Osal.Transfer.{transfer}
use hq_platform.Osal.Transfer.Whole.{transfer-whole}
use hq_platform.Osal.Esp.Mount.{stored}
use hq_platform.Osal.Esp.File.{
  Slot, PosixFiles, Files, Access, resolve, open_create, open_path, open_resolved, record_fd,
  free_from, close, read_only, write_only,
}
use hq_platform.Osal.Esp.Copy.{buffer_size, read_buffer, write_bytes, close_both, copy_to, cp}
use hq_platform.Osal.Esp.Copy.Documented.{Documented, Closing}
use hq_platform.Osal.Esp.Copy.Streams.{SameVolume, Copying, Copying-Streams, transfer-Intact}

module _ (F : PosixFiles) (D : Documented F) (closing : Closing F) where
  -- What `osal_open_create` returns for a path that is resolved
  abbrev OpenResult : Files F → CString → Bool → Bool → Access → ℤ × Files F → Type 0
  OpenResult fs full create truncate access result =
      ((e : ℕ) × (result.0 ≡ negsuc e)
        × ((q : CString)
            → D.content result.1.sys q
              ≡ D.content (F.open_file fs.sys full create truncate access).1 q)
        × SameVolume F fs result.1)
      ⊎ ((fd : ℕ) × (table : List Slot) × ((F.open_file fs.sys full create truncate access).0
            ≡ some fd)
          × (result ≡ (
            pos fd,
            record fs { table = table; sys = (F.open_file fs.sys full create truncate access).1 },
          )))

  open_path-Result :
      (fs : Files F) (full : CString) (create truncate : Bool) (access : Access)
      → OpenResult fs full create truncate access (open_path F fs full create truncate access)
  unfolding open_path record_fd code
  open_path-Result fs full create truncate access =
      elim (Option-cases (F.open_file fs.sys full create truncate access).0) [
        | inl failed ↦ inl (0, rw failed refl, λ q. rw failed refl, rw failed (refl, refl))
        | inr (fd, made) ↦ elim (Option-cases (free_from fs.table 0)) [
          | inl occupied ↦ inl (
            13,
            rw (made, occupied) refl,
            λ q. rw (made, occupied) (D.close_keeps _ _ q (closing _ _)),
            rw (made, occupied) (refl, refl),
          )
          | inr (i, free) ↦ inr (
            fd,
            set fs.table i (record { in_use = true; fd = pos fd; path = stored full }),
            made,
            rw (made, free) refl,
          )
        ]
      ]

  open_create-Result :
      (fs : Files F) (path : Option CString) (full : CString) (create truncate : Bool)
      (access : Access)
      → (resolve F fs path).1 ≡ some full
      → OpenResult fs full create truncate access (open_create F fs path create truncate access)
  unfolding open_create
  open_create-Result fs path full create truncate access e =
      subst
        (λ z.
          OpenResult fs full create truncate access
            (open_resolved F fs create truncate access ((resolve F fs path).0, z)))
        (sym e) (open_path-Result fs full create truncate access)

  is_some {ℓ} : {A : Type ℓ} {x : A} → some x ≢ none
  is_some e = cc

  close-content :
      (fs : Files F) (fd : ℤ) (q : CString) → D.content (close F fs fd).1.sys q ≡ D.content fs.sys q
  unfolding close
  close-content fs fd q = elim (Bool-cases (is_neg fd)) [
    | inl wrong ↦ rw wrong refl
    | inr right ↦ rw right (D.close_keeps fs.sys fd q (closing fs.sys fd))
  ]

  close-SameVolume : (fs : Files F) (fd : ℤ) → SameVolume F fs (close F fs fd).1
  unfolding close
  close-SameVolume fs fd = (ground arith, ground arith)

  close_volume :
      (fs fs1 : Files F) (fd : ℤ) → SameVolume F fs fs1 → SameVolume F fs (close F fs1 fd).1
  close_volume fs fs1 fd (m, p) = let (m', p') = close-SameVolume fs1 fd in (m' ∙ m, p' ∙ p)

  -- The end of a copy from `a` to `b`: what `a` had is still there, and `b` has it if all went well.
  abbrev pub Copied : Files F → CString → CString → Option (ℤ × Files F) → Type 0
  Copied fs a b result =
      (st : ℤ) × (fs' : Files F) × (result ≡ some (st, fs'))
      × SameVolume F fs fs'
      × (D.content fs'.sys a ≡ D.content fs.sys a)
      × (st ≡ pos 0 → D.content fs'.sys b ≡ D.content fs.sys a)

  after_close :
      (fs : Files F) (src_fd dst_fd : ℤ) (q : CString)
      → D.content (close F (close F fs src_fd).1 dst_fd).1.sys q ≡ D.content fs.sys q
  after_close fs src_fd dst_fd q =
      close-content (close F fs src_fd).1 dst_fd q ∙ close-content fs src_fd q

  -- The copy once both files are open
  copy_open-Copied :
      (fuel : ℕ) (fs fs2 : Files F) (a b : CString) (src_fd dst_fd : ℤ)
      → D.same_file b a ≡ false
      → src_fd ≢ dst_fd
      → length (D.content fs.sys a) + buffer_size < fuel
      → SameVolume F fs fs2
      → Copying F D a b src_fd dst_fd (D.content fs.sys a) fs2 (D.content fs.sys a) []
      → Copied fs a b (
          close_both F src_fd dst_fd
            (transfer (read_buffer F src_fd) (write_bytes F dst_fd) fuel fs2))
  copy_open-Copied fuel fs fs2 a b src_fd dst_fd files fds enough volume holds =
      let source = D.content fs.sys a in
      let (o, src_at, here, left, dst_at, nothing) = holds in
      let (fs3, ends) =
        transfer-whole (read_buffer F src_fd) (write_bytes F dst_fd) buffer_size
          (Copying F D a b src_fd dst_fd source)
          (Copying-Streams F D a b src_fd dst_fd source files fds) fuel fs2 source [] holds
          enough in
      let closed = (close F (close F fs3 src_fd).1 dst_fd).1 in
      let after = after_close fs3 src_fd dst_fd in
      let intact =
        λ (st : ℤ)
            (e : transfer (read_buffer F src_fd) (write_bytes F dst_fd) fuel fs2 ≡ some (st, fs3)).
          transfer-Intact F D fuel a b src_fd dst_fd source fs fs2 fs3 st files fds
            (volume, here, _, dst_at) e in
      let stays = λ (v : SameVolume F fs fs3).
        close_volume fs (close F fs3 src_fd).1 dst_fd (close_volume fs fs3 src_fd v) in
      elim ends [
        | inl (ok, whole) ↦
            let (o', src_at', still, left', dst_at', done) = whole in
            (
              pos 0,
              closed,
              ap (λ r. close_both F src_fd dst_fd r) ok,
              stays (intact (pos 0) ok).0,
              after a ∙ still,
              λ success. after b ∙ done,
            )
        | inr (e, failed) ↦
            let (volume3, still, o3, dst_at3) = intact (negsuc e) failed in
            (
              negsuc e,
              closed,
              ap (λ r. close_both F src_fd dst_fd r) failed,
              stays volume3,
              after a ∙ still,
              λ success. cc,
            )
      ]

  copy_to-Copied :
      (fuel : ℕ) (fs fs1 : Files F) (dest a b : CString) (src_fd : ℕ)
      → D.same_file b a ≡ false
      → length (D.content fs.sys a) + buffer_size < fuel
      → (resolve F fs1 (some dest)).1 ≡ some b
      → D.at fs1.sys (pos src_fd) ≡ some (a, 0)
      → D.content fs1.sys a ≡ D.content fs.sys a
      → SameVolume F fs fs1
      → Copied fs a b (copy_to F fuel (pos src_fd, fs1) dest)
  unfolding copy_to
  copy_to-Copied fuel fs fs1 dest a b src_fd files enough resolved src_at kept volume =
      let r = open_create F fs1 (some dest) true true write_only in
      elim (open_create-Result fs1 (some dest) b true true write_only resolved) [
        | inl (e, failed, same, volume1) ↦ (
          negsuc e,
          (close F r.1 (pos src_fd)).1,
          rw (failed, copy_to) refl,
          close_volume fs r.1 (pos src_fd) (volume1.0 ∙ volume.0, volume1.1 ∙ volume.1),
          close-content r.1 (pos src_fd) a
              ∙ same a
              ∙ D.open_others fs1.sys b true true write_only a files
              ∙ kept,
          λ success. cc,
        )
        | inr (fd, table, made, opened) ↦
            let (fresh, at, others) = D.opened fs1.sys b true true write_only fd made in
            let emptied = D.open_empties fs1.sys b true fd made in
            let apart : pos src_fd ≢ pos fd =
              λ same. is_some (sym src_at ∙ ap (λ k. D.at fs1.sys k) same ∙ fresh) in
            rw opened (
              copy_open-Copied fuel fs _ a b (pos src_fd) (pos fd) files apart enough volume (
                0,
                others (pos src_fd) apart ∙ src_at,
                D.open_others fs1.sys b true true write_only a files ∙ kept,
                refl,
                at ∙ ap (λ c. some (b, length c)) (sym emptied),
                emptied,
              ))
      ]

  -- On the ESP port, `osal_cp` between paths that do not name the same file, with fuel above the
  -- length of the source plus 512, returns; the source keeps its contents and the volume stays,
  -- whatever fails; and where the status is OSAL_SUCCESS the destination has the contents of the
  -- source. This holds if the file calls do what POSIX documents of contents and descriptors, no
  -- close fails with an error of the device, and nothing else uses the files meanwhile.
  pub cp-copies :
      (fuel : ℕ) (fs : Files F) (src dest a b : CString)
      → (resolve F fs (some src)).1 ≡ some a
      → (resolve F fs (some dest)).1 ≡ some b
      → D.same_file a b ≡ false
      → length (D.content fs.sys a) + buffer_size < fuel
      → Copied fs a b (cp F fuel fs (some src) (some dest))
  unfolding cp resolve
  cp-copies fuel fs src dest a b src_is dest_is files enough =
      let r = open_create F fs (some src) false false read_only in
      elim (open_create-Result fs (some src) a false false read_only src_is) [
        | inl (e, failed, same, volume) ↦ (
          negsuc e,
          r.1,
          rw (failed, cp) refl,
          volume,
          same a ∙ D.open_keeps fs.sys a false read_only a,
          λ success. cc,
        )
        | inr (fd, table, made, opened) ↦
            let (fresh, at, others) = D.opened fs.sys a false false read_only fd made in
            rw opened (
              copy_to-Copied fuel fs _ dest a b fd (D.same_file_sym b a ∙ files) enough dest_is at
                (D.open_keeps fs.sys a false read_only a) (refl, refl))
      ]
