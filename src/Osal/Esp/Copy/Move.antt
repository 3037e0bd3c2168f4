-- ===== src/Osal/Esp/Copy/Move.antt =====
-- `osal_mv` of src/osal/esp/osal_file_impl.c keeps what is moved.
use hq_platform.Base.{
  ℕ, ◌+◌, ◌<◌, ◌≡◌, ◌⊎◌, inl, inr, refl, sym, ap, ◌∙◌, subst, true, false, Option, none, some,
  arith, length, Bool-cases,
}
use hq_platform.Base.Int.{ℤ, pos, eqb, eqb-eq}
use hq_platform.Base.Text.{CString}
use hq_platform.Osal.Status.{code, error}
use hq_platform.Osal.Esp.Mount.{is_ok, build_vfs_path, max_path_len}
use hq_platform.Osal.Esp.File.{PosixFiles, Files, resolve, validate_path}
use hq_platform.Osal.Esp.File.Paths.{remove, rename, done}
use hq_platform.Osal.Esp.Copy.{buffer_size, mv, remove_source}
use hq_platform.Osal.Esp.Copy.Documented.{Documented, Closing}
use hq_platform.Osal.Esp.Copy.Streams.{SameVolume}
use hq_platform.Osal.Esp.Copy.Contents.{Copied, cp-copies}

module _ (F : PosixFiles) (D : Documented F) (closing : Closing F) where
  resolved_parts :
      (fs : Files F) (path : Option CString) (full : CString)
      → (resolve F fs path).1 ≡ some full
      → (is_ok (validate_path F fs path) ≡ true)
        × ((build_vfs_path fs.mount_point path max_path_len).1 ≡ some full)
  unfolding resolve
  resolved_parts fs path full e = elim (Bool-cases (is_ok (validate_path F fs path))) [
    | inl good ↦ (good, rw good at e)
    | inr bad ↦ let nothing : none ≡ some full = rw bad at e in cc
  ]

  rename-done :
      (fs : Files F) (src dest a b : CString)
      → (resolve F fs (some src)).1 ≡ some a
      → (resolve F fs (some dest)).1 ≡ some b
      → rename F fs (some src) (some dest) ≡ done F fs (F.rename fs.sys a b)
  unfolding rename
  rename-done fs src dest a b src_is dest_is =
      let (src_ok, src_path) = resolved_parts fs (some src) a src_is in
      let (dest_ok, dest_path) = resolved_parts fs (some dest) b dest_is in
      rw (src_ok, dest_ok, src_path, dest_path) refl

  remove-done :
      (fs : Files F) (src a : CString)
      → (resolve F fs (some src)).1 ≡ some a
      → remove F fs (some src) ≡ done F fs (F.remove fs.sys a)
  unfolding remove
  remove-done fs src a src_is = ground arith

  -- The end of a move of `source` from `a` to `b`
  abbrev pub Moved : Files F → CString → CString → Option (ℤ × Files F) → Type 0
  Moved fs a b result =
      (st : ℤ) × (fs' : Files F) × (result ≡ some (st, fs'))
      × ((D.content fs'.sys a ≡ D.content fs.sys a) ⊎ (D.content fs'.sys b ≡ D.content fs.sys a))
      × (st ≡ pos 0 → D.content fs'.sys b ≡ D.content fs.sys a)

  resolve-SameVolume :
      (fs fs' : Files F) (path : Option CString) (full : CString)
      → SameVolume F fs fs'
      → (resolve F fs path).1 ≡ some full
      → (resolve F fs' path).1 ≡ some full
  unfolding resolve
  resolve-SameVolume fs fs' path full (m, p) e =
      ap (λ z. (resolve F (record fs' { mounted = z; mount_point = fs'.mount_point }) path).1) m
      ∙ ap (λ z. (resolve F (record fs' { mounted = fs.mounted; mount_point = z }) path).1) p
      ∙ e

  removed-Moved :
      (fs fs2 : Files F) (src a b : CString) (st : ℤ)
      → D.same_file a b ≡ false
      → remove F fs2 (some src) ≡ done F fs2 (F.remove fs2.sys a)
      → D.content fs2.sys a ≡ D.content fs.sys a
      → (st ≡ pos 0 → D.content fs2.sys b ≡ D.content fs.sys a)
      → Moved fs a b (remove_source F (some src) (some (st, fs2)))
  unfolding remove_source code
  removed-Moved fs fs2 src a b st files removed whole copied = elim (Bool-cases (eqb st (pos 0))) [
    | inr other ↦ (st, fs2, rw other refl, inl whole, λ ok. copied ok)
    | inl good ↦
        let fs3 = record fs2 { sys = (F.remove fs2.sys a).1 } in
        let there = copied (eqb-eq st (pos 0) good) in
        elim (Bool-cases (F.remove fs2.sys a).0) [
          | inl gone ↦
              let kept = D.removes fs2.sys a b files ∙ there in
              (pos 0, fs3, rw (good, removed, gone) refl, inr kept, λ ok. kept)
          | inr failed ↦ (
            code error,
            fs3,
            rw (good, removed, failed) refl,
            inl (D.remove_fails fs2.sys a a failed ∙ whole),
            λ ok. cc,
          )
        ]
  ]

  remove_source-Moved :
      (fs fs1 : Files F) (src a b : CString) (result : Option (ℤ × Files F))
      → (resolve F fs1 (some src)).1 ≡ some a
      → D.same_file a b ≡ false
      → D.content fs1.sys a ≡ D.content fs.sys a
      → Copied F D closing fs1 a b result
      → Moved fs a b (remove_source F (some src) result)
  remove_source-Moved fs fs1 src a b result src_is files same
        (st, fs2, ended, volume, whole, copied) =
      rw ended (
        removed-Moved fs fs2 src a b st files
          (remove-done fs2 src a (resolve-SameVolume fs1 fs2 (some src) a volume src_is))
          (whole ∙ same) (λ ok. copied ok ∙ same))

  -- On the ESP port, `osal_mv` to a path that does not name the same file, with fuel above the
  -- length of the source plus 512, returns, and whatever else fails, the old path or the new one
  -- then has the contents of the source; where the status is OSAL_SUCCESS it is the new one. This
  -- holds if the file calls do what POSIX documents of contents and descriptors, no close fails
  -- with an error of the device, and nothing else uses the files meanwhile.
  pub mv-keeps :
      (fuel : ℕ) (fs : Files F) (src dest a b : CString)
      → (resolve F fs (some src)).1 ≡ some a
      → (resolve F fs (some dest)).1 ≡ some b
      → D.same_file a b ≡ false
      → length (D.content fs.sys a) + buffer_size < fuel
      → Moved fs a b (mv F fuel fs (some src) (some dest))
  unfolding mv resolve code
  mv-keeps fuel fs src dest a b src_is dest_is files enough =
      let fs1 = record fs { sys = (F.rename fs.sys a b).1 } in
      let renamed = rename-done fs src dest a b src_is dest_is in
      elim (Bool-cases (F.rename fs.sys a b).0) [
        | inl moved ↦
            let there = D.renames fs.sys a b moved in
            (pos 0, fs1, rw (renamed, moved) refl, inr there, λ ok. there)
        | inr failed ↦
            let same = D.rename_fails fs.sys a b a failed in
            let fuel_left = subst (λ c. length c + buffer_size < fuel) (sym same) enough in
            rw (renamed, failed)
              (remove_source-Moved fs fs1 src a b _ src_is files same
                (cp-copies F D closing fuel fs1 src dest a b src_is dest_is files fuel_left))
      ]
