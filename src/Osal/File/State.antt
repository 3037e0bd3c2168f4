-- ===== src/Osal/File/State.antt =====
-- Which calls look at the mounted flag, what they leave alone, and how results are reported.
use hq_platform.Base.{
  ℕ, zero, suc, ◌≡◌, ◌≢◌, ◌↔◌, inl, inr, refl, sym, ap, ◌∙◌, Bool, true, false, ◌&&◌, List, [], ◌∷◌,
  none, some, arith, length, get_elem?, set, get_elem?-set_self, get_elem?-set_ne, subst,
  Bool-cases, Option-cases,
}
use hq_platform.Base.Int.{ℤ}
use hq_platform.Base.Text.{CString, str_eq, str_eq_refl, str_eq-eq}
use hq_platform.Osal.Littlefs.{Littlefs}
use hq_platform.Osal.Status.{success, code, err_incorrect_obj_state}
use hq_platform.Osal.Mount.{OpenFile, Fs, is_ok, path_normalize, max_path_len}
use native.Mathlib.Decide.{ℕ_discrete}
use hq_platform.Osal.File.Table.{fd_to_slot-at, get_elem?-length}
use hq_platform.Osal.File.{
  validate_io_buffer, fd_to_slot, put_slot, open_create, close, close_slot, read, read_slot, write,
  write_slot, truncate, truncate_slot, lseek, lseek_slot, stat, remove, rename, any_open,
  open_check, open_check_normalized, seek_to_lfs,
}

module _ (L : Littlefs) where
  -- With no volume mounted, opening, reading, writing, and the calls on paths are refused with
  -- OSAL_ERR_INCORRECT_OBJ_STATE and change nothing, given pointers that are not NULL and a size
  -- that is not 0.
  pub unmounted-refused :
      (fs : Fs L) (path new_path : CString) (flags access nbytes : ℕ) (filedes : ℤ) (byte : ℕ)
      (bytes : List ℕ)
      → fs.mounted ≡ false
      → nbytes ≢ 0
      → (open_create L fs (some path) flags access ≡ (code err_incorrect_obj_state, fs))
        × (read L fs filedes true nbytes ≡ (code err_incorrect_obj_state, [], fs))
        × (write L fs filedes (some (byte ∷ bytes)) ≡ (code err_incorrect_obj_state, fs))
        × (stat L fs (some path) true ≡ (err_incorrect_obj_state, none))
        × (remove L fs (some path) ≡ (err_incorrect_obj_state, fs))
        × (rename L fs (some path) (some new_path) ≡ (err_incorrect_obj_state, fs))
  unfolding open_create read write stat remove rename
  unmounted-refused fs path new_path flags access nbytes filedes byte bytes down n =
      (simp down, ground arith, simp down (ground arith), simp down, simp down, simp down)

  -- Closing, seeking and truncating do not look at the flag: on a descriptor that was left open
  -- they call littlefs on a volume that is not mounted.
  pub unmounted-called :
      (fs : Fs L) (filedes : ℤ) (i offset whence len : ℕ) (slot : OpenFile L)
      → fs.mounted ≡ false
      → fd_to_slot L fs filedes ≡ some (i, slot)
      → ((close L fs filedes).1.volume ≡ (L.file_close fs.volume slot.file).2)
        × ((lseek L fs filedes offset whence).1.volume
            ≡ (L.file_seek fs.volume slot.file (L.to_soff offset) (seek_to_lfs L whence)).2)
        × ((truncate L fs filedes len).1.volume ≡ (L.file_truncate fs.volume slot.file len).2)
  unfolding close lseek truncate close_slot lseek_slot truncate_slot
  unmounted-called fs filedes i offset whence len slot down e = rw e (refl, refl, refl)

  -- Every slot keeps its path and its flag.
  abbrev pub SamePaths : Fs L → Fs L → Type 0
  SamePaths fs fs' =
      (j : ℕ) (slot : OpenFile L)
      → get_elem? fs.open_files j ≡ some slot
      → (slot' : OpenFile L) × (get_elem? fs'.open_files j ≡ some slot')
        × (slot'.path ≡ slot.path)
        × (slot'.in_use ≡ slot.in_use)

  put-SamePaths :
      (fs : Fs L) (filedes : ℤ) (i : ℕ) (slot : OpenFile L) (file : L.File) (volume : L.Volume)
      → fd_to_slot L fs filedes ≡ some (i, slot)
      → SamePaths fs (put_slot L fs i (record slot { file = file }) volume)
  put-SamePaths fs filedes i slot file volume e j other at =
      let (number, here, busy, below) = fd_to_slot-at L fs filedes i slot e in
      elim (ℕ_discrete i j) [
        | yes same ↦
            let inside = get_elem?-length L fs.open_files i slot here in
            let one : other ≡ slot = ground arith in
            (
              record slot { file = file },
              subst
                  (λ k.
                    get_elem? (set fs.open_files i (record slot { file = file })) k
                    ≡ some (record slot { file = file }))
                  same (get_elem?-set_self fs.open_files i (record slot { file = file }) inside),
              ap (λ s. s.path) (sym one),
              ap (λ s. s.in_use) (sym one),
            )
        | no ne ↦ (
          other,
          get_elem?-set_ne fs.open_files i j (record slot { file = file }) ne ∙ at,
          refl,
          refl,
        )
      ]

  abbrev same : (fs : Fs L) → SamePaths fs fs
  same fs j slot at = (slot, at, refl, refl)

  read-same :
      (fs : Fs L) (filedes : ℤ) (buffer : Bool) (nbytes : ℕ)
      → SamePaths fs (read L fs filedes buffer nbytes).2
  unfolding read read_slot
  read-same fs filedes buffer nbytes =
      elim (Bool-cases (is_ok (validate_io_buffer L fs buffer nbytes))) [
        | inl good ↦ elim (Option-cases (fd_to_slot L fs filedes)) [
          | inl missing ↦ rw (good, missing) (same fs)
          | inr ((i, slot), at) ↦ rw (good, at) (put-SamePaths fs filedes i slot _ fs.volume at)
        ]
        | inr bad ↦ rw bad (same fs)
      ]

  write-same :
      (fs : Fs L) (filedes : ℤ) (bytes : List ℕ) → SamePaths fs (write L fs filedes (some bytes)).1
  unfolding write write_slot
  write-same fs filedes bytes =
      elim (Bool-cases (is_ok (validate_io_buffer L fs true (length bytes)))) [
        | inl good ↦ elim (Option-cases (fd_to_slot L fs filedes)) [
          | inl missing ↦ rw (good, missing) (same fs)
          | inr ((i, slot), at) ↦ rw (good, at) (put-SamePaths fs filedes i slot _ fs.volume at)
        ]
        | inr bad ↦ rw bad (same fs)
      ]

  lseek-same :
      (fs : Fs L) (filedes : ℤ) (offset whence : ℕ)
      → SamePaths fs (lseek L fs filedes offset whence).1
  unfolding lseek lseek_slot
  lseek-same fs filedes offset whence = elim (Option-cases (fd_to_slot L fs filedes)) [
    | inl missing ↦ rw missing (same fs)
    | inr ((i, slot), at) ↦ rw at (put-SamePaths fs filedes i slot _ fs.volume at)
  ]

  truncate-same : (fs : Fs L) (filedes : ℤ) (len : ℕ) → SamePaths fs (truncate L fs filedes len).1
  unfolding truncate truncate_slot
  truncate-same fs filedes len = elim (Option-cases (fd_to_slot L fs filedes)) [
    | inl missing ↦ rw missing (same fs)
    | inr ((i, slot), at) ↦ rw at (put-SamePaths fs filedes i slot _ fs.volume at)
  ]

  -- Reading, writing, seeking and truncating leave every slot of the table its path and its flag.
  pub calls-SamePaths :
      (fs : Fs L) (filedes : ℤ) (buffer : Bool) (nbytes offset whence len : ℕ) (bytes : List ℕ)
      → SamePaths fs (read L fs filedes buffer nbytes).2
        × SamePaths fs (write L fs filedes (some bytes)).1
        × SamePaths fs (lseek L fs filedes offset whence).1
        × SamePaths fs (truncate L fs filedes len).1
  calls-SamePaths fs filedes buffer nbytes offset whence len bytes = (
    read-same fs filedes buffer nbytes,
    write-same fs filedes bytes,
    lseek-same fs filedes offset whence,
    truncate-same fs filedes len,
  )

  -- Some slot in use holds the path.
  abbrev pub OpenUnder : List (OpenFile L) → CString → Type 0
  OpenUnder slots path =
      (n : ℕ) × (slot : OpenFile L) × (get_elem? slots n ≡ some slot)
      × (slot.in_use ≡ true)
      × (slot.path ≡ path)

  any_open-OpenUnder :
      (slots : List (OpenFile L)) (path : CString)
      → any_open L slots path ≡ true
      → OpenUnder slots path
  unfolding any_open
  any_open-OpenUnder [] path h = cc
  any_open-OpenUnder (s ∷ slots) path h = elim (Bool-cases (s.in_use && str_eq s.path path)) [
    | inl here ↦ (0, s, refl, ground arith, str_eq-eq s.path path (ground arith))
    | inr there ↦
        let (n, slot, at, busy, same) = any_open-OpenUnder slots path (ground arith) in
        (suc n, slot, at, busy, same)
  ]

  OpenUnder-any_open :
      (slots : List (OpenFile L)) (path : CString) (n : ℕ) (slot : OpenFile L)
      → get_elem? slots n ≡ some slot
      → slot.in_use ≡ true
      → slot.path ≡ path
      → any_open L slots path ≡ true
  unfolding any_open
  OpenUnder-any_open [] path n slot at busy same = cc
  OpenUnder-any_open (s ∷ slots) path zero slot at busy same = ground (arith, str_eq_refl path)
  OpenUnder-any_open (s ∷ slots) path (suc n) slot at busy same =
      ground (arith, OpenUnder-any_open slots path n slot at busy same)

  -- `osal_file_open_check` of a path that can be normalised succeeds exactly if some slot in use
  -- holds the normalised path.
  pub open_check_iff :
      (fs : Fs L) (path out : CString)
      → path_normalize (some path) max_path_len ≡ (success, out)
      → (open_check L fs (some path) ≡ success) ↔ OpenUnder fs.open_files out
  unfolding open_check open_check_normalized
  open_check_iff fs path out normal = (
    λ h. any_open-OpenUnder fs.open_files out (ground (arith, normal)),
    λ (n, slot, at, busy, same_path).
        simp (normal, OpenUnder-any_open fs.open_files out n slot at busy same_path),
  )
