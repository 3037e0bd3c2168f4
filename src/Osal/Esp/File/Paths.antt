-- ===== src/Osal/Esp/File/Paths.antt =====
-- The file calls of src/osal/esp/osal_file_impl.c that take a path, but for `osal_open_create`.
use Prim.Native.Nat.{bit_and}
use hq_platform.Base.{
  ℕ, ◌+◌, ◌==◌, ◌&&◌, not, Bool, true, false, List, [], ◌∷◌, Option, none, some, if◌then◌else◌,
}
use hq_platform.Base.Text.{CString, str_eq}
use hq_platform.Osal.Status.{Status, success, error, invalid_pointer, err_invalid_argument}
use hq_platform.Osal.Esp.Mount.{is_ok, build_vfs_path, max_path_len}
use hq_platform.Osal.Esp.File.{Slot, Access, PosixFiles, Files, validate_path, resolve}

-- `osal_fstat_t`
pub record Fstat : Type 0 where
  pub file_mode_bits : ℕ
  pub file_size : ℕ
  pub tv_sec : ℕ
  pub tv_nsec : ℕ

-- `bits` where the mode has one of the bits of `mask`
abbrev mode_flag : ℕ → ℕ → ℕ → ℕ
mode_flag mode mask bits = if bit_and mode mask == 0 then 0 else bits

-- `posix_mode_to_osal`; the masks are the permissions to execute, write and read, and S_IFMT.
unfoldable pub posix_mode_to_osal : ℕ → ℕ
posix_mode_to_osal mode =
    mode_flag mode 0x49 0x1
    + mode_flag mode 0x92 0x2
    + mode_flag mode 0x124 0x4
    + (if bit_and mode 0xF000 == 0x4000 then 0x10000 else 0)

-- The loop of `osal_file_open_check`
unfoldable pub any_path : List Slot → CString → Bool
any_path [] path = false
any_path (slot ∷ slots) path =
    let later = any_path slots path in if slot.in_use && str_eq slot.path path then true else later

module _ (F : PosixFiles) where
  abbrev pub done : Files F → Bool × F.State → Status × Files F
  done fs (ok, sys) = (if ok then success else error, record fs { sys = sys })

  abbrev stat_of : ℕ × ℕ × ℕ → Fstat
  stat_of (mode, size, mtime) = record {
    file_mode_bits = posix_mode_to_osal mode;
    file_size = size;
    tv_sec = mtime;
    tv_nsec = 0;
  }

  -- `osal_stat`; the flag is `filestats != NULL`.
  pub stat : Files F → Option CString → Bool → Status × Option Fstat
  unfolding resolve
  stat fs path filestats =
      let (st, resolved) = resolve F fs path in
      if not filestats then (invalid_pointer, none) else (elim resolved [
        | none ↦ (st, none)
        | some full ↦ elim (F.stat fs.sys full) [
          | none ↦ (error, none)
          | some found ↦ (success, some (stat_of found))
        ]
      ])

  -- `osal_remove`
  unfoldable pub remove : Files F → Option CString → Status × Files F
  unfolding resolve
  remove fs path =
      let (st, resolved) = resolve F fs path in
      elim resolved [ none ↦ (st, fs) | some full ↦ done fs (F.remove fs.sys full) ]

  -- `osal_chmod`; an access mode that is not one of the three is `none`.
  pub chmod : Files F → Option CString → Option Access → Status × Files F
  unfolding resolve
  chmod fs path access =
      let (st, resolved) = resolve F fs path in
      elim resolved [
        | none ↦ (st, fs)
        | some full ↦ elim access [
          | none ↦ (err_invalid_argument, fs)
          | some mode ↦ done fs (F.chmod fs.sys full mode)
        ]
      ]

  -- `osal_rename`, which checks both names before it builds the paths
  unfoldable pub rename : Files F → Option CString → Option CString → Status × Files F
  unfolding validate_path
  rename fs old new =
      let (st, old_path) = build_vfs_path fs.mount_point old max_path_len in
      let (st1, new_path) = build_vfs_path fs.mount_point new max_path_len in
      if not (is_ok (validate_path F fs old))
      then (validate_path F fs old, fs)
      else if not (is_ok (validate_path F fs new))
      then (validate_path F fs new, fs)
      else (elim old_path [
        | none ↦ (st, fs)
        | some from ↦ elim new_path [
          | none ↦ (st1, fs)
          | some to ↦ done fs (F.rename fs.sys from to)
        ]
      ])

  -- `osal_file_open_check`
  pub file_open_check : Files F → Option CString → Status
  file_open_check fs path =
      let (st, resolved) = build_vfs_path fs.mount_point path max_path_len in
      elim resolved [ none ↦ st | some full ↦ if any_path fs.table full then success else error ]
