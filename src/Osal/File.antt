-- ===== src/Osal/File.antt =====
-- The open files and the file calls of src/osal/posix/osal_file_impl.c, over the volume of
-- Osal.Mount. A descriptor and an `int32_t` result are integers, a buffer pointer is an `Option`.
pub mod Table
pub mod Descriptors
pub mod State
pub mod Copy
use Prim.Native.Nat.{bit_and, bit_or}
use hq_platform.Base.{
  ℕ, zero, suc, ◌+◌, Bool, true, false, ◌&&◌, ◌||◌, not, List, [], ◌∷◌, Option, none, some,
  get_elem?, set, length, ltb, ◌==◌, if◌then◌else◌,
}
use hq_platform.Base.Int.{ℤ, pos, negsuc, eqb, is_neg}
use hq_platform.Base.Text.{CString, str_eq}
use hq_platform.Osal.Littlefs.{Littlefs, Info}
use hq_platform.Osal.Status.{
  Status, code, success, error, invalid_pointer, err_invalid_size, err_incorrect_obj_state,
  err_no_free_ids, err_invalid_id, err_operation_not_supported, err_not_implemented,
}
use hq_platform.Osal.Mount.{
  OpenFile, Fs, is_ok, map_error, path_normalize, max_path_len, stored_path,
}

-- OSAL_LFS_MAX_OPEN_FILES
abbrev pub max_open_files : ℕ
max_open_files = 32

-- OSAL_FILE_FLAG_CREATE and OSAL_FILE_FLAG_TRUNCATE
abbrev pub flag_create : ℕ
flag_create = 1

abbrev pub flag_truncate : ℕ
flag_truncate = 2

-- OSAL_FILESTAT_MODE_DIR, and OSAL_FILESTAT_MODE_READ with OSAL_FILESTAT_MODE_WRITE
abbrev pub mode_bits : Info → ℕ
mode_bits info = if info.is_dir then 0x10000 else 0x6

-- `osal_fstat_t`, whose time is always 0
pub record Fstat : Type 0 where
  pub file_mode_bits : ℕ
  pub file_size : ℕ

module _ (L : Littlefs) where
  -- The slot of a descriptor that is in range and in use, with its index.
  abbrev slot_in_use : ℕ → Option (OpenFile L) → Option (ℕ × OpenFile L)
  slot_in_use i none = none
  slot_in_use i (some slot) = if slot.in_use then some (i, slot) else none

  -- What a call does with the slot that it looked for.
  abbrev pub on_slot {ℓ} : {A : Type ℓ} → Option (ℕ × OpenFile L) → A → (ℕ → OpenFile L → A) → A
  on_slot none missing call = missing
  on_slot (some (i, slot)) missing call = call i slot

  -- `lfs_fd_to_slot`
  unfoldable pub fd_to_slot : Fs L → ℤ → Option (ℕ × OpenFile L)
  fd_to_slot fs (negsuc n) = none
  fd_to_slot fs (pos zero) = none
  fd_to_slot fs (pos (suc i)) =
      if ltb i max_open_files then slot_in_use i (get_elem? fs.open_files i) else none

  -- The loop of `alloc_slot`, from index `i` on.
  unfoldable pub first_free : List (OpenFile L) → ℕ → Option (ℕ × OpenFile L)
  first_free [] i = none
  first_free (slot ∷ slots) i =
      let later = first_free slots (i + 1) in if slot.in_use then later else some (i, slot)

  abbrev pub alloc_slot : Fs L → Option (ℕ × OpenFile L)
  alloc_slot fs = first_free fs.open_files 0

  -- `access_to_lfs_flags`, `seek_to_lfs`
  abbrev pub access_to_lfs_flags : ℕ → ℕ
  access_to_lfs_flags access =
      if access == 1 then L.o_wronly else if access == 2 then L.o_rdwr else L.o_rdonly

  abbrev pub seek_to_lfs : ℕ → ℕ
  seek_to_lfs whence =
      if whence == 1 then L.seek_cur else if whence == 2 then L.seek_end else L.seek_set

  abbrev has_flag : ℕ → ℕ → Bool
  has_flag flags flag = not (bit_and flags flag == 0)

  abbrev pub open_flags : ℕ → ℕ → ℕ
  open_flags flags access =
      let base = access_to_lfs_flags access in
      let made = if has_flag flags flag_create then bit_or base L.o_creat else base in
      if has_flag flags flag_truncate then bit_or made L.o_trunc else made

  -- The state after a littlefs call on the file of slot `i`.
  abbrev pub put_slot : Fs L → ℕ → OpenFile L → L.Volume → Fs L
  put_slot fs i slot volume = record fs { open_files = set fs.open_files i slot; volume = volume }

  -- `osal_open_create` from `lfs_file_open` on
  unfoldable pub open_slot : Fs L → CString → ℕ → ℕ → OpenFile L → ℤ × Fs L
  open_slot fs path lfs_flags i slot =
      let (err, file, volume) = L.file_open fs.volume slot.file path lfs_flags in
      if eqb err (pos 0)
      then (
        pos (suc i),
        put_slot fs i (record { in_use = true; file = file; path = stored_path path }) volume,
      )
      else (code (map_error L err), put_slot fs i (record slot { file = file }) volume)

  unfoldable pub open_normalized : Fs L → Status × CString → ℕ → ℕ → ℤ × Fs L
  open_normalized fs (rc, path) flags access =
      if is_ok rc
      then (on_slot (alloc_slot fs) (code err_no_free_ids, fs)
          (open_slot fs path (open_flags flags access)))
      else (code rc, fs)

  -- `osal_open_create`
  unfoldable pub open_create : Fs L → Option CString → ℕ → ℕ → ℤ × Fs L
  open_create fs none flags access = (code invalid_pointer, fs)
  open_create fs (some path) flags access =
      if fs.mounted
      then open_normalized fs (path_normalize (some path) max_path_len) flags access
      else (code err_incorrect_obj_state, fs)

  close_slot : Fs L → ℕ → OpenFile L → ℤ × Fs L
  close_slot fs i slot =
      let (err, file, volume) = L.file_close fs.volume slot.file in
      (
        code (map_error L err),
        put_slot fs i (record { in_use = false; file = file; path = [] }) volume,
      )

  -- `osal_close`
  pub close : Fs L → ℤ → ℤ × Fs L
  close fs filedes = on_slot (fd_to_slot fs filedes) (code err_invalid_id, fs) (close_slot fs)

  -- `validate_io_buffer`; the flag is `buffer != NULL`.
  abbrev pub validate_io_buffer : Fs L → Bool → ℕ → Status
  validate_io_buffer fs buffer nbytes =
      if not buffer
      then invalid_pointer
      else if nbytes == 0
      then err_invalid_size
      else if fs.mounted
      then success
      else err_incorrect_obj_state

  -- A result of `lfs_file_read` and the like.
  abbrev pub io_result : ℤ → ℤ
  io_result res = if is_neg res then code (map_error L res) else res

  unfoldable pub read_slot : Fs L → ℕ → ℕ → OpenFile L → ℤ × List ℕ × Fs L
  read_slot fs nbytes i slot =
      let (res, bytes, file, volume) = L.file_read fs.volume slot.file nbytes in
      (io_result res, bytes, put_slot fs i (record slot { file = file }) volume)

  -- `osal_read`, with the bytes that it leaves in the buffer
  unfoldable pub read : Fs L → ℤ → Bool → ℕ → ℤ × List ℕ × Fs L
  read fs filedes buffer nbytes =
      if is_ok (validate_io_buffer fs buffer nbytes)
      then (on_slot (fd_to_slot fs filedes) (code err_invalid_id, [], fs) (read_slot fs nbytes))
      else (code (validate_io_buffer fs buffer nbytes), [], fs)

  unfoldable pub write_slot : Fs L → List ℕ → ℕ → OpenFile L → ℤ × Fs L
  write_slot fs bytes i slot =
      let (res, file, volume) = L.file_write fs.volume slot.file bytes in
      (io_result res, put_slot fs i (record slot { file = file }) volume)

  -- `osal_write` of the bytes of a buffer; the size is their number.
  unfoldable pub write : Fs L → ℤ → Option (List ℕ) → ℤ × Fs L
  write fs filedes none = (code invalid_pointer, fs)
  write fs filedes (some bytes) =
      if is_ok (validate_io_buffer fs true (length bytes))
      then (on_slot (fd_to_slot fs filedes) (code err_invalid_id, fs) (write_slot fs bytes))
      else (code (validate_io_buffer fs true (length bytes)), fs)

  truncate_slot : Fs L → ℕ → ℕ → OpenFile L → ℤ × Fs L
  truncate_slot fs len i slot =
      let (err, file, volume) = L.file_truncate fs.volume slot.file len in
      (code (map_error L err), put_slot fs i (record slot { file = file }) volume)

  -- `osal_file_truncate`
  pub truncate : Fs L → ℤ → ℕ → ℤ × Fs L
  truncate fs filedes len =
      on_slot (fd_to_slot fs filedes) (code err_invalid_id, fs) (truncate_slot fs len)

  lseek_slot : Fs L → ℕ → ℕ → ℕ → OpenFile L → ℤ × Fs L
  lseek_slot fs offset whence i slot =
      let (res, file, volume) =
        L.file_seek fs.volume slot.file (L.to_soff offset) (seek_to_lfs whence) in
      (io_result res, put_slot fs i (record slot { file = file }) volume)

  -- `osal_lseek`
  pub lseek : Fs L → ℤ → ℕ → ℕ → ℤ × Fs L
  lseek fs filedes offset whence =
      on_slot (fd_to_slot fs filedes) (code err_invalid_id, fs) (lseek_slot fs offset whence)

  stat_normalized : Fs L → Status × CString → Status × Option Fstat
  stat_normalized fs (rc, path) =
      let (err, info) = L.stat fs.volume path in
      if is_ok rc
      then (if is_neg err
          then (map_error L err, none)
          else (success, some (record { file_mode_bits = mode_bits info; file_size = info.size })))
      else (rc, none)

  -- `osal_stat`; the flag is `filestats != NULL`.
  pub stat : Fs L → Option CString → Bool → Status × Option Fstat
  stat fs none filestats = (invalid_pointer, none)
  stat fs (some path) filestats =
      if filestats
      then (if fs.mounted
          then stat_normalized fs (path_normalize (some path) max_path_len)
          else (err_incorrect_obj_state, none))
      else (invalid_pointer, none)

  remove_normalized : Fs L → Status × CString → Status × Fs L
  remove_normalized fs (rc, path) =
      let (err, volume) = L.remove fs.volume path in
      if is_ok rc then (map_error L err, record fs { volume = volume }) else (rc, fs)

  -- `osal_remove`
  pub remove : Fs L → Option CString → Status × Fs L
  remove fs none = (invalid_pointer, fs)
  remove fs (some path) =
      if fs.mounted
      then remove_normalized fs (path_normalize (some path) max_path_len)
      else (err_incorrect_obj_state, fs)

  rename_normalized : Fs L → Status × CString → Status × CString → Status × Fs L
  rename_normalized fs (rc, old_path) (rc', new_path) =
      let (err, volume) = L.rename fs.volume old_path new_path in
      if is_ok rc
      then (if is_ok rc' then (map_error L err, record fs { volume = volume }) else (rc', fs))
      else (rc, fs)

  -- `osal_rename`
  pub rename : Fs L → Option CString → Option CString → Status × Fs L
  rename fs none new_path = (invalid_pointer, fs)
  rename fs (some old_path) none = (invalid_pointer, fs)
  rename fs (some old_path) (some new_path) =
      if fs.mounted
      then rename_normalized fs (path_normalize (some old_path) max_path_len)
          (path_normalize (some new_path) max_path_len)
      else (err_incorrect_obj_state, fs)

  -- `osal_fd_get_info`; the flag is `fd_prop != NULL`, the text its `path`, the number its `user`.
  pub fd_get_info : Fs L → ℤ → Bool → Status × Option (CString × ℤ)
  fd_get_info fs filedes fd_prop =
      if fd_prop
      then (on_slot (fd_to_slot fs filedes) (err_invalid_id, none)
          (λ i slot. (success, some (stored_path slot.path, filedes))))
      else (invalid_pointer, none)

  -- The loop of `osal_file_open_check`.
  pub any_open : List (OpenFile L) → CString → Bool
  any_open [] path = false
  any_open (slot ∷ slots) path = (slot.in_use && str_eq slot.path path) || any_open slots path

  open_check_normalized : Fs L → Status × CString → Status
  open_check_normalized fs (rc, path) =
      if is_ok rc then (if any_open fs.open_files path then success else error) else rc

  -- `osal_file_open_check`
  pub open_check : Fs L → Option CString → Status
  open_check fs none = invalid_pointer
  open_check fs (some path) = open_check_normalized fs (path_normalize (some path) max_path_len)

  -- `osal_chmod` and `osal_file_allocate`
  pub chmod : Fs L → Option CString → ℕ → Status
  chmod fs none access = invalid_pointer
  chmod fs (some path) access = err_not_implemented

  pub allocate : Fs L → ℤ → ℕ → ℕ → Status
  allocate fs filedes offset len = err_operation_not_supported
