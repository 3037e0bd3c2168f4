-- ===== src/Osal/Esp/File.antt =====
-- The open files of the ESP port, src/osal/esp/osal_file_impl.c, over the file calls of POSIX.
pub mod Slots
pub mod Tracked
pub mod Paths
use hq_platform.Base.{
  ℕ, ◌+◌, ◌%◌, ◌^◌, ◌==◌, ◌&&◌, leb, not, Bool, true, false, List, [], ◌∷◌, Option, none, some,
  length, take, set, get_elem?, if◌then◌else◌,
}
use hq_platform.Base.Int.{ℤ, pos, negsuc, is_neg, eqb}
use hq_platform.Base.Text.{CString, str_eq}
use hq_platform.Osal.Status.{
  Status, code, success, error, invalid_pointer, err_invalid_id, err_invalid_size,
  err_invalid_argument, err_no_free_ids, err_incorrect_obj_state, err_operation_not_supported,
}
use hq_platform.Osal.Task.{as_int}
use hq_platform.Osal.Esp.Mount.{validate_text, is_ok, build_vfs_path, max_path_len, stored}

-- `osal_open_fd_t`
pub record Slot : Type 0 where
  pub in_use : Bool
  pub fd : ℤ
  pub path : CString

abbrev pub free_slot : Slot
free_slot = record { in_use = false; fd = negsuc 0; path = [] }

-- `os_file_access_t`; `osal_open_create` reads every other value as the first.
pub data Access : Type 0 where
  read_only write_only read_write : Access

-- The result of a call with a number, or the part of `errno` that the code tells apart.
pub data Answer : Type 0 where
  value : ℕ → Answer
  bad_fd unsupported failed : Answer

-- `open`, here `open_file`, whose flags are O_CREAT and O_TRUNC, and the calls on a descriptor; `read`
-- comes with the bytes, `stat` with the mode, the size and the time of the last change in seconds.
pub record PosixFiles : Type 1 where
  pub State : Type 0
  pub open_file : State → CString → Bool → Bool → Access → Option ℕ × State
  pub close : State → ℤ → Answer × State
  pub read : State → ℤ → ℕ → Answer × List ℕ × State
  pub write : State → ℤ → List ℕ → Answer × State
  pub ftruncate : State → ℤ → ℕ → Answer × State
  pub lseek : State → ℤ → ℕ → ℕ → Answer × State
  pub stat : State → CString → Option (ℕ × ℕ × ℕ)
  pub chmod : State → CString → Access → Bool × State
  pub remove : State → CString → Bool × State
  pub rename : State → CString → CString → Bool × State

-- `seek_to_posix`; SEEK_SET, SEEK_CUR and SEEK_END are 0, 1 and 2.
abbrev pub seek_to_posix : ℕ → ℕ
seek_to_posix whence = if whence == 1 then 1 else if whence == 2 then 2 else 0

-- The status of a call that failed.
abbrev pub refused : Answer → Status
refused bad_fd = err_invalid_id
refused _ = error

-- `find_slot_by_fd` and `alloc_slot`, from index `i` on
unfoldable pub find_from : List Slot → ℤ → ℕ → Option ℕ
find_from [] fd i = none
find_from (slot ∷ slots) fd i =
    let later = find_from slots fd (i + 1) in
    if slot.in_use && eqb slot.fd fd then some i else later

unfoldable pub free_from : List Slot → ℕ → Option ℕ
free_from [] i = none
free_from (slot ∷ slots) i =
    let later = free_from slots (i + 1) in if slot.in_use then later else some i

module _ (F : PosixFiles) where
  -- The globals of the file and the mount part, with the state of the system.
  pub record Files : Type 0 where
    pub mounted : Bool
    pub mount_point : CString
    pub table : List Slot
    pub sys : F.State

  -- `validate_path`
  unfoldable pub validate_path : Files → Option CString → Status
  validate_path fs path =
      if not (is_ok (validate_text path))
      then validate_text path
      else if fs.mounted
      then success
      else err_incorrect_obj_state

  -- `validate_path`, then `osal_lfs_build_vfs_path` with a buffer of the usual size
  unfoldable pub resolve : Files → Option CString → Status × Option CString
  unfolding validate_path
  resolve fs path =
      if is_ok (validate_path fs path)
      then build_vfs_path fs.mount_point path max_path_len
      else (validate_path fs path, none)

  -- From `alloc_slot` on, with the descriptor that `open` returned.
  unfoldable pub record_fd : Files → CString → ℕ → Option ℕ → ℤ × Files
  record_fd fs path fd none =
      (code err_no_free_ids, record fs { sys = (F.close fs.sys (pos fd)).1 })
  record_fd fs path fd (some i) = (
    pos fd,
    record fs {
      table = set fs.table i (record { in_use = true; fd = pos fd; path = stored path });
    },
  )

  abbrev opened : Files → CString → Option ℕ → ℤ × Files
  opened fs path none = (code error, fs)
  opened fs path (some fd) = record_fd fs path fd (free_from fs.table 0)

  -- From `open` on
  unfoldable pub open_path : Files → CString → Bool → Bool → Access → ℤ × Files
  unfolding record_fd
  open_path fs path create truncate access =
      let (fd, sys) = F.open_file fs.sys path create truncate access in
      opened (record fs { sys = sys }) path fd

  abbrev pub open_resolved : Files → Bool → Bool → Access → Status × Option CString → ℤ × Files
  open_resolved fs create truncate access (st, none) = (code st, fs)
  open_resolved fs create truncate access (st, some path) = open_path fs path create truncate access

  -- `osal_open_create`, with the two flags
  unfoldable pub open_create : Files → Option CString → Bool → Bool → Access → ℤ × Files
  unfolding open_path resolve
  open_create fs path create truncate access =
      open_resolved fs create truncate access (resolve fs path)

  abbrev closed : Answer → Status
  closed (value n) = success
  closed answer = refused answer

  abbrev clear_slot : List Slot → Option ℕ → List Slot
  clear_slot table none = table
  clear_slot table (some i) = set table i free_slot

  -- `osal_close`
  unfoldable pub close : Files → ℤ → Status × Files
  close fs filedes =
      let slot = find_from fs.table filedes 0 in
      let (answer, sys) = F.close fs.sys filedes in
      if is_neg filedes
      then (err_invalid_id, fs)
      else (closed answer, record fs { table = clear_slot fs.table slot; sys = sys })

  abbrev pub counted : Answer → ℤ
  counted (value n) = as_int (n % 2 ^ 32)
  counted answer = code (refused answer)

  -- `osal_read`, with the bytes that it stores; the flag is `buffer != NULL`.
  unfoldable pub read : Files → ℤ → Bool → ℕ → ℤ × List ℕ × Files
  unfolding code
  read fs filedes buffer nbytes =
      let (answer, bytes, sys) = F.read fs.sys filedes nbytes in
      if not buffer
      then (code invalid_pointer, [], fs)
      else if nbytes == 0
      then (code err_invalid_size, [], fs)
      else (counted answer, bytes, record fs { sys = sys })

  -- `osal_write`
  unfoldable pub write : Files → ℤ → Option (List ℕ) → ℤ × Files
  unfolding code
  write fs filedes none = (code invalid_pointer, fs)
  write fs filedes (some bytes) =
      let (answer, sys) = F.write fs.sys filedes bytes in
      if length bytes == 0
      then (code err_invalid_size, fs)
      else (counted answer, record fs { sys = sys })

  abbrev truncated : Answer → Status
  truncated (value n) = success
  truncated unsupported = err_operation_not_supported
  truncated answer = refused answer

  -- `osal_file_truncate`
  pub truncate : Files → ℤ → ℕ → Status × Files
  truncate fs filedes len =
      let (answer, sys) = F.ftruncate fs.sys filedes len in
      (truncated answer, record fs { sys = sys })

  -- `osal_file_allocate`
  pub allocate : ℤ → ℕ → ℕ → Status
  allocate filedes offset len = err_operation_not_supported

  -- `osal_lseek`; the last number is the place that the offset counts from.
  pub lseek : Files → ℤ → ℕ → ℕ → ℤ × Files
  unfolding code
  lseek fs filedes offset whence =
      let (answer, sys) = F.lseek fs.sys filedes offset (seek_to_posix whence) in
      (counted answer, record fs { sys = sys })

  -- `osal_fd_get_info`, with the path; the flag is `fd_prop != NULL`.
  pub fd_get_info : Files → ℤ → Bool → Status × Option CString
  fd_get_info fs filedes fd_prop =
      let slot = find_from fs.table filedes 0 in
      if not fd_prop then (invalid_pointer, none) else (elim slot [
        | none ↦ (err_invalid_id, none)
        | some i ↦ elim (get_elem? fs.table i) [
          | none ↦ (err_invalid_id, none)
          | some found ↦ (success, some (stored found.path))
        ]
      ])
