-- ===== src/Osal/File/Copy.antt =====
-- `osal_cp` and `osal_mv` of src/osal/posix/osal_file_impl.c, with the loops of Osal.Transfer; `none`
-- is a copy that has not ended with its fuel.
pub mod Balance
pub mod Ends
use hq_platform.Base.{
  ℕ, zero, suc, ◌+◌, Bool, true, false, List, [], ◌∷◌, Option, none, some, take, drop,
  if◌then◌else◌,
}
use hq_platform.Base.Int.{ℤ, pos, negsuc, is_neg, eqb}
use hq_platform.Base.Text.{CString}
use hq_platform.Osal.Littlefs.{Littlefs}
use hq_platform.Osal.Status.{Status, code, success, invalid_pointer}
use hq_platform.Osal.Transfer.{transfer}
use hq_platform.Osal.Mount.{Fs, is_ok}
use hq_platform.Osal.File.{
  open_create, close, read, write, rename, remove, flag_create, flag_truncate,
}

-- `sizeof(buf)`
abbrev pub buffer_size : ℕ
buffer_size = 512

module _ (L : Littlefs) where
  -- A read into the buffer, in which littlefs leaves as many bytes as it says, and a write from it
  abbrev pub read_buffer : ℤ → Fs L → ℤ × List ℕ × Fs L
  read_buffer src_fd fs = read L fs src_fd true buffer_size

  abbrev pub write_bytes : ℤ → Fs L → List ℕ → ℤ × Fs L
  write_bytes dst_fd fs bytes = write L fs dst_fd (some bytes)

  -- The loops, from one descriptor to another
  abbrev pub copy_loop : ℕ → Fs L → ℤ → ℤ → Option (ℤ × Fs L)
  copy_loop fuel fs src_fd dst_fd = transfer (read_buffer src_fd) (write_bytes dst_fd) fuel fs

  -- What follows the loop.
  abbrev pub close_both : ℤ → ℤ → Option (ℤ × Fs L) → Option (ℤ × Fs L)
  close_both src_fd dst_fd none = none
  close_both src_fd dst_fd (some (status, fs)) =
      some (status, (close L (close L fs src_fd).1 dst_fd).1)

  -- `osal_cp` once the source is open
  unfoldable pub copy_to : ℕ → ℤ × Fs L → CString → Option (ℤ × Fs L)
  copy_to fuel (src_fd, fs) dest =
      let (dst_fd, fs') = open_create L fs (some dest) (flag_create + flag_truncate) 1 in
      if is_neg dst_fd
      then some (dst_fd, (close L fs' src_fd).1)
      else close_both src_fd dst_fd (copy_loop fuel fs' src_fd dst_fd)

  -- `osal_cp`
  unfoldable pub cp : ℕ → Fs L → Option CString → Option CString → Option (ℤ × Fs L)
  cp fuel fs none dest = some (code invalid_pointer, fs)
  cp fuel fs (some src) none = some (code invalid_pointer, fs)
  cp fuel fs (some src) (some dest) =
      let (src_fd, fs') = open_create L fs (some src) 0 0 in
      if is_neg src_fd then some (src_fd, fs') else copy_to fuel (src_fd, fs') dest

  remove_source : Option CString → Option (ℤ × Fs L) → Option (ℤ × Fs L)
  remove_source src none = none
  remove_source src (some (rc, fs)) =
      let (st, fs') = remove L fs src in
      if eqb rc (pos 0) then some (code st, fs') else some (rc, fs)

  -- `osal_mv`
  pub mv : ℕ → Fs L → Option CString → Option CString → Option (ℤ × Fs L)
  mv fuel fs src dest =
      let (rc, fs') = rename L fs src dest in
      if is_ok rc then some (code success, fs') else remove_source src (cp fuel fs' src dest)
