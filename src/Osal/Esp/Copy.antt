-- ===== src/Osal/Esp/Copy.antt =====
-- `osal_cp` and `osal_mv` of src/osal/esp/osal_file_impl.c, with the loops of Osal.Transfer; `none` is
-- a copy that has not ended with its fuel.
pub mod Documented
pub mod Streams
pub mod Contents
pub mod Move
use hq_platform.Base.{ℕ, Bool, true, false, List, Option, none, some, if◌then◌else◌}
use hq_platform.Base.Int.{ℤ, pos, is_neg, eqb}
use hq_platform.Base.Text.{CString}
use hq_platform.Osal.Status.{Status, code, success, invalid_pointer}
use hq_platform.Osal.Transfer.{transfer}
use hq_platform.Osal.Esp.Mount.{is_ok}
use hq_platform.Osal.Esp.File.{
  PosixFiles, Files, open_create, close, read, write, read_only, write_only,
}
use hq_platform.Osal.Esp.File.Paths.{rename, remove}

-- `sizeof(buf)`
abbrev pub buffer_size : ℕ
buffer_size = 512

module _ (F : PosixFiles) where
  -- A read into the buffer, and a write of the bytes that are left in it
  abbrev pub read_buffer : ℤ → Files F → ℤ × List ℕ × Files F
  read_buffer src_fd fs = read F fs src_fd true buffer_size

  abbrev pub write_bytes : ℤ → Files F → List ℕ → ℤ × Files F
  write_bytes dst_fd fs bytes = write F fs dst_fd (some bytes)

  -- What follows the loops
  abbrev pub close_both : ℤ → ℤ → Option (ℤ × Files F) → Option (ℤ × Files F)
  close_both src_fd dst_fd none = none
  close_both src_fd dst_fd (some (status, fs)) =
      some (status, (close F (close F fs src_fd).1 dst_fd).1)

  -- `osal_cp` once the source is open
  unfoldable pub copy_to : ℕ → ℤ × Files F → CString → Option (ℤ × Files F)
  copy_to fuel (src_fd, fs) dest =
      let (dst_fd, fs') = open_create F fs (some dest) true true write_only in
      if is_neg dst_fd
      then some (dst_fd, (close F fs' src_fd).1)
      else close_both src_fd dst_fd (transfer (read_buffer src_fd) (write_bytes dst_fd) fuel fs')

  -- `osal_cp`
  unfoldable pub cp : ℕ → Files F → Option CString → Option CString → Option (ℤ × Files F)
  unfolding copy_to
  cp fuel fs none dest = some (code invalid_pointer, fs)
  cp fuel fs (some src) none = some (code invalid_pointer, fs)
  cp fuel fs (some src) (some dest) =
      let (src_fd, fs') = open_create F fs (some src) false false read_only in
      if is_neg src_fd then some (src_fd, fs') else copy_to fuel (src_fd, fs') dest

  -- What `osal_mv` does once the copy is made
  unfoldable pub remove_source : Option CString → Option (ℤ × Files F) → Option (ℤ × Files F)
  remove_source src none = none
  remove_source src (some (rc, fs)) =
      let (st, fs') = remove F fs src in
      if eqb rc (pos 0) then some (code st, fs') else some (rc, fs)

  -- `osal_mv`
  unfoldable pub mv : ℕ → Files F → Option CString → Option CString → Option (ℤ × Files F)
  mv fuel fs src dest =
      let (rc, fs') = rename F fs src dest in
      if is_ok rc then some (code success, fs') else remove_source src (cp fuel fs' src dest)
