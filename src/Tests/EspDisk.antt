-- ===== src/Tests/EspDisk.antt =====
-- A disk in memory, behind the file calls that the ESP port uses.
pub mod Documented
use hq_platform.Base.{
  ℕ, ◌+◌, Bool, true, false, ltb, List, [], ◌++◌, Option, none, some, length, take, drop,
  if◌then◌else◌,
}
use hq_platform.Base.Int.{ℤ, pos, negsuc, eqb}
use hq_platform.Base.Text.{CString, str_eq}
use hq_platform.Osal.Esp.File.{PosixFiles, Answer, value, bad_fd}

-- The next descriptor, the contents, and where the descriptors stand.
abbrev pub Disk : Type 0
Disk = ℕ × (CString → List ℕ) × (ℤ → Option (CString × ℕ))

abbrev pub below : ℕ → ℤ → Bool
below n (pos m) = ltb m n
below n (negsuc m) = false

abbrev pub place : Disk → ℤ → Option (CString × ℕ)
place (next, files, places) g = if below next g then places g else none

abbrev pub put : (CString → List ℕ) → CString → List ℕ → CString → List ℕ
put files path bytes q = if str_eq path q then bytes else files q

abbrev pub move : Disk → ℤ → CString → ℕ → ℤ → Option (CString × ℕ)
move (next, files, places) fd path o g = if eqb fd g then some (path, o) else places g

abbrev pub read_at : Disk → ℤ → ℕ → Option (CString × ℕ) → Answer × List ℕ × Disk
read_at s fd size none = (bad_fd, [], s)
read_at (next, files, places) fd size (some (path, o)) =
    let bytes = take size (drop o (files path)) in
    (
      value (length bytes),
      bytes,
      (next, files, move (next, files, places) fd path (o + length bytes)),
    )

abbrev pub write_at : Disk → ℤ → List ℕ → Option (CString × ℕ) → Answer × Disk
write_at s fd bytes none = (bad_fd, s)
write_at (next, files, places) fd bytes (some (path, o)) =
    let after = files path ++ bytes in
    (
      value (length bytes),
      (next, put files path after, move (next, files, places) fd path (length after)),
    )

abbrev pub disk : PosixFiles
disk = record {
  State = Disk;
  open_file = λ s path create truncate access.
      (some s.0, (s.0 + 1, if truncate then put s.1 path [] else s.1, move s (pos s.0) path 0));
  close = λ s fd. (value 0, s);
  read = λ s fd size. read_at s fd size (place s fd);
  write = λ s fd bytes. write_at s fd bytes (place s fd);
  ftruncate = λ s fd n. (bad_fd, s);
  lseek = λ s fd offset whence. (bad_fd, s);
  stat = λ s path. none;
  chmod = λ s path mode. (false, s);
  remove = λ s path. (true, (s.0, put s.1 path [], s.2));
  rename = λ s from to. (false, s);
}
