-- ===== src/Tests/Disk.antt =====
-- A small instance of the littlefs interface: one file of bytes named "log", a cursor in each open
-- file, and the numbers of littlefs 2.
use hq_platform.Base.{ℕ, ◌+◌, Bool, false, List, [], ◌++◌, length, take, drop, if◌then◌else◌}
use hq_platform.Base.Int.{ℤ, pos, negsuc}
use hq_platform.Base.Text.{codes, str_eq}
use hq_platform.Osal.Littlefs.{Littlefs, gone}

abbrev cursor : ℤ → ℕ
cursor (pos n) = n
cursor (negsuc n) = 0

abbrev pub found : Bool → ℤ
found there = if there then pos 0 else negsuc 1

-- The state is the content of the file, and an open file is a cursor.
abbrev pub disk : Littlefs
disk = record {
  Volume = List ℕ;
  File = ℕ;
  err_noent = negsuc 1;
  err_nametoolong = negsuc 35;
  err_nospc = negsuc 27;
  err_fbig = negsuc 26;
  err_inval = negsuc 21;
  o_rdonly = 1;
  o_wronly = 2;
  o_rdwr = 3;
  o_creat = 256;
  o_trunc = 1024;
  seek_set = 0;
  seek_cur = 1;
  seek_end = 2;
  to_size = λ n. n;
  to_ssize = λ n. pos n;
  to_soff = λ n. pos n;
  bd_clear = λ v. v;
  filebd_create = λ cfg path bd v. (pos 0, v);
  filebd_destroy = λ cfg v. v;
  format = λ cfg v. (pos 0, []);
  mount = λ cfg v. (pos 0, v);
  unmount = λ v. (pos 0, v);
  fs_size = λ v. pos 2;
  remove_image = λ path v. (gone, []);
  file_open = λ v f path flags. (found (str_eq path (codes "log")), 0, v);
  file_close = λ v f. (pos 0, 0, v);
  file_read = λ v f n. (pos (length (take n (drop f v))), take n (drop f v), f + n, v);
  file_write = λ v f bytes. (pos (length bytes), f + length bytes, take f v ++ bytes);
  file_truncate = λ v f n. (pos 0, f, take n v);
  file_seek = λ v f off whence. (off, cursor off, v);
  stat = λ v path. (found (str_eq path (codes "log")), record { is_dir = false; size = length v });
  remove = λ v path. (found (str_eq path (codes "log")), []);
  rename = λ v old new. (found (str_eq old (codes "log")), v);
}
