-- ===== src/Tests/Copy.antt =====
-- A copy from a source of some bytes, read one at a time, to a file that takes one byte at a time.
use hq_platform.Base.{
  ℕ, zero, suc, ◌+◌, ◌≤◌, ◌<◌, ◌≡◌, ◌≢◌, refl, true, false, List, [], ◌∷◌, some, arith, length,
  replicate, ◌==◌, Bool-cases, Option-cases, inl, inr,
}
use hq_platform.Base.Int.{ℤ, pos, negsuc}
use hq_platform.Base.Text.{codes}
use hq_platform.Osal.Littlefs.{Littlefs, gone}
use hq_platform.Osal.Mount.{Fs, is_ok, path_normalize, map_error, config_of, block_device}
use hq_platform.Osal.Status.{code, err_incorrect_obj_state, err_invalid_id}
use hq_platform.Osal.File.{
  io_result, validate_io_buffer, open_create, open_normalized, open_slot, first_free, fd_to_slot,
  read, read_slot, write, write_slot,
}
use hq_platform.Osal.File.Table.{used, code-ne}
use hq_platform.Osal.File.Copy.{cp, buffer_size}
use hq_platform.Osal.File.Copy.Ends.{Progress, cp-balanced}

-- The state is the number of bytes that are left in the source.
abbrev source : Littlefs
source = record {
  Volume = ℕ;
  File = ℕ;
  err_noent = negsuc 1;
  err_nametoolong = negsuc 35;
  err_nospc = negsuc 27;
  err_fbig = negsuc 26;
  err_inval = negsuc 21;
  o_rdonly = 1;
  o_wronly = 2;
  o_rdwr = 3;
  o_creat = 256;
  o_trunc = 1024;
  seek_set = 0;
  seek_cur = 1;
  seek_end = 2;
  to_size = λ n. n;
  to_ssize = λ n. pos n;
  to_soff = λ n. pos n;
  bd_clear = λ v. v;
  filebd_create = λ cfg path bd v. (pos 0, v);
  filebd_destroy = λ cfg v. v;
  format = λ cfg v. (pos 0, v);
  mount = λ cfg v. (pos 0, v);
  unmount = λ v. (pos 0, v);
  fs_size = λ v. pos 2;
  remove_image = λ path v. (gone, v);
  file_open = λ v f path flags. (pos 0, 0, v);
  file_close = λ v f. (pos 0, 0, v);
  file_read = λ v f n. elim v [ zero ↦ (pos 0, [], f, 0) | suc m ↦ (pos 1, 65 ∷ [], f, m) ];
  file_write = λ v f bytes. (pos 1, f + 1, v);
  file_truncate = λ v f n. (pos 0, f, v);
  file_seek = λ v f off whence. (off, f, v);
  stat = λ v path. (pos 0, record { is_dir = false; size = v });
  remove = λ v path. (pos 0, v);
  rename = λ v old new. (negsuc 1, v);
}

abbrev left : Fs source → ℕ
left fs = fs.volume

-- A read of the library gives nothing, or one byte of those that are left.
file_read-nearer :
    (v f n k : ℕ)
    → (source.file_read v f n).0 ≡ pos (suc k)
    → (k < buffer_size) × ((source.file_read v f n).3 < v)
file_read-nearer zero f n k e = cc
file_read-nearer (suc m) f n k e = ground arith

io_result-pos : (res : ℤ) (k : ℕ) → io_result source res ≡ pos k → res ≡ pos k
unfolding map_error code
io_result-pos (pos n) k e = e
io_result-pos (negsuc n) k e = ground arith

source-reads :
    (src_fd : ℤ) (fs : Fs source) (n : ℕ)
    → (read source fs src_fd true buffer_size).0 ≡ pos (suc n)
    → (n < buffer_size) × (left (read source fs src_fd true buffer_size).2 < left fs)
unfolding read read_slot code
source-reads src_fd fs n e = elim (Bool-cases fs.mounted) [
  | inr down ↦ absurd (code-ne err_incorrect_obj_state n (simp (down, read) at e))
  | inl up ↦ elim (Option-cases (fd_to_slot source fs src_fd)) [
    | inl missing ↦ absurd (code-ne err_invalid_id n (simp (up, missing, read) at e))
    | inr ((i, slot), at) ↦
        simp (up, at)
          (file_read-nearer fs.volume slot.file buffer_size n (
            io_result-pos (source.file_read fs.volume slot.file buffer_size).0 (suc n)
              (simp (up, at, read, read_slot) at e)))
  ]
]

negsuc-pos : (a b : ℕ) → negsuc a ≢ pos b
negsuc-pos a b e = cc

one-zero : pos 1 ≢ pos 0
one-zero e = cc

suc-zero : (n : ℕ) → (suc n == 0) ≡ false
suc-zero n = ground arith

source-writes :
    (dst_fd : ℤ) (fs : Fs source) (b : ℕ) (bytes : List ℕ)
    → (write source fs dst_fd (some (b ∷ bytes))).0 ≢ pos 0
unfolding write write_slot code
source-writes dst_fd fs b bytes e = elim (Bool-cases fs.mounted) [
  | inr down ↦ negsuc-pos 34 0 (simp (suc-zero (length bytes), down, write, code) at e)
  | inl up ↦ elim (Option-cases (fd_to_slot source fs dst_fd)) [
    | inl missing ↦ negsuc-pos 15 0 (simp (suc-zero (length bytes), up, missing, write, code) at e)
    | inr ((i, slot), at) ↦
        one-zero (simp (suc-zero (length bytes), up, at, write, write_slot) at e)
  ]
]

source-apart :
    (dst_fd : ℤ) (fs : Fs source) (bytes : List ℕ)
    → left (write source fs dst_fd (some bytes)).1 ≤ left fs
unfolding write write_slot
source-apart dst_fd fs bytes =
    elim (Bool-cases (is_ok (validate_io_buffer source fs true (length bytes)))) [
      | inr bad ↦ rw bad (omega arith)
      | inl good ↦ elim (Option-cases (fd_to_slot source fs dst_fd)) [
        | inl missing ↦ rw (good, missing) (omega arith)
        | inr ((i, slot), at) ↦ rw (good, at) (omega arith)
      ]
    ]

source-Progress : (src_fd dst_fd : ℤ) → Progress source left src_fd dst_fd
source-Progress src_fd dst_fd = record {
  reads = source-reads src_fd;
  writes = source-writes dst_fd;
  apart = source-apart dst_fd;
}

-- Three bytes are left, and no file is open.
abbrev fs_three : Fs source
fs_three = record {
  volume = 3;
  cfg = config_of source (block_device source 0 0);
  bd_cfg = block_device source 0 0;
  configured = true;
  mounted = true;
  image_path = codes "disk.img";
  mount_point = codes "/fs";
  devname = codes "disk.img";
  open_files = replicate 32 (record { in_use = false; file = 0; path = [] });
}

cp-balanced_example :
    (st : ℤ) × (fs' : Fs source) × (cp source 600 fs_three (some (codes "a")) (some (codes "b"))
      ≡ some (st, fs'))
    × (used source fs'.open_files ≡ used source fs_three.open_files)
unfolding open_create open_normalized path_normalize first_free open_slot
cp-balanced_example =
    cp-balanced source left 600 fs_three (codes "a") (codes "b") refl source-Progress (omega arith)
