-- ===== src/Osal/Littlefs.antt =====
-- What the posix file layer uses of the littlefs library, which the build fetches: its state, its
-- calls and its constants, as an interface. A negative result is an error code of littlefs.
use hq_platform.Base.{ℕ, Bool, List}
use hq_platform.Base.Int.{ℤ}
use hq_platform.Base.Text.{CString}

-- The fields of `struct lfs_config` and `struct lfs_filebd_config` that the code sets to numbers.
pub record Config : Type 0 where
  pub read_size : ℕ
  pub prog_size : ℕ
  pub block_size : ℕ
  pub block_count : ℕ
  pub block_cycles : ℕ
  pub cache_size : ℕ
  pub lookahead_size : ℕ

pub record BdConfig : Type 0 where
  pub read_size : ℕ
  pub prog_size : ℕ
  pub erase_size : ℕ
  pub erase_count : ℕ

-- `struct lfs_info`, as far as it is read
pub record Info : Type 0 where
  pub is_dir : Bool
  pub size : ℕ

-- What `remove` of the C library answers.
pub data Removed : Type 0 where
  gone no_entry refused : Removed

pub record Littlefs : Type 1 where
  -- `lfs_t` and `lfs_filebd_t` with the image files; `lfs_file_t`
  pub Volume : Type 0
  pub File : Type 0
  -- error numbers, open flags and seek constants
  pub err_noent : ℤ
  pub err_nametoolong : ℤ
  pub err_nospc : ℤ
  pub err_fbig : ℤ
  pub err_inval : ℤ
  pub o_rdonly : ℕ
  pub o_wronly : ℕ
  pub o_rdwr : ℕ
  pub o_creat : ℕ
  pub o_trunc : ℕ
  pub seek_set : ℕ
  pub seek_cur : ℕ
  pub seek_end : ℕ
  -- conversions to `lfs_size_t`, `lfs_ssize_t` and `lfs_soff_t`
  pub to_size : ℕ → ℕ
  pub to_ssize : ℕ → ℤ
  pub to_soff : ℕ → ℤ
  -- the block device: `memset` of `lfs_filebd_t` to 0, `lfs_filebd_create`, `lfs_filebd_destroy`
  pub bd_clear : Volume → Volume
  pub filebd_create : Config → CString → BdConfig → Volume → ℤ × Volume
  pub filebd_destroy : Config → Volume → Volume
  pub format : Config → Volume → ℤ × Volume
  pub mount : Config → Volume → ℤ × Volume
  pub unmount : Volume → ℤ × Volume
  pub fs_size : Volume → ℤ
  pub remove_image : CString → Volume → Removed × Volume
  pub file_open : Volume → File → CString → ℕ → ℤ × File × Volume
  pub file_close : Volume → File → ℤ × File × Volume
  pub file_read : Volume → File → ℕ → ℤ × List ℕ × File × Volume
  pub file_write : Volume → File → List ℕ → ℤ × File × Volume
  pub file_truncate : Volume → File → ℕ → ℤ × File × Volume
  pub file_seek : Volume → File → ℤ → ℕ → ℤ × File × Volume
  pub stat : Volume → CString → ℤ × Info
  pub remove : Volume → CString → ℤ × Volume
  pub rename : Volume → CString → CString → ℤ × Volume
