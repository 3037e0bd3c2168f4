-- ===== src/Osal/Mount.antt =====
-- The volume of src/osal/posix/osal_mount_impl.c: one littlefs volume on one image file, with its
-- configuration in globals, which the file functions share. A path pointer is an `Option`, and
-- `none` is NULL.
pub mod Paths
pub mod Volume
use hq_platform.Base.{
  ℕ, zero, suc, ◌+◌, ◌-◌, ◌%◌, ◌^◌, Bool, true, false, ◌&&◌, ◌||◌, not, List, [], ◌∷◌, Option, none,
  some, take, length, ltb, leb, ◌==◌, if◌then◌else◌, replicate,
}
use hq_platform.Base.Int.{ℤ, pos, negsuc, eqb, is_neg, leb_ℤ, magnitude}
use hq_platform.Base.Text.{CString, str_eq}
use hq_platform.Osal.Littlefs.{Littlefs, Config, BdConfig, Removed, gone, no_entry, refused}
use hq_platform.Osal.Status.{
  Status, success, error, invalid_pointer, err_invalid_size, fs_err_path_invalid,
  fs_err_path_too_long, fs_err_name_too_long, err_output_too_large, err_invalid_argument,
  err_incorrect_obj_state, err_not_implemented,
}

-- OSAL_MAX_PATH_LEN
abbrev pub max_path_len : ℕ
max_path_len = 128

-- `rc == OSAL_SUCCESS`
abbrev pub is_ok : Status → Bool
is_ok success = true
is_ok _ = false

abbrev pub skip_slashes : CString → CString
skip_slashes [] = []
skip_slashes (c ∷ path) = elim (c == b'/') [ true ↦ skip_slashes path | false ↦ c ∷ path ]

abbrev pub or_dot : CString → CString
or_dot [] = b'.' ∷ []
or_dot (c ∷ path) = c ∷ path

abbrev copy_path : CString → ℕ → Status × CString
copy_path path out_size =
    if leb out_size (length path) then (fs_err_path_too_long, []) else (success, path)

-- `osal_lfs_path_normalize` into a buffer that is there; the second part is the text that a success
-- leaves in it.
unfoldable pub path_normalize : Option CString → ℕ → Status × CString
path_normalize none out_size = (invalid_pointer, [])
path_normalize (some path) out_size = if out_size == 0 then (err_invalid_size, []) else (elim path [
  | [] ↦ (fs_err_path_invalid, [])
  | c ∷ rest ↦ copy_path (or_dot (skip_slashes (c ∷ rest))) out_size
])

-- `validate_text`
unfoldable pub validate_text : Option CString → Status
validate_text none = invalid_pointer
validate_text (some []) = fs_err_path_invalid
validate_text (some (c ∷ value)) =
    if leb max_path_len (length (c ∷ value)) then fs_err_path_too_long else success

-- `strncpy` into a path buffer, whose last byte is then set to NUL
abbrev pub stored_path : CString → CString
stored_path path = take (max_path_len - 1) path

abbrev pub zero_config : Config
zero_config = record {
  read_size = 0;
  prog_size = 0;
  block_size = 0;
  block_count = 0;
  block_cycles = 0;
  cache_size = 0;
  lookahead_size = 0;
}

abbrev pub default_block_size : ℕ
default_block_size = 4096

abbrev pub default_block_count : ℕ
default_block_count = 256

-- `osal_statvfs_t`
pub record Statvfs : Type 0 where
  pub block_size : ℕ
  pub total_blocks : ℕ
  pub blocks_free : ℕ

module _ (L : Littlefs) where
  -- `osal_lfs_open_file_t`
  pub record OpenFile : Type 0 where
    pub in_use : Bool
    pub file : L.File
    pub path : CString

  -- The globals of osal_mount_impl.c, and the table of open files of osal_file_impl.c.
  pub record Fs : Type 0 where
    pub volume : L.Volume
    pub cfg : Config
    pub bd_cfg : BdConfig
    pub configured : Bool
    pub mounted : Bool
    pub image_path : CString
    pub mount_point : CString
    pub devname : CString
    pub open_files : List OpenFile

  -- `osal_lfs_map_error`
  unfoldable pub map_error : ℤ → Status
  map_error err =
      if eqb err (pos 0)
      then success
      else if eqb err L.err_noent
      then fs_err_path_invalid
      else if eqb err L.err_nametoolong
      then fs_err_name_too_long
      else if eqb err L.err_nospc || eqb err L.err_fbig
      then err_output_too_large
      else if eqb err L.err_inval
      then err_invalid_argument
      else error

  abbrev pub block_device : ℕ → ℕ → BdConfig
  block_device block_size num_blocks = record {
    read_size = 16;
    prog_size = 16;
    erase_size = L.to_size (if ltb 0 block_size then block_size else default_block_size);
    erase_count = L.to_size (if ltb 0 num_blocks then num_blocks else default_block_count);
  }

  abbrev pub config_of : BdConfig → Config
  config_of bd = record {
    read_size = bd.read_size;
    prog_size = bd.prog_size;
    block_size = bd.erase_size;
    block_count = bd.erase_count;
    block_cycles = 500;
    cache_size = bd.erase_size;
    lookahead_size = 128;
  }

  -- `osal_lfs_configure` from the copies of the device name on: the configurations are cleared, and
  -- the checked block size comes last.
  unfoldable pub configure_device : Fs → CString → ℕ → ℕ → Status × Fs
  configure_device fs name block_size num_blocks =
      let bd = block_device block_size num_blocks in
      let cleared = record fs {
        image_path = stored_path name;
        devname = stored_path name;
        cfg = zero_config;
        bd_cfg = bd;
        volume = L.bd_clear fs.volume;
      } in
      if ltb default_block_size bd.erase_size
      then (err_invalid_size, cleared)
      else (success, record cleared { cfg = config_of bd; configured = true })

  abbrev text_of : Option CString → CString
  text_of none = []
  text_of (some text) = text

  unfoldable pub configure : Fs → Option CString → Option CString → ℕ → ℕ → Status × Fs
  configure fs name mount_point block_size num_blocks =
      if is_ok (validate_text name)
      then (elim mount_point [
        | none ↦ configure_device fs (text_of name) block_size num_blocks
        | some point ↦
            if is_ok (validate_text (some point))
            then configure_device (record fs { mount_point = stored_path point }) (text_of name)
                block_size num_blocks
            else (validate_text (some point), fs)
      ])
      else (validate_text name, fs)

  -- `osal_lfs_open_bd` and `osal_lfs_close_bd`
  unfoldable pub open_bd : Fs → Status × Fs
  open_bd fs =
      let (err, volume) = L.filebd_create fs.cfg fs.image_path fs.bd_cfg fs.volume in
      (if eqb err (pos 0) then success else error, record fs { volume = volume })

  unfoldable pub close_bd : Fs → Fs
  close_bd fs = record fs { volume = L.filebd_destroy fs.cfg fs.volume }

  -- `(address != NULL && address[0] != '\0') ? address : devname`
  abbrev pub image_of : Option CString → Option CString → Option CString
  image_of (some (c ∷ address)) name = some (c ∷ address)
  image_of _ name = name

  unfoldable pub format_volume : Fs → Status × Fs
  format_volume fs =
      let (err, volume) = L.format fs.cfg fs.volume in
      (map_error err, close_bd (record fs { volume = volume }))

  abbrev pub and_then : Status × Fs → (Fs → Status × Fs) → Status × Fs
  and_then (st, fs) next = if is_ok st then next fs else (st, fs)

  -- `osal_mkfs`
  unfoldable pub mkfs : Fs → Option CString → Option CString → Option CString → ℕ → ℕ → Status × Fs
  mkfs fs address name volname block_size num_blocks =
      and_then (configure fs (image_of address name) (some fs.mount_point) block_size num_blocks)
        λ fs1. and_then (open_bd fs1) format_volume

  -- `osal_initfs`
  unfoldable pub initfs :
      Fs → Option CString → Option CString → Option CString → ℕ → ℕ → Status × Fs
  initfs fs address name volname block_size num_blocks =
      and_then (configure fs (image_of address name) (some fs.mount_point) block_size num_blocks)
        λ fs1. and_then (open_bd fs1) λ fs2. (success, close_bd fs2)

  unfoldable pub mount_volume : Fs → Status × Fs
  mount_volume fs =
      let (err, volume) = L.mount fs.cfg fs.volume in
      let fs1 = record fs { volume = volume } in
      if eqb err (pos 0)
      then (success, record fs1 { mounted = true })
      else (map_error err, close_bd fs1)

  -- The end of `osal_mount`, on what is configured.
  unfoldable pub mount_configured : Fs → Status × Fs
  mount_configured fs = if fs.mounted then (success, fs) else and_then (open_bd fs) mount_volume

  -- `osal_mount`
  unfoldable pub mount : Fs → Option CString → Option CString → Status × Fs
  mount fs name mount_point =
      if is_ok (validate_text name)
      then (if is_ok (validate_text mount_point)
          then (if not fs.configured || not (str_eq (text_of name) fs.image_path)
              then and_then (configure fs name mount_point default_block_size default_block_count)
                  mount_configured
              else mount_configured fs)
          else (validate_text mount_point, fs))
      else (validate_text name, fs)

  -- `osal_unmount`
  unfoldable pub unmount : Fs → Option CString → Status × Fs
  unmount fs mount_point =
      if is_ok (validate_text mount_point)
      then (if fs.mounted
          then (let (err, volume) = L.unmount fs.volume in
              (
                map_error err,
                record (close_bd (record fs { volume = volume })) { mounted = false },
              ))
          else (success, fs))
      else (validate_text mount_point, fs)

  abbrev removed_status : Removed → Status
  removed_status refused = error
  removed_status _ = success

  -- `osal_rmfs`
  unfoldable pub rmfs : Fs → Option CString → Status × Fs
  rmfs fs name =
      if is_ok (validate_text name)
      then (let fs1 = if fs.mounted then (unmount fs (some fs.mount_point)).1 else fs in
          let (r, volume) = L.remove_image (text_of name) fs1.volume in
          (removed_status r, record fs1 { volume = volume }))
      else (validate_text name, fs)

  -- `osal_chkfs`
  unfoldable pub chkfs : Fs → Option CString → Bool → Status
  chkfs fs name repair = err_not_implemented

  -- `osal_filesys_stat_volume`; the flag is `stat_buf != NULL`, and the figures are what a success
  -- stores there. The subtraction is one of `size_t`.
  unfoldable pub stat_volume : Fs → Bool → Status × Option Statvfs
  stat_volume fs false = (invalid_pointer, none)
  stat_volume fs true =
      let used = L.fs_size fs.volume in
      let free =
        if leb_ℤ used (L.to_ssize fs.cfg.block_count)
        then (fs.cfg.block_count + 2 ^ 64 - magnitude used) % 2 ^ 64
        else 0 in
      if fs.mounted
      then (if is_neg used then (map_error used, none) else (
        success,
        some (record {
          block_size = fs.cfg.block_size;
          total_blocks = fs.cfg.block_count;
          blocks_free = free;
        }),
      ))
      else (err_incorrect_obj_state, none)
