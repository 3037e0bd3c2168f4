-- ===== src/Osal/Esp/Mount.antt =====
-- The volume of the ESP port, src/osal/esp/osal_mount_impl.c, over esp_littlefs as an interface.
pub mod Paths
pub mod Labels
use hq_platform.Base.{
  ℕ, ◌+◌, ◌-◌, ◌/◌, ◌==◌, ◌&&◌, leb, not, Bool, true, false, List, [], ◌∷◌, ◌++◌, Option, none,
  some, length, take, if◌then◌else◌,
}
use hq_platform.Base.Text.{CString, codes, str_eq}
use hq_platform.Osal.Status.{
  Status, success, error, invalid_pointer, fs_err_path_invalid, fs_err_path_too_long,
  err_incorrect_obj_state, err_not_implemented,
}

-- OSAL_MAX_PATH_LEN
abbrev pub max_path_len : ℕ
max_path_len = 128

-- What is used of esp_littlefs: registering a partition, by a path and a label, unregistering and
-- formatting one, and the bytes that it has and uses. The flags are that the calls return ESP_OK.
pub record EspLittlefs : Type 1 where
  pub Vfs : Type 0
  pub register : Vfs → CString → CString → Bool × Vfs
  pub unregister : Vfs → CString → Bool × Vfs
  pub format : Vfs → CString → Bool × Vfs
  pub info : Vfs → CString → Option (ℕ × ℕ)

-- `osal_statvfs_t`
pub record StatVfs : Type 0 where
  pub block_size : ℕ
  pub total_blocks : ℕ
  pub blocks_free : ℕ

-- `validate_text`
unfoldable pub validate_text : Option CString → Status
validate_text none = invalid_pointer
validate_text (some []) = fs_err_path_invalid
validate_text (some (c ∷ value)) =
    if leb max_path_len (length (c ∷ value)) then fs_err_path_too_long else success

abbrev pub is_ok : Status → Bool
is_ok success = true
is_ok _ = false

-- `strncmp (s, t, strlen (t)) == 0`
unfoldable pub starts_with : CString → CString → Bool
starts_with s [] = true
starts_with [] (b ∷ t) = false
starts_with (a ∷ s) (b ∷ t) = a == b && starts_with s t

abbrev pub slash : ℕ
slash = 47

-- A path without one leading slash
abbrev pub strip_slash : CString → CString
strip_slash [] = []
strip_slash (c ∷ path) = if c == slash then path else c ∷ path

-- `osal_lfs_build_vfs_path`, where `out_path` is not NULL, on the mount point of the globals. What
-- `snprintf` leaves in a buffer that is too small is not read.
unfoldable pub build_vfs_path : CString → Option CString → ℕ → Status × Option CString
build_vfs_path point none out_size = (invalid_pointer, none)
build_vfs_path point (some path) out_size =
    let joined = point ++ slash ∷ strip_slash path in
    if length point == 0
    then (err_incorrect_obj_state, none)
    else if starts_with path point
    then (if leb out_size (length path) then (fs_err_path_too_long, none) else (success, some path))
    else if leb out_size (length joined)
    then (fs_err_path_too_long, none)
    else (success, some joined)

-- `strncpy` into a buffer of a path, whose last byte is NUL
abbrev pub stored : CString → CString
stored text = take (max_path_len - 1) text

module _ (L : EspLittlefs) where
  -- The three globals, with the state of esp_littlefs.
  pub record Volume : Type 0 where
    pub mounted : Bool
    pub mount_point : CString
    pub partition_label : CString
    pub vfs : L.Vfs

  -- A name that is NULL or empty is not used.
  abbrev pub chosen_point : Option CString → Option CString
  chosen_point (some (c ∷ name)) = some (c ∷ name)
  chosen_point _ = none

  -- `osal_mkfs` from the registration on
  unfoldable pub format_new : Volume → Status × Volume
  format_new v =
      let (registered, vfs) = L.register v.vfs v.mount_point v.partition_label in
      if registered
      then (success, record v { vfs = (L.unregister vfs v.partition_label).1 })
      else (error, record v { vfs = vfs })

  -- `osal_mkfs`
  unfoldable pub mkfs : Volume → Option CString → Option CString → Status × Volume
  unfolding format_new
  mkfs v none volname = (invalid_pointer, v)
  mkfs v (some devname) volname =
      if is_ok (validate_text (some devname))
      then (elim (chosen_point volname) [
        | none ↦ format_new (record v { partition_label = stored devname })
        | some name ↦
            if is_ok (validate_text (some name))
            then format_new
                (record v { partition_label = stored devname; mount_point = stored name })
            else (validate_text (some name), v)
      ])
      else (validate_text (some devname), v)

  -- `osal_initfs`, which stores the label before it looks at the other name.
  unfoldable pub initfs : Volume → Option CString → Option CString → Status × Volume
  initfs v none volname = (invalid_pointer, v)
  initfs v (some devname) volname =
      let labelled = record v { partition_label = stored devname } in
      if is_ok (validate_text (some devname))
      then (elim (chosen_point volname) [
        | none ↦ (success, labelled)
        | some name ↦
            if is_ok (validate_text (some name))
            then (success, record labelled { mount_point = stored name })
            else (validate_text (some name), labelled)
      ])
      else (validate_text (some devname), v)

  -- `osal_mount` from the registration on
  unfoldable pub mount_registered : Volume → Status × Volume
  mount_registered v =
      let (registered, vfs) = L.register v.vfs v.mount_point v.partition_label in
      if registered
      then (success, record v { vfs = vfs; mounted = true })
      else (error, record v { vfs = vfs })

  -- `osal_mount`
  unfoldable pub mount : Volume → Option CString → Option CString → Status × Volume
  unfolding mount_registered
  mount v none point = (invalid_pointer, v)
  mount v (some devname) none = (
    if is_ok (validate_text (some devname)) then invalid_pointer else validate_text (some devname),
    v,
  )
  mount v (some devname) (some point) =
      if is_ok (validate_text (some devname))
      then (if is_ok (validate_text (some point))
          then mount_registered
              (record v { partition_label = stored devname; mount_point = stored point })
          else (validate_text (some point), v))
      else (validate_text (some devname), v)

  -- The first part of `osal_rmfs`: a partition that is mounted is unregistered.
  unfoldable pub release_mounted : Volume → CString → Volume
  release_mounted v devname =
      if v.mounted && str_eq v.partition_label devname
      then record v { vfs = (L.unregister v.vfs v.partition_label).1; mounted = false }
      else v

  -- The second part, on a path of its own
  unfoldable pub wipe : Volume → CString → Status × Volume
  wipe v devname =
      let (registered, vfs) = L.register v.vfs (codes "/osal_rmfs") devname in
      let (formatted, vfs1) = L.format vfs devname in
      let (_, vfs2) = L.unregister vfs1 devname in
      if registered
      then (if formatted then success else error, record v { vfs = vfs2 })
      else (error, record v { vfs = vfs })

  -- `osal_rmfs`
  unfoldable pub rmfs : Volume → Option CString → Status × Volume
  unfolding wipe release_mounted
  rmfs v none = (invalid_pointer, v)
  rmfs v (some devname) =
      if is_ok (validate_text (some devname))
      then wipe (release_mounted v devname) devname
      else (validate_text (some devname), v)

  -- `osal_unmount`; the mount point is only checked.
  unfoldable pub unmount : Volume → Option CString → Status × Volume
  unmount v point =
      let (unregistered, vfs) = L.unregister v.vfs v.partition_label in
      if not (is_ok (validate_text point))
      then (validate_text point, v)
      else if not v.mounted
      then (success, v)
      else if unregistered
      then (success, record v { vfs = vfs; mounted = false })
      else (error, record v { vfs = vfs })

  abbrev stat_of : ℕ × ℕ → StatVfs
  stat_of (total, used) = record {
    block_size = 4096;
    total_blocks = total / 4096;
    blocks_free = if leb used total then (total - used) / 4096 else 0;
  }

  -- `osal_filesys_stat_volume`; the flag is `stat_buf != NULL`.
  unfoldable pub stat_volume : Volume → Bool → Status × Option StatVfs
  stat_volume v stat_buf =
      let answer = L.info v.vfs v.partition_label in
      if not stat_buf
      then (invalid_pointer, none)
      else if not v.mounted
      then (err_incorrect_obj_state, none)
      else (elim answer [ none ↦ (error, none) | some sizes ↦ (success, some (stat_of sizes)) ])

  -- `osal_chkfs`
  pub chkfs : Option CString → Bool → Status
  chkfs name repair = err_not_implemented
