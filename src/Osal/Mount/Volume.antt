-- ===== src/Osal/Mount/Volume.antt =====
-- When the volume is mounted, and what the calls do to the configuration under it.
use hq_platform.Base.{
  ℕ, ◌-◌, ◌<◌, ◌≤◌, ◌≡◌, ◌↔◌, refl, true, false, ◌&&◌, ◌||◌, not, [], ◌∷◌, Option, none, some,
  arith, take_all,
}
use hq_platform.Base.Int.{ℤ, pos, eqb, eqb-eq}
use hq_platform.Base.Text.{CString, str_eq, str_eq_refl}
use hq_platform.Osal.Littlefs.{Littlefs}
use hq_platform.Osal.Status.{success, err_invalid_size}
use hq_platform.Osal.Mount.{
  Fs, map_error, is_ok, validate_text, configure, configure_device, open_bd, close_bd, initfs,
  mount_volume, mount_configured, mount, unmount, stored_path, zero_config, default_block_size,
  max_path_len, and_then,
}

module _ (L : Littlefs) where
  -- An error of littlefs is never reported as OSAL_SUCCESS, and 0 always is.
  pub map_error-success : (err : ℤ) → (map_error L err ≡ success) ↔ (err ≡ pos 0)
  unfolding map_error
  map_error-success err = ground (arith, eqb-eq err (pos 0))

  pub ne-success : (err : ℤ) → eqb err (pos 0) ≡ false → is_ok (map_error L err) ≡ false
  unfolding map_error
  ne-success err h = ground arith

  configure-mounted :
      (fs : Fs L) (name point : Option CString) (block_size num_blocks : ℕ)
      → (configure L fs name point block_size num_blocks).1.mounted ≡ fs.mounted
  unfolding configure configure_device
  configure-mounted fs name none block_size num_blocks = ground arith
  configure-mounted fs name (some point) block_size num_blocks = ground arith

  open_bd-mounted : (fs : Fs L) → (open_bd L fs).1.mounted ≡ fs.mounted
  unfolding open_bd
  open_bd-mounted fs = refl

  mount_volume-mounted :
      (fs : Fs L) → fs.mounted ≡ false → (mount_volume L fs).1.mounted ≡ is_ok (mount_volume L fs).0
  unfolding mount_volume close_bd
  mount_volume-mounted fs h = ground (arith, ne-success (L.mount fs.cfg fs.volume).0)

  mount_configured-mounted :
      (fs : Fs L)
      → (mount_configured L fs).1.mounted ≡ (fs.mounted || is_ok (mount_configured L fs).0)
  unfolding mount_configured
  mount_configured-mounted fs =
      ground (arith, mount_volume-mounted (open_bd L fs).1, open_bd-mounted fs)

  -- The volume is mounted after `osal_mount` exactly if it was before or the call returns
  -- OSAL_SUCCESS.
  pub mount-mounted :
      (fs : Fs L) (name point : Option CString)
      → (mount L fs name point).1.mounted ≡ (fs.mounted || is_ok (mount L fs name point).0)
  unfolding mount
  mount-mounted fs name point =
      let fs1 = configure L fs name point default_block_size 256 in
      ground (
        arith,
        mount_configured-mounted fs,
        mount_configured-mounted fs1.1,
        configure-mounted fs name point default_block_size 256,
      )

  -- After `osal_unmount` with a valid mount point nothing is mounted, whatever littlefs answered;
  -- with an invalid one the volume is mounted as before. Either way the table of open files stays.
  pub unmount-mounted :
      (fs : Fs L) (point : Option CString)
      → ((unmount L fs point).1.mounted ≡ (fs.mounted && not (is_ok (validate_text point))))
        × ((unmount L fs point).1.open_files ≡ fs.open_files)
  unfolding unmount close_bd
  unmount-mounted fs point = ground arith

  valid-stored :
      (name : CString) → is_ok (validate_text (some name)) ≡ true → stored_path name ≡ name
  unfolding validate_text
  valid-stored [] h = cc
  valid-stored (c ∷ name) h = take_all (max_path_len - 1) (c ∷ name) (ground arith)

  configured_device :
      (fs : Fs L) (name : CString) (block_size num_blocks : ℕ)
      → is_ok (validate_text (some name)) ≡ true
      → is_ok (validate_text (some fs.mount_point)) ≡ true
      → configure L fs (some name) (some fs.mount_point) block_size num_blocks
        ≡ configure_device L fs name block_size num_blocks
  unfolding configure
  configured_device fs name block_size num_blocks h k = rw (h, k, valid-stored fs.mount_point k)

  -- On a mounted volume, `osal_mount` of another device, with texts that are valid and a default
  -- block size that fits, returns OSAL_SUCCESS and takes over the name, clears the block device,
  -- and leaves the volume mounted and the table of open files as it is.
  pub mount-other_device :
      (fs : Fs L) (name point : CString)
      → fs.mounted ≡ true
      → is_ok (validate_text (some name)) ≡ true
      → is_ok (validate_text (some point)) ≡ true
      → str_eq name fs.image_path ≡ false
      → L.to_size default_block_size ≤ default_block_size
      → let (st, fs') = mount L fs (some name) (some point) in
        (st ≡ success)
        × (fs'.image_path ≡ name)
        × (fs'.volume ≡ L.bd_clear fs.volume)
        × (fs'.mounted ≡ true)
        × (fs'.open_files ≡ fs.open_files)
  unfolding mount configure configure_device mount_configured
  mount-other_device fs name point m h k other small = ground (arith, valid-stored name h)

  -- On a configured volume that is not mounted, `osal_initfs` with a block size above 4096 returns
  -- OSAL_ERR_INVALID_SIZE with the configuration cleared, and an `osal_mount` of the same device
  -- then opens and mounts without configuring again.
  pub initfs-oversize :
      (fs : Fs L) (name point : CString) (volname : Option CString) (block_size num_blocks : ℕ)
      → fs.configured ≡ true
      → fs.mounted ≡ false
      → is_ok (validate_text (some name)) ≡ true
      → is_ok (validate_text (some point)) ≡ true
      → is_ok (validate_text (some fs.mount_point)) ≡ true
      → 0 < block_size
      → default_block_size < L.to_size block_size
      → let (st, fs') = initfs L fs none (some name) volname block_size num_blocks in
        (st ≡ err_invalid_size)
        × (fs'.cfg ≡ zero_config)
        × (mount L fs' (some name) (some point) ≡ and_then L (open_bd L fs') (mount_volume L))
  unfolding mount initfs configure_device mount_configured
  initfs-oversize fs name point volname block_size num_blocks c m h k l pos_size big =
      rw (configured_device fs name block_size num_blocks h l)
        (ground (arith, valid-stored name h, str_eq_refl name))
