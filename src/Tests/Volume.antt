-- ===== src/Tests/Volume.antt =====
-- Calls that mount, unmount and configure the small volume.
use hq_platform.Base.{◌≡◌, refl, true, false, [], ◌∷◌, some, arith, replicate}
use hq_platform.Base.Text.{codes, str_eq}
use hq_platform.Osal.Status.{success}
use hq_platform.Osal.Mount.{OpenFile, Fs, validate_text, config_of, block_device, mount}
use hq_platform.Osal.Mount.Volume.{mount-other_device}
use hq_platform.Tests.Disk.{disk}

abbrev pub free_slot : OpenFile disk
free_slot = record { in_use = false; file = 0; path = [] }

abbrev pub log_slot : OpenFile disk
log_slot = record { in_use = true; file = 1; path = codes "log" }

-- Mounted, with one open file in the second slot.
abbrev pub mounted_fs : Fs disk
mounted_fs = record {
  volume = 5 ∷ 6 ∷ 7 ∷ [];
  cfg = config_of disk (block_device disk 0 0);
  bd_cfg = block_device disk 0 0;
  configured = true;
  mounted = true;
  image_path = codes "disk.img";
  mount_point = codes "/fs";
  devname = codes "disk.img";
  open_files = free_slot ∷ log_slot ∷ replicate 30 free_slot;
}

abbrev pub unmounted_fs : Fs disk
unmounted_fs = record mounted_fs { mounted = false }

mount-other_device_example :
    let (st, fs') = mount disk mounted_fs (some (codes "b.img")) (some (codes "/fs")) in
    (st ≡ success)
    × (fs'.image_path ≡ codes "b.img")
    × (fs'.volume ≡ 5 ∷ 6 ∷ 7 ∷ [])
    × (fs'.mounted ≡ true)
    × (fs'.open_files ≡ mounted_fs.open_files)
unfolding validate_text str_eq
mount-other_device_example =
    mount-other_device disk mounted_fs (codes "b.img") (codes "/fs") refl refl refl refl
      (omega arith)
