-- ===== src/Tests/EspMount.antt =====
-- A flash with partitions that are registered by their labels.
use hq_platform.Base.{
  ◌<◌, ◌≤◌, ◌≡◌, ◌⊎◌, ◌++◌, refl, Bool, true, false, not, none, some, arith, length, if◌then◌else◌,
}
use hq_platform.Base.Text.{CString, codes, str_eq, str_eq_refl}
use hq_platform.Osal.Status.{success, error, fs_err_path_too_long}
use hq_platform.Osal.Esp.Mount.{EspLittlefs, Volume, build_vfs_path, validate_text, initfs, unmount}
use hq_platform.Osal.Esp.Mount.Paths.{full_path, build_vfs_path-full}
use hq_platform.Osal.Esp.Mount.Labels.{Documented, initfs-loses}

-- The labels that are registered, as a predicate.
abbrev flash : EspLittlefs
flash = record {
  Vfs = CString → Bool;
  register =
      λ known point label. (not (known label), λ l. if str_eq l label then true else known l);
  unregister = λ known label. (known label, λ l. if str_eq l label then false else known l);
  format = λ known label. (true, known);
  info = λ known label. some (8192, 4096);
}

flash-Documented : Documented flash
flash-Documented = record {
  registered = λ known label. known label;
  register_once = λ known point label h. (ground arith, ground (arith, str_eq_refl label));
  unregister_known = λ known label. refl;
  unregister_gone = λ known label h. ground (arith, str_eq_refl label);
}

abbrev storage : CString
storage = codes "storage"

abbrev mounted : Volume flash
mounted = record {
  mounted = true;
  mount_point = codes "/littlefs";
  partition_label = storage;
  vfs = λ l. str_eq l storage;
}

initfs-loses_example :
    let named = (initfs flash mounted (some (codes "other")) (some (codes "/new"))).1 in
    ((initfs flash mounted (some (codes "other")) (some (codes "/new"))).0 ≡ success)
    × ((unmount flash named (some (codes "/littlefs"))).0 ≡ error)
    × ((unmount flash named (some (codes "/littlefs"))).1.mounted ≡ true)
unfolding validate_text str_eq flash-Documented
initfs-loses_example =
    initfs-loses flash flash-Documented mounted (codes "other") (codes "/littlefs")
      (some (codes "/new")) refl refl refl refl refl

build_vfs_path-full_example :
    ((length (full_path (codes "/fs") (codes "/fsx/a")) < 128)
      × (build_vfs_path (codes "/fs") (some (codes "/fsx/a")) 128
          ≡ (success, some (full_path (codes "/fs") (codes "/fsx/a"))))
      × (build_vfs_path (codes "/fs") (some (full_path (codes "/fs") (codes "/fsx/a"))) 128
          ≡ (success, some (full_path (codes "/fs") (codes "/fsx/a"))))
      × ((rest : CString) × (full_path (codes "/fs") (codes "/fsx/a") ≡ codes "/fs" ++ rest)))
    ⊎ ((128 ≤ length (full_path (codes "/fs") (codes "/fsx/a")))
        × (build_vfs_path (codes "/fs") (some (codes "/fsx/a")) 128 ≡ (fs_err_path_too_long, none)))
build_vfs_path-full_example = build_vfs_path-full (codes "/fs") (codes "/fsx/a") 128 (omega arith)
