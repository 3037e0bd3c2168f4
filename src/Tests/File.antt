-- ===== src/Tests/File.antt =====
-- File calls on the small volume.
use hq_platform.Base.{ℕ, ◌+◌, ◌<◌, ◌≡◌, ◌≢◌, refl, suc, true, [], ◌∷◌, none, some}
use hq_platform.Base.Int.{pos}
use hq_platform.Base.Text.{codes, str_eq}
use hq_platform.Osal.Status.{success, code, err_invalid_id}
use hq_platform.Osal.Mount.{OpenFile, Fs, path_normalize, max_path_len}
use hq_platform.Osal.File.{
  fd_to_slot, first_free, open_create, open_slot, open_normalized, close, max_open_files, put_slot,
}
use hq_platform.Osal.File.Table.{used}
use hq_platform.Osal.File.Descriptors.{open_create-fresh, close-closes}
use hq_platform.Tests.Disk.{disk}
use hq_platform.Tests.Volume.{log_slot, mounted_fs}

-- What `osal_open_create` of "/log" leaves.
abbrev opened_fs : Fs disk
opened_fs =
    put_slot disk mounted_fs 0 (record { in_use = true; file = 0; path = codes "log" })
      (5 ∷ 6 ∷ 7 ∷ [])

open_create-fresh_example :
    (0 < max_open_files)
    × (fd_to_slot disk mounted_fs (pos 1) ≡ none)
    × ((slot : OpenFile disk) × (fd_to_slot disk opened_fs (pos 1) ≡ some (0, slot))
        × (path_normalize (some (codes "/log")) max_path_len ≡ (success, slot.path)))
    × ((j : ℕ)
        → 0 ≢ j
        → fd_to_slot disk opened_fs (pos (suc j)) ≡ fd_to_slot disk mounted_fs (pos (suc j)))
    × (used disk opened_fs.open_files ≡ used disk mounted_fs.open_files + 1)
unfolding open_create open_normalized path_normalize first_free open_slot str_eq
open_create-fresh_example =
    open_create-fresh disk mounted_fs opened_fs (codes "/log") 0 2 0 refl refl

close-closes_example :
    let fs' = (close disk mounted_fs (pos 2)).1 in
    (fd_to_slot disk fs' (pos 2) ≡ none)
    × (close disk fs' (pos 2) ≡ (code err_invalid_id, fs'))
    × ((j : ℕ)
        → 1 ≢ j
        → fd_to_slot disk fs' (pos (suc j)) ≡ fd_to_slot disk mounted_fs (pos (suc j)))
    × (used disk fs'.open_files + 1 ≡ used disk mounted_fs.open_files)
unfolding fd_to_slot
close-closes_example = close-closes disk mounted_fs (pos 2) 1 log_slot refl
