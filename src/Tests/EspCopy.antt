-- ===== src/Tests/EspCopy.antt =====
-- Copies of files on the ESP port, on a disk in memory.
use hq_platform.Base.{
  ◌+◌, ◌<◌, length, ◌≡◌, refl, true, false, [], none, some, arith, replicate, if◌then◌else◌,
}
use hq_platform.Base.Text.{codes, str_eq}
use hq_platform.Osal.Esp.File.{Files, free_slot, resolve}
use hq_platform.Osal.Esp.Mount.{validate_text, build_vfs_path, starts_with}
use hq_platform.Osal.Esp.Copy.{cp, mv}
use hq_platform.Osal.Esp.Copy.Contents.{Copied, cp-copies}
use hq_platform.Osal.Esp.Copy.Move.{Moved, mv-keeps}
use hq_platform.Tests.EspDisk.{disk}
use hq_platform.Tests.EspDisk.Documented.{
  disk-Documented, disk_content, disk_distinct, disk-Closing,
}

-- Two files on a volume at "/fs"; the first has 600 bytes, more than the buffer.
abbrev volume : Files disk
volume = record {
  mounted = true;
  mount_point = codes "/fs";
  table = replicate 32 free_slot;
  sys = (3, λ path. if str_eq path (codes "/fs/a") then replicate 600 7 else [], λ g. none);
}

apart : disk-Documented.same_file (codes "/fs/a") (codes "/fs/b") ≡ false
unfolding str_eq
apart = disk_distinct (codes "/fs/a") (codes "/fs/b") refl

enough : length (disk-Documented.content volume.sys (codes "/fs/a")) + 512 < 1200
unfolding str_eq
enough = rw (disk_content volume.sys (codes "/fs/a")) (omega arith)

cp-copies_example :
    Copied disk disk-Documented disk-Closing volume
      (codes "/fs/a")
      (codes "/fs/b")
      (cp disk 1200 volume (some (codes "a")) (some (codes "b")))
unfolding resolve str_eq validate_text build_vfs_path starts_with
cp-copies_example =
    cp-copies disk disk-Documented disk-Closing 1200 volume (codes "a") (codes "b") (codes "/fs/a")
      (codes "/fs/b") refl refl apart enough

-- The disk refuses to rename, so the file is copied.
mv-keeps_example :
    Moved disk disk-Documented disk-Closing volume
      (codes "/fs/a")
      (codes "/fs/b")
      (mv disk 1200 volume (some (codes "a")) (some (codes "b")))
unfolding resolve str_eq validate_text build_vfs_path starts_with
mv-keeps_example =
    mv-keeps disk disk-Documented disk-Closing 1200 volume (codes "a") (codes "b") (codes "/fs/a")
      (codes "/fs/b") refl refl apart enough
