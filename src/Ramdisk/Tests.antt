-- ===== src/Ramdisk/Tests.antt =====
-- kernel/ramdisk.c: a disk of ten bytes.
use alze_os.Base.{◌+◌, ◌-◌, ◌^◌, ◌≡◌, ◌<◌, refl, true, length, arith}
use alze_os.Ramdisk.{Ramdisk, ramdisk_read}
use alze_os.Ramdisk.Bounds.{ramdisk_read-wraps}

abbrev disk : Ramdisk
disk = record { base = λ a. a + 100; size = 10; loaded = true }

ramdisk_read-wraps_example :
    (length (ramdisk_read disk 7 true (2 ^ 64 - 1)).1 ≡ 2 ^ 64 - 1)
    × (10 < 7 + length (ramdisk_read disk 7 true (2 ^ 64 - 1)).1)
ramdisk_read-wraps_example =
    ramdisk_read-wraps disk 7 (2 ^ 64 - 1) refl (omega arith) (omega arith) (omega arith)
      (omega arith)
