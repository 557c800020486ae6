-- ===== src/Ramdisk.antt =====
-- kernel/ramdisk.c, kernel/ramdisk.h: a boot module as a read-only disk. `base` gives its bytes;
-- what stands beyond its `size` is other memory. The boot loader's answer is a parameter.
pub mod Bounds
mod Tests
use alze_os.Base.{
  ℕ, zero, suc, ◌+◌, ◌-◌, ◌%◌, ◌^◌, Bool, true, false, not, ltb, leb, if◌then◌else◌, List, [], ℤ,
  pos, negsuc, neg, cells, Option, none, some,
}
use alze_os.Errno.{eio, einval}

pub record Ramdisk : Type 0 where
  pub base : ℕ → ℕ
  pub size : ℕ
  pub loaded : Bool

-- `(int64_t)n`
abbrev pub to_int64 : ℕ → ℤ
to_int64 n = if ltb n (2 ^ 63) then pos n else negsuc (2 ^ 64 - 1 - n)

unfoldable pub ramdisk_get_size : Ramdisk → ℕ
ramdisk_get_size rd = if rd.loaded then rd.size else 0

-- What is returned, and the bytes that the buffer receives from its start. `has_buf` says whether
-- the buffer is not NULL.
unfoldable pub ramdisk_read : Ramdisk → ℕ → Bool → ℕ → ℤ × List ℕ
ramdisk_read rd offset has_buf count =
    if not rd.loaded
    then (neg eio, [])
    else if not has_buf
    then (neg einval, [])
    else if leb rd.size offset
    then (pos 0, [])
    else if ltb rd.size ((offset + count) % 2 ^ 64)
    then (to_int64 (rd.size - offset), cells rd.base offset (rd.size - offset))
    else (to_int64 count, cells rd.base offset count)

-- The read through the file system: always from the start.
unfoldable pub ramdisk_vfs_read : Ramdisk → ℕ → ℤ × List ℕ
ramdisk_vfs_read rd count =
    if not rd.loaded
    then (neg eio, [])
    else if ltb rd.size count
    then (to_int64 rd.size, cells rd.base 0 rd.size)
    else (to_int64 count, cells rd.base 0 count)
