-- ===== src/Ramdisk/Bounds.antt =====
-- Which bytes a read of the RAM disk returns.
use alze_os.Base.{
  ℕ, ◌+◌, ◌-◌, ◌%◌, ◌^◌, ◌≡◌, ◌≤◌, ◌<◌, refl, inl, inr, true, false, ltb, leb, if◌then◌else◌,
  length, length-cells, pos, cells, arith, Bool-cases,
}
use alze_os.Ramdisk.{Ramdisk, ramdisk_read}

-- How much of a read lies on the disk.
abbrev pub on_disk : ℕ → ℕ → ℕ → ℕ
on_disk size offset count = if ltb (size - offset) count then size - offset else count

-- A read from a loaded disk whose end is an address returns the bytes from the offset on, as many
-- as are asked for and lie on the disk, and their number; none when it starts beyond the end.
pub ramdisk_read-on_disk :
    (rd : Ramdisk) (offset count : ℕ)
    → rd.loaded ≡ true
    → rd.size < 2 ^ 63
    → offset + count < 2 ^ 64
    → ramdisk_read rd offset true count
      ≡ (pos (on_disk rd.size offset count), cells rd.base offset (on_disk rd.size offset count))
unfolding ramdisk_read
ramdisk_read-on_disk rd offset count loaded small no_wrap =
    rw loaded (elim (Bool-cases (leb rd.size offset)) [
      | inl beyond ↦
          (let n : on_disk rd.size offset count ≡ 0 = ground (arith, beyond) in rw (beyond, n) refl)
      | inr inside ↦
          (let same : ltb rd.size ((offset + count) % 2 ^ 64) ≡ ltb (rd.size - offset) count =
              ground (arith, inside) in
            elim (Bool-cases (ltb (rd.size - offset) count)) [
              | inl cut ↦
                  (let fits : ltb (rd.size - offset) (2 ^ 63) ≡ true = ground arith in
                    rw (inside, same, cut, fits) refl)
              | inr all ↦
                  (let fits : ltb count (2 ^ 63) ≡ true = ground (arith, all, inside) in
                    rw (inside, same, all, fits) refl)
            ])
    ])

-- An offset on the disk and a count so large that their sum wraps round to at most the size: the
-- read is not cut off at the end of the disk, and more bytes are copied than it has.
pub ramdisk_read-wraps :
    (rd : Ramdisk) (offset count : ℕ)
    → rd.loaded ≡ true
    → offset < rd.size
    → rd.size < 2 ^ 63
    → count < 2 ^ 64
    → 2 ^ 64 ≤ offset + count
    → (length (ramdisk_read rd offset true count).1 ≡ count)
      × (rd.size < offset + length (ramdisk_read rd offset true count).1)
unfolding ramdisk_read
ramdisk_read-wraps rd offset count loaded h small word wraps =
    let inside : leb rd.size offset ≡ false = ground arith in
    let kept : ltb rd.size ((offset + count) % 2 ^ 64) ≡ false = ground arith in
    let len = length-cells rd.base offset count in
    rw (loaded, inside, kept) (len, omega (arith, len))
