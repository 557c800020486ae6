-- ===== src/RingBuf.antt =====
-- kernel/ringbuf.h: a ring of bytes with free-running 32-bit positions and a power of two for size.
pub mod Inv
pub mod Fifo
mod Tests
use alze_os.Base.{
  ℕ, zero, suc, ◌+◌, ◌-◌, ◌%◌, ◌^◌, bit_and, Bool, ◌==◌, ltb, if◌then◌else◌, update, ℤ, pos, negsuc,
}

pub record RingBuf : Type 0 where
  pub storage : ℕ → ℕ
  pub size : ℕ
  pub mask : ℕ
  pub head : ℕ
  pub tail : ℕ

-- `uint32_t` addition and subtraction wrap.
abbrev pub add32 : ℕ → ℕ → ℕ
add32 a b = (a + b) % 2 ^ 32

abbrev pub sub32 : ℕ → ℕ → ℕ
sub32 a b = (a + 2 ^ 32 - b) % 2 ^ 32

unfoldable pub ring_init : (ℕ → ℕ) → ℕ → RingBuf
ring_init buf size = record { storage = buf; size = size; mask = sub32 size 1; head = 0; tail = 0 }

unfoldable pub ring_used : RingBuf → ℕ
ring_used r = sub32 r.head r.tail

unfoldable pub ring_free : RingBuf → ℕ
unfolding ring_used
ring_free r = sub32 r.size (ring_used r)

unfoldable pub ring_empty : RingBuf → Bool
ring_empty r = r.head == r.tail

unfoldable pub ring_full : RingBuf → Bool
unfolding ring_used
ring_full r = ring_used r == r.size

-- `data[(head + i) & mask] = src[i]` for the `n` values of `i` from `i` on.
write_loop : (head mask : ℕ) → (ℕ → ℕ) → (ℕ → ℕ) → ℕ → ℕ → ℕ → ℕ
write_loop head mask src dst i zero = dst
write_loop head mask src dst i (suc n) =
    write_loop head mask src (update dst (bit_and (add32 head i) mask) (src i)) (suc i) n

-- `if (count > avail) count = avail;`
unfoldable pub at_most : ℕ → ℕ → ℕ
at_most avail count = if ltb avail count then avail else count

unfoldable pub write_bytes : RingBuf → (ℕ → ℕ) → ℕ → RingBuf
unfolding write_loop
write_bytes r src n = record r {
  storage = write_loop r.head r.mask src r.storage 0 n;
  head = add32 r.head n;
}

unfoldable pub ring_write : RingBuf → (ℕ → ℕ) → ℕ → ℕ × RingBuf
unfolding at_most write_bytes ring_free
ring_write r src count = let n = at_most (ring_free r) count in (n, write_bytes r src n)

-- `dst[i] = data[(tail + i) & mask]`.
read_loop : (tail mask : ℕ) → (ℕ → ℕ) → (ℕ → ℕ) → ℕ → ℕ → ℕ → ℕ
read_loop tail mask src dst i zero = dst
read_loop tail mask src dst i (suc n) =
    read_loop tail mask src (update dst i (src (bit_and (add32 tail i) mask))) (suc i) n

unfoldable pub read_bytes : RingBuf → (ℕ → ℕ) → ℕ → (ℕ → ℕ) × RingBuf
unfolding read_loop
read_bytes r dst n = (read_loop r.tail r.mask r.storage dst 0 n, record r { tail = add32 r.tail n })

-- The count, what `buf` holds afterwards, and the ring.
unfoldable pub ring_read : RingBuf → (ℕ → ℕ) → ℕ → ℕ × ((ℕ → ℕ) × RingBuf)
unfolding at_most read_bytes ring_used
ring_read r dst count = let n = at_most (ring_used r) count in (n, read_bytes r dst n)

-- -1 when the ring is empty.
unfoldable pub ring_peek : RingBuf → ℤ
unfolding ring_empty
ring_peek r = if ring_empty r then negsuc 0 else pos (r.storage (bit_and r.tail r.mask))
