-- ===== src/Klog.antt =====
-- kernel/klog.c: the kernel log, a ring of 4096 bytes that drops its oldest byte when it is full.
-- Each function runs under the log's spinlock. Of `ring_read` into a byte that is thrown away only
-- the ring matters, and the byte's first value does not: 0 here.
pub mod Keep
mod Tests
use alze_os.Base.{
  ℕ, zero, suc, ◌+◌, Bool, true, false, List, [], ◌∷◌, ◌++◌, ◌==◌, bit_and, if◌then◌else◌,
}
use alze_os.RingBuf.{RingBuf, add32, ring_init, ring_used, ring_full, ring_read, ring_write}

abbrev pub klog_size : ℕ
klog_size = 4096

unfoldable pub klog_ring : RingBuf
unfolding ring_init
klog_ring = ring_init (λ _. 0) klog_size

-- `if (ring_full(…)) { … ring_read(…, &discard, 1); }`
unfoldable pub make_room : RingBuf → RingBuf
make_room ring = if ring_full ring then (ring_read ring (λ _. 0) 1).1.1 else ring

unfoldable pub klog_putchar : RingBuf → ℕ → RingBuf
klog_putchar ring c = (ring_write (make_room ring) (λ _. c) 1).1

-- The bytes of `msg` up to its terminator.
unfoldable pub klog_write : RingBuf → List ℕ → RingBuf
klog_write ring [] = ring
klog_write ring (c ∷ msg) = if c == 0 then ring else klog_write (klog_putchar ring c) msg

-- The bytes that `klog_dump` sends to the UART between its two banners, from index `i` on.
dump_loop : RingBuf → ℕ → ℕ → List ℕ
dump_loop ring i zero = []
dump_loop ring i (suc n) =
    ring.storage (bit_and (add32 ring.tail i) ring.mask) ∷ dump_loop ring (suc i) n

unfoldable pub klog_dump : RingBuf → List ℕ
unfolding dump_loop ring_used
klog_dump ring = if ring_used ring == 0 then [] else dump_loop ring 0 (ring_used ring)

-- The size and the head's place that `klog_get_buffer` reports.
unfoldable pub klog_get_buffer : RingBuf → ℕ × ℕ
unfolding ring_used
klog_get_buffer ring = (ring_used ring, bit_and ring.head ring.mask)
