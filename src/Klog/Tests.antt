-- ===== src/Klog/Tests.antt =====
-- Runs of the log, and its theorems at a log near the wrap of its positions.
use alze_os.Base.{◌-◌, ◌^◌, ◌≡◌, refl, [], ◌∷◌, ◌++◌, keep_last, arith}
use alze_os.RingBuf.{RingBuf, ring_used, ring_full, ring_read, ring_write}
use alze_os.RingBuf.Inv.{contents}
use alze_os.Klog.{klog_size, klog_ring, klog_putchar, klog_write, make_room}
use alze_os.Klog.Keep.{IsLog, klog_putchar-keep_last}

-- Two bytes, across position 2 ^ 32.
abbrev wrapped : RingBuf
wrapped = record { storage = λ i. i; size = 4096; mask = 4095; head = 1; tail = 2 ^ 32 - 1 }

wrapped-IsLog : IsLog wrapped
unfolding ring_used
wrapped-IsLog = omega arith

write_run : contents (klog_write klog_ring (72 ∷ 105 ∷ 0 ∷ 33 ∷ [])) ≡ 72 ∷ 105 ∷ []
unfolding klog_write klog_putchar klog_ring make_room ring_full ring_read ring_write
write_run = refl

klog_putchar-keep_last_example :
    (contents (klog_putchar wrapped 7) ≡ keep_last klog_size (contents wrapped ++ (7 ∷ [])))
    × IsLog (klog_putchar wrapped 7)
klog_putchar-keep_last_example = klog_putchar-keep_last wrapped 7 wrapped-IsLog
