-- ===== src/Klog/Keep.antt =====
-- The log holds the last 4096 bytes written.
use alze_os.Base.{
  ℕ, zero, suc, ◌+◌, ◌-◌, ◌%◌, ◌≡◌, refl, sym, ap, ◌∙◌, List, [], ◌∷◌, ◌++◌, append-nil,
  append_assoc, length, length-append, length-drop, drop, drop-append, keep_last, keep_last-append,
  cells, window, ◌==◌, ==_iff, Bool-cases, inl, inr, arith,
}
use alze_os.Strings.{c_string}
use alze_os.RingBuf.{RingBuf, ring_used, ring_full, ring_write}
use alze_os.RingBuf.Inv.{IsValid, contents, length-contents, place}
use alze_os.RingBuf.Fifo.{ring_read_lem, ring_write_lem}
use alze_os.Klog.{klog_size, klog_ring, make_room, klog_putchar, klog_write, klog_dump, dump_loop}

-- The log's ring: 2 ^ 12 bytes.
abbrev pub IsLog : RingBuf → Type 0
IsLog r = IsValid 12 r

pub klog_ring-IsLog : IsLog klog_ring × (contents klog_ring ≡ [])
unfolding klog_ring ring_used
klog_ring-IsLog = (omega arith, refl)

make_room-keep_last :
    (r : RingBuf)
    → IsLog r
    → (contents (make_room r) ≡ keep_last 4095 (contents r)) × IsLog (make_room r)
unfolding make_room ring_full
make_room-keep_last r v = elim (Bool-cases (ring_used r == r.size)) [
  | inl full ↦ rw full (
    (ring_read_lem v (λ _. 0) 1).3
        ∙ ap (λ k. drop k (contents r))
            (omega (
              arith,
              (ring_read_lem v (λ _. 0) 1).0,
              length-contents r,
              (==_iff (ring_used r) r.size).0 full,
            )),
    (ring_read_lem v (λ _. 0) 1).4,
  )
  | inr room ↦
      rw room (ap (λ k. drop k (contents r)) {x = 0} (ground (arith, length-contents r)), v)
]

-- `klog_putchar` keeps the log valid and holding the last 4096 bytes of what was there and `c`.
pub klog_putchar-keep_last :
    (r : RingBuf) (c : ℕ)
    → IsLog r
    → (contents (klog_putchar r c) ≡ keep_last klog_size (contents r ++ (c ∷ [])))
      × IsLog (klog_putchar r c)
unfolding klog_putchar
klog_putchar-keep_last r c v =
    let (kept, w) = make_room-keep_last r v in
    let (count, holds, valid) = ring_write_lem w (λ _. c) 1 in
    let one : (ring_write (make_room r) (λ _. c) 1).0 ≡ 1 = omega (
      arith,
      count,
      ap length kept,
      length-contents (make_room r),
      length-drop (length (contents r) - 4095) (contents r),
    ) in
    (
      holds
          ∙ ap (λ n. contents (make_room r) ++ cells (λ _. c) 0 n) one
          ∙ ap (λ l. l ++ (c ∷ [])) kept
          ∙ sym (drop-append (length (contents r) - 4095) (contents r) (c ∷ []) (omega arith))
          ∙ ap (λ k. drop k (contents r ++ (c ∷ [])))
              (omega (arith, length-append (contents r) (c ∷ []))),
      valid,
    )

pub contents-keep_last :
    (r : RingBuf) → IsLog r → contents r ≡ keep_last klog_size (contents r ++ [])
contents-keep_last r v =
    ap (λ k. drop k (contents r)) {x = 0} (omega (arith, length-contents r))
    ∙ ap (keep_last klog_size) (sym (append-nil (contents r)))

-- After `klog_write` the log is valid and holds the last 4096 bytes of what was there and the
-- message.
pub klog_write-keep_last :
    (msg : List ℕ) (r : RingBuf)
    → IsLog r
    → (contents (klog_write r msg) ≡ keep_last klog_size (contents r ++ c_string msg))
      × IsLog (klog_write r msg)
unfolding klog_write c_string
klog_write-keep_last [] r v = (contents-keep_last r v, v)
klog_write-keep_last (c ∷ msg) r v = elim (Bool-cases (c == 0)) [
  | inl end ↦ rw end (contents-keep_last r v, v)
  | inr more ↦ rw more (
      let (held, w) = klog_putchar-keep_last r c v in
      let (ih, z) = klog_write-keep_last msg (klog_putchar r c) w in
      (
        ih
            ∙ ap (λ l. keep_last klog_size (l ++ c_string msg)) held
            ∙ keep_last-append klog_size (contents r ++ (c ∷ [])) (c_string msg)
            ∙ ap (keep_last klog_size) (append_assoc (contents r) (c ∷ []) (c_string msg)),
        z,
      ))
]

dump_loop-window :
    (r : RingBuf) → IsLog r → (i n : ℕ) → dump_loop r i n ≡ window r.storage r.size (r.tail + i) n
unfolding dump_loop
dump_loop-window r v i zero = refl
dump_loop-window r v i (suc n) = rw (place v) (
    ap (λ l. r.storage ((r.tail + i) % r.size) ∷ l)
      (dump_loop-window r v (suc i) n ∙ ap (λ k. window r.storage r.size k n) (omega arith)))

-- `klog_dump` emits the log's contents, oldest byte first.
pub klog_dump-contents : (r : RingBuf) → IsLog r → klog_dump r ≡ contents r
unfolding klog_dump
klog_dump-contents r v = elim (Bool-cases (ring_used r == 0)) [
  | inl none_held ↦ rw none_held (
      ap (λ n. window r.storage r.size r.tail n) {x = 0}
        (sym ((==_iff (ring_used r) 0).0 none_held)))
  | inr some_held ↦ rw some_held (
      dump_loop-window r v 0 (ring_used r)
      ∙ ap (λ k. window r.storage r.size k (ring_used r)) (omega arith))
]
