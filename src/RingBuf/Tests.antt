-- ===== src/RingBuf/Tests.antt =====
-- Runs of the ring, and its theorems at a ring near the wrap of its positions.
use alze_os.Base.{ℕ, ◌+◌, ◌-◌, ◌^◌, ◌≤◌, ◌≡◌, refl, [], ◌∷◌, ◌++◌, take, drop, cells, min, arith}
use alze_os.RingBuf.{RingBuf, ring_used, ring_read, ring_write}
use alze_os.RingBuf.Inv.{IsValid, contents}
use alze_os.RingBuf.Fifo.{ring_write_lem, ring_read_lem}

-- Four places, two bytes in them, across position 2 ^ 32.
abbrev wrapped : RingBuf
wrapped = record { storage = λ i. 10 + i; size = 4; mask = 3; head = 1; tail = 2 ^ 32 - 1 }

wrapped-IsValid : IsValid 2 wrapped
unfolding ring_used
wrapped-IsValid = omega arith

wrapped_write : contents (ring_write wrapped (λ i. i) 3).1 ≡ 13 ∷ 10 ∷ 0 ∷ 1 ∷ []
unfolding ring_write ring_used
wrapped_write = refl

ring_write_lem_example :
    let (n, r') = ring_write wrapped (λ i. i) 3 in
    (n ≡ min 3 (4 - ring_used wrapped))
    × (contents r' ≡ contents wrapped ++ cells (λ i. i) 0 n)
    × IsValid 2 r'
ring_write_lem_example = ring_write_lem wrapped-IsValid (λ i. i) 3

ring_read_lem_example :
    let (n, (out, r')) = ring_read wrapped (λ _. 0) 3 in
    (n ≡ min 3 (ring_used wrapped))
    × (cells out 0 n ≡ take n (contents wrapped))
    × ((j : ℕ) → n ≤ j → out j ≡ 0)
    × (contents r' ≡ drop n (contents wrapped))
    × IsValid 2 r'
ring_read_lem_example = ring_read_lem wrapped-IsValid (λ _. 0) 3
