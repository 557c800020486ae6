-- ===== src/RingBuf/Fifo.antt =====
-- A valid ring behaves as the queue of the bytes that it holds.
use native.Mathlib.Nat.{add-zero}
use alze_os.Base.{
  ℕ, zero, suc, ◌+◌, ◌-◌, ◌%◌, ◌≤◌, min, bit_and, ◌≡◌, sym, ap, ap₂, ◌∙◌, [], ◌∷◌, ◌++◌, append-nil,
  append_assoc, take, drop, cells, window, window-snoc, window-update, window_mod, drop-window,
  take-window, cells-eq-window, update, ltb, if◌then◌else◌, arith, ◌&&◌, not,
}
use alze_os.RingBuf.{
  RingBuf, add32, ring_used, ring_free, write_loop, write_bytes, ring_write, read_loop, read_bytes,
  ring_read, at_most,
}
use alze_os.RingBuf.Inv.{IsValid, contents, pow-mod_32, size-le, place, head-eq, free-eq}

-- The write loop appends the source to the window that ends where it starts writing.
module _ (s q head mask : ℕ) (src : ℕ → ℕ)
    (at : (j : ℕ) → bit_and (add32 head j) mask ≡ (q + j) % s) where
  window-write_loop :
      (dst : ℕ → ℕ) (t u i n : ℕ)
      → t + u ≡ q + i
      → u + n ≤ s
      → window (write_loop head mask src dst i n) s t (u + n) ≡ window dst s t u ++ cells src i n
  unfolding write_loop
  window-write_loop dst t u i zero e h = rw (add-zero, append-nil)
  window-write_loop dst t u i (suc n) e h = rw (at i) (
      ap (λ k. window (write_loop head mask src next (suc i) n) s t k) (omega arith)
      ∙ window-write_loop next t (suc u) (suc i) n (omega arith) (omega arith)
      ∙ ap (λ l. l ++ cells src (suc i) n) step
      ∙ append_assoc (window dst s t u) (src i ∷ []) (cells src (suc i) n))
    where
      next : ℕ → ℕ
      next = update dst ((q + i) % s) (src i)

      here : next ((t + u) % s) ≡ src i
      here = rw e (ground arith)

      step : window next s t (suc u) ≡ window dst s t u ++ (src i ∷ [])
      step =
          window-snoc next s t u
          ∙ ap₂ (λ l b. l ++ (b ∷ []))
              (window-update dst s t u (q + i) (src i) (omega arith) (omega arith)) here

-- What the read loop leaves in each place of the buffer.
module _ (s tail mask : ℕ) (src : ℕ → ℕ)
    (at : (j : ℕ) → bit_and (add32 tail j) mask ≡ (tail + j) % s) where
  read_loop-at :
      (dst : ℕ → ℕ) (i n j : ℕ)
      → read_loop tail mask src dst i n j
        ≡ (if not (ltb j i) && ltb j (i + n) then src ((tail + j) % s) else dst j)
  unfolding read_loop
  read_loop-at dst i zero j = ground arith
  read_loop-at dst i (suc n) j =
      read_loop-at (update dst i (src (bit_and (add32 tail i) mask))) (suc i) n j
      ∙ ground (arith, at i)

at_most-eq : (avail count : ℕ) → at_most avail count ≡ min count avail
unfolding at_most
at_most-eq avail count = ground arith

module _ {k : ℕ} {r : RingBuf} (v : IsValid k r) where
  write_place : (j : ℕ) → bit_and (add32 r.head j) r.mask ≡ (r.tail + ring_used r + j) % r.size
  write_place j =
      ap (λ p. bit_and p r.mask) {y = add32 (r.tail + ring_used r) j} (omega (arith, head-eq v))
      ∙ place v (r.tail + ring_used r) j

  used-write_bytes :
      (src : ℕ → ℕ) (n : ℕ)
      → n ≤ r.size - ring_used r
      → ring_used (write_bytes r src n) ≡ ring_used r + n
  unfolding write_bytes ring_used
  used-write_bytes src n h = omega (arith, size-le v, v.fits)

  write_bytes-contents :
      (src : ℕ → ℕ) (n : ℕ)
      → n ≤ r.size - ring_used r
      → contents (write_bytes r src n) ≡ contents r ++ cells src 0 n
  unfolding write_bytes
  write_bytes-contents src n h =
      ap (λ u. window (write_bytes r src n).storage r.size r.tail u) (used-write_bytes src n h)
      ∙ window-write_loop r.size (r.tail + ring_used r) r.head r.mask src write_place r.storage
          r.tail (ring_used r) 0 n (omega arith) (omega (arith, v.fits))

  write_bytes-IsValid :
      (src : ℕ → ℕ) (n : ℕ) → n ≤ r.size - ring_used r → IsValid k (write_bytes r src n)
  unfolding write_bytes
  write_bytes-IsValid src n h = record {
    width = v.width;
    power = v.power;
    masks = v.masks;
    head_word = omega arith;
    tail_word = v.tail_word;
    fits = omega (arith, used-write_bytes src n h, v.fits);
  }

  -- `ring_write` takes as many bytes as fit, appends exactly those, in order, and keeps the
  -- invariant.
  pub ring_write_lem :
      (src : ℕ → ℕ) (count : ℕ)
      → let (n, r') = ring_write r src count in
        (n ≡ min count (r.size - ring_used r))
        × (contents r' ≡ contents r ++ cells src 0 n)
        × IsValid k r'
  unfolding ring_write
  ring_write_lem src count = (
    bound,
    write_bytes-contents src n (omega (arith, bound)),
    write_bytes-IsValid src n (omega (arith, bound)),
  )
    where
      n : ℕ
      n = at_most (ring_free r) count

      bound : n ≡ min count (r.size - ring_used r)
      bound = at_most-eq (ring_free r) count ∙ rw (free-eq v)

  used-read_bytes :
      (dst : ℕ → ℕ) (n : ℕ) → n ≤ ring_used r → ring_used (read_bytes r dst n).1 ≡ ring_used r - n
  unfolding read_bytes ring_used
  used-read_bytes dst n h = omega (arith, v.head_word, v.tail_word)

  read_bytes-contents :
      (dst : ℕ → ℕ) (n : ℕ)
      → n ≤ ring_used r
      → contents (read_bytes r dst n).1 ≡ drop n (contents r)
  unfolding read_bytes
  read_bytes-contents dst n h =
      ap (λ u. window r.storage r.size (add32 r.tail n) u) (used-read_bytes dst n h)
      ∙ window_mod r.storage r.size (add32 r.tail n) (r.tail + n) (ring_used r - n) wrap
      ∙ sym (drop-window r.storage r.size r.tail (ring_used r) n h)
    where
      wrap : add32 r.tail n % r.size ≡ (r.tail + n) % r.size
      wrap = rw v.power (pow-mod_32 k (r.tail + n) (omega (arith, v.width)))

  read_bytes-out :
      (dst : ℕ → ℕ) (n : ℕ)
      → n ≤ ring_used r
      → cells (read_bytes r dst n).0 0 n ≡ take n (contents r)
  unfolding read_bytes
  read_bytes-out dst n h =
      cells-eq-window (read_bytes r dst n).0 r.storage r.size r.tail 0 n (λ j l.
        read_loop-at r.size r.tail r.mask r.storage (place v r.tail) dst 0 n (0 + j) ∙ ground arith)
      ∙ sym (take-window r.storage r.size r.tail (ring_used r) n h)

  read_bytes-IsValid : (dst : ℕ → ℕ) (n : ℕ) → n ≤ ring_used r → IsValid k (read_bytes r dst n).1
  unfolding read_bytes
  read_bytes-IsValid dst n h = record {
    width = v.width;
    power = v.power;
    masks = v.masks;
    head_word = v.head_word;
    tail_word = omega arith;
    fits = omega (arith, used-read_bytes dst n h, v.fits);
  }

  -- `ring_read` hands out the oldest bytes, as many as there are or were asked for, in order,
  -- writes no other byte of the buffer, removes exactly those and keeps the invariant.
  pub ring_read_lem :
      (dst : ℕ → ℕ) (count : ℕ)
      → let (n, (out, r')) = ring_read r dst count in
        (n ≡ min count (ring_used r))
        × (cells out 0 n ≡ take n (contents r))
        × ((j : ℕ) → n ≤ j → out j ≡ dst j)
        × (contents r' ≡ drop n (contents r))
        × IsValid k r'
  unfolding ring_read read_bytes
  ring_read_lem dst count = (
    bound,
    read_bytes-out dst n (omega (arith, bound)),
    λ j h. read_loop-at r.size r.tail r.mask r.storage (place v r.tail) dst 0 n j ∙ ground arith,
    read_bytes-contents dst n (omega (arith, bound)),
    read_bytes-IsValid dst n (omega (arith, bound)),
  )
    where
      n : ℕ
      n = at_most (ring_used r) count

      bound : n ≡ min count (ring_used r)
      bound = at_most-eq (ring_used r) count
