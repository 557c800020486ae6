-- ===== src/IdPool/Alloc.antt =====
-- What allocating and freeing do to the set of ids in use and to the count of free ones.
use alze_os.Base.{
  ℕ, ◌+◌, ◌^◌, ◌<◌, ◌≡◌, ◌≢◌, refl, ◌∙◌, true, false, not, ◌||◌, ◌==◌, arith, ◌&&◌, ap, ℤ, pos,
  negsuc,
}
use alze_os.Bits.{
  bit, bit-le-one, zero-bit, bit_ext, set_bit, clear_bit, test_bit-eq, bit-set_bit, bit-clear_bit,
  set_bit-lt, clear_bit-lt, bsf, bsf-IsLowest, IsLowest, popcount-change,
}
use alze_os.IdPool.{IdPool, id_pool_init, id_alloc, id_free, id_is_used, id_pool_count_free}

-- The bitmap is a word of 64 bits.
pub record IsValid (p : IdPool) : Type 0 where
  pub word : p.bitmap < 2 ^ 64

pub id_is_used-bit : (p : IdPool) (i : ℕ) → i < 64 → id_is_used p (pos i) ≡ (bit p.bitmap i == 0)
unfolding id_is_used
id_is_used-bit p i h = ground (arith, test_bit-eq p.bitmap i, bit-le-one p.bitmap i)

pub id_pool_init-IsValid : IsValid id_pool_init
unfolding id_pool_init
id_pool_init-IsValid = record { word = omega arith }

lowest : (p : IdPool) → IsValid p → p.bitmap ≢ 0 → IsLowest p.bitmap 64 (bsf 64 p.bitmap)
lowest p v ne = bsf-IsLowest 64 p.bitmap ne v.word

pub id_alloc-IsValid : (p : IdPool) → IsValid p → IsValid (id_alloc p).1
unfolding id_alloc
id_alloc-IsValid p v = record {
  word = ground (arith, v.word, clear_bit-lt p.bitmap (bsf 64 p.bitmap) v.word);
}

pub id_free-IsValid : (p : IdPool) (i : ℤ) → IsValid p → IsValid (id_free p i)
unfolding id_free
id_free-IsValid p (negsuc n) v = v
id_free-IsValid p (pos i) v = record { word = ground (arith, v.word, set_bit-lt p.bitmap i v.word) }

-- What one allocation does, when it succeeds.
pub record Allocated (p : IdPool) (i : ℕ) (r : ℤ × IdPool) : Type 0 where
  pub id : r.0 ≡ pos i
  pub inside : i < 64
  pub was_free : id_is_used p (pos i) ≡ false
  pub least : (j : ℕ) → j < i → id_is_used p (pos j) ≡ true
  pub marks : (j : ℕ) → j < 64 → id_is_used r.1 (pos j) ≡ (j == i || id_is_used p (pos j))
  pub counts : id_pool_count_free r.1 + 1 ≡ id_pool_count_free p

bitmap-ne-zero : (p : IdPool) (j : ℕ) → j < 64 → id_is_used p (pos j) ≡ false → p.bitmap ≢ 0
bitmap-ne-zero p j h free e = ground (arith, id_is_used-bit p j h, ap (λ b. bit b j) e, zero-bit j)

bitmap-zero :
    (p : IdPool) → IsValid p → ((j : ℕ) → j < 64 → id_is_used p (pos j) ≡ true) → p.bitmap ≡ 0
bitmap-zero p v used =
    bit_ext 64 p.bitmap 0 v.word (omega arith)
      (λ j h. ground (arith, used j h, id_is_used-bit p j h, zero-bit j))

taken : IdPool → IdPool
taken p = record p { bitmap = clear_bit p.bitmap (bsf 64 p.bitmap) }

id_alloc-eq : (p : IdPool) → p.bitmap ≢ 0 → id_alloc p ≡ (pos (bsf 64 p.bitmap), taken p)
unfolding id_alloc taken
id_alloc-eq p ne = ground arith

taken-used :
    (p : IdPool)
    → IsValid p
    → (i : ℕ) → i < 64
    → (j : ℕ) → j < 64
    → id_is_used (record { bitmap = clear_bit p.bitmap i }) (pos j)
      ≡ (j == i || id_is_used p (pos j))
taken-used p v i hi j h =
    id_is_used-bit (record { bitmap = clear_bit p.bitmap i }) j h
    ∙ ground
        (arith, id_is_used-bit p j h, bit-clear_bit p.bitmap i j v.word hi, bit-le-one p.bitmap j)

taken-count :
    (p : IdPool) (i : ℕ)
    → IsValid p
    → i < 64
    → bit p.bitmap i ≡ 1
    → id_pool_count_free (record { bitmap = clear_bit p.bitmap i }) + 1 ≡ id_pool_count_free p
unfolding id_pool_count_free
taken-count p i v h one = omega (
  arith,
  popcount-change 64 i p.bitmap (clear_bit p.bitmap i) h
      (λ j ne. ground (arith, bit-clear_bit p.bitmap i j v.word h)),
  change,
  one,
)
  where
    change : bit (clear_bit p.bitmap i) i ≡ 0
    change = ground (arith, bit-clear_bit p.bitmap i i v.word h)

-- Unless every id is in use, `id_alloc` returns the least free id, marks it and no other as
-- used, and lowers the count of free ids by one.
pub id_alloc-Allocated :
    (p : IdPool) (j : ℕ)
    → IsValid p
    → j < 64
    → id_is_used p (pos j) ≡ false
    → Allocated p (bsf 64 p.bitmap) (id_alloc p)
unfolding taken
id_alloc-Allocated p j v h free =
    let ne = bitmap-ne-zero p j h free in
    let l = lowest p v ne in
    rw (id_alloc-eq p ne) (record {
      id = refl;
      inside = l.inside;
      was_free = ground (arith, id_is_used-bit p (bsf 64 p.bitmap) l.inside, l.set);
      least =
          λ k below. ground (arith, id_is_used-bit p k (omega (arith, l.inside)), l.below k below);
      marks = taken-used p v (bsf 64 p.bitmap) l.inside;
      counts = taken-count p (bsf 64 p.bitmap) v l.inside l.set;
    })

-- When every id is in use, `id_alloc` returns -1 and changes nothing.
pub id_alloc-full :
    (p : IdPool)
    → IsValid p
    → ((j : ℕ) → j < 64 → id_is_used p (pos j) ≡ true)
    → id_alloc p ≡ (negsuc 0, p)
unfolding id_alloc
id_alloc-full p v used = ground (arith, bitmap-zero p v used)

-- `id_free` marks one id as free, whether it was in use or not, and leaves the others.
pub id_is_used-id_free :
    (p : IdPool) (i j : ℕ)
    → i < 64
    → j < 64
    → id_is_used (id_free p (pos i)) (pos j) ≡ (not (j == i) && id_is_used p (pos j))
unfolding id_free
id_is_used-id_free p i j hi h = ground (
  arith,
  id_is_used-bit p j h,
  id_is_used-bit (record p { bitmap = set_bit p.bitmap i }) j h,
  bit-set_bit p.bitmap i j,
)

-- Freeing the id that was just allocated gives back the pool.
pub id_free-id_alloc :
    (p : IdPool) (j : ℕ)
    → IsValid p
    → j < 64
    → id_is_used p (pos j) ≡ false
    → id_free (id_alloc p).1 (id_alloc p).0 ≡ p
unfolding id_free taken
id_free-id_alloc p j v h free =
    let ne = bitmap-ne-zero p j h free in
    let l = lowest p v ne in
    let i = bsf 64 p.bitmap in
    rw (id_alloc-eq p ne) (ground (arith, l.inside, back p i v l.inside l.set))
  where
    back :
        (p : IdPool) (i : ℕ)
        → IsValid p
        → i < 64
        → bit p.bitmap i ≡ 1
        → set_bit (clear_bit p.bitmap i) i ≡ p.bitmap
    back p i v hi one =
        bit_ext 64 (set_bit (clear_bit p.bitmap i) i) p.bitmap
          (set_bit-lt (clear_bit p.bitmap i) i (clear_bit-lt p.bitmap i v.word) hi) v.word
          (λ j l. ground (
            arith,
            bit-set_bit (clear_bit p.bitmap i) i j,
            bit-clear_bit p.bitmap i j v.word hi,
            one,
          ))
