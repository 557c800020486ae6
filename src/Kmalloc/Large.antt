-- ===== src/Kmalloc/Large.antt =====
-- kernel/kmalloc.c: blocks of whole pages, for more than 2048 bytes.
use native.Mathlib.Decide.{ℕ_discrete, dec_lt}
use native.Mathlib.Nat.{pow-le-pow_right}
use alze_os.Base.{
  ℕ, zero, suc, ◌+◌, ◌-◌, ◌*◌, ◌%◌, ◌^◌, ◌≤◌, ◌<◌, ◌≡◌, ◌≢◌, inl, inr, refl, sym, ap, ◌∙◌, none,
  some, true, false, ltb, ltb→lt, ◌==◌, if◌then◌else◌, Bool-cases, Option-cases, ==_iff, arith,
}
use alze_os.Words.{load, store, load-store, filled}
use alze_os.Strings.{Memory}
use alze_os.Pmm.{
  page_size, Pmm, add64, max_order, pmm_alloc_pages, pmm_alloc_pages_zero, pfn_to_phys,
}
use alze_os.Kmalloc.{
  mapped, Heap, Outcome, returns, halted, kmalloc_init, large_order, alloc_pages, kmalloc_large,
  kmalloc,
}
use alze_os.Kmalloc.Free.{is_large, kmalloc_usable_size}
use alze_os.Kmalloc.Classes.{size_to_class-none}

-- The order of the block for a large request.
abbrev pub order_for : ℕ → ℕ
order_for size = large_order (add64 size 8) 0 max_order

-- The loop stops at the first order that is large enough, or at the last.
record Ordered (needed o n r : ℕ) : Type 0 where
  pub least : o ≤ r
  pub most : r ≤ o + n
  pub enough : needed ≤ 2 ^ (o + n) * 4096 → needed ≤ 2 ^ r * 4096
  pub tight : o < r → 2 ^ (r - 1) * 4096 < needed
  pub last : 2 ^ (o + n) * 4096 < needed → r ≡ o + n

large_order-Ordered : (needed o n : ℕ) → Ordered needed o n (large_order needed o n)
unfolding large_order
large_order-Ordered needed o zero = record {
  least = omega arith;
  most = omega arith;
  enough = λ h. omega (arith, h, ap (λ k. 2 ^ k * 4096) {x = o + 0} {y = o} (omega arith));
  tight = λ h. absurd (omega arith);
  last = λ h. omega arith;
}
large_order-Ordered needed o (suc n) =
    let ih : Ordered needed (suc o) n (large_order needed (suc o) n) =
      large_order-Ordered needed (suc o) n in
    let same : 2 ^ (suc o + n) ≡ 2 ^ (o + suc n) = ap (λ k. 2 ^ k) {x = suc o + n} (omega arith) in
    elim (Bool-cases (ltb (2 ^ o * 4096) needed)) [
      | inl more ↦ rw more (record {
        least = omega (arith, ih.least);
        most = omega (arith, ih.most);
        enough = λ h. ih.enough (omega (arith, h, same));
        tight = λ h. elim (dec_lt (suc o) (large_order needed (suc o) n)) [
          | yes later ↦ ih.tight later
          | no now ↦
              let here : 2 ^ (large_order needed (suc o) n - 1) ≡ 2 ^ o =
                ap (λ k. 2 ^ k) (omega (arith, ih.least)) in
              omega (arith, here, ltb→lt _ _ more)
        ];
        last = λ h. omega (arith, ih.last (omega (arith, h, same)));
      })
      | inr done ↦ rw done (record {
        least = omega arith;
        most = omega arith;
        enough = λ h. ground arith;
        tight = λ h. absurd (omega arith);
        last = λ h.
            let grows : 2 ^ o ≤ 2 ^ (o + suc n) = pow-le-pow_right (omega arith) (omega arith) in
            absurd (ground (arith, grows));
      })
    ]

pub order_for-most : (size : ℕ) → order_for size ≤ max_order
order_for-most size =
    let r : Ordered (add64 size 8) 0 10 (order_for size) =
      large_order-Ordered (add64 size 8) 0 10 in
    omega (arith, r.most)

module _ (hhdm_offset : ℕ) where
  -- What a large request that succeeds has done.
  pub record LargeBlock (size : ℕ) (h : Heap) (p : ℕ) (h' : Heap) : Type 0 where
    pub phys : ℕ
    pub allocated : pmm_alloc_pages (order_for size) h.pmm ≡ some (phys, h'.pmm)
    pub not_null : phys ≢ 0
    pub place : p ≡ phys + hhdm_offset + 8
    pub header : load 8 h'.mem (phys + hhdm_offset) ≡ order_for size

  alloc_pages-some :
      (o : ℕ) (h : Heap) (phys : ℕ) (pmm' : Pmm)
      → pmm_alloc_pages o h.pmm ≡ some (phys, pmm')
      → (mem' : Memory) × (alloc_pages hhdm_offset o h
          ≡ returns (phys, mapped hhdm_offset h mem' pmm'))
  unfolding alloc_pages pmm_alloc_pages_zero
  alloc_pages-some o h phys pmm' e = (
    if phys == 0 then mem else filled phys (2 ^ o * page_size) 0 mem,
    rw (e, alloc_pages, pmm_alloc_pages_zero) refl,
  )
    where
      mem : Memory
      mem a = h.mem (a + hhdm_offset)

  alloc_pages-none :
      (o : ℕ) (h : Heap) → pmm_alloc_pages o h.pmm ≡ none → alloc_pages hhdm_offset o h ≡ halted
  unfolding alloc_pages pmm_alloc_pages_zero
  alloc_pages-none o h e = rw (e, alloc_pages, pmm_alloc_pages_zero) refl

  -- The heap after a block at `phys` has got its header.
  abbrev headed : ℕ → ℕ → Heap → Heap
  headed order phys h = record h {
    mem = store 8 h.mem (phys + hhdm_offset) order;
    large_allocs = add64 h.large_allocs 1;
  }

  kmalloc_large_step :
      (size : ℕ) (h : Heap) (phys : ℕ) (h' : Heap)
      → alloc_pages hhdm_offset (order_for size) h ≡ returns (phys, h')
      → (phys ≡ 0 → kmalloc_large hhdm_offset size h ≡ returns (0, h'))
        × (phys ≢ 0
            → kmalloc_large hhdm_offset size h
              ≡ returns (phys + hhdm_offset + 8, headed (order_for size) phys h'))
  unfolding kmalloc_large
  kmalloc_large_step size h phys h' e =
      let small : ltb max_order (order_for size) ≡ false = ground (arith, order_for-most size) in
      (
        λ z. let t : (phys == 0) ≡ true = ground arith in rw (small, e, t) refl,
        λ z. let t : (phys == 0) ≡ false = ground arith in rw (small, e, t) refl,
      )

  kmalloc_large_halts :
      (size : ℕ) (h : Heap)
      → alloc_pages hhdm_offset (order_for size) h ≡ halted
      → kmalloc_large hhdm_offset size h ≡ halted
  unfolding kmalloc_large
  kmalloc_large_halts size h e =
      let small : ltb max_order (order_for size) ≡ false = ground (arith, order_for-most size) in
      rw (small, e) refl

  block_made :
      (size : ℕ) (h : Heap) (p : ℕ) (h' : Heap) (phys : ℕ) (m : Memory) (pmm' : Pmm)
      → pmm_alloc_pages (order_for size) h.pmm ≡ some (phys, pmm')
      → phys ≢ 0
      → ◌≡◌ {A = Outcome (ℕ × Heap)}
          (returns
            (phys + hhdm_offset + 8, headed (order_for size) phys (mapped hhdm_offset h m pmm')))
          (returns (p, h'))
      → LargeBlock size h p h'
  block_made size h p h' phys m pmm' got pos e =
      let same : headed (order_for size) phys (mapped hhdm_offset h m pmm') ≡ h' = cc e in
      let made = mapped hhdm_offset h m pmm' in
      record {
        phys = phys;
        allocated = got ∙ ap (λ (k : Heap). some (phys, k.pmm)) same;
        not_null = pos;
        place = cc e;
        header =
            ap (λ (k : Heap). load 8 k.mem (phys + hhdm_offset)) (sym same)
            ∙ load-store 8 made.mem (phys + hhdm_offset) (order_for size)
                (omega (arith, order_for-most size));
      }

  pub kmalloc_large-LargeBlock :
      (size : ℕ) (h : Heap) (p : ℕ) (h' : Heap)
      → kmalloc_large hhdm_offset size h ≡ returns (p, h')
      → p ≢ 0
      → LargeBlock size h p h'
  kmalloc_large-LargeBlock size h p h' e pos =
      elim (Option-cases (pmm_alloc_pages (order_for size) h.pmm)) [
        | inl gone ↦ absurd (cc (e, kmalloc_large_halts size h (alloc_pages-none _ h gone)))
        | inr ((phys, pmm'), got) ↦
            let (m, made) = alloc_pages-some (order_for size) h phys pmm' got in
            let step = kmalloc_large_step size h phys (mapped hhdm_offset h m pmm') made in
            elim (ℕ_discrete phys 0) [
              | yes z ↦ absurd (pos (cc (e, step.0 z)))
              | no z ↦ block_made size h p h' phys m pmm' got z (sym (step.1 z) ∙ e)
            ]
      ]

  -- The heap that a request runs on.
  abbrev pub ready : Heap → Heap
  ready h = if h.initialized then h else kmalloc_init h

  pub kmalloc-kmalloc_large :
      (size : ℕ) (h : Heap)
      → 2048 < size
      → kmalloc hhdm_offset size h ≡ kmalloc_large hhdm_offset size (ready h)
  unfolding kmalloc
  kmalloc-kmalloc_large size h l =
      let positive : (size == 0) ≡ false = ground arith in
      rw (positive, (size_to_class-none size).1 l) refl

  pmm_alloc_pages-aligned :
      (order : ℕ) (st : Pmm) (phys : ℕ) (st' : Pmm)
      → pmm_alloc_pages order st ≡ some (phys, st')
      → phys % 4096 ≡ 0
  unfolding pmm_alloc_pages pfn_to_phys
  pmm_alloc_pages-aligned order st phys st' e = ground arith

  module _ (aligned : hhdm_offset % 4096 ≡ 0) (size p : ℕ) (h h' : Heap) (large : 2048 < size)
      (e : kmalloc hhdm_offset size h ≡ returns (p, h')) (pos : p ≢ 0) (fits : p < 2 ^ 64) where
    pub block : LargeBlock size (ready h) p h'
    block =
        kmalloc_large-LargeBlock size (ready h) p h' (sym (kmalloc-kmalloc_large size h large) ∙ e)
          pos

    pub is_large-kmalloc : is_large p ≡ true
    unfolding is_large
    is_large-kmalloc =
        let multiple =
          pmm_alloc_pages-aligned (order_for size) (ready h).pmm block.phys h'.pmm
            block.allocated in
        (==_iff _ 0).1 (omega (arith, block.place))

    pub header_read : load 8 h'.mem (p - 8) % 2 ^ 32 ≡ order_for size
    header_read =
        ap (λ a. load 8 h'.mem a % 2 ^ 32) (omega (arith, block.place))
        ∙ ap (λ k. k % 2 ^ 32) block.header
        ∙ omega (arith, order_for-most size)

    usable : kmalloc_usable_size p h' ≡ 2 ^ order_for size * 4096 - 8
    unfolding kmalloc_usable_size
    usable =
        let not_null : (p == 0) ≡ false = ground arith in
        let small : ltb max_order (order_for size) ≡ false = ground (arith, order_for-most size) in
        rw (not_null, is_large-kmalloc, header_read, small) refl

    -- A larger request, up to where the sum with the header wraps round, that succeeds gets a block
    -- that is too small for it.
    pub kmalloc_usable_size-lt_size :
        2 ^ 22 - 8 < size → size < 2 ^ 64 - 8 → kmalloc_usable_size p h' < size
    kmalloc_usable_size-lt_size l wraps =
        let r : Ordered (size + 8) 0 10 (large_order (size + 8) 0 10) =
          large_order-Ordered (size + 8) 0 10 in
        let whole : order_for size ≡ 10 =
          ap (λ n. large_order n 0 10) {y = size + 8} (omega arith) ∙ r.last (omega arith) in
        omega (arith, usable, ap (λ k. 2 ^ k) whole)
