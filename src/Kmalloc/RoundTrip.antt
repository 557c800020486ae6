-- ===== src/Kmalloc/RoundTrip.antt =====
-- kernel/kmalloc.c over kernel/pmm.c: a large block that is freed goes back to the page frames.
use native.Mathlib.Nat.{one-le-pow}
use alze_os.Base.{
  ℕ, ◌-◌, ◌*◌, ◌%◌, ◌^◌, ◌≤◌, ◌<◌, ◌≡◌, ◌≢◌, inl, inr, refl, sym, ap, ap₂, ◌∙◌, some, true, false,
  ltb, ◌==◌, Bool-cases, arith,
}
use alze_os.Words.{load}
use alze_os.Strings.{memset}
use alze_os.Pmm.{Pmm, add64, max_order, page_size, pmm_alloc_pages, pmm_free_pages, free_block}
use alze_os.Pmm.Blocks.{Division, in_range, used, block}
use alze_os.Pmm.Inv.{Listing, Inv, NoneHeld}
use alze_os.Pmm.Alloc.{pmm_alloc_pages_lem}
use alze_os.Pmm.Free.{pmm_free_pages-Freed}
use alze_os.Kmalloc.{Heap, returns, kmalloc, kmalloc_init}
use alze_os.Kmalloc.Free.{kfree, kfree_large, is_large, free_pages, poison_byte}
use alze_os.Kmalloc.Large
use alze_os.Kmalloc.Large.{
  header_read, order_for, order_for-most, ready, LargeBlock, is_large-kmalloc,
}

-- The page frames after a large block has been allocated and freed.
pub record Returned (own : Division) (st : Pmm) (st' : Pmm) : Type 0 where
  pub now : Division
  pub lists : Listing
  pub inv : Inv now lists st'
  pub none_held : NoneHeld st'.total_pfns now
  pub total : st'.total_pfns ≡ st.total_pfns
  pub same_kind : (x : ℕ) → x < st.total_pfns → (now x).kind ≡ (own x).kind

allocated-Returned :
    {own : Division} {lists : Listing} (st : Pmm) (order phys : ℕ) (st1 : Pmm)
    → Inv own lists st
    → NoneHeld st.total_pfns own
    → st.total_pfns ≤ 2 ^ 52
    → order ≤ max_order
    → pmm_alloc_pages order st ≡ some (phys, st1)
    → phys ≢ 0
    → (st2 : Pmm) × (pmm_free_pages phys order st1 ≡ some st2) × Returned own st st2
allocated-Returned {own} {lists} st order phys st1 inv none_held reach small e pos =
    elim (pmm_alloc_pages_lem {own = own} {lists = lists} st order inv none_held small) [
      | inl (none_left, _) ↦ absurd (pos (cc (e, none_left)))
      | inr a ↦
          let here : a.now a.pfn ≡ block a.pfn order used =
            (a.carved.inside a.pfn a.inside (ground (arith, one-le-pow order 2))).0 in
          let (done, f) =
            pmm_free_pages-Freed a.final a.pfn order a.inv a.none_held
              (omega (arith, a.total, reach)) (omega (arith, a.total, a.inside)) here in
          (
            free_block a.pfn order a.final,
            ap₂ (λ q s. pmm_free_pages q order s) (cc (e, a.returns)) (cc (e, a.returns)) ∙ done,
            record {
              now = f.now;
              lists = f.lists;
              inv = f.inv;
              none_held = f.none_held;
              total = f.total ∙ a.total;
              same_kind = λ x l. elim (Bool-cases (in_range a.pfn (2 ^ order) x)) [
                | inl m ↦ f.inside x (omega (arith, l, a.total)) m ∙ sym (a.carved.inside x l m).1
                | inr m ↦ (f.outside x (omega (arith, l, a.total)) m).0 ∙ (a.carved.outside x l m).0
              ];
            },
          )
    ]

ready-pmm : (hhdm_offset : ℕ) (h : Heap) → (ready hhdm_offset h).pmm ≡ h.pmm
unfolding kmalloc_init
ready-pmm hhdm_offset h = ground arith

free_pages-some :
    (phys order : ℕ) (h : Heap) (pmm' : Pmm)
    → pmm_free_pages phys order h.pmm ≡ some pmm'
    → free_pages phys order h ≡ returns (record h { pmm = pmm' })
unfolding free_pages
free_pages-some phys order h pmm' e = rw (e, free_pages) refl

kfree-free_pages :
    (hhdm_offset p order : ℕ) (h : Heap) (pmm' : Pmm)
    → p ≢ 0
    → is_large p ≡ true
    → load 8 h.mem (p - 8) % 2 ^ 32 ≡ order
    → order ≤ max_order
    → pmm_free_pages (p - 8 - hhdm_offset) order h.pmm ≡ some pmm'
    → kfree hhdm_offset p h
      ≡ returns (record h {
        mem = memset (p - 8) poison_byte (2 ^ order * page_size) h.mem;
        pmm = pmm';
        large_frees = add64 h.large_frees 1;
      })
unfolding kfree kfree_large
kfree-free_pages hhdm_offset p order h pmm' pos large header small e =
    let not_null : (p == 0) ≡ false = ground arith in
    let fits : ltb max_order order ≡ false = ground arith in
    let poisoned = record h { mem = memset (p - 8) poison_byte (2 ^ order * page_size) h.mem } in
    rw (not_null, large, header, fits, free_pages-some (p - 8 - hhdm_offset) order poisoned pmm' e)
      refl

module _ {own : Division} {lists : Listing} (hhdm_offset : ℕ) (aligned : hhdm_offset % 4096 ≡ 0)
    (size p : ℕ) (h h' : Heap) (large : 2048 < size)
    (e : kmalloc hhdm_offset size h ≡ returns (p, h')) (pos : p ≢ 0) (fits : p < 2 ^ 64) where
  -- A block of more than 2048 bytes that is allocated from a consistent allocator and freed at once
  -- goes back to it: the free succeeds, the allocator is consistent, and every page frame is free or
  -- in use as it was before.
  pub kfree-kmalloc :
      Inv own lists h.pmm
      → NoneHeld h.pmm.total_pfns own
      → h.pmm.total_pfns ≤ 2 ^ 52
      → (h'' : Heap) × (kfree hhdm_offset p h' ≡ returns h'') × Returned own h.pmm h''.pmm
  kfree-kmalloc inv none_held reach =
      let b : LargeBlock hhdm_offset size (ready hhdm_offset h) p h' =
        Large.block hhdm_offset aligned size p h h' large e pos fits in
      let (pmm', freed, returned) =
        allocated-Returned {own = own} {lists = lists} h.pmm (order_for size) b.phys h'.pmm inv
          none_held reach (order_for-most size)
          (ap (λ s. pmm_alloc_pages (order_for size) s) (sym (ready-pmm hhdm_offset h))
            ∙ b.allocated)
          b.not_null in
      (
        record h' {
          mem = memset (p - 8) poison_byte (2 ^ order_for size * page_size) h'.mem;
          pmm = pmm';
          large_frees = add64 h'.large_frees 1;
        },
        kfree-free_pages hhdm_offset p (order_for size) h' pmm' pos
            (is_large-kmalloc hhdm_offset aligned size p h h' large e pos fits)
            (header_read hhdm_offset aligned size p h h' large e pos fits) (order_for-most size)
            (ap (λ q. pmm_free_pages q (order_for size) h'.pmm) {y = b.phys}
                (omega (arith, b.place))
              ∙ freed),
        returned,
      )
