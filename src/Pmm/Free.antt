-- ===== src/Pmm/Free.antt =====
-- Freeing: the block joins its free buddies and goes back to a free list.
use mathlib.Core.Path.{subst}
use native.Mathlib.Nat.{one-le-pow}
use alze_os.Base.{
  ℕ, ◌-◌, ◌%◌, ◌^◌, ◌≤◌, ◌<◌, ◌≡◌, ◌≢◌, refl, sym, true, false, inl, inr, ◌⊎◌, none, some, ◌∷◌,
  update, arith,
}
use alze_os.Pmm.{
  Pmm, max_order, page_size, list_add, coalesce, mark_free, free_block, pmm_free_pages, pfn_to_phys,
  phys_to_pfn,
}
use alze_os.Pmm.Blocks.{free, used, held, Block, block, Division, in_range, fill, whole}
use alze_os.Pmm.Inv.{Listing, Inv, NoneHeld, own-in_range, mark_free-Inv, list_add-Inv}
use alze_os.Pmm.Join.{Joining, coalesce-Joining}

-- A block of order `order` from `p` on was given back.
pub record Freed (own : Division) (st : Pmm) (p order : ℕ) (final : Pmm) : Type 0 where
  pub now : Division
  pub lists : Listing
  pub inv : Inv now lists final
  pub none_held : NoneHeld final.total_pfns now
  pub inside : (x : ℕ) → x < st.total_pfns → in_range p (2 ^ order) x ≡ true → (now x).kind ≡ free
  pub outside :
      (x : ℕ)
      → x < st.total_pfns
      → in_range p (2 ^ order) x ≡ false
      → ((now x).kind ≡ (own x).kind) × ((own x).kind ≢ free → now x ≡ own x)
  pub total : final.total_pfns ≡ st.total_pfns

module _ {own : Division} {lists : Listing} (st : Pmm) (p order : ℕ) (inv : Inv own lists st)
    (none_held : NoneHeld st.total_pfns own) (l : p < st.total_pfns)
    (e : own p ≡ block p order used) where
  order_small : order ≤ max_order
  order_small = subst (λ (b : Block). b.order ≤ max_order) e (inv.division.small p l)

  start : Joining st.total_pfns own p (2 ^ order) p order (mark_free p order st)
  unfolding mark_free
  start =
      let at = own-in_range inv p order used l e in
      record {
        now = fill own p (2 ^ order) (whole (block p order held));
        lists = lists;
        inv = mark_free-Inv st p order inv l e;
        merged = record {
          inside = λ x h m. (ground (arith, at x), inr m);
          outside = λ x h m. (ground (arith, at x), m);
        };
        inside = l;
        small = order_small;
        head = ground arith;
        same_total = refl;
      }

  -- The block that was given back is free, alone or as part of a larger block. No other frame
  -- changes from free to not free or back, the blocks in use keep their place and size, and the
  -- state is consistent again.
  pub free_block-Freed : Freed own st p order (free_block p order st)
  unfolding free_block list_add
  free_block-Freed =
      let r = coalesce (max_order - order) p order (mark_free p order st) in
      let j =
        coalesce-Joining none_held (max_order - order) p order (mark_free p order st)
          (omega (arith, order_small)) start in
      let c_held : j.now r.0 ≡ block r.0 r.1 held =
        (j.merged.inside r.0 j.inside (ground (arith, one-le-pow r.1 2))).0 in
      let c_inside : r.0 < r.2.total_pfns = subst (λ t. r.0 < t) (sym j.same_total) j.inside in
      record {
        now = fill j.now r.0 (2 ^ r.1) (whole (block r.0 r.1 free));
        lists = update j.lists r.1 (r.0 ∷ j.lists r.1);
        inv = list_add-Inv r.2 r.0 r.1 j.inv c_inside c_held j.head.0 j.head.1;
        none_held = λ x h. ground (arith, j.merged.outside x, none_held x, j.same_total);
        inside = λ x h m. ground (arith, j.merged.outside x h);
        outside = λ x h m. (
          ground (arith, j.merged.inside x h, j.merged.outside x h),
          λ n. ground (arith, j.merged.inside x h, j.merged.outside x h),
        );
        total = j.same_total;
      }

phys_to_pfn-pfn_to_phys :
    (p : ℕ) → p < 2 ^ 52 → (phys_to_pfn (pfn_to_phys p) ≡ p) × (pfn_to_phys p % page_size ≡ 0)
unfolding phys_to_pfn pfn_to_phys
phys_to_pfn-pfn_to_phys p h = omega arith

pub pmm_free_pages-Freed :
    {own : Division} {lists : Listing} (st : Pmm) (p order : ℕ)
    → Inv own lists st
    → NoneHeld st.total_pfns own
    → st.total_pfns ≤ 2 ^ 52
    → p < st.total_pfns
    → own p ≡ block p order used
    → (pmm_free_pages (pfn_to_phys p) order st ≡ some (free_block p order st))
      × Freed own st p order (free_block p order st)
unfolding pmm_free_pages
pmm_free_pages-Freed st p order inv none_held m l e =
    let (q, z) = phys_to_pfn-pfn_to_phys p (omega arith) in
    (
      rw q (
          ground
            (arith, z, order_small st p order inv none_held l e, inv.heads.used_head p order l e)),
      free_block-Freed st p order inv none_held l e,
    )

-- A second free of the same block, and the free of an address that is not a page's, of a page
-- beyond the managed memory, or with an order that is too large, halt the machine.
pub pmm_free_pages-halts :
    {own : Division} {lists : Listing} (st : Pmm) (phys order : ℕ)
    → Inv own lists st
    → (((j : ℕ) × (phys_to_pfn phys < st.total_pfns)
          × (own (phys_to_pfn phys) ≡ block (phys_to_pfn phys) j free))
        ⊎ (phys % page_size ≢ 0))
      ⊎ ((st.total_pfns ≤ phys_to_pfn phys) ⊎ (max_order < order))
    → pmm_free_pages phys order st ≡ none
unfolding pmm_free_pages
pmm_free_pages-halts st phys order inv (inl (inl (j, l, e))) =
    rw (inv.heads.free_head (phys_to_pfn phys) j l e).0 (ground arith)
pmm_free_pages-halts st phys order inv (inl (inr unaligned)) = ground arith
pmm_free_pages-halts st phys order inv (inr bad) = ground arith
