-- ===== src/Pmm/Counts.antt =====
-- kernel/pmm.c: the counters of free and used pages.
use native.Mathlib.Nat.{pow-suc, pow-le-pow_right}
use alze_os.Base.{
  ℕ, zero, suc, ◌+◌, ◌-◌, ◌%◌, ◌^◌, ◌≤◌, ◌<◌, ◌≡◌, refl, sym, ap, ap₂, ◌∙◌, ltb, if◌then◌else◌,
  Bool-cases, Option-cases, inl, inr, ◌⊎◌, some, arith,
}
use alze_os.Pmm.{
  Pmm, max_order, list_add, list_remove, set_page, clear_head, add64, sub64, take_block, split_once,
  split, find_block, mark_used, pmm_alloc_pages, coalesce, join_once, is_buddy_free, buddy_pfn,
  mark_free, free_block, pmm_free_pages, phys_to_pfn, pmm_free_count, pmm_used_count, pmm_peak_used,
}

split_once-counts :
    (b o : ℕ) (st st' : Pmm)
    → split_once b o st ≡ some st'
    → (st'.free_pages ≡ add64 st.free_pages (2 ^ o))
      × (st'.used_pages ≡ st.used_pages)
      × (st'.peak_used ≡ st.peak_used)
unfolding split_once list_add set_page
split_once-counts b o st st' e = ground arith

split-counts :
    (b o d : ℕ) (st st' : Pmm)
    → o + d ≤ max_order
    → st.free_pages < 2 ^ 64
    → split b o d st ≡ some st'
    → (st'.free_pages < 2 ^ 64)
      × ((st'.free_pages + 2 ^ o) % 2 ^ 64 ≡ (st.free_pages + 2 ^ (o + d)) % 2 ^ 64)
      × (st'.used_pages ≡ st.used_pages)
      × (st'.peak_used ≡ st.peak_used)
unfolding split
split-counts b o zero st st' m h e =
    ground (arith, ap (λ (t : ℕ). 2 ^ t) {x = o} {y = o + 0} (omega arith))
split-counts b o (suc d) st st' m h e = elim (Option-cases (split_once b (o + d) st)) [
  | inl stuck ↦ absurd (ground (arith, stuck))
  | inr (next, once) ↦
      (let (f, u, p) = split_once-counts b (o + d) st next once in
        let rest =
          split-counts b o d next st' (omega arith) (omega (arith, f)) (ground (arith, once)) in
        (
          rest.0,
          omega (
            arith,
            rest.1,
            f,
            pow-suc 2 (o + d),
            ap (λ (t : ℕ). 2 ^ t) {x = o + suc d} {y = suc (o + d)} (omega arith),
          ),
          rest.2 ∙ u,
          rest.3 ∙ p,
        ))
]

find_block-range :
    (st : Pmm) (n o k b : ℕ) → find_block st o n ≡ some (k, b) → (o ≤ k) × (k < o + n)
unfolding find_block
find_block-range st zero o k b e = absurd (ground arith)
find_block-range st (suc n) o k b e = elim (Option-cases (st.free_lists o).head) [
  | inl nil ↦ (let r = find_block-range st n (suc o) k b (ground (arith, nil)) in omega (arith, r))
  | inr (x, head) ↦ ground (arith, head)
]

take_block-counts :
    (o b : ℕ) (st : Pmm)
    → ((take_block o b st).free_pages ≡ sub64 st.free_pages (2 ^ o))
      × ((take_block o b st).used_pages ≡ st.used_pages)
      × ((take_block o b st).peak_used ≡ st.peak_used)
unfolding take_block clear_head list_remove
take_block-counts o b st = (refl, refl, refl)

pow-small : (o : ℕ) → o ≤ max_order → 2 ^ o ≤ 1024
pow-small o h = pow-le-pow_right (omega arith) h

mark_used-counts :
    (b o : ℕ) (st : Pmm)
    → ((mark_used b o st).free_pages ≡ st.free_pages)
      × ((mark_used b o st).used_pages ≡ add64 st.used_pages (2 ^ o))
      × ((mark_used b o st).peak_used ≡ (
          if ltb st.peak_used (add64 st.used_pages (2 ^ o))
          then add64 st.used_pages (2 ^ o)
          else st.peak_used))
unfolding mark_used
mark_used-counts b o st = (refl, refl, refl)

-- An allocation that returns changes nothing and returns 0, or moves exactly the pages asked for
-- from the count of free pages to that of used pages, whatever block it splits to find them, and
-- the peak is the larger of the old peak and the new count of used pages.
pub pmm_alloc_pages-counts :
    (order : ℕ) (st : Pmm) (addr : ℕ) (st' : Pmm)
    → st.free_pages < 2 ^ 64
    → pmm_alloc_pages order st ≡ some (addr, st')
    → ((addr ≡ 0) × (st' ≡ st))
      ⊎ ((pmm_free_count st' ≡ sub64 (pmm_free_count st) (2 ^ order))
          × (pmm_used_count st' ≡ add64 (pmm_used_count st) (2 ^ order))
          × (pmm_peak_used st' ≡ (
              if ltb (pmm_peak_used st) (pmm_used_count st')
              then pmm_used_count st'
              else pmm_peak_used st)))
unfolding pmm_alloc_pages pmm_free_count pmm_used_count pmm_peak_used
pmm_alloc_pages-counts order st addr st' h e =
    elim (Option-cases (find_block st order (suc max_order - order))) [
      | inl nothing ↦ inl (ground (arith, nothing))
      | inr ((o, b), found) ↦ elim (Option-cases (split b order (o - order) (take_block o b st))) [
        | inl stuck ↦ absurd (ground (arith, found, stuck))
        | inr (last, halved) ↦
            (let r = find_block-range st (suc max_order - order) order o b found in
              let t = take_block-counts o b st in
              let s =
                split-counts b order (o - order) (take_block o b st) last (omega (arith, r))
                  (omega (arith, t)) halved in
              let same : 2 ^ (order + (o - order)) ≡ 2 ^ o =
                ap (λ t. 2 ^ t) {x = order + (o - order)} (omega (arith, r)) in
              let is_last : st' ≡ mark_used b order last = ground (arith, found, halved) in
              let m = mark_used-counts b order last in
              let u : st'.used_pages ≡ add64 st.used_pages (2 ^ order) =
                ap (λ (q : Pmm). q.used_pages) is_last
                ∙ m.1
                ∙ ap (λ (t : ℕ). add64 t (2 ^ order)) (s.2 ∙ t.1) in
              inr (
                ap (λ (q : Pmm). q.free_pages) is_last
                    ∙ omega (
                      arith,
                      s,
                      t,
                      same,
                      m,
                      pow-small o (omega (arith, r)),
                      pow-small order (omega (arith, r)),
                    ),
                u,
                ap (λ (q : Pmm). q.peak_used) is_last
                    ∙ m.2
                    ∙ ap₂ (λ (p n : ℕ). if ltb p n then n else p) (s.3 ∙ t.2)
                        (sym (u ∙ ap (λ (t : ℕ). add64 t (2 ^ order)) (sym (s.2 ∙ t.1)))),
              ))
      ]
    ]

coalesce-counts :
    (n p o : ℕ) (st : Pmm)
    → ((coalesce n p o st).2.free_pages ≡ st.free_pages)
      × ((coalesce n p o st).2.used_pages ≡ st.used_pages)
      × ((coalesce n p o st).2.peak_used ≡ st.peak_used)
unfolding coalesce join_once set_page clear_head list_remove
coalesce-counts zero p o st = (refl, refl, refl)
coalesce-counts (suc n) p o st = elim (Bool-cases (is_buddy_free st (buddy_pfn p o) o)) [
  | inl joins ↦
      rw (joins, coalesce) (coalesce-counts n (join_once p o st).0 (suc o) (join_once p o st).1)
  | inr stops ↦ rw (stops, coalesce) (refl, refl, refl)
]

free_block-counts :
    (p o : ℕ) (st : Pmm)
    → ((free_block p o st).free_pages ≡ add64 st.free_pages (2 ^ o))
      × ((free_block p o st).used_pages ≡ sub64 st.used_pages (2 ^ o))
      × ((free_block p o st).peak_used ≡ st.peak_used)
unfolding free_block list_add mark_free
free_block-counts p o st = coalesce-counts (max_order - o) p o (mark_free p o st)

-- Giving a block back moves exactly its pages from the count of used pages to that of free pages,
-- whatever buddies it joins, and leaves the peak.
pub pmm_free_pages-counts :
    (phys order : ℕ) (st st' : Pmm)
    → pmm_free_pages phys order st ≡ some st'
    → (pmm_free_count st' ≡ add64 (pmm_free_count st) (2 ^ order))
      × (pmm_used_count st' ≡ sub64 (pmm_used_count st) (2 ^ order))
      × (pmm_peak_used st' ≡ pmm_peak_used st)
unfolding pmm_free_pages pmm_free_count pmm_used_count pmm_peak_used
pmm_free_pages-counts phys order st st' e =
    let p = phys_to_pfn phys in
    let c = coalesce-counts (max_order - order) p order (mark_free p order st) in
    let is_last : st' ≡ free_block p order st = ground (arith, e) in
    let f = free_block-counts p order st in
    (
      ap (λ (q : Pmm). q.free_pages) is_last ∙ f.0,
      ap (λ (q : Pmm). q.used_pages) is_last ∙ f.1,
      ap (λ (q : Pmm). q.peak_used) is_last ∙ f.2,
    )
