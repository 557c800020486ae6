-- ===== src/Pmm/Refs.antt =====
-- kernel/pmm.c: the reference counts of pages.
use alze_os.Base.{
  ℕ, ◌+◌, ◌-◌, ◌%◌, ◌^◌, ◌≡◌, ◌<◌, ◌==◌, ◌&&◌, ltb, if◌then◌else◌, Bool, true, Option, none, some,
  update, arith,
}
use alze_os.Pmm.{Pmm, page_size, phys_to_pfn}

-- The assertions of the three functions on reference counts.
abbrev pub valid_phys : ℕ → Pmm → Bool
valid_phys phys st = phys % page_size == 0 && ltb (phys_to_pfn phys) st.total_pfns

abbrev pub set_ref : ℕ → ℕ → Pmm → Pmm
set_ref pfn n st = record st {
  pages = update st.pages pfn (record (st.pages pfn) { ref_count = n });
}

unfoldable pub pmm_ref_inc : ℕ → Pmm → Option Pmm
pmm_ref_inc phys st =
    let pfn = phys_to_pfn phys in
    if valid_phys phys st
    then some (set_ref pfn (((st.pages pfn).ref_count + 1) % 2 ^ 32) st)
    else none

-- The new count.
unfoldable pub pmm_ref_dec : ℕ → Pmm → Option (ℕ × Pmm)
pmm_ref_dec phys st =
    let pfn = phys_to_pfn phys in
    let n = (st.pages pfn).ref_count in
    if valid_phys phys st && ltb 0 n then some (n - 1, set_ref pfn (n - 1) st) else none

unfoldable pub pmm_ref_get : ℕ → Pmm → Option ℕ
pmm_ref_get phys st =
    if valid_phys phys st then some (st.pages (phys_to_pfn phys)).ref_count else none

-- A reference taken on a page and dropped again: the count comes back, and what is read between
-- is one more. The count of the page is below its largest value.
pub pmm_ref_dec-pmm_ref_inc :
    (phys n : ℕ) (st : Pmm)
    → pmm_ref_get phys st ≡ some n
    → n < 2 ^ 32 - 1
    → (st' : Pmm) × (pmm_ref_inc phys st ≡ some st')
      × (pmm_ref_get phys st' ≡ some (n + 1))
      × ((st'' : Pmm) × (pmm_ref_dec phys st' ≡ some (n, st'')) × (pmm_ref_get phys st'' ≡ some n))
unfolding pmm_ref_get pmm_ref_inc pmm_ref_dec
pmm_ref_dec-pmm_ref_inc phys n st g h =
    let p = phys_to_pfn phys in
    let valid : valid_phys phys st ≡ true = ground arith in
    let count : (st.pages p).ref_count ≡ n = ground arith in
    let up = set_ref p (n + 1) st in
    (
      up,
      ground (arith, valid, count),
      ground (arith, valid),
      (set_ref p n up, ground (arith, valid), ground (arith, valid)),
    )
