-- ===== src/Pmm.antt =====
-- kernel/pmm.c, kernel/pmm.h: the buddy allocator of physical pages. A pointer to a page is its
-- index in the page array, `none` for NULL. Each function runs under `pmm_lock`; a failed
-- `PMM_ASSERT` halts the machine and is `none` here.
pub mod Buddy
pub mod Chain
pub mod Blocks
pub mod Inv
pub mod Split
pub mod Alloc
pub mod Join
pub mod Free
pub mod Counts
pub mod Refs
pub mod Tests
use alze_os.Base.{
  ℕ, zero, suc, ◌+◌, ◌-◌, ◌*◌, ◌/◌, ◌%◌, ◌^◌, bit_and, bit_xor, Bool, true, false, not, ◌&&◌, ◌||◌,
  ◌==◌, ltb, leb, if◌then◌else◌, Option, none, some, update,
}

abbrev pub max_order : ℕ
max_order = 10

abbrev pub page_size : ℕ
page_size = 4096

abbrev pub page_free : ℕ
page_free = 0

abbrev pub page_used : ℕ
page_used = 1

abbrev pub page_reserved : ℕ
page_reserved = 2

abbrev pub page_buddy_head : ℕ
page_buddy_head = 4

pub record Page : Type 0 where
  pub next : Option ℕ
  pub prev : Option ℕ
  pub order : ℕ
  pub flags : ℕ
  pub ref_count : ℕ

pub record FreeArea : Type 0 where
  pub head : Option ℕ
  pub count : ℕ

pub record Pmm : Type 0 where
  pub pages : ℕ → Page
  pub total_pfns : ℕ
  pub free_lists : ℕ → FreeArea
  pub free_pages : ℕ
  pub used_pages : ℕ
  pub reserved_pages : ℕ
  pub peak_used : ℕ

-- `uint64_t` and `uint32_t` counters wrap.
abbrev pub add64 : ℕ → ℕ → ℕ
add64 a b = (a + b) % 2 ^ 64

abbrev pub sub64 : ℕ → ℕ → ℕ
sub64 a b = (a + 2 ^ 64 - b) % 2 ^ 64

-- A write to the links of page `x`, if there is one.
abbrev pub set_next : (ℕ → Page) → Option ℕ → Option ℕ → ℕ → Page
set_next pages none v = pages
set_next pages (some x) v = update pages x (record (pages x) { next = v })

abbrev pub set_prev : (ℕ → Page) → Option ℕ → Option ℕ → ℕ → Page
set_prev pages none v = pages
set_prev pages (some x) v = update pages x (record (pages x) { prev = v })

-- The pages after `list_add(area, pg)`, where `head` is the area's head.
unfoldable pub add_links : (ℕ → Page) → Option ℕ → ℕ → ℕ → Page
add_links pages head pg =
    set_prev (update pages pg (record (pages pg) { prev = none; next = head })) head (some pg)

unfoldable pub list_add : ℕ → ℕ → Pmm → Pmm
list_add order pg st = record st {
  pages = add_links st.pages (st.free_lists order).head pg;
  free_lists =
      update st.free_lists order
        (record { head = some pg; count = add64 (st.free_lists order).count 1 });
}

-- The pages after `list_remove(area, pg)`.
unfoldable pub remove_links : (ℕ → Page) → ℕ → ℕ → Page
remove_links pages pg =
    let first = set_next pages (pages pg).prev (pages pg).next in
    let second = set_prev first (first pg).next (first pg).prev in
    update second pg (record (second pg) { prev = none; next = none })

-- `if (pg->prev) … else area->head = pg->next;`
unfoldable pub remove_head : (ℕ → Page) → ℕ → Option ℕ → Option ℕ
remove_head pages pg head = elim (pages pg).prev [ none ↦ (pages pg).next | some _ ↦ head ]

unfoldable pub list_remove : ℕ → ℕ → Pmm → Pmm
list_remove order pg st = record st {
  pages = remove_links st.pages pg;
  free_lists = update st.free_lists order (record {
    head = remove_head st.pages pg (st.free_lists order).head;
    count = sub64 (st.free_lists order).count 1;
  });
}

unfoldable pub pfn_to_phys : ℕ → ℕ
pfn_to_phys pfn = pfn * 2 ^ 12 % 2 ^ 64

unfoldable pub phys_to_pfn : ℕ → ℕ
phys_to_pfn phys = phys / 2 ^ 12

unfoldable pub buddy_pfn : ℕ → ℕ → ℕ
buddy_pfn pfn order = bit_xor pfn (2 ^ order)

unfoldable pub is_buddy_free : Pmm → ℕ → ℕ → Bool
is_buddy_free st bpfn order =
    if leb st.total_pfns bpfn
    then false
    else not (bit_and (st.pages bpfn).flags page_buddy_head == 0) && (st.pages bpfn).order == order

-- A write to the order and the flags of a page.
unfoldable pub set_page : ℕ → ℕ → ℕ → Pmm → Pmm
set_page pfn order flags st = record st {
  pages = update st.pages pfn (record (st.pages pfn) { order = order; flags = flags });
}

-- `page->flags &= ~PAGE_BUDDY_HEAD`
unfoldable pub clear_head : ℕ → Pmm → Pmm
clear_head pfn st = record st {
  pages = update st.pages pfn (record (st.pages pfn) {
    flags = bit_and (st.pages pfn).flags (2 ^ 32 - 1 - page_buddy_head);
  });
}

-- The smallest order from `o` on with a free block, and that block; `n` orders are left to try.
unfoldable pub find_block : Pmm → ℕ → ℕ → Option (ℕ × ℕ)
find_block st o zero = none
find_block st o (suc n) = elim (st.free_lists o).head [
  | some block ↦ some (o, block)
  | none ↦ find_block st (suc o) n
]

-- One round of the split loop: the upper half of the block becomes a free block of order `o`.
unfoldable pub split_once : ℕ → ℕ → Pmm → Option Pmm
split_once block o st =
    let upper = block + 2 ^ o in
    if ltb upper st.total_pfns
    then some (
        let listed = list_add o upper (set_page upper o page_buddy_head st) in
        record listed { free_pages = add64 listed.free_pages (2 ^ o) })
    else none

-- `while (current_order > order)`, with `d` for `current_order - order`.
unfoldable pub split : ℕ → ℕ → ℕ → Pmm → Option Pmm
split block order zero st = some st
split block order (suc d) st = elim (split_once block (order + d) st) [
  | none ↦ none
  | some st' ↦ split block order d st'
]

-- The block leaves its free list: `list_remove`, the flag, and the count of free pages.
unfoldable pub take_block : ℕ → ℕ → Pmm → Pmm
take_block o block st =
    let out = clear_head block (list_remove o block st) in
    record out { free_pages = sub64 out.free_pages (2 ^ o) }

unfoldable pub mark_used : ℕ → ℕ → Pmm → Pmm
mark_used block order st =
    let used = add64 st.used_pages (2 ^ order) in
    record st {
      pages =
          update st.pages block
            (record (st.pages block) { order = order; flags = page_used; ref_count = 1 });
      used_pages = used;
      peak_used = if ltb st.peak_used used then used else st.peak_used;
    }

-- The physical address of the block, 0 when there is none large enough.
unfoldable pub pmm_alloc_pages : ℕ → Pmm → Option (ℕ × Pmm)
pmm_alloc_pages order st =
    if ltb max_order order then none else elim (find_block st order (suc max_order - order)) [
      | none ↦ some (0, st)
      | some (o, block) ↦ elim (split block order (o - order) (take_block o block st)) [
        | none ↦ none
        | some st' ↦ some (pfn_to_phys block, mark_used block order st')
      ]
    ]

-- Memory by physical address beside the allocator's state: `memset` writes through the HHDM.
unfoldable pub pmm_alloc_pages_zero : ℕ → (ℕ → ℕ) → Pmm → Option (ℕ × (ℕ → ℕ) × Pmm)
pmm_alloc_pages_zero order mem st = elim (pmm_alloc_pages order st) [
  | none ↦ none
  | some (addr, st') ↦ some (
    addr,
    (if addr == 0 then mem else λ a.
        if leb addr a && ltb a (addr + 2 ^ order * page_size) then 0 else mem a),
    st',
  )
]

-- One round of the coalescing loop, when the buddy is free: the block and its buddy become one.
unfoldable pub join_once : ℕ → ℕ → Pmm → ℕ × Pmm
join_once pfn order st =
    let bpfn = buddy_pfn pfn order in
    let first = if ltb bpfn pfn then bpfn else pfn in
    (
      first,
      set_page first (suc order) page_buddy_head (clear_head bpfn (list_remove order bpfn st)),
    )

-- `while (order < PMM_MAX_ORDER)`, with `n` for `PMM_MAX_ORDER - order`.
unfoldable pub coalesce : ℕ → ℕ → ℕ → Pmm → ℕ × ℕ × Pmm
coalesce zero pfn order st = (pfn, order, st)
coalesce (suc n) pfn order st = elim (is_buddy_free st (buddy_pfn pfn order) order) [
  | false ↦ (pfn, order, st)
  | true ↦ coalesce n (join_once pfn order st).0 (suc order) (join_once pfn order st).1
]

-- The page's own fields, and the two counts.
unfoldable pub mark_free : ℕ → ℕ → Pmm → Pmm
mark_free pfn order st = record st {
  pages =
      update st.pages pfn
        (record (st.pages pfn) { order = order; flags = page_buddy_head; ref_count = 0 });
  free_pages = add64 st.free_pages (2 ^ order);
  used_pages = sub64 st.used_pages (2 ^ order);
}

unfoldable pub free_block : ℕ → ℕ → Pmm → Pmm
free_block pfn order st =
    let (first, o, st') = coalesce (max_order - order) pfn order (mark_free pfn order st) in
    list_add o first st'

unfoldable pub pmm_free_pages : ℕ → ℕ → Pmm → Option Pmm
pmm_free_pages phys order st =
    if ltb max_order order
      || not (phys % page_size == 0)
      || leb st.total_pfns (phys_to_pfn phys)
      || bit_and (st.pages (phys_to_pfn phys)).flags page_used == 0
    then none
    else some (free_block (phys_to_pfn phys) order st)

unfoldable pub pmm_free_count : Pmm → ℕ
pmm_free_count st = st.free_pages

unfoldable pub pmm_used_count : Pmm → ℕ
pmm_used_count st = st.used_pages

unfoldable pub pmm_peak_used : Pmm → ℕ
pmm_peak_used st = st.peak_used
