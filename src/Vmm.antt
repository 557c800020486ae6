-- ===== src/Vmm.antt =====
-- kernel/vmm.c: the page tables. A table is known by its physical address and holds 512 entries;
-- the direct map, through which the source reaches them, is left out. `none` is a failed
-- assertion. Flushes of the translation buffer and log lines are not part of the state. Every caller
-- of `get_or_create_entry` lets it allocate.
pub mod Entries
pub mod Walk
pub mod Create
pub mod State
pub mod Next
pub mod Way
pub mod Write
pub mod Map
pub mod Unmap
pub mod Huge
pub mod Loop
pub mod Range
pub mod RangeHuge
pub mod Count
pub mod Audit
mod Tests
use alze_os.Base.{
  ℕ, zero, suc, ◌+◌, ◌-◌, ◌*◌, ◌/◌, ◌%◌, ◌^◌, ◌==◌, ◌&&◌, ◌||◌, not, if◌then◌else◌, update, bit_and,
  bit_or, Bool, true, false, Option, none, some,
}
use alze_os.Pmm.{Pmm, add64, page_size, pmm_alloc_pages}

abbrev pub pte_present : ℕ
pte_present = 2 ^ 0

abbrev pub pte_write : ℕ
pte_write = 2 ^ 1

abbrev pub pte_huge : ℕ
pte_huge = 2 ^ 7

abbrev pub pte_nx : ℕ
pte_nx = 2 ^ 63

abbrev pub pte_addr_mask : ℕ
pte_addr_mask = 0x000FFFFFFFFFF000

abbrev pub pml4_index : ℕ → ℕ
pml4_index va = va / 2 ^ 39 % 512

abbrev pub pdpt_index : ℕ → ℕ
pdpt_index va = va / 2 ^ 30 % 512

abbrev pub pd_index : ℕ → ℕ
pd_index va = va / 2 ^ 21 % 512

abbrev pub pt_index : ℕ → ℕ
pt_index va = va / 2 ^ 12 % 512

abbrev pub Tables : Type 0
Tables = ℕ → ℕ → ℕ

pub record Vmm : Type 0 where
  pub pml4_phys : ℕ
  pub tables : Tables
  pub tables_allocated : ℕ
  pub wx_enforced : Bool
  pub pmm : Pmm

-- `entry & flag`, as a test.
unfoldable pub has_flag : ℕ → ℕ → Bool
has_flag entry flag = not (bit_and entry flag == 0)

unfoldable pub pte_to_phys : ℕ → ℕ
pte_to_phys pte = bit_and pte pte_addr_mask

-- `table[index] = entry;`
abbrev pub set_entry : ℕ → ℕ → ℕ → Tables → Tables
set_entry table index entry tables = update tables table (update (tables table) index entry)

infixl 5 ◌>>=◌
abbrev pub ◌>>=◌ : {A B : Type 0} → Option A → (A → Option B) → Option B
none >>= f = none
some a >>= f = f a

-- A new zeroed table at `new`, and the entry that points to it.
abbrev pub link_table : ℕ → ℕ → ℕ → Tables → Tables
link_table table index new tables =
    set_entry table index (bit_or (bit_or new pte_present) pte_write) (update tables new (λ _. 0))

unfoldable pub get_or_create_entry : ℕ → ℕ → Vmm → Option Vmm
get_or_create_entry table index v =
    if has_flag (v.tables table index) pte_present then some v else elim (pmm_alloc_pages 0 v.pmm) [
      | none ↦ none
      | some (new, pmm) ↦
          if new == 0
          then none
          else some (record v {
            tables = link_table table index new v.tables;
            tables_allocated = add64 v.tables_allocated 1;
            pmm = pmm;
          })
    ]

-- The entry, and the table that it points to.
unfoldable pub next_table : ℕ → ℕ → Vmm → Option (ℕ × Vmm)
unfolding get_or_create_entry pte_to_phys
next_table table index v =
    get_or_create_entry table index v >>= λ v'. some (pte_to_phys (v'.tables table index), v')

-- `flags`, with the W^X rule once it is enforced.
unfoldable pub enforce_wx : Bool → ℕ → ℕ
unfolding has_flag
enforce_wx enforced flags =
    if enforced && has_flag flags pte_write && not (has_flag flags pte_nx)
    then bit_or flags pte_nx
    else flags

-- The page directory.
unfoldable pub pd_table : ℕ → Vmm → Option (ℕ × Vmm)
unfolding next_table
pd_table virt v = do
  (pdpt, v') ← next_table v.pml4_phys (pml4_index virt) v
  next_table pdpt (pdpt_index virt) v'

-- An entry for a page that is both writable and executable.
unfoldable pub is_wx : ℕ → Bool
unfolding has_flag
is_wx entry = has_flag entry pte_write && not (has_flag entry pte_nx)

-- The table for the last level, if no 2 MB page is in its place.
unfoldable pub page_table : ℕ → Vmm → Option (ℕ × Vmm)
unfolding pd_table next_table has_flag
page_table virt v = do
  (pd, v') ← pd_table virt v
  (pt, v'') ← next_table pd (pd_index virt) v'
  if has_flag (v''.tables pd (pd_index virt)) pte_huge then none else some (pt, v'')

-- The entry of the page.
unfoldable pub write_page : ℕ → ℕ → ℕ → ℕ × Vmm → Option Vmm
unfolding enforce_wx
write_page virt phys flags (pt, v) = some (record v {
  tables = set_entry pt (pt_index virt) (bit_or phys (enforce_wx v.wx_enforced flags)) v.tables;
})

unfoldable pub vmm_map_page : ℕ → ℕ → ℕ → Vmm → Option Vmm
unfolding page_table write_page
vmm_map_page virt phys flags v =
    if not (virt % page_size == 0) || not (phys % page_size == 0) || v.pml4_phys == 0
    then none
    else (page_table virt v >>= write_page virt phys flags)

-- The body of a loop over a range, at the offsets `off`, `off + unit` and so on.
unfoldable pub range_loop : (ℕ → Vmm → Option Vmm) → ℕ → ℕ → ℕ → Vmm → Option Vmm
range_loop body unit zero off v = some v
range_loop body unit (suc rounds) off v = body off v >>= range_loop body unit rounds (off + unit)

-- The loop has one round for each page that is begun. If `size` is not more than 2 ^ 64 - 4096,
-- the offset does not wrap.
unfoldable pub vmm_map_range : ℕ → ℕ → ℕ → ℕ → Vmm → Option Vmm
unfolding range_loop vmm_map_page
vmm_map_range virt phys size flags v =
    range_loop (λ off. vmm_map_page (add64 virt off) (add64 phys off) flags) page_size
      ((size + (page_size - 1)) / page_size) 0 v

-- The entry of a 2 MB page.
unfoldable pub write_huge : ℕ → ℕ → ℕ → ℕ × Vmm → Option Vmm
write_huge virt phys flags (pd, v) = some (record v {
  tables = set_entry pd (pd_index virt) (bit_or (bit_or phys flags) pte_huge) v.tables;
})

unfoldable pub map_huge : ℕ → ℕ → ℕ → Vmm → Option Vmm
unfolding pd_table write_huge
map_huge virt phys flags v = pd_table virt v >>= write_huge virt phys flags

unfoldable pub vmm_map_range_huge : ℕ → ℕ → ℕ → ℕ → Vmm → Option Vmm
unfolding range_loop map_huge
vmm_map_range_huge virt phys size flags v =
    if not (virt % 2 ^ 21 == 0) || not (phys % 2 ^ 21 == 0) || not (size % 2 ^ 21 == 0)
    then none
    else range_loop (λ off. map_huge (add64 virt off) (add64 phys off) flags) (2 ^ 21)
        (size / 2 ^ 21) 0 v

-- The table for the last level, if there is one.
unfoldable pub find_table : Tables → ℕ → ℕ → Option ℕ
unfolding has_flag pte_to_phys
find_table tables pml4 virt =
    let pml4e = tables pml4 (pml4_index virt) in
    let pdpte = tables (pte_to_phys pml4e) (pdpt_index virt) in
    let pde = tables (pte_to_phys pdpte) (pd_index virt) in
    if not (has_flag pml4e pte_present)
    then none
    else if not (has_flag pdpte pte_present)
    then none
    else if not (has_flag pde pte_present)
    then none
    else if has_flag pde pte_huge
    then none
    else some (pte_to_phys pde)

abbrev pub unmap_at : ℕ → Vmm → Option ℕ → Option Vmm
unmap_at virt v none = some v
unmap_at virt v (some pt) = some (record v { tables = set_entry pt (pt_index virt) 0 v.tables })

unfoldable pub vmm_unmap_page : ℕ → Vmm → Option Vmm
unfolding find_table
vmm_unmap_page virt v =
    if not (virt % page_size == 0) || v.pml4_phys == 0
    then none
    else unmap_at virt v (find_table v.tables v.pml4_phys virt)

unfoldable pub vmm_virt_to_phys : Vmm → ℕ → ℕ
unfolding has_flag pte_to_phys
vmm_virt_to_phys v virt =
    let pml4e = v.tables v.pml4_phys (pml4_index virt) in
    let pdpte = v.tables (pte_to_phys pml4e) (pdpt_index virt) in
    let pde = v.tables (pte_to_phys pdpte) (pd_index virt) in
    let pte = v.tables (pte_to_phys pde) (pt_index virt) in
    if v.pml4_phys == 0
    then 0
    else if not (has_flag pml4e pte_present)
    then 0
    else if not (has_flag pdpte pte_present)
    then 0
    else if has_flag pdpte pte_huge
    then bit_or (pte_to_phys pdpte) (virt % 2 ^ 30)
    else if not (has_flag pde pte_present)
    then 0
    else if has_flag pde pte_huge
    then bit_or (pte_to_phys pde) (virt % 2 ^ 21)
    else if not (has_flag pte pte_present)
    then 0
    else bit_or (pte_to_phys pte) (virt % 2 ^ 12)

unfoldable pub vmm_tables_count : Vmm → ℕ
vmm_tables_count v = v.tables_allocated
