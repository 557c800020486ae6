-- ===== src/Vmm/Count.antt =====
-- kernel/vmm.c, `vmm_dump_tables` and `vmm_audit_wx`: the pages that the tables map, counted.
use alze_os.Base.{ℕ, zero, suc, ◌+◌, ◌%◌, ◌^◌, ◌==◌, ◌||◌, not, if◌then◌else◌}
use alze_os.Vmm.{Vmm, Tables, has_flag, pte_to_phys, pte_present, pte_huge, is_wx}

-- The entries below `n` of a table, added up.
unfoldable pub sum_entries : (ℕ → ℕ) → ℕ → ℕ
sum_entries f zero = 0
sum_entries f (suc n) = sum_entries f n + f n

-- The nested loops over the tables of the lower levels, with `small` for each 4 KB page and `large`
-- for each 2 MB page. Pages of 1 GB are passed over.
module _ (small large : ℕ → ℕ) (tables : Tables) where
  unfoldable pub count_pt : ℕ → ℕ
  unfolding has_flag
  count_pt pt =
      sum_entries (λ l. if has_flag (tables pt l) pte_present then small (tables pt l) else 0) 512

  unfoldable pub pd_entry : ℕ → ℕ
  unfolding count_pt has_flag pte_to_phys
  pd_entry entry =
      let below = count_pt (pte_to_phys entry) in
      if not (has_flag entry pte_present)
      then 0
      else if has_flag entry pte_huge
      then large entry
      else below

  unfoldable pub pdpt_entry : ℕ → ℕ
  unfolding pd_entry has_flag pte_to_phys
  pdpt_entry entry =
      let below = sum_entries (λ k. pd_entry (tables (pte_to_phys entry) k)) 512 in
      if not (has_flag entry pte_present) || has_flag entry pte_huge then 0 else below

  unfoldable pub pml4_entry : ℕ → ℕ
  unfolding pdpt_entry has_flag pte_to_phys
  pml4_entry entry =
      let below = sum_entries (λ j. pdpt_entry (tables (pte_to_phys entry) j)) 512 in
      if has_flag entry pte_present then below else 0

  unfoldable pub count_pages : ℕ → ℕ
  unfolding pml4_entry
  count_pages pml4 = sum_entries (λ i. pml4_entry (tables pml4 i)) 512

-- The pages of 4 KB and of 2 MB.
unfoldable pub vmm_dump_tables : Vmm → ℕ × ℕ
unfolding count_pages
vmm_dump_tables v = if v.pml4_phys == 0 then (0, 0) else (
  count_pages (λ e. 1) (λ e. 0) v.tables v.pml4_phys % 2 ^ 32,
  count_pages (λ e. 0) (λ e. 1) v.tables v.pml4_phys % 2 ^ 32,
)

unfoldable pub violation : ℕ → ℕ
unfolding is_wx
violation entry = if is_wx entry then 1 else 0

unfoldable pub vmm_audit_wx : Vmm → ℕ
unfolding count_pages violation
vmm_audit_wx v =
    if v.pml4_phys == 0 then 0 else count_pages violation violation v.tables v.pml4_phys % 2 ^ 32
