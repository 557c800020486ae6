-- ===== src/Vmm/Tests.antt =====
-- kernel/vmm.c: the page tables at concrete states.
use alze_os.Base.{
  bit_or, ◌-◌, zero, suc, ℕ, ◌+◌, ◌^◌, ◌%◌, ◌≡◌, refl, sym, ap, true, false, ◌==◌, ◌&&◌,
  if◌then◌else◌, inl, inr, ◌⊎◌, none, some, [], arith, Bool-cases, ◌∙◌,
}
use alze_os.Pmm.{Page, Pmm}
use alze_os.Pmm.Blocks.{used, block, Division}
use alze_os.Pmm.Inv.{Listing, Inv}
use alze_os.Vmm.{
  Vmm, Tables, has_flag, pte_to_phys, pte_present, pte_huge, pte_write, vmm_virt_to_phys,
  vmm_map_page, page_table, pd_table, next_table, get_or_create_entry, write_page, enforce_wx,
  is_wx, find_table, vmm_unmap_page, vmm_map_range, vmm_map_range_huge,
}
use alze_os.Vmm.Count.{
  count_pt, pd_entry, pdpt_entry, pml4_entry, count_pages, sum_entries, violation, vmm_audit_wx,
}
use alze_os.Vmm.Walk.{Tree, walk, vmm_virt_to_phys-walk}
use alze_os.Vmm.State.{IsVmm}
use alze_os.Vmm.Entries.{IsFlags, bit_or-IsFlags, pow-IsFlags}
use alze_os.Vmm.Write.{Changed, page_number}
use alze_os.Vmm.Map.{vmm_map_page-vmm_virt_to_phys}
use alze_os.Vmm.Unmap.{vmm_unmap_page-vmm_virt_to_phys}
use alze_os.Vmm.Huge.{huge_number}
use alze_os.Vmm.Loop.{MappedTo}
use alze_os.Vmm.Range.{vmm_map_range-vmm_virt_to_phys}
use alze_os.Vmm.RangeHuge.{vmm_map_range_huge-vmm_virt_to_phys}
use alze_os.Vmm.Audit.{vmm_audit_wx-find_table}

abbrev used_page : Page
used_page = record { next = none; prev = none; order = 0; flags = 1; ref_count = 1 }

-- Five frames, all in use.
abbrev full_memory : Pmm
full_memory = record {
  pages = λ x. used_page;
  total_pfns = 5;
  free_lists = λ o. record { head = none; count = 0 };
  free_pages = 0;
  used_pages = 5;
  reserved_pages = 0;
  peak_used = 5;
}

abbrev full_division : Division
full_division x = block x 0 used

abbrev no_listing : Listing
no_listing o = []

full_memory-Inv : Inv full_division no_listing full_memory
full_memory-Inv = record {
  division = record {
    small = λ x l. omega arith;
    aligned = λ x l. record { factor = x; multiple = omega arith };
    above = λ x l. omega arith;
    below = λ x l. omega arith;
    fits = λ x l. omega arith;
    agree = λ x y l p q. ap full_division {x = y} (omega arith);
  };
  holds = record {
    stores = λ o. record { chain = refl; distinct = ground arith; count = refl };
    listed = λ o x m. ground arith;
    complete = λ o x l e. ground arith;
  };
  heads = record {
    free_head = λ x o l e. ground arith;
    used_head = λ x o l e. ground arith;
    reserved_head = λ x o l e. ground arith;
  };
}

-- A table of each level, in the frames 1 to 4, for the lowest 2 MB, where page 5 is mapped.
abbrev four_tables : Tables
four_tables t i =
    if i == 0
    then if t == 4096 then 8193 else if t == 8192 then 12289 else if t == 12288 then 16385 else 0
    else if i == 5 && t == 16384
    then 36865
    else 0

abbrev four_levels : ℕ → ℕ
four_levels t =
    if t == 4096
    then 4
    else if t == 8192
    then 3
    else if t == 12288
    then 2
    else if t == 16384
    then 1
    else 0

abbrev start_path : ℕ → ℕ → ℕ
start_path t k = 0

data Entry (t i : ℕ) : Type 0 where
  empty : four_tables t i ≡ 0 → Entry t i
  page : four_levels t ≡ 1 → four_tables t i ≡ 36865 → Entry t i
  link :
      (level next : ℕ)
      → four_levels t ≡ level
      → four_tables t i ≡ next
      → (has_flag next pte_huge ≡ false)
        × (four_levels (pte_to_phys next) + 1 ≡ level)
        × (violation next ≡ 0)
      → i ≡ 0
      → Entry t i

entries : (t i : ℕ) → Entry t i
unfolding has_flag pte_to_phys violation is_wx
entries t i = elim (Bool-cases (i == 0)) [
  | inr f ↦ elim (Bool-cases (i == 5 && t == 16384)) [
    | inl here ↦ page (ground arith) (rw (f, here) refl)
    | inr other ↦ empty (rw (f, other) refl)
  ]
  | inl e ↦ elim (Bool-cases (t == 4096)) [
    | inl a ↦ link 4 8193 (rw a refl) (rw (e, a) refl) (refl, refl, refl) (ground arith)
    | inr a ↦ elim (Bool-cases (t == 8192)) [
      | inl b ↦ link 3 12289 (rw (a, b) refl) (rw (e, a, b) refl) (refl, refl, refl) (ground arith)
      | inr b ↦ elim (Bool-cases (t == 12288)) [
        | inl c ↦
            link 2 16385 (rw (a, b, c) refl) (rw (e, a, b, c) refl) (refl, refl, refl)
              (ground arith)
        | inr c ↦ empty (rw (e, a, b, c) refl)
      ]
    ]
  ]
]

absent : (t i : ℕ) → four_tables t i ≡ 0 → has_flag (four_tables t i) pte_present ≡ false
unfolding has_flag
absent t i e = ap (λ x. has_flag x pte_present) e

four_tables-Tree : Tree 4096 four_tables four_levels start_path
four_tables-Tree = record {
  root_level = refl;
  bounded = λ t. ground arith;
  no_huge = λ t i l p. elim (entries t i) [
    | empty e ↦ absurd (ground (arith, p, absent t i e))
    | page l' e ↦ absurd (omega (arith, l'))
    | link n next l' e h z ↦ ap (λ x. has_flag x pte_huge) e ∙ h.0
  ];
  down = λ t i l p h. elim (entries t i) [
    | empty e ↦ absurd (ground (arith, p, absent t i e))
    | page l' e ↦ absurd (omega (arith, l'))
    | link n next l' e h' z ↦ ap (λ x. four_levels (pte_to_phys x) + 1) e ∙ h'.1 ∙ sym l'
  ];
  paths = λ t i k l p h a b. elim (entries t i) [
    | empty e ↦ absurd (ground (arith, p, absent t i e))
    | page l' e ↦ absurd (omega (arith, l'))
    | link n next l' e h' z ↦ ground (arith, z)
  ];
}

abbrev four_state : Vmm
four_state = record {
  pml4_phys = 4096;
  tables = four_tables;
  tables_allocated = 3;
  wx_enforced = true;
  pmm = full_memory;
}

four_state-IsVmm : IsVmm four_state
four_state-IsVmm = record {
  level = four_levels;
  path = start_path;
  own = full_division;
  lists = no_listing;
  tree = four_tables-Tree;
  inv = full_memory-Inv;
  none_held = λ x l. ground arith;
  small = omega arith;
  tables_held = λ t h. ground (arith, h);
}

vmm_virt_to_phys-walk_example : vmm_virt_to_phys four_state 20500 ≡ walk 4 four_tables 4096 20500
vmm_virt_to_phys-walk_example = vmm_virt_to_phys-walk four_state 20500 (λ e. absurd (omega arith))

translate_test : vmm_virt_to_phys four_state 20500 ≡ 36884
unfolding vmm_virt_to_phys has_flag pte_to_phys
translate_test = refl

abbrev data_flags : ℕ
data_flags = bit_or pte_present pte_write

data_flags-IsFlags : IsFlags data_flags
data_flags-IsFlags =
    bit_or-IsFlags pte_present pte_write (pow-IsFlags 0 (omega arith) refl)
      (pow-IsFlags 1 (omega arith) refl)

data_flags-present : has_flag data_flags pte_present ≡ true
unfolding has_flag
data_flags-present = refl

-- The address in the new page and the flags of its entry, with the one against execution.
map_test :
    elim (vmm_map_page 24576 40960 data_flags four_state) [
      | none ↦ none
      | some v ↦ some (vmm_virt_to_phys v 24580 + (v.tables 16384 6 - 2 ^ 63))
    ]
    ≡ some (40964 + 40963)
unfolding vmm_map_page vmm_virt_to_phys has_flag pte_to_phys page_table pd_table next_table
    get_or_create_entry write_page enforce_wx
map_test = refl

vmm_map_page-vmm_virt_to_phys_example :
    ((page_table 24576 four_state ≡ none) × (vmm_map_page 24576 40960 data_flags four_state ≡ none))
    ⊎ Changed page_number four_state 24576
        (λ va. bit_or 40960 (va % 2 ^ 12))
        (vmm_map_page 24576 40960 data_flags four_state)
vmm_map_page-vmm_virt_to_phys_example =
    vmm_map_page-vmm_virt_to_phys four_state-IsVmm 24576 40960 data_flags
      (λ e. absurd (omega arith)) (omega arith) (record { aligned = refl; small = omega arith })
      data_flags-IsFlags data_flags-present

vmm_unmap_page-vmm_virt_to_phys_example :
    ((find_table four_tables 4096 20480 ≡ none)
      × (vmm_unmap_page 20480 four_state ≡ some four_state))
    ⊎ Changed page_number four_state 20480 (λ va. 0) (vmm_unmap_page 20480 four_state)
vmm_unmap_page-vmm_virt_to_phys_example =
    vmm_unmap_page-vmm_virt_to_phys four_state-IsVmm 20480 (λ e. absurd (omega arith)) (omega arith)

vmm_map_range-vmm_virt_to_phys_example :
    (vmm_map_range 24576 40960 10000 data_flags four_state ≡ none)
    ⊎ MappedTo page_number four_state 24576 40960 10000
        (vmm_map_range 24576 40960 10000 data_flags four_state)
vmm_map_range-vmm_virt_to_phys_example =
    vmm_map_range-vmm_virt_to_phys four_state-IsVmm 24576 40960 10000 data_flags
      (λ e. absurd (omega arith)) data_flags-IsFlags data_flags-present (omega arith) (omega arith)
      (omega arith) (omega arith)

vmm_map_range_huge-vmm_virt_to_phys_example :
    (vmm_map_range_huge 2097152 4194304 4194304 data_flags four_state ≡ none)
    ⊎ MappedTo huge_number four_state 2097152 4194304 4194304
        (vmm_map_range_huge 2097152 4194304 4194304 data_flags four_state)
vmm_map_range_huge-vmm_virt_to_phys_example =
    vmm_map_range_huge-vmm_virt_to_phys four_state-IsVmm 2097152 4194304 4194304 data_flags
      (λ e. absurd (omega arith)) data_flags-IsFlags data_flags-present (omega arith) (omega arith)
      (omega arith) (omega arith) (omega arith)

no_violation : (t i : ℕ) → violation (four_tables t i) ≡ 0
unfolding violation is_wx has_flag
no_violation t i = elim (entries t i) [
  | empty e ↦ ap violation e
  | page l e ↦ ap violation e
  | link n next l e h z ↦ ap violation e ∙ h.2
]

sum_entries-zero : (f : ℕ → ℕ) (n : ℕ) → ((i : ℕ) → f i ≡ 0) → sum_entries f n ≡ 0
unfolding sum_entries
sum_entries-zero f zero h = refl
sum_entries-zero f (suc n) h = omega (arith, sum_entries-zero f n h, h n)

count_pt-zero : (t : ℕ) → count_pt violation violation four_tables t ≡ 0
unfolding count_pt
count_pt-zero t = sum_entries-zero _ 512 (λ i. ground (arith, no_violation t i))

pd_entry-zero : (t i : ℕ) → pd_entry violation violation four_tables (four_tables t i) ≡ 0
unfolding pd_entry
pd_entry-zero t i = ground (arith, no_violation t i, count_pt-zero (pte_to_phys (four_tables t i)))

pdpt_entry-zero : (t i : ℕ) → pdpt_entry violation violation four_tables (four_tables t i) ≡ 0
unfolding pdpt_entry
pdpt_entry-zero t i =
    let below =
      sum_entries-zero
        (λ k.
          pd_entry violation violation four_tables (four_tables (pte_to_phys (four_tables t i)) k))
        512 (pd_entry-zero (pte_to_phys (four_tables t i))) in
    ground (arith, below)

pml4_entry-zero : (t i : ℕ) → pml4_entry violation violation four_tables (four_tables t i) ≡ 0
unfolding pml4_entry
pml4_entry-zero t i =
    let below =
      sum_entries-zero
        (λ k.
          pdpt_entry violation violation four_tables
            (four_tables (pte_to_phys (four_tables t i)) k))
        512 (pdpt_entry-zero (pte_to_phys (four_tables t i))) in
    ground (arith, below)

count_pages-zero : count_pages violation violation four_tables 4096 ≡ 0
unfolding count_pages
count_pages-zero =
    sum_entries-zero (λ i. pml4_entry violation violation four_tables (four_tables 4096 i)) 512
      (pml4_entry-zero 4096)

found_table : find_table four_tables 4096 20480 ≡ some 16384
unfolding find_table has_flag pte_to_phys
found_table = refl

clean : vmm_audit_wx four_state ≡ 0
unfolding vmm_audit_wx
clean = ap (λ n. n % 2 ^ 32) count_pages-zero

page_present : has_flag (four_tables 16384 5) pte_present ≡ true
unfolding has_flag
page_present = refl

vmm_audit_wx-find_table_example : is_wx (four_tables 16384 5) ≡ false
vmm_audit_wx-find_table_example =
    vmm_audit_wx-find_table four_state-IsVmm 20480 16384 found_table (λ e. absurd (omega arith))
      (omega (arith, count_pages-zero)) clean page_present
