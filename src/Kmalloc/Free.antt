-- ===== src/Kmalloc/Free.antt =====
-- kernel/kmalloc.c: freeing, the quarantine that delays it, and resizing. The lines that `kfree`
-- prints go to the sinks of Kprintf, which are not part of the heap's state.
use alze_os.Base.{
  ℕ, zero, suc, ◌+◌, ◌-◌, ◌*◌, ◌%◌, ◌^◌, ◌==◌, ◌&&◌, ◌||◌, ltb, leb, if◌then◌else◌, update, Bool,
  true, false, none, some,
}
use alze_os.Words.{load, store}
use alze_os.Strings.{Memory, memset, memcpy}
use alze_os.Pmm.{add64, max_order, page_size, pmm_free_pages}
use alze_os.Kmalloc.{
  Quarantine, quarantine_size, Heap, Outcome, returns, halted, unfinished, ◌>>=◌, next_of, free_of,
  obj_size_of, used_of, set_next_of, set_free_of, set_used_of, size_to_class, slab_from_ptr,
  slab_fuel, virt_to_phys, kmalloc,
}

abbrev pub poison_byte : ℕ
poison_byte = 0xDE

-- `((addr - 8) & (PAGE_SIZE - 1)) == 0`
unfoldable pub is_large : ℕ → Bool
is_large addr = (addr + 2 ^ 64 - 8) % 2 ^ 64 % page_size == 0

-- The entry that leaves the ring, 0 for none, and the ring with `ptr` in it.
unfoldable pub quarantine_put : ℕ → Quarantine → ℕ × Quarantine
quarantine_put ptr q = (
  if leb quarantine_size q.count then q.entries q.head else 0,
  record {
    entries = update q.entries q.head ptr;
    head = (q.head + 1) % quarantine_size;
    count = if ltb q.count quarantine_size then q.count + 1 else q.count;
  },
)

-- `while (*pp && *pp != old_slab) pp = &(*pp)->next; if (*pp == old_slab) *pp = old_slab->next;`,
-- for `pp` that points into the slab at `slab`.
unfoldable pub unlink_after : ℕ → ℕ → ℕ → Memory → Outcome Memory
unlink_after zero slab old mem = unfinished
unlink_after (suc fuel) slab old mem = elim (next_of mem slab == old) [
  | true ↦ returns (set_next_of slab (next_of mem old) mem)
  | false ↦ elim (next_of mem slab == 0) [
    | true ↦ returns mem
    | false ↦ unlink_after fuel (next_of mem slab) old mem
  ]
]

-- The same from the head of the class on.
unfoldable pub unlink_slab : ℕ → ℕ → Heap → Outcome Heap
unfolding unlink_after
unlink_slab c old h =
    let first = (h.classes c).slabs in
    if first == old
    then returns (record h {
      classes = update h.classes c (record (h.classes c) { slabs = next_of h.mem old });
    })
    else if first == 0
    then returns h
    else (unlink_after (slab_fuel h) first old h.mem >>= λ mem. returns (record h { mem = mem }))

-- `pmm_free_pages`, which halts the machine where its own checks fail.
unfoldable pub free_pages : ℕ → ℕ → Heap → Outcome Heap
free_pages phys order h = elim (pmm_free_pages phys order h.pmm) [
  | none ↦ halted
  | some pmm ↦ returns (record h { pmm = pmm })
]

-- The slot goes to the front of its slab's free list.
unfoldable pub return_slot : ℕ → ℕ → Memory → Memory
return_slot slab slot mem =
    let linked = set_free_of slab slot (store 8 mem slot (free_of mem slab)) in
    set_used_of slab ((used_of linked slab + 2 ^ 32 - 1) % 2 ^ 32) linked

-- The bytes behind the link tell that the slot has been freed before.
unfoldable pub is_poisoned : ℕ → Memory → Bool
is_poisoned ptr mem =
    mem (ptr + 8) == poison_byte
    && mem (ptr + 9) == poison_byte
    && mem (ptr + 10) == poison_byte
    && mem (ptr + 11) == poison_byte

abbrev count_free : ℕ → Heap → Heap
count_free c h = record h {
  classes =
      update h.classes c (record (h.classes c) { total_frees = add64 (h.classes c).total_frees 1 });
}

unfoldable pub kmalloc_usable_size : ℕ → Heap → ℕ
unfolding is_large
kmalloc_usable_size ptr h =
    if ptr == 0
    then 0
    else if is_large ptr
    then (let order = load 8 h.mem (ptr - 8) % 2 ^ 32 in
        if ltb max_order order then 0 else 2 ^ order * page_size - 8)
    else obj_size_of h.mem (slab_from_ptr ptr)

-- Whether the block stays where it is.
unfoldable pub same_class : ℕ → ℕ → Bool
unfolding size_to_class
same_class old_size new_size = elim (size_to_class old_size) [
  | none ↦ false
  | some c ↦ elim (size_to_class new_size) [ none ↦ false | some c' ↦ c == c' ]
]

module _ (hhdm_offset : ℕ) where
  -- A slab none of whose slots is in use goes back to the page frame allocator.
  unfoldable pub release_slab : ℕ → ℕ → Heap → Outcome Heap
  unfolding unlink_slab free_pages
  release_slab c slab h =
      if used_of h.mem slab == 0
      then (unlink_slab c slab h >>= λ h'.
          free_pages (virt_to_phys hhdm_offset slab) 0
            (record h' { mem = memset slab poison_byte page_size h'.mem }))
      else returns h

  -- The entry that has left the quarantine goes back to its slab. `c` is the class of the pointer
  -- that is being freed.
  unfoldable pub evict : ℕ → ℕ → Heap → Outcome Heap
  unfolding release_slab return_slot
  evict evicted c h =
      let slab = slab_from_ptr evicted in
      elim (size_to_class (obj_size_of h.mem slab)) [
        | none ↦ returns h
        | some old ↦
            (release_slab old slab (record h { mem = return_slot slab evicted h.mem }) >>= λ h'.
            if old == c then returns h' else returns (count_free old h'))
      ]

  unfoldable pub kfree_large : ℕ → Heap → Outcome Heap
  unfolding free_pages
  kfree_large addr h =
      let base = addr - 8 in
      let order = load 8 h.mem base % 2 ^ 32 in
      if ltb max_order order
      then returns h
      else (free_pages (virt_to_phys hhdm_offset base) order
            (record h { mem = memset base poison_byte (2 ^ order * page_size) h.mem })
          >>= λ h'. returns (record h' { large_frees = add64 h'.large_frees 1 }))

  unfoldable pub kfree_slab : ℕ → Heap → Outcome Heap
  unfolding evict quarantine_put is_poisoned
  kfree_slab ptr h =
      let slab = slab_from_ptr ptr in
      let size = obj_size_of h.mem slab in
      elim (size_to_class size) [
        | none ↦ halted
        | some c ↦
            if used_of h.mem slab == 0 || ltb 8 size && is_poisoned ptr h.mem
            then halted
            else (let mem =
                  if ltb 8 size then memset (ptr + 8) poison_byte (size - 8) h.mem else h.mem in
                let (evicted, q) = quarantine_put ptr h.quarantine in
                let h' = record h { mem = mem; quarantine = q } in
                (if evicted == 0 then returns h' else evict evicted c h') >>= λ h''.
                returns (count_free c h''))
      ]

  unfoldable pub kfree : ℕ → Heap → Outcome Heap
  unfolding kfree_large kfree_slab is_large
  kfree ptr h =
      if ptr == 0 then returns h else if is_large ptr then kfree_large ptr h else kfree_slab ptr h

  unfoldable pub kzmalloc : ℕ → Heap → Outcome (ℕ × Heap)
  unfolding kmalloc
  kzmalloc size h = kmalloc hhdm_offset size h >>= λ (ptr, h').
      if ptr == 0
      then returns (ptr, h')
      else returns (ptr, record h' { mem = memset ptr 0 size h'.mem })

  unfoldable pub krealloc : ℕ → ℕ → Heap → Outcome (ℕ × Heap)
  unfolding kfree kmalloc kmalloc_usable_size same_class
  krealloc ptr new_size h =
      let old_size = kmalloc_usable_size ptr h in
      if ptr == 0
      then kmalloc hhdm_offset new_size h
      else if new_size == 0
      then (kfree ptr h >>= λ h'. returns (0, h'))
      else if leb new_size old_size && same_class old_size new_size
      then returns (ptr, h)
      else (kmalloc hhdm_offset new_size h >>= λ (new_ptr, h').
          if new_ptr == 0
          then returns (0, h')
          else (let n = if ltb old_size new_size then old_size else new_size in
              kfree ptr (record h' { mem = memcpy new_ptr ptr n h'.mem }) >>= λ h''.
              returns (new_ptr, h'')))
