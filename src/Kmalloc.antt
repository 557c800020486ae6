-- ===== src/Kmalloc.antt =====
-- kernel/kmalloc.c: the kernel heap, slabs of equal slots over the page frame allocator. Pointers
-- are virtual addresses, 0 for NULL, and memory holds bytes; a slab's header and the links of its
-- free slots stand in it. A call runs from its start to its end with no other call between, so the
-- locks do not show; `halted` is a failed assertion, `unfinished` fuel that is used up.
pub mod Free
pub mod Classes
pub mod Large
pub mod Delay
pub mod Slabs
pub mod Setup
pub mod RoundTrip
pub mod Reuse
mod Tests
use alze_os.Base.{
  ℕ, zero, suc, ◌+◌, ◌-◌, ◌*◌, ◌/◌, ◌%◌, ◌^◌, ◌==◌, ◌||◌, not, ltb, leb, if◌then◌else◌, update,
  Bool, true, false, Option, none, some,
}
use alze_os.Words.{load, store}
use alze_os.Strings.{Memory}
use alze_os.Pmm.{Pmm, add64, max_order, page_size, pmm_alloc_pages_zero}

abbrev pub slab_num_classes : ℕ
slab_num_classes = 8

abbrev pub slab_min_size : ℕ
slab_min_size = 16

abbrev pub quarantine_size : ℕ
quarantine_size = 32

pub record SlabClass : Type 0 where
  pub obj_size : ℕ
  pub slabs : ℕ
  pub total_allocs : ℕ
  pub total_frees : ℕ

pub record Quarantine : Type 0 where
  pub entries : ℕ → ℕ
  pub head : ℕ
  pub count : ℕ

pub record Heap : Type 0 where
  pub classes : ℕ → SlabClass
  pub large_allocs : ℕ
  pub large_frees : ℕ
  pub quarantine : Quarantine
  pub initialized : Bool
  pub mem : Memory
  pub pmm : Pmm

pub data Outcome (A : Type 0) : Type 0 where
  returns : A → Outcome A
  halted : Outcome A
  unfinished : Outcome A

infixl 5 ◌>>=◌
abbrev pub ◌>>=◌ : {A B : Type 0} → Outcome A → (A → Outcome B) → Outcome B
returns a >>= f = f a
halted >>= f = halted
unfinished >>= f = unfinished

-- The fields of `struct slab_header` by their places, read and written at the slab's address.
abbrev pub next_of : Memory → ℕ → ℕ
next_of mem slab = load 8 mem slab

abbrev pub free_of : Memory → ℕ → ℕ
free_of mem slab = load 8 mem (slab + 8)

abbrev pub obj_size_of : Memory → ℕ → ℕ
obj_size_of mem slab = load 4 mem (slab + 16)

abbrev pub used_of : Memory → ℕ → ℕ
used_of mem slab = load 4 mem (slab + 20)

abbrev pub set_next_of : ℕ → ℕ → Memory → Memory
set_next_of slab v mem = store 8 mem slab v

abbrev pub set_free_of : ℕ → ℕ → Memory → Memory
set_free_of slab v mem = store 8 mem (slab + 8) v

abbrev pub set_obj_size_of : ℕ → ℕ → Memory → Memory
set_obj_size_of slab v mem = store 4 mem (slab + 16) v

abbrev pub set_used_of : ℕ → ℕ → Memory → Memory
set_used_of slab v mem = store 4 mem (slab + 20) v

abbrev pub set_total_of : ℕ → ℕ → Memory → Memory
set_total_of slab v mem = store 4 mem (slab + 24) v

-- -1 is `none`.
unfoldable pub size_to_class : ℕ → Option ℕ
size_to_class size =
    if leb size 16
    then some 0
    else if leb size 32
    then some 1
    else if leb size 64
    then some 2
    else if leb size 128
    then some 3
    else if leb size 256
    then some 4
    else if leb size 512
    then some 5
    else if leb size 1024
    then some 6
    else if leb size 2048
    then some 7
    else none

-- The loop of `kmalloc_init` from class `i` on, with `n` classes left.
init_classes : ℕ → ℕ → ℕ → (ℕ → SlabClass) → ℕ → SlabClass
init_classes i size zero classes = classes
init_classes i size (suc n) classes =
    init_classes (suc i) (size * 2 % 2 ^ 32) n
      (update classes i (record { obj_size = size; slabs = 0; total_allocs = 0; total_frees = 0 }))

unfoldable pub kmalloc_init : Heap → Heap
unfolding init_classes
kmalloc_init h = record h {
  classes = init_classes 0 slab_min_size slab_num_classes h.classes;
  initialized = true;
}

-- `while ((1UL << order) * PAGE_SIZE < needed && order < PMM_MAX_ORDER) order++;`, with `n` for
-- `PMM_MAX_ORDER - order`.
unfoldable pub large_order : ℕ → ℕ → ℕ → ℕ
large_order needed order zero = order
large_order needed order (suc n) =
    let rest = large_order needed (suc order) n in
    if ltb (2 ^ order * page_size) needed then rest else order

-- `slab_from_ptr`
unfoldable pub slab_from_ptr : ℕ → ℕ
slab_from_ptr ptr = ptr - ptr % page_size

-- The slots from number `i` on are put before the free list, `n` of them.
unfoldable pub chain_slots : ℕ → ℕ → ℕ → ℕ → Memory → Memory
chain_slots slab size i zero mem = mem
chain_slots slab size i (suc n) mem =
    let slot = slab + 32 + i * size in
    chain_slots slab size (suc i) n (set_free_of slab slot (store 8 mem slot (free_of mem slab)))

-- The header and the free list of the slab page at `slab`.
unfoldable pub slab_setup : ℕ → ℕ → Memory → Memory
slab_setup slab size mem =
    let total = (page_size - 32) / size in
    let named = set_used_of slab 0 (set_obj_size_of slab size (set_next_of slab 0 mem)) in
    chain_slots slab size 0 total (set_free_of slab 0 (set_total_of slab total named))

-- `while (slab && slab->free == NULL) slab = slab->next;`
unfoldable pub find_slab : ℕ → ℕ → Memory → Outcome ℕ
find_slab zero slab mem = unfinished
find_slab (suc fuel) slab mem = elim (slab == 0 || not (free_of mem slab == 0)) [
  | true ↦ returns slab
  | false ↦ find_slab fuel (next_of mem slab) mem
]

-- The first free slot of a slab is taken off its list.
unfoldable pub take_slot : ℕ → ℕ → Heap → ℕ × Heap
take_slot c slab h =
    let slot = free_of h.mem slab in
    let mem = set_free_of slab (load 8 h.mem slot) h.mem in
    (
      slot,
      record h {
        mem = set_used_of slab ((used_of mem slab + 1) % 2 ^ 32) mem;
        classes =
            update h.classes c
              (record (h.classes c) { total_allocs = add64 (h.classes c).total_allocs 1 });
      },
    )

-- Each page frame holds one slab at most.
abbrev pub slab_fuel : Heap → ℕ
slab_fuel h = suc h.pmm.total_pfns

-- Memory is reached through the direct map, which begins at `hhdm_offset`.
module _ (hhdm_offset : ℕ) where
  abbrev pub phys_to_virt : ℕ → ℕ
  phys_to_virt phys = phys + hhdm_offset

  abbrev pub virt_to_phys : ℕ → ℕ
  virt_to_phys virt = virt - hhdm_offset

  -- The heap over the page frames and the memory that an allocation leaves.
  abbrev pub mapped : Heap → Memory → Pmm → Heap
  mapped h mem pmm = record h {
    mem = λ virt. if leb hhdm_offset virt then mem (virt_to_phys virt) else h.mem virt;
    pmm = pmm;
  }

  -- `pmm_alloc_pages_zero`, which zeroes memory through the direct map.
  unfoldable pub alloc_pages : ℕ → Heap → Outcome (ℕ × Heap)
  alloc_pages order h =
      elim (pmm_alloc_pages_zero order (λ phys. h.mem (phys_to_virt phys)) h.pmm) [
        | none ↦ halted
        | some (phys, mem, pmm) ↦ returns (phys, mapped h mem pmm)
      ]

  unfoldable pub slab_new : ℕ → Heap → Outcome (ℕ × Heap)
  unfolding alloc_pages slab_setup
  slab_new size h = do
    (phys, h') ← alloc_pages 0 h
    if phys == 0
        then returns (0, h')
        else returns
            (phys_to_virt phys, record h' { mem = slab_setup (phys_to_virt phys) size h'.mem })

  unfoldable pub kmalloc_large : ℕ → Heap → Outcome (ℕ × Heap)
  unfolding alloc_pages large_order
  kmalloc_large size h =
      let order = large_order (add64 size 8) 0 max_order in
      if ltb max_order order then returns (0, h) else do
        (phys, h') ← alloc_pages order h
        if phys == 0
            then returns (0, h')
            else returns (
              phys_to_virt phys + 8,
              record h' {
                mem = store 8 h'.mem (phys_to_virt phys) order;
                large_allocs = add64 h'.large_allocs 1;
              },
            )

  unfoldable pub kmalloc_slab : ℕ → Heap → Outcome (ℕ × Heap)
  unfolding find_slab slab_new take_slot
  kmalloc_slab c h = do
    slab ← find_slab (slab_fuel h) (h.classes c).slabs h.mem
    if not (slab == 0) then returns (take_slot c slab h) else do
      (fresh, h') ← slab_new (h.classes c).obj_size h
      if fresh == 0
          then returns (0, h')
          else returns (
              take_slot c fresh (record h' {
                mem = set_next_of fresh (h'.classes c).slabs h'.mem;
                classes = update h'.classes c (record (h'.classes c) { slabs = fresh });
              }))

  unfoldable pub kmalloc : ℕ → Heap → Outcome (ℕ × Heap)
  unfolding kmalloc_large kmalloc_slab kmalloc_init size_to_class
  kmalloc size h =
      let h' = if h.initialized then h else kmalloc_init h in
      if size == 0
      then returns (0, h)
      else elim (size_to_class size) [ none ↦ kmalloc_large size h' | some c ↦ kmalloc_slab c h' ]
