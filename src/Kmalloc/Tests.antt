-- ===== src/Kmalloc/Tests.antt =====
-- The heap at concrete states: a slab of one slot, a request of 3000 bytes, and one of 5000000.
use alze_os.Base.{
  ℕ, ◌+◌, ◌^◌, ◌≤◌, ◌<◌, ◌≡◌, refl, [], ◌∷◌, false, none, some, if◌then◌else◌, ◌==◌, arith,
}
use alze_os.Words.{load, store}
use alze_os.Strings.{Memory}
use alze_os.Pmm.{Pmm, pmm_alloc_pages_zero, pmm_alloc_pages, find_block, split, pfn_to_phys}
use alze_os.Pmm.Tests.{half_used, half_division, half_listing, half_used-Inv}
use alze_os.Kmalloc.{
  Heap, SlabClass, Quarantine, Outcome, returns, halted, unfinished, kmalloc, slab_setup, take_slot,
}
use alze_os.Kmalloc.Free.{quarantine_put, return_slot, kfree, kmalloc_usable_size}
use alze_os.Kmalloc.Delay.{IsValid}
use alze_os.Kmalloc.Slabs.{slab_total, IsPage, IsSlab, take_slot-IsSlab}
use alze_os.Kmalloc.Setup.{slots_below, slab_setup-IsSlab}
use alze_os.Kmalloc.Large.{kmalloc_usable_size-lt_size}
use alze_os.Kmalloc.RoundTrip.{Returned, kfree-kmalloc}

abbrev no_slabs : SlabClass
no_slabs = record { obj_size = 0; slabs = 0; total_allocs = 0; total_frees = 0 }

abbrev empty_ring : Quarantine
empty_ring = record { entries = λ _. 0; head = 0; count = 0 }

abbrev over : Pmm → Memory → Heap
over st mem = record {
  classes = λ _. no_slabs;
  large_allocs = 0;
  large_frees = 0;
  quarantine = empty_ring;
  initialized = false;
  mem = mem;
  pmm = st;
}

abbrev offset : ℕ
offset = 2 ^ 47

-- A full ring, whose oldest entry stands at 5.
abbrev full_ring : Quarantine
full_ring = record { entries = λ i. 1000 + i; head = 5; count = 32 }

full_ring-IsValid : IsValid full_ring
full_ring-IsValid = omega arith

oldest_run : (quarantine_put 77 full_ring).0 ≡ 1005
unfolding quarantine_put
oldest_run = refl

slab-IsPage : IsPage 8192 2048
slab-IsPage = record {
  aligned = refl;
  not_null = omega arith;
  top = omega arith;
  least = omega arith;
  most = omega arith;
}

slab_setup-IsSlab_example :
    IsSlab (slab_setup 8192 2048 (λ _. 0xDE)) 2048 8192 (slots_below 8192 2048 (slab_total 2048))
slab_setup-IsSlab_example = slab_setup-IsSlab (λ _. 0xDE) 2048 8192 slab-IsPage

-- A slab with one slot, in a memory that was full of poison.
abbrev poisoned : Heap
poisoned = over half_used (slab_setup 8192 2048 (λ _. 0xDE))

one_slot : IsSlab poisoned.mem 2048 8192 (8224 ∷ [])
one_slot = slab_setup-IsSlab (λ _. 0xDE) 2048 8192 slab-IsPage

take_slot-IsSlab_example :
    ((take_slot 7 8192 poisoned).0 ≡ 8224)
    × IsSlab (take_slot 7 8192 poisoned).1.mem 2048 8192 []
    × ((a : ℕ) → 8192 + 32 ≤ a → (take_slot 7 8192 poisoned).1.mem a ≡ poisoned.mem a)
    × IsSlab
        (return_slot 8192 (take_slot 7 8192 poisoned).0 (take_slot 7 8192 poisoned).1.mem)
        2048
        8192
        (8224 ∷ [])
take_slot-IsSlab_example = take_slot-IsSlab poisoned 7 2048 8192 8224 [] one_slot

abbrev outcome_heap : Heap → Outcome (ℕ × Heap) → Heap
outcome_heap h (returns (p, h')) = h'
outcome_heap h halted = h
outcome_heap h unfinished = h

-- One page frame is free, the second one.
abbrev small : Heap
small = over half_used (λ _. 0)

abbrev small_after : Heap
small_after = outcome_heap small (kmalloc offset 3000 small)

small_run : kmalloc offset 3000 small ≡ returns (offset + 4104, small_after)
unfolding kmalloc pmm_alloc_pages_zero pmm_alloc_pages find_block split pfn_to_phys
small_run = refl

kfree-kmalloc_example :
    (h'' : Heap) × (kfree offset (offset + 4104) small_after ≡ returns h'')
    × Returned half_division half_used h''.pmm
kfree-kmalloc_example =
    kfree-kmalloc {own = half_division} {lists = half_listing} offset refl 3000 (offset + 4104)
      small small_after (omega arith) small_run (omega arith) (omega arith) half_used-Inv
      (λ x l. ground arith) (omega arith)

-- 8 MB, of which the upper half is one free block.
abbrev upper_half : Pmm
upper_half = record {
  pages = λ x. record { next = none; prev = none; order = 10; flags = 4; ref_count = 0 };
  total_pfns = 2048;
  free_lists = λ o.
      if o == 10 then record { head = some 1024; count = 1 } else record { head = none; count = 0 };
  free_pages = 1024;
  used_pages = 1024;
  reserved_pages = 0;
  peak_used = 1024;
}

abbrev large : Heap
large = over upper_half (λ _. 0)

abbrev large_after : Heap
large_after = outcome_heap large (kmalloc offset 5000000 large)

-- 5000000 bytes are asked for, and 4194296 are there.
large_run :
    (kmalloc offset 5000000 large ≡ returns (offset + 4194312, large_after))
    × (kmalloc_usable_size (offset + 4194312) large_after ≡ 4194296)
unfolding kmalloc kmalloc_usable_size pmm_alloc_pages_zero pmm_alloc_pages find_block split
    pfn_to_phys load store
large_run = (refl, refl)

kmalloc_usable_size-lt_size_example : kmalloc_usable_size (offset + 4194312) large_after < 5000000
kmalloc_usable_size-lt_size_example =
    kmalloc_usable_size-lt_size offset refl 5000000 (offset + 4194312) large large_after
      (omega arith) large_run.0 (omega arith) (omega arith) (omega arith) (omega arith)
