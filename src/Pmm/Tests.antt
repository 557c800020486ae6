-- ===== src/Pmm/Tests.antt =====
-- kernel/pmm.c: the allocator at concrete states.
use alze_os.Base.{
  ℕ, ◌≡◌, refl, ap, Bool, true, false, ◌==◌, if◌then◌else◌, ◌⊎◌, none, some, [], ◌∷◌, arith,
}
use alze_os.Pmm.{
  Page, FreeArea, Pmm, pmm_alloc_pages, add64, free_block, take_block, list_add, list_remove,
  add_links, remove_links, remove_head, set_page, clear_head, mark_free, coalesce, join_once,
  is_buddy_free, buddy_pfn,
}
use alze_os.Pmm.Blocks.{free, used, block, Division}
use alze_os.Pmm.Inv.{Listing, Stores, Inv}
use alze_os.Pmm.Alloc.{Allocated, AllEmpty, pmm_alloc_pages_lem}

abbrev blank : Page
blank = record { next = none; prev = none; order = 0; flags = 0; ref_count = 0 }

abbrev no_list : FreeArea
no_list = record { head = none; count = 0 }

Stores-if :
    (pages : ℕ → Page) (x : ℕ)
    → ((pages x).prev ≡ none) × ((pages x).next ≡ none)
    → (b : Bool)
    → Stores pages
        (if b then record { head = some x; count = 1 } else no_list)
        (if b then x ∷ [] else [])
Stores-if pages x (p, n) true = record {
  chain = ground (arith, p, n);
  distinct = ground arith;
  count = refl;
}
Stores-if pages x e false = record { chain = refl; distinct = ground arith; count = refl }

-- Two page frames in one free block of order 1.
abbrev one_block : Pmm
one_block = record {
  pages = λ x. if x == 0 then record blank { order = 1; flags = 4 } else blank;
  total_pfns = 2;
  free_lists = λ o. if o == 1 then record { head = some 0; count = 1 } else no_list;
  free_pages = 2;
  used_pages = 0;
  reserved_pages = 0;
  peak_used = 0;
}

abbrev one_division : Division
one_division x = block 0 1 free

abbrev one_listing : Listing
one_listing o = if o == 1 then 0 ∷ [] else []

one_block-Inv : Inv one_division one_listing one_block
one_block-Inv = record {
  division = record {
    small = λ x l. omega arith;
    aligned = λ x l. record { factor = 0; multiple = refl };
    above = λ x l. omega arith;
    below = λ x l. omega arith;
    fits = λ x l. omega arith;
    agree = λ x y l p q. refl;
  };
  holds = record {
    stores = λ o. Stores-if one_block.pages 0 (refl, refl) (o == 1);
    listed = λ o x m. ground arith;
    complete = λ o x l e. ground arith;
  };
  heads = record {
    free_head = λ x o l e. ground arith;
    used_head = λ x o l e. ground arith;
    reserved_head = λ x o l e. ground arith;
  };
}

-- Frame 0 is in use and frame 1 is free.
abbrev pub half_used : Pmm
half_used = record {
  pages =
      λ x. if x == 0 then record blank { flags = 1; ref_count = 1 } else record blank { flags = 4 };
  total_pfns = 2;
  free_lists = λ o. if o == 0 then record { head = some 1; count = 1 } else no_list;
  free_pages = 1;
  used_pages = 1;
  reserved_pages = 0;
  peak_used = 1;
}

abbrev pub half_division : Division
half_division x = block x 0 (if x == 0 then used else free)

abbrev pub half_listing : Listing
half_listing o = if o == 0 then 1 ∷ [] else []

pub half_used-Inv : Inv half_division half_listing half_used
half_used-Inv = record {
  division = record {
    small = λ x l. omega arith;
    aligned = λ x l. record { factor = x; multiple = omega arith };
    above = λ x l. omega arith;
    below = λ x l. omega arith;
    fits = λ x l. omega arith;
    agree = λ x y l p q. ap half_division {x = y} (omega arith);
  };
  holds = record {
    stores = λ o. Stores-if half_used.pages 1 (refl, refl) (o == 0);
    listed = λ o x m. ground arith;
    complete = λ o x l e. ground arith;
  };
  heads = record {
    free_head = λ x o l e. ground arith;
    used_head = λ x o l e. ground arith;
    reserved_head = λ x o l e. ground arith;
  };
}

pmm_alloc_pages_lem_example :
    ((pmm_alloc_pages 0 one_block ≡ some (0, one_block)) × AllEmpty one_listing 0 11)
    ⊎ Allocated one_division one_listing one_block 0 (pmm_alloc_pages 0 one_block)
pmm_alloc_pages_lem_example =
    pmm_alloc_pages_lem one_block 0 one_block-Inv (λ x l. ground arith) (omega arith)

abbrev split_block : Pmm
split_block =
    let listed = list_add 0 1 (set_page 1 0 4 (take_block 1 0 one_block)) in
    record listed { free_pages = add64 listed.free_pages 1 }

-- The two halves of a block meet again.
join_test : (free_block 0 0 half_used).free_lists 1 ≡ record { head = some 0; count = 1 }
unfolding free_block coalesce join_once is_buddy_free buddy_pfn mark_free list_add list_remove
    set_page clear_head remove_head remove_links add_links
join_test = refl
