-- ===== src/Vma/Tests.antt =====
-- kernel/vma.c: an address space with two regions and a guard page between them.
use mathlib.Core.List.{Memᴰ}
use alze_os.Base.{ℕ, ◌≡◌, ◌≢◌, refl, true, false, [], ◌∷◌, arith}
use alze_os.Bits.{bit}
use alze_os.Vma.{
  Vma, vma_text, vma_guard, vma_stack, VmSpace, vma_find, vma_check_access, contains, find_in,
}
use alze_os.Vma.Order.{IsValid, Found, vma_find-Found, vma_check_access_lem}

abbrev text : Vma
text = record { start = 4096; end = 8192; type = vma_text; perms = 5; name = [] }

abbrev guard : Vma
guard = record { start = 8192; end = 12288; type = vma_guard; perms = 7; name = [] }

abbrev stack : Vma
stack = record { start = 12288; end = 20480; type = vma_stack; perms = 3; name = 115 ∷ [] }

abbrev space : VmSpace
space = record { regions = text ∷ guard ∷ []; count = 2; heap_start = 0; heap_end = 0 }

space-IsValid : IsValid space
space-IsValid = record { sorted = ground arith; count = refl }

vma_find-Found_example : Found (text ∷ guard ∷ []) 5000 (vma_find space 5000)
vma_find-Found_example = vma_find-Found space 5000 space-IsValid

vma_check_access_lem_example :
    (v : Vma) × Memᴰ v (text ∷ guard ∷ [])
    × (contains v 5000 ≡ true)
    × (v.type ≢ vma_guard)
    × ((i : ℕ) → bit 4 i ≡ 1 → bit v.perms i ≡ 1)
unfolding vma_check_access vma_find find_in
vma_check_access_lem_example = vma_check_access_lem space 5000 4 space-IsValid refl

guard_test : vma_check_access space 9000 1 ≡ false
unfolding vma_check_access vma_find find_in
guard_test = refl
