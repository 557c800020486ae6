-- ===== src/Vma.antt =====
-- kernel/vma.c, kernel/vma.h: the regions of an address space. The circular list of a `vm_space`
-- is the sequence of its entries here, first to last; the pool that `alloc_vma` takes entries from
-- is the number of entries taken.
pub mod Order
mod Tests
use alze_os.Base.{
  ℕ, zero, suc, ◌+◌, ◌-◌, ◌*◌, ◌%◌, ◌^◌, bit_and, Bool, true, false, not, ◌&&◌, ltb, leb, ◌==◌,
  if◌then◌else◌, List, [], ◌∷◌, Option, none, some, take, ℤ, pos, neg,
}
use alze_os.Errno.{enomem, enoent}
use alze_os.Strings.{c_string}

pub data VmaType : Type 0 where
  vma_none vma_text vma_data vma_bss vma_heap vma_stack vma_guard vma_mmio vma_shared : VmaType

abbrev pub vma_perm_read : ℕ
vma_perm_read = 1

abbrev pub vma_perm_write : ℕ
vma_perm_write = 2

abbrev pub vma_perm_exec : ℕ
vma_perm_exec = 4

abbrev pub vma_name_max : ℕ
vma_name_max = 16

-- The name up to its terminator.
pub record Vma : Type 0 where
  pub start : ℕ
  pub end : ℕ
  pub type : VmaType
  pub perms : ℕ
  pub name : List ℕ

abbrev pub vma_max_regions : ℕ
vma_max_regions = 32

pub record VmSpace : Type 0 where
  pub regions : List Vma
  pub count : ℕ
  pub heap_start : ℕ
  pub heap_end : ℕ

-- Whether the pool has an entry, and how many are taken then.
unfoldable pub alloc_vma : ℕ → Bool × ℕ
alloc_vma vma_pool_used =
    if ltb vma_pool_used (vma_max_regions * 4)
    then (true, suc vma_pool_used)
    else (false, vma_pool_used)

abbrev pub vm_space_init : VmSpace
vm_space_init = record { regions = []; count = 0; heap_start = 0; heap_end = 0 }

-- After the last entry whose start is not above the new one's, as the loop finds it.
unfoldable pub insert_sorted : Vma → List Vma → List Vma
insert_sorted v [] = v ∷ []
insert_sorted v (existing ∷ rest) =
    if ltb v.start existing.start then v ∷ existing ∷ rest else existing ∷ insert_sorted v rest

unfoldable pub vma_add : ℕ → VmSpace → ℕ → ℕ → VmaType → ℕ → List ℕ → ℤ × ℕ × VmSpace
vma_add used vs start end type perms name =
    let (got, used') = alloc_vma used in
    if got
    then (
      pos 0,
      used',
      record vs {
        regions =
            insert_sorted
              (record {
                start = start;
                end = end;
                type = type;
                perms = perms;
                name = take (vma_name_max - 1) (c_string name);
              })
              vs.regions;
        count = (vs.count + 1) % 2 ^ 32;
      },
    )
    else (neg enomem, used', vs)

-- The entries without the first one that starts there, if there is one.
unfoldable pub remove_start : ℕ → List Vma → Option (List Vma)
remove_start start [] = none
remove_start start (v ∷ rest) =
    if v.start == start
    then some rest
    else elim (remove_start start rest) [ none ↦ none | some rest' ↦ some (v ∷ rest') ]

unfoldable pub vma_remove : VmSpace → ℕ → ℤ × VmSpace
vma_remove vs start = elim (remove_start start vs.regions) [
  | none ↦ (neg enoent, vs)
  | some rest ↦ (pos 0, record vs { regions = rest; count = (vs.count + 2 ^ 32 - 1) % 2 ^ 32 })
]

abbrev pub contains : Vma → ℕ → Bool
contains v addr = leb v.start addr && ltb addr v.end

-- The loop of `vma_find`.
unfoldable pub find_in : List Vma → ℕ → Option Vma
find_in [] addr = none
find_in (v ∷ rest) addr =
    if contains v addr then some v else if ltb addr v.start then none else find_in rest addr

unfoldable pub vma_find : VmSpace → ℕ → Option Vma
vma_find vs addr = find_in vs.regions addr

abbrev pub is_guard : VmaType → Bool
is_guard vma_guard = true
is_guard _ = false

unfoldable pub vma_check_access : VmSpace → ℕ → ℕ → Bool
vma_check_access vs addr perms = elim (vma_find vs addr) [
  | none ↦ false
  | some v ↦ if is_guard v.type then false else bit_and v.perms perms == perms
]

-- The address space of the kernel, with one region between the linker's symbols.
unfoldable pub vma_init_kernel : ℕ → ℕ → ℕ → ℤ × ℕ × VmSpace
vma_init_kernel k_start k_end used =
    -- "kernel"
    vma_add used vm_space_init k_start k_end vma_text (vma_perm_read + vma_perm_exec)
      (107 ∷ 101 ∷ 114 ∷ 110 ∷ 101 ∷ 108 ∷ 0 ∷ [])
