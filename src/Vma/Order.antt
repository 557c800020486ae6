-- ===== src/Vma/Order.antt =====
-- The regions of an address space are sorted by their start, and the search relies on it.
use mathlib.Core.List.{Memᴰ}
use mathlib.Core.List.Memᴰ
use mathlib.Core.Path.{subst}
use alze_os.Base.{
  ℕ, suc, ◌%◌, ◌^◌, ◌≤◌, ◌<◌, bit_and, ◌≡◌, ◌≢◌, refl, sym, ap, ◌⊎◌, inl, inr, true, false, ltb,
  List, [], ◌∷◌, Option, none, some, Bool-cases, length, take, pos, neg, arith,
}
use alze_os.Bits.{bit, bit-bit_and, bit-le-one}
use alze_os.Strings.{c_string}
use alze_os.Errno.{enomem, enoent}
use alze_os.Vma.{
  Vma, VmaType, vma_guard, VmSpace, vma_add, vma_remove, vma_find, vma_check_access, insert_sorted,
  remove_start, find_in, contains, is_guard, alloc_vma,
}

-- Every entry starts at `low` or above.
abbrev pub From : ℕ → List Vma → Type 0
From low [] = Unit {0}
From low (v ∷ rest) = (low ≤ v.start) × From low rest

abbrev pub Sorted : List Vma → Type 0
Sorted [] = Unit {0}
Sorted (v ∷ rest) = From v.start rest × Sorted rest

pub record IsValid (vs : VmSpace) : Type 0 where
  pub sorted : Sorted vs.regions
  pub count : vs.count ≡ length vs.regions % 2 ^ 32

From-le : (low high : ℕ) (vs : List Vma) → low ≤ high → From high vs → From low vs
From-le low high [] h f = f
From-le low high (v ∷ vs) h f = (omega (arith, f.0), From-le low high vs h f.1)

From-insert_sorted :
    (low : ℕ) (v : Vma) (vs : List Vma)
    → low ≤ v.start
    → From low vs
    → From low (insert_sorted v vs)
unfolding insert_sorted
From-insert_sorted low v [] h f = (h, f)
From-insert_sorted low v (x ∷ vs) h f = ground (arith, From-insert_sorted low v vs h f.1)

insert_sorted-Sorted : (v : Vma) (vs : List Vma) → Sorted vs → Sorted (insert_sorted v vs)
unfolding insert_sorted
insert_sorted-Sorted v [] s = ground arith
insert_sorted-Sorted v (x ∷ vs) s = ground (
  arith,
  From-le v.start x.start vs,
  From-insert_sorted x.start v vs,
  insert_sorted-Sorted v vs s.1,
)

length-insert_sorted : (v : Vma) (vs : List Vma) → length (insert_sorted v vs) ≡ suc (length vs)
unfolding insert_sorted
length-insert_sorted v [] = refl
length-insert_sorted v (x ∷ vs) = ground (arith, length-insert_sorted v vs)

Memᴰ-insert_sorted : (v : Vma) (vs : List Vma) → Memᴰ v (insert_sorted v vs)
unfolding insert_sorted
Memᴰ-insert_sorted v [] = Memᴰ.head refl
Memᴰ-insert_sorted v (x ∷ vs) = elim (Bool-cases (ltb v.start x.start)) [
  | inl before ↦ rw before (Memᴰ.head refl)
  | inr after ↦ rw after (Memᴰ.tail (Memᴰ-insert_sorted v vs))
]

-- Adding a region keeps the address space sorted and counted. It fails only when the pool is used
-- up, and changes nothing then; otherwise the new region is in the address space.
pub vma_add-IsValid :
    (used : ℕ) (vs : VmSpace) (v : Vma) (name : List ℕ)
    → v.name ≡ take 15 (c_string name)
    → IsValid vs
    → IsValid (vma_add used vs v.start v.end v.type v.perms name).2
      × ((((vma_add used vs v.start v.end v.type v.perms name).0 ≡ pos 0)
            × (used < 128)
            × Memᴰ v (vma_add used vs v.start v.end v.type v.perms name).2.regions)
          ⊎ ((vma_add used vs v.start v.end v.type v.perms name ≡ (neg enomem, used, vs))
              × (128 ≤ used)))
unfolding vma_add alloc_vma
vma_add-IsValid used vs v name e valid = elim (Bool-cases (ltb used 128)) [
  | inl room ↦ rw room (
    record {
      sorted = insert_sorted-Sorted (named (take 15 (c_string name))) vs.regions valid.sorted;
      count =
          omega
            (arith, valid.count, length-insert_sorted (named (take 15 (c_string name))) vs.regions);
    },
    inl (
      refl,
      ground (arith, room),
      subst (λ n. Memᴰ v (insert_sorted (named n) vs.regions)) e (Memᴰ-insert_sorted v vs.regions),
    ),
  )
  | inr full ↦ rw full (valid, inr (refl, ground (arith, full)))
]
  where
    named : List ℕ → Vma
    named n = record v { name = n }

remove_start-insert_sorted :
    (v : Vma) (vs : List Vma)
    → remove_start v.start vs ≡ none
    → remove_start v.start (insert_sorted v vs) ≡ some vs
unfolding remove_start insert_sorted
remove_start-insert_sorted v [] h = ground arith
remove_start-insert_sorted v (x ∷ vs) h =
    let rest = remove_start-insert_sorted v vs in ground (arith, rest)

-- A region that is added and then removed by its start: the address space is as before, when no
-- region started there.
pub vma_remove-vma_add :
    (used : ℕ) (vs : VmSpace) (start end : ℕ) (type : VmaType) (perms : ℕ) (name : List ℕ)
    → used < 128
    → vs.count < 2 ^ 32
    → vma_remove vs start ≡ (neg enoent, vs)
    → vma_remove (vma_add used vs start end type perms name).2 start ≡ (pos 0, vs)
unfolding vma_remove vma_add alloc_vma
vma_remove-vma_add used vs start end type perms name h c e =
    let v : Vma = record {
      start = start;
      end = end;
      type = type;
      perms = perms;
      name = take 15 (c_string name);
    } in
    let missing : remove_start start vs.regions ≡ none = ground arith in
    ground (arith, remove_start-insert_sorted v vs.regions missing)

-- What a search for an address returns.
abbrev pub Found : List Vma → ℕ → Option Vma → Type 0
Found vs addr none = (v : Vma) → Memᴰ v vs → contains v addr ≡ false
Found vs addr (some v) = Memᴰ v vs × (contains v addr ≡ true)

before-From :
    (addr low : ℕ) (vs : List Vma)
    → addr < low
    → From low vs
    → (v : Vma) → Memᴰ v vs
    → contains v addr ≡ false
before-From addr low [] h f v m = elim m [ ]
before-From addr low (x ∷ vs) h f v (Memᴰ.head e) =
    subst (λ (t : Vma). contains t addr ≡ false) (sym e) (ground (arith, f.0))
before-From addr low (x ∷ vs) h f v (Memᴰ.tail m) = before-From addr low vs h f.1 v m

Found-cons :
    (x : Vma) (vs : List Vma) (addr : ℕ) (r : Option Vma)
    → contains x addr ≡ false
    → Found vs addr r
    → Found (x ∷ vs) addr r
Found-cons x vs addr none out f = λ v m. elim (Memᴰ.cases_cons m) [
  | inl e ↦ subst (λ (t : Vma). contains t addr ≡ false) (sym e) out
  | inr rest ↦ f v rest
]
Found-cons x vs addr (some v) out f = (Memᴰ.tail f.0, f.1)

find_in-Found : (addr : ℕ) (vs : List Vma) → Sorted vs → Found vs addr (find_in vs addr)
unfolding find_in
find_in-Found addr [] s = λ v m. elim m [ ]
find_in-Found addr (x ∷ vs) s = elim (Bool-cases (contains x addr)) [
  | inl here ↦ rw (here, find_in) (Memᴰ.head refl, here)
  | inr not_here ↦ elim (Bool-cases (ltb addr x.start)) [
    | inl above ↦
        rw (not_here, above, find_in)
          (before-From addr x.start (x ∷ vs) (ground arith) (omega arith, s.0))
    | inr below ↦
        rw (not_here, below, find_in)
          (Found-cons x vs addr (find_in vs addr) not_here (find_in-Found addr vs s.1))
  ]
]

-- A search that stops at the first region above the address is complete: it returns a region that
-- contains the address, and reports none only when no region of the address space does.
pub vma_find-Found :
    (vs : VmSpace) (addr : ℕ) → IsValid vs → Found vs.regions addr (vma_find vs addr)
unfolding vma_find
vma_find-Found vs addr valid = find_in-Found addr vs.regions valid.sorted

check_cases :
    (vs : VmSpace) (addr perms : ℕ) (r : Option Vma)
    → vma_find vs addr ≡ r
    → Found vs.regions addr r
    → vma_check_access vs addr perms ≡ true
    → (v : Vma) × Memᴰ v vs.regions
      × (contains v addr ≡ true)
      × (is_guard v.type ≡ false)
      × (bit_and v.perms perms ≡ perms)
unfolding vma_check_access
check_cases vs addr perms none e f h = absurd (ground (arith, e))
check_cases vs addr perms (some v) e f h = (v, f.0, f.1, ground (arith, e), ground (arith, e))

-- Access to an address is allowed only inside a region that is no guard page and that has every
-- permission asked for, bit by bit.
pub vma_check_access_lem :
    (vs : VmSpace) (addr perms : ℕ)
    → IsValid vs
    → vma_check_access vs addr perms ≡ true
    → (v : Vma) × Memᴰ v vs.regions
      × (contains v addr ≡ true)
      × (v.type ≢ vma_guard)
      × ((i : ℕ) → bit perms i ≡ 1 → bit v.perms i ≡ 1)
vma_check_access_lem vs addr perms valid h =
    let (v, m, inside, no_guard, all) =
      check_cases vs addr perms (vma_find vs addr) refl (vma_find-Found vs addr valid) h in
    (
      v,
      m,
      inside,
      (λ e. ground (arith, no_guard)),
      λ i b.
          ground
            (arith, bit-bit_and v.perms perms i, ap (λ (t : ℕ). bit t i) all, bit-le-one v.perms i),
    )
