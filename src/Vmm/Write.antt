-- ===== src/Vmm/Write.antt =====
-- kernel/vmm.c: what the write of one entry does to the translations.

use alze_os.Base.{
  ℕ, zero, suc, ◌+◌, ◌*◌, ◌/◌, ◌%◌, ◌^◌, ◌≤◌, ◌<◌, ◌≡◌, ◌≢◌, refl, sym, ap, ◌∙◌, true, false, ◌==◌,
  ==_iff, Bool-cases, inl, inr, bit_or, arith, Option, some,
}
use alze_os.Vmm.{
  Tables, Vmm, pte_present, pte_huge, has_flag, pte_to_phys, set_entry, vmm_virt_to_phys,
}
use alze_os.Vmm.Walk.{walk, walk-leaf, is_leaf, walk-absent, walk-set_entry, index, set_entry-Tree}
use alze_os.Vmm.State.{IsVmm}
use alze_os.Vmm.Way.{Way, SameFrom}

-- The number of a page: what the four indices are taken from.
abbrev pub page_number : ℕ → ℕ
page_number va = va / 2 ^ 12 % 2 ^ 36

pub page_number-SameFrom : (va virt : ℕ) → page_number va ≡ page_number virt → SameFrom 1 va virt
page_number-SameFrom va virt e zero l h = absurd (omega arith)
page_number-SameFrom va virt e (suc zero) l h = omega (arith, e)
page_number-SameFrom va virt e (suc (suc zero)) l h = omega (arith, e)
page_number-SameFrom va virt e (suc (suc (suc zero))) l h = omega (arith, e)
page_number-SameFrom va virt e (suc (suc (suc (suc zero)))) l h = omega (arith, e)
page_number-SameFrom va virt e (suc (suc (suc (suc (suc k))))) l h = absurd (omega arith)

pub SameFrom-page_number : (va virt : ℕ) → SameFrom 1 va virt → page_number va ≡ page_number virt
SameFrom-page_number va virt p = omega (
  arith,
  p 1 (omega arith) (omega arith),
  p 2 (omega arith) (omega arith),
  p 3 (omega arith) (omega arith),
  p 4 (omega arith) (omega arith),
)

-- One entry on the way of `virt` is written.
module _ {v : Vmm} (a : IsVmm v) (virt n t entry : ℕ) (w : Way a virt (suc n) t) where
  abbrev pub written : Tables
  written = set_entry t (index (suc n) virt) entry v.tables

  -- The translations of the addresses that do not share the entry stay.
  pub walk-others :
      (va : ℕ)
      → ¬ SameFrom (suc n) va virt
      → walk 4 written v.pml4_phys va ≡ walk 4 v.tables v.pml4_phys va
  walk-others va f =
      walk-set_entry a.tree t (index (suc n) virt) entry va
        (λ s e on same. f (λ k p q. elim (Bool-cases (k == suc n)) [
          | inl here ↦
              let k_is : k ≡ a.level s =
                (==_iff k (suc n)).0 here ∙ sym w.level_t ∙ ap a.level (sym e) in
              ap (λ m. index m va) k_is
              ∙ same
              ∙ ap (λ m. index m virt) (sym ((==_iff k (suc n)).0 here))
          | inr above ↦
              let higher : suc n < k = ground (arith, above) in
              sym (on k (omega (arith, ap a.level e, w.level_t)) q)
              ∙ ap (λ x. a.path x k) e
              ∙ w.on_path k (omega (arith, w.level_t)) q
        ]))
        4 v.pml4_phys a.tree.root_level (λ k l h. absurd (omega (arith, a.tree.root_level)))

  walk-entry :
      (va : ℕ)
      → SameFrom (suc n) va virt
      → (written t (index (suc n) va) ≡ entry)
        × (walk 4 written v.pml4_phys va ≡ walk (suc n) written t va)
  walk-entry va same = (
    ap (written t) (same (suc n) (omega arith) (omega (arith, w.level_t, a.tree.bounded t)))
        ∙ rw ((==_iff t t).1 refl, (==_iff (index (suc n) virt) (index (suc n) virt)).1 refl) refl,
    w.passes va written (λ k p q. same k (omega arith) q)
        (λ s j p q. elim (Bool-cases (s == t)) [
          | inl e ↦ absurd (omega (arith, ap a.level ((==_iff s t).0 e), w.level_t))
          | inr other ↦ rw other refl
        ]),
  )

  -- A page is translated by its new entry.
  pub walk-page :
      (va : ℕ)
      → SameFrom (suc n) va virt
      → has_flag entry pte_present ≡ true
      → is_leaf (suc n) entry ≡ true
      → walk 4 written v.pml4_phys va ≡ bit_or (pte_to_phys entry) (va % 2 ^ (3 + 9 * suc n))
  walk-page va same p l =
      (walk-entry va same).1 ∙ walk-leaf n written t va entry (walk-entry va same).0 p l

  pub walk-nothing :
      (va : ℕ)
      → SameFrom (suc n) va virt
      → has_flag entry pte_present ≡ false
      → walk 4 written v.pml4_phys va ≡ 0
  walk-nothing va same p =
      (walk-entry va same).1
      ∙ walk-absent (suc n) written t va
          (ap (λ e. has_flag e pte_present) (walk-entry va same).0 ∙ p)

-- Writing an entry that adds no table keeps a consistent state.
pub set_entry-IsVmm :
    {v : Vmm} (a : IsVmm v) (t i entry : ℕ)
    → a.level t ≤ 2
    → (a.level t ≡ 2 → has_flag entry pte_huge ≡ true)
    → IsVmm (record v { tables = set_entry t i entry v.tables })
set_entry-IsVmm a t i entry l h = record {
  level = a.level;
  path = a.path;
  own = a.own;
  lists = a.lists;
  tree = set_entry-Tree a.tree t i entry l h;
  inv = a.inv;
  none_held = a.none_held;
  small = a.small;
  tables_held = a.tables_held;
}

-- The translations of the page of `virt` are changed, those of the others stay. `number` tells the
-- pages apart.
pub record Changed (number : ℕ → ℕ) (v : Vmm) (virt : ℕ) (to : ℕ → ℕ) (r : Option Vmm)
    : Type 0 where
  pub final : Vmm
  pub returns : r ≡ some final
  pub consistent : IsVmm final
  pub same_root : final.pml4_phys ≡ v.pml4_phys
  pub here : (va : ℕ) → number va ≡ number virt → vmm_virt_to_phys final va ≡ to va
  pub others :
      (va : ℕ) → number va ≢ number virt → vmm_virt_to_phys final va ≡ vmm_virt_to_phys v va
