-- ===== src/Vmm/Huge.antt =====
-- kernel/vmm.c, one round of `vmm_map_range_huge`: the entry of a 2 MB page.

use alze_os.Base.{
  ℕ, zero, suc, ◌/◌, ◌%◌, ◌^◌, ◌≡◌, ◌≢◌, refl, sym, ap, ◌∙◌, true, ◌||◌, inl, inr, ◌⊎◌, bit_or,
  arith, none,
}
use alze_os.Vmm.{
  Vmm, pte_present, pte_huge, has_flag, pte_to_phys, set_entry, pd_table, map_huge, write_huge,
}
use alze_os.Vmm.Entries.{IsFrame, IsFlags, pte_to_phys-flags, has_flag-flags, pow-IsFlags}
use alze_os.Vmm.Walk.{index, vmm_virt_to_phys-walk}
use alze_os.Vmm.State.{IsVmm}
use alze_os.Vmm.Way.{SameFrom, Reached, pd_table_lem, bind-some, bind-none}
use alze_os.Vmm.Write.{Changed, walk-others, walk-page, set_entry-IsVmm}

-- The number of a 2 MB page.
abbrev pub huge_number : ℕ → ℕ
huge_number va = va / 2 ^ 21 % 2 ^ 27

huge_number-SameFrom : (va virt : ℕ) → huge_number va ≡ huge_number virt → SameFrom 2 va virt
huge_number-SameFrom va virt e zero l h = absurd (omega arith)
huge_number-SameFrom va virt e (suc zero) l h = absurd (omega arith)
huge_number-SameFrom va virt e (suc (suc zero)) l h = omega (arith, e)
huge_number-SameFrom va virt e (suc (suc (suc zero))) l h = omega (arith, e)
huge_number-SameFrom va virt e (suc (suc (suc (suc zero)))) l h = omega (arith, e)
huge_number-SameFrom va virt e (suc (suc (suc (suc (suc k))))) l h = absurd (omega arith)

SameFrom-huge_number : (va virt : ℕ) → SameFrom 2 va virt → huge_number va ≡ huge_number virt
SameFrom-huge_number va virt p = omega (
  arith,
  p 2 (omega arith) (omega arith),
  p 3 (omega arith) (omega arith),
  p 4 (omega arith) (omega arith),
)

module _ {v : Vmm} (a : IsVmm v) (virt phys flags : ℕ) (there : v.pml4_phys ≢ 0)
    (frame : IsFrame phys) (is_flags : IsFlags flags)
    (present : has_flag flags pte_present ≡ true) where
  huge_flag : IsFlags pte_huge
  huge_flag = pow-IsFlags 7 (omega arith) refl

  entry-phys : pte_to_phys (bit_or (bit_or phys flags) pte_huge) ≡ phys
  entry-phys = pte_to_phys-flags phys flags pte_huge frame is_flags huge_flag

  entry-present : has_flag (bit_or (bit_or phys flags) pte_huge) pte_present ≡ true
  entry-present =
      has_flag-flags phys flags pte_huge frame is_flags huge_flag 0 (inl (omega arith))
      ∙ ap (λ b. b || has_flag pte_huge pte_present) present

  entry-huge : has_flag (bit_or (bit_or phys flags) pte_huge) pte_huge ≡ true
  unfolding has_flag
  entry-huge =
      has_flag-flags phys flags pte_huge frame is_flags huge_flag 7 (inl (omega arith))
      ∙ ground arith

  module _ (r : Reached a virt 2 (pd_table virt v)) where
    mapped :
        Changed huge_number v virt (λ va. bit_or phys (va % 2 ^ 21)) (map_huge virt phys flags v)
    unfolding map_huge write_huge
    mapped = record {
      final = record r.final {
        tables =
            set_entry r.table (index 2 virt) (bit_or (bit_or phys flags) pte_huge) r.final.tables;
      };
      returns = bind-some (write_huge virt phys flags) r.returns;
      consistent =
          set_entry-IsVmm r.grown.after r.table (index 2 virt) (bit_or (bit_or phys flags) pte_huge)
            (omega (arith, r.way.level_t)) (λ e. entry-huge);
      same_root = r.grown.same_root;
      here = λ va e.
          vmm_virt_to_phys-walk _ va (λ f. there (sym r.grown.same_root ∙ f))
          ∙ walk-page r.grown.after virt 1 r.table (bit_or (bit_or phys flags) pte_huge) r.way va
              (huge_number-SameFrom va virt e) entry-present entry-huge
          ∙ ap (λ p. bit_or p (va % 2 ^ 21)) entry-phys;
      others = λ va f.
          vmm_virt_to_phys-walk _ va (λ f. there (sym r.grown.same_root ∙ f))
          ∙ walk-others r.grown.after virt 1 r.table (bit_or (bit_or phys flags) pte_huge) r.way va
              (λ same. f (SameFrom-huge_number va virt same))
          ∙ r.grown.translations va
          ∙ sym (vmm_virt_to_phys-walk v va there);
    }

  -- One round in a consistent state either stops, as no table could be made, or makes a consistent
  -- state where each address of the 2 MB page is translated to the address with the same offset
  -- from `phys`, and all other addresses as before, whatever the entry was.
  pub map_huge-vmm_virt_to_phys :
      ((pd_table virt v ≡ none) × (map_huge virt phys flags v ≡ none))
      ⊎ Changed huge_number v virt (λ va. bit_or phys (va % 2 ^ 21)) (map_huge virt phys flags v)
  unfolding map_huge
  map_huge-vmm_virt_to_phys = elim (pd_table_lem a virt) [
    | inl e ↦ inl (e, bind-none (write_huge virt phys flags) e)
    | inr r ↦ inr (mapped r)
  ]
