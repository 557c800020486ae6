-- ===== src/Vmm/Map.antt =====
-- kernel/vmm.c, `vmm_map_page`: what it does to the translations.

use alze_os.Base.{
  ℕ, ◌%◌, ◌^◌, ◌≤◌, ◌<◌, ◌≡◌, ◌≢◌, refl, sym, ap, ◌∙◌, Bool, true, false, ◌||◌, not, ◌==◌,
  if◌then◌else◌, inl, inr, ◌⊎◌, bit_or, arith, none, some,
}
use alze_os.Pmm.{page_size}
use alze_os.Vmm.{
  Vmm, pte_present, has_flag, pte_to_phys, set_entry, page_table, vmm_map_page, write_page, ◌>>=◌,
  enforce_wx, pt_index, pt_index,
}
use alze_os.Vmm.Entries.{
  IsFrame, IsFlags, enforce_wx-has_flag, enforce_wx-IsFlags, pte_to_phys-bit_or, has_flag-bit_or,
}
use alze_os.Vmm.Walk.{walk, index, vmm_virt_to_phys-walk}
use alze_os.Vmm.State.{IsVmm}
use alze_os.Vmm.Way.{Reached, page_table_lem, bind-some, bind-none}
use alze_os.Vmm.Write.{
  Changed, page_number, page_number-SameFrom, SameFrom-page_number, walk-others, walk-page,
  set_entry-IsVmm,
}

module _ {v : Vmm} (a : IsVmm v) (virt phys flags : ℕ) (there : v.pml4_phys ≢ 0)
    (aligned : virt % page_size ≡ 0) (frame : IsFrame phys) (is_flags : IsFlags flags)
    (present : has_flag flags pte_present ≡ true) where
  entry-phys : (wx : Bool) → pte_to_phys (bit_or phys (enforce_wx wx flags)) ≡ phys
  entry-phys wx =
      pte_to_phys-bit_or phys (enforce_wx wx flags) frame (enforce_wx-IsFlags wx flags is_flags)

  entry-flag :
      (wx : Bool) (i : ℕ)
      → (i < 12) ⊎ (52 ≤ i)
      → has_flag (bit_or phys (enforce_wx wx flags)) (2 ^ i)
        ≡ has_flag (enforce_wx wx flags) (2 ^ i)
  entry-flag wx i h = has_flag-bit_or phys (enforce_wx wx flags) i frame h

  vmm_map_page-allowed :
      vmm_map_page virt phys flags v ≡ (page_table virt v >>= write_page virt phys flags)
  unfolding vmm_map_page
  vmm_map_page-allowed =
      ap (λ b. if b then none else (page_table virt v >>= write_page virt phys flags))
        {x = not (virt % page_size == 0) || not (phys % page_size == 0) || v.pml4_phys == 0}
        {y = false} (ground (arith, aligned, frame.aligned, there))

  vmm_map_page-reached :
      (pt : ℕ) (v' : Vmm)
      → page_table virt v ≡ some (pt, v')
      → vmm_map_page virt phys flags v
        ≡ some (record v' {
          tables =
              set_entry pt (index 1 virt) (bit_or phys (enforce_wx v'.wx_enforced flags)) v'.tables;
        })
  unfolding write_page
  vmm_map_page-reached pt v' e = vmm_map_page-allowed ∙ bind-some (write_page virt phys flags) e

  vmm_map_page-none : page_table virt v ≡ none → vmm_map_page virt phys flags v ≡ none
  vmm_map_page-none e = vmm_map_page-allowed ∙ bind-none (write_page virt phys flags) e

  module _ (r : Reached a virt 1 (page_table virt v)) where
    new_entry : ℕ
    new_entry = bit_or phys (enforce_wx r.final.wx_enforced flags)

    mapped-here :
        (va : ℕ)
        → page_number va ≡ page_number virt
        → walk 4 (set_entry r.table (index 1 virt) new_entry r.final.tables) r.final.pml4_phys va
          ≡ bit_or phys (va % 2 ^ 12)
    unfolding new_entry has_flag
    mapped-here va e =
        walk-page r.grown.after virt 0 r.table new_entry r.way va (page_number-SameFrom va virt e)
          (entry-flag r.final.wx_enforced 0 (inl (omega arith))
            ∙ enforce_wx-has_flag r.final.wx_enforced flags 0 (omega arith)
            ∙ present)
          refl
        ∙ ap (λ p. bit_or p (va % 2 ^ 12)) (entry-phys r.final.wx_enforced)

    mapped :
        Changed page_number v virt
          (λ va. bit_or phys (va % 2 ^ 12))
          (vmm_map_page virt phys flags v)
    unfolding new_entry
    mapped = record {
      final = record r.final { tables = set_entry r.table (index 1 virt) new_entry r.final.tables };
      returns = vmm_map_page-reached r.table r.final r.returns;
      consistent =
          set_entry-IsVmm r.grown.after r.table (index 1 virt) new_entry
            (omega (arith, r.way.level_t)) (λ e. absurd (omega (arith, r.way.level_t, e)));
      same_root = r.grown.same_root;
      here = λ va e.
          vmm_virt_to_phys-walk _ va (λ f. there (sym r.grown.same_root ∙ f)) ∙ mapped-here va e;
      others = λ va f.
          vmm_virt_to_phys-walk _ va (λ f. there (sym r.grown.same_root ∙ f))
          ∙ walk-others r.grown.after virt 0 r.table new_entry r.way va
              (λ same. f (SameFrom-page_number va virt same))
          ∙ r.grown.translations va
          ∙ sym (vmm_virt_to_phys-walk v va there);
    }

  -- Mapping a page in a consistent state either stops, as no table could be made or a 2 MB page is
  -- in the way, or makes a consistent state where each address of the page is translated to the
  -- address with the same offset in the frame `phys`, and all other addresses as before.
  pub vmm_map_page-vmm_virt_to_phys :
      ((page_table virt v ≡ none) × (vmm_map_page virt phys flags v ≡ none))
      ⊎ Changed page_number v virt
          (λ va. bit_or phys (va % 2 ^ 12))
          (vmm_map_page virt phys flags v)
  vmm_map_page-vmm_virt_to_phys = elim (page_table_lem a virt) [
    | inl e ↦ inl (e, vmm_map_page-none e)
    | inr r ↦ inr (mapped r)
  ]
