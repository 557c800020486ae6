-- ===== src/Vmm/Unmap.antt =====
-- kernel/vmm.c, `vmm_unmap_page`: what it does to the translations.

use alze_os.Base.{
  ℕ, ◌%◌, ◌≡◌, ◌≢◌, refl, sym, ap, ◌∙◌, false, ◌||◌, not, ◌==◌, if◌then◌else◌, Bool-cases, inl, inr,
  ◌⊎◌, arith, none, some,
}
use alze_os.Pmm.{page_size}
use alze_os.Vmm.{
  Vmm, pte_present, pte_huge, has_flag, pte_to_phys, set_entry, find_table, unmap_at,
  vmm_unmap_page,
}
use alze_os.Vmm.Walk.{index, vmm_virt_to_phys-walk}
use alze_os.Vmm.State.{IsVmm}
use alze_os.Vmm.Way.{Way, Way-root, Way-follow, Way-not_huge}
use alze_os.Vmm.Write.{
  Changed, page_number, page_number-SameFrom, SameFrom-page_number, walk-others, walk-nothing,
  set_entry-IsVmm,
}

find_table_lem :
    {v : Vmm} (a : IsVmm v) (virt : ℕ)
    → (find_table v.tables v.pml4_phys virt ≡ none)
      ⊎ ((pt : ℕ) × (find_table v.tables v.pml4_phys virt ≡ some pt) × Way a virt 1 pt)
unfolding find_table
find_table_lem {v} a virt =
    let t3 = pte_to_phys (v.tables v.pml4_phys (index 4 virt)) in
    let t2 = pte_to_phys (v.tables t3 (index 3 virt)) in
    let w4 = Way-root a virt in
    elim (Bool-cases (has_flag (v.tables v.pml4_phys (index 4 virt)) pte_present)) [
      | inr no4 ↦ inl (rw no4 refl)
      | inl p4 ↦
          let h4 = Way-not_huge a virt 4 v.pml4_phys (omega arith) w4 p4 in
          let w3 = Way-follow a virt 3 v.pml4_phys (omega arith) w4 p4 h4 in
          elim (Bool-cases (has_flag (v.tables t3 (index 3 virt)) pte_present)) [
            | inr no3 ↦ inl (rw (p4, no3) refl)
            | inl p3 ↦
                let h3 = Way-not_huge a virt 3 t3 (omega arith) w3 p3 in
                let w2 = Way-follow a virt 2 t3 (omega arith) w3 p3 h3 in
                elim (Bool-cases (has_flag (v.tables t2 (index 2 virt)) pte_present)) [
                  | inr no2 ↦ inl (rw (p4, p3, no2) refl)
                  | inl p2 ↦ elim (Bool-cases (has_flag (v.tables t2 (index 2 virt)) pte_huge)) [
                    | inl huge ↦ inl (rw (p4, p3, p2, huge) refl)
                    | inr last ↦ inr (
                      pte_to_phys (v.tables t2 (index 2 virt)),
                      rw (p4, p3, p2, last) refl,
                      Way-follow a virt 1 t2 (omega arith) w2 p2 last,
                    )
                  ]
                ]
          ]
    ]

module _ {v : Vmm} (a : IsVmm v) (virt : ℕ) (there : v.pml4_phys ≢ 0)
    (aligned : virt % page_size ≡ 0) where
  vmm_unmap_page-allowed :
      vmm_unmap_page virt v ≡ unmap_at virt v (find_table v.tables v.pml4_phys virt)
  unfolding vmm_unmap_page
  vmm_unmap_page-allowed =
      ap (λ b. if b then none else unmap_at virt v (find_table v.tables v.pml4_phys virt))
        {x = not (virt % page_size == 0) || v.pml4_phys == 0} {y = false}
        (ground (arith, aligned, there))

  vmm_unmap_page-some :
      (pt : ℕ)
      → find_table v.tables v.pml4_phys virt ≡ some pt
      → vmm_unmap_page virt v ≡ some (record v { tables = set_entry pt (index 1 virt) 0 v.tables })
  vmm_unmap_page-some pt e = vmm_unmap_page-allowed ∙ ap (unmap_at virt v) e

  vmm_unmap_page-none : find_table v.tables v.pml4_phys virt ≡ none → vmm_unmap_page virt v ≡ some v
  vmm_unmap_page-none e = vmm_unmap_page-allowed ∙ ap (unmap_at virt v) e

  -- Unmapping a page never stops. If the walk finds the last table, no address of the page is
  -- translated any more and all other translations stay; otherwise nothing changes.
  pub vmm_unmap_page-vmm_virt_to_phys :
      ((find_table v.tables v.pml4_phys virt ≡ none) × (vmm_unmap_page virt v ≡ some v))
      ⊎ Changed page_number v virt (λ va. 0) (vmm_unmap_page virt v)
  unfolding has_flag
  vmm_unmap_page-vmm_virt_to_phys = elim (find_table_lem a virt) [
    | inl e ↦ inl (e, vmm_unmap_page-none e)
    | inr (pt, e, w) ↦ inr (record {
      final = record v { tables = set_entry pt (index 1 virt) 0 v.tables };
      returns = vmm_unmap_page-some pt e;
      consistent =
          set_entry-IsVmm a pt (index 1 virt) 0 (omega (arith, w.level_t))
            (λ e. absurd (omega (arith, w.level_t, e)));
      same_root = refl;
      here = λ va f.
          vmm_virt_to_phys-walk _ va there
          ∙ walk-nothing a virt 0 pt 0 w va (page_number-SameFrom va virt f) refl;
      others = λ va f.
          vmm_virt_to_phys-walk _ va there
          ∙ walk-others a virt 0 pt 0 w va (λ same. f (SameFrom-page_number va virt same))
          ∙ sym (vmm_virt_to_phys-walk v va there);
    })
  ]
