-- ===== src/Vmm/Range.antt =====
-- kernel/vmm.c, `vmm_map_range`: the translations after the loop.

use alze_os.Base.{
  ℕ, ◌+◌, ◌-◌, ◌*◌, ◌/◌, ◌%◌, ◌^◌, ◌≤◌, ◌<◌, ◌≡◌, ◌≢◌, ap, ◌∙◌, true, inl, inr, ◌⊎◌, bit_or, arith,
  none,
}
use alze_os.Bits.{bit_or-add}
use alze_os.Pmm.{page_size, add64}
use alze_os.Vmm.{Vmm, vmm_map_range, vmm_map_page, has_flag, pte_present}
use alze_os.Vmm.Entries.{IsFlags}
use alze_os.Vmm.State.{IsVmm}
use alze_os.Vmm.Write.{Changed, page_number}
use alze_os.Vmm.Map.{vmm_map_page-vmm_virt_to_phys}
use alze_os.Vmm.Loop.{range_loop_lem, MappedTo}

-- The pages of a range of at most 2 ^ 48 bytes.
module _ {v : Vmm} (a : IsVmm v) (virt phys size flags : ℕ) (there : v.pml4_phys ≢ 0)
    (is_flags : IsFlags flags) (present : has_flag flags pte_present ≡ true)
    (size_small : size ≤ 2 ^ 48) (phys_small : phys + size ≤ 2 ^ 52) where
  module _ (aligned : virt % page_size ≡ 0) (frame : phys % page_size ≡ 0) where
    abbrev rounds : ℕ
    rounds = (size + (page_size - 1)) / page_size

    abbrev place : ℕ → ℕ
    place k = add64 virt (k * page_size)

    abbrev to : ℕ → ℕ → ℕ
    to k va = bit_or (add64 phys (k * page_size)) (va % 2 ^ 12)

    apart : (j k : ℕ) → j < k → k < rounds → page_number (place j) ≢ page_number (place k)
    apart j k l h e = omega arith

    changes :
        (k : ℕ) (v : Vmm)
        → IsVmm v
        → v.pml4_phys ≢ 0
        → k < rounds
        → (vmm_map_page (add64 virt (k * page_size)) (add64 phys (k * page_size)) flags v ≡ none)
          ⊎ Changed page_number v
              (place k)
              (to k)
              (vmm_map_page (add64 virt (k * page_size)) (add64 phys (k * page_size)) flags v)
    changes k v a there l =
        elim (vmm_map_page-vmm_virt_to_phys a (add64 virt (k * page_size))
          (add64 phys (k * page_size)) flags there (omega arith)
          (record { aligned = omega arith; small = omega arith }) is_flags present) [
            | inl (e, f) ↦ inl f
            | inr c ↦ inr c
          ]

    to_sum : (x : ℕ) → x < size → to (x / page_size) (add64 virt x) ≡ phys + x
    to_sum x l =
        let q = phys / page_size + x / page_size in
        ap (λ p. bit_or p (add64 virt x % 2 ^ 12)) {y = q * 2 ^ 12} (omega arith)
        ∙ ap (λ o. bit_or (q * 2 ^ 12) o) {y = x % 2 ^ 12} (omega arith)
        ∙ bit_or-add 12 q (x % 2 ^ 12) (omega arith) (omega arith)
        ∙ omega arith

    -- Mapping a range of aligned pages in a consistent state either stops, or makes a consistent
    -- state where each address of the range is translated to its place in the physical range, and
    -- the addresses of all other pages as before.
    pub vmm_map_range-vmm_virt_to_phys :
        (vmm_map_range virt phys size flags v ≡ none)
        ⊎ MappedTo page_number v virt phys size (vmm_map_range virt phys size flags v)
    unfolding vmm_map_range
    vmm_map_range-vmm_virt_to_phys =
        elim (range_loop_lem (λ off. vmm_map_page (add64 virt off) (add64 phys off) flags) page_size
          rounds page_number place to changes apart rounds 0 v a there (omega arith)) [
            | inl e ↦ inl e
            | inr s ↦ inr (record {
              final = s.final;
              returns = s.returns;
              consistent = s.consistent;
              here = λ x l.
                  s.here (x / page_size) (add64 virt x) (omega arith) (omega arith) (omega arith)
                  ∙ to_sum x l;
              others = λ va f. s.others va (λ j p q. f (j * page_size) (omega arith));
            })
          ]
