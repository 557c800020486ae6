-- ===== src/Vmm/RangeHuge.antt =====
-- kernel/vmm.c, `vmm_map_range_huge`: the translations after the loop.

use alze_os.Base.{
  ℕ, ◌+◌, ◌*◌, ◌/◌, ◌%◌, ◌^◌, ◌≤◌, ◌<◌, ◌≡◌, ◌≢◌, ap, ◌∙◌, true, false, ◌||◌, not, ◌==◌,
  if◌then◌else◌, inl, inr, ◌⊎◌, bit_or, arith, none,
}
use alze_os.Bits.{bit_or-add}
use alze_os.Pmm.{add64}
use alze_os.Vmm.{Vmm, range_loop, vmm_map_range_huge, map_huge, has_flag, pte_present}
use alze_os.Vmm.Entries.{IsFlags}
use alze_os.Vmm.State.{IsVmm}
use alze_os.Vmm.Write.{Changed}
use alze_os.Vmm.Huge.{huge_number, map_huge-vmm_virt_to_phys}
use alze_os.Vmm.Loop.{range_loop_lem, MappedTo}

-- The pages of a range of at most 2 ^ 48 bytes.
module _ {v : Vmm} (a : IsVmm v) (virt phys size flags : ℕ) (there : v.pml4_phys ≢ 0)
    (is_flags : IsFlags flags) (present : has_flag flags pte_present ≡ true)
    (size_small : size ≤ 2 ^ 48) (phys_small : phys + size ≤ 2 ^ 52) where
  module _ (aligned : virt % 2 ^ 21 ≡ 0) (frame : phys % 2 ^ 21 ≡ 0)
      (whole : size % 2 ^ 21 ≡ 0) where
    abbrev rounds : ℕ
    rounds = size / 2 ^ 21

    abbrev place : ℕ → ℕ
    place k = add64 virt (k * 2 ^ 21)

    abbrev to : ℕ → ℕ → ℕ
    to k va = bit_or (add64 phys (k * 2 ^ 21)) (va % 2 ^ 21)

    apart : (j k : ℕ) → j < k → k < rounds → huge_number (place j) ≢ huge_number (place k)
    apart j k l h e = omega arith

    changes :
        (k : ℕ) (v : Vmm)
        → IsVmm v
        → v.pml4_phys ≢ 0
        → k < rounds
        → (map_huge (add64 virt (k * 2 ^ 21)) (add64 phys (k * 2 ^ 21)) flags v ≡ none)
          ⊎ Changed huge_number v
              (place k)
              (to k)
              (map_huge (add64 virt (k * 2 ^ 21)) (add64 phys (k * 2 ^ 21)) flags v)
    changes k v a there l =
        elim (map_huge-vmm_virt_to_phys a (add64 virt (k * 2 ^ 21)) (add64 phys (k * 2 ^ 21)) flags
          there (record { aligned = omega arith; small = omega arith }) is_flags present) [
            | inl (e, f) ↦ inl f
            | inr c ↦ inr c
          ]

    to_sum : (x : ℕ) → x < size → to (x / 2 ^ 21) (add64 virt x) ≡ phys + x
    to_sum x l =
        let q = phys / 2 ^ 21 + x / 2 ^ 21 in
        ap (λ p. bit_or p (add64 virt x % 2 ^ 21)) {y = q * 2 ^ 21} (omega arith)
        ∙ ap (λ o. bit_or (q * 2 ^ 21) o) {y = x % 2 ^ 21} (omega arith)
        ∙ bit_or-add 21 q (x % 2 ^ 21) (omega arith) (omega arith)
        ∙ omega arith

    allowed :
        vmm_map_range_huge virt phys size flags v
        ≡ range_loop (λ off. map_huge (add64 virt off) (add64 phys off) flags) (2 ^ 21) rounds 0 v
    unfolding vmm_map_range_huge
    allowed =
        ap
          (λ b.
            if b
            then none
            else range_loop (λ off. map_huge (add64 virt off) (add64 phys off) flags) (2 ^ 21)
                rounds 0 v)
          {x = not (virt % 2 ^ 21 == 0) || not (phys % 2 ^ 21 == 0) || not (size % 2 ^ 21 == 0)}
          {y = false} (ground (arith, aligned, frame, whole))

    -- Mapping a range of 2 MB pages in a consistent state either stops, or makes a consistent state
    -- where each address of the range is translated to its place in the physical range, and the
    -- addresses of all other 2 MB pages as before.
    pub vmm_map_range_huge-vmm_virt_to_phys :
        (vmm_map_range_huge virt phys size flags v ≡ none)
        ⊎ MappedTo huge_number v virt phys size (vmm_map_range_huge virt phys size flags v)
    vmm_map_range_huge-vmm_virt_to_phys =
        elim (range_loop_lem (λ off. map_huge (add64 virt off) (add64 phys off) flags) (2 ^ 21)
          rounds huge_number place to changes apart rounds 0 v a there (omega arith)) [
            | inl e ↦ inl (allowed ∙ e)
            | inr s ↦ inr (record {
              final = s.final;
              returns = allowed ∙ s.returns;
              consistent = s.consistent;
              here = λ x l.
                  s.here (x / 2 ^ 21) (add64 virt x) (omega arith) (omega arith) (omega arith)
                  ∙ to_sum x l;
              others = λ va f. s.others va (λ j p q. f (j * 2 ^ 21) (omega arith));
            })
          ]
