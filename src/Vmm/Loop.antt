-- ===== src/Vmm/Loop.antt =====
-- kernel/vmm.c, `vmm_map_range` and `vmm_map_range_huge`: the loop over a range.
use mathlib.Core.Path.{subst}
use alze_os.Base.{
  ℕ, zero, suc, ◌+◌, ◌*◌, ◌≤◌, ◌<◌, ◌≡◌, ◌≢◌, refl, sym, ap, ◌∙◌, ◌==◌, ==_iff, Bool-cases, inl,
  inr, ◌⊎◌, arith, Option, none, some,
}
use alze_os.Pmm.{add64}
use alze_os.Vmm.{Vmm, vmm_virt_to_phys, range_loop}
use alze_os.Vmm.State.{IsVmm}
use alze_os.Vmm.Way.{bind-some, bind-none}
use alze_os.Vmm.Write.{Changed}

-- A loop whose rounds change one page each, all of them apart.
module _ (body : ℕ → Vmm → Option Vmm) (unit rounds : ℕ) (number place : ℕ → ℕ) (to : ℕ → ℕ → ℕ)
    (changes : (k : ℕ) (v : Vmm)
      → IsVmm v
      → v.pml4_phys ≢ 0
      → k < rounds
      → (body (k * unit) v ≡ none) ⊎ Changed number v (place k) (to k) (body (k * unit) v))
    (apart : (j k : ℕ) → j < k → k < rounds → number (place j) ≢ number (place k)) where
  -- The pages from round `k` on, `n` of them, are changed.
  pub record Spread (v : Vmm) (k n : ℕ) (r : Option Vmm) : Type 0 where
    pub final : Vmm
    pub returns : r ≡ some final
    pub consistent : IsVmm final
    pub same_root : final.pml4_phys ≡ v.pml4_phys
    pub here :
        (j va : ℕ)
        → k ≤ j
        → j < k + n
        → number va ≡ number (place j)
        → vmm_virt_to_phys final va ≡ to j va
    pub others :
        (va : ℕ)
        → ((j : ℕ) → k ≤ j → j < k + n → number va ≢ number (place j))
        → vmm_virt_to_phys final va ≡ vmm_virt_to_phys v va

  Spread-suc :
      (v : Vmm) (k n : ℕ) (r : Option Vmm)
      → suc k + n ≤ rounds
      → (c : Changed number v (place k) (to k) (body (k * unit) v)) → Spread c.final (suc k) n r
      → Spread v k (suc n) r
  Spread-suc v k n r l c s = record {
    final = s.final;
    returns = s.returns;
    consistent = s.consistent;
    same_root = s.same_root ∙ c.same_root;
    here = λ j va p q e. elim (Bool-cases (j == k)) [
      | inl first ↦
          let is_k = (==_iff j k).0 first in
          s.others va (λ i a b f.
            apart k i (omega arith) (omega arith)
              (ap (λ x. number (place x)) (sym is_k) ∙ sym e ∙ f))
          ∙ c.here va (e ∙ ap (λ x. number (place x)) is_k)
          ∙ ap (λ x. to x va) (sym is_k)
      | inr later ↦ s.here j va (ground arith) (omega arith) e
    ];
    others = λ va f.
        s.others va (λ j p q. f j (omega arith) (omega arith))
        ∙ c.others va (f k (omega arith) (omega arith));
  }

  pub range_loop_lem :
      (n k : ℕ) (v : Vmm)
      → IsVmm v
      → v.pml4_phys ≢ 0
      → k + n ≤ rounds
      → (range_loop body unit n (k * unit) v ≡ none)
        ⊎ Spread v k n (range_loop body unit n (k * unit) v)
  unfolding range_loop
  range_loop_lem zero k v a there l = inr (record {
    final = v;
    returns = refl;
    consistent = a;
    same_root = refl;
    here = λ j va p q. absurd (omega arith);
    others = λ va f. refl;
  })
  range_loop_lem (suc n) k v a there l = elim (changes k v a there (omega arith)) [
    | inl e ↦ inl (bind-none (range_loop body unit n (k * unit + unit)) e)
    | inr c ↦
        let first = bind-some (range_loop body unit n (k * unit + unit)) c.returns in
        let moved : k * unit + unit ≡ suc k * unit = omega arith in
        let next = first ∙ ap (λ o. range_loop body unit n o c.final) moved in
        elim (range_loop_lem n (suc k) c.final c.consistent (λ e. there (sym c.same_root ∙ e))
          (omega arith)) [
            | inl e ↦ inl (next ∙ e)
            | inr s ↦
                inr (subst (Spread v k (suc n)) (sym next) (Spread-suc v k n _ (omega arith) c s))
          ]
  ]

-- Where a range is mapped to, one address after the other, the addresses on all other pages being
-- translated as before.
pub record MappedTo (number : ℕ → ℕ) (v : Vmm) (virt phys size : ℕ) (r : Option Vmm) : Type 0 where
  pub final : Vmm
  pub returns : r ≡ some final
  pub consistent : IsVmm final
  pub here : (x : ℕ) → x < size → vmm_virt_to_phys final (add64 virt x) ≡ phys + x
  pub others :
      (va : ℕ)
      → ((x : ℕ) → x < size → number va ≢ number (add64 virt x))
      → vmm_virt_to_phys final va ≡ vmm_virt_to_phys v va
