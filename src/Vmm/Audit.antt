-- ===== src/Vmm/Audit.antt =====
-- kernel/vmm.c, `vmm_audit_wx`: what a clean audit says of the pages.
use alze_os.Base.{
  ℕ, zero, suc, ◌^◌, ◌≤◌, ◌<◌, ◌≡◌, ◌≢◌, refl, ap, Bool, true, false, ◌==◌, ==_iff, Bool-cases, inl,
  inr, arith, Option, none, some, not, if◌then◌else◌,
}
use alze_os.Vmm.{
  Vmm, Tables, has_flag, pte_present, pte_huge, pte_to_phys, find_table, is_wx, pml4_index,
  pdpt_index, pd_index, pt_index,
}
use alze_os.Vmm.Count.{
  violation, sum_entries, count_pt, pd_entry, pdpt_entry, pml4_entry, count_pages, vmm_audit_wx,
}
use alze_os.Vmm.State.{IsVmm}

term-sum_entries : (f : ℕ → ℕ) (n i : ℕ) → i < n → f i ≤ sum_entries f n
unfolding sum_entries
term-sum_entries f zero i l = absurd (omega arith)
term-sum_entries f (suc n) i l = elim (Bool-cases (i == n)) [
  | inl last ↦ omega (arith, ap f ((==_iff i n).0 last))
  | inr before ↦ let h = term-sum_entries f n i (ground (arith, before)) in omega (arith, h)
]

-- What a last table that was found says of the entries above it.
record Found (tables : Tables) (pml4 va pt : ℕ) : Type 0 where
  pdpt : ℕ
  pd : ℕ
  at4 : pte_to_phys (tables pml4 (pml4_index va)) ≡ pdpt
  at3 : pte_to_phys (tables pdpt (pdpt_index va)) ≡ pd
  at2 : pte_to_phys (tables pd (pd_index va)) ≡ pt
  present4 : has_flag (tables pml4 (pml4_index va)) pte_present ≡ true
  present3 : has_flag (tables pdpt (pdpt_index va)) pte_present ≡ true
  present2 : has_flag (tables pd (pd_index va)) pte_present ≡ true
  last : has_flag (tables pd (pd_index va)) pte_huge ≡ false

guarded :
    {A : Type 0} (b : Bool) (o : Option A) (x : A)
    → (if b then none else o) ≡ some x
    → (b ≡ false) × (o ≡ some x)
guarded true o x e = absurd (ground (arith, e))
guarded false o x e = (refl, e)

find_table-Found :
    (tables : Tables) (pml4 va pt : ℕ)
    → find_table tables pml4 va ≡ some pt
    → Found tables pml4 va pt
unfolding find_table
find_table-Found tables pml4 va pt e =
    let t3 = pte_to_phys (tables pml4 (pml4_index va)) in
    let t2 = pte_to_phys (tables t3 (pdpt_index va)) in
    let (p4, e3) = guarded (not (has_flag (tables pml4 (pml4_index va)) pte_present)) _ pt e in
    let (p3, e2) = guarded (not (has_flag (tables t3 (pdpt_index va)) pte_present)) _ pt e3 in
    let (p2, e1) = guarded (not (has_flag (tables t2 (pd_index va)) pte_present)) _ pt e2 in
    let (h, e0) =
      guarded (has_flag (tables t2 (pd_index va)) pte_huge)
        (some (pte_to_phys (tables t2 (pd_index va)))) pt e1 in
    record {
      pdpt = pte_to_phys (tables pml4 (pml4_index va));
      pd = pte_to_phys (tables (pte_to_phys (tables pml4 (pml4_index va))) (pdpt_index va));
      at4 = refl;
      at3 = refl;
      at2 = ap (λ o. elim o [ none ↦ pt | some x ↦ x ]) e0;
      present4 = ground (arith, p4);
      present3 = ground (arith, p3);
      present2 = ground (arith, p2);
      last = h;
    }

module _ {v : Vmm} (a : IsVmm v) (va pt : ℕ)
    (found : find_table v.tables v.pml4_phys va ≡ some pt) where
  way : Found v.tables v.pml4_phys va pt
  way = find_table-Found v.tables v.pml4_phys va pt found

  not_giant : has_flag (v.tables way.pdpt (pdpt_index va)) pte_huge ≡ false
  not_giant =
      let root = a.tree.root_level in
      let h4 = a.tree.no_huge v.pml4_phys (pml4_index va) (omega (arith, root)) way.present4 in
      let d = a.tree.down v.pml4_phys (pml4_index va) (omega (arith, root)) way.present4 h4 in
      a.tree.no_huge way.pdpt (pdpt_index va) (omega (arith, root, d, ap a.level way.at4))
        way.present3

  counted_pt :
      has_flag (v.tables pt (pt_index va)) pte_present ≡ true
      → is_wx (v.tables pt (pt_index va)) ≡ true
      → 1 ≤ count_pt violation violation v.tables pt
  unfolding count_pt violation
  counted_pt p w = ground (
    arith,
    term-sum_entries
        (λ l. if has_flag (v.tables pt l) pte_present then violation (v.tables pt l) else 0) 512
        (pt_index va) (omega arith),
    p,
    w,
  )

  pd_entry-below :
      pd_entry violation violation v.tables (v.tables way.pd (pd_index va))
      ≡ count_pt violation violation v.tables pt
  unfolding pd_entry
  pd_entry-below = rw (way.present2, way.last) (ap (count_pt violation violation v.tables) way.at2)

  pdpt_entry-below :
      pd_entry violation violation v.tables (v.tables way.pd (pd_index va))
      ≤ pdpt_entry violation violation v.tables (v.tables way.pdpt (pdpt_index va))
  unfolding pdpt_entry
  pdpt_entry-below =
      rw (way.present3, not_giant, way.at3)
        (term-sum_entries (λ k. pd_entry violation violation v.tables (v.tables way.pd k)) 512
          (pd_index va) (omega arith))

  pml4_entry-below :
      pdpt_entry violation violation v.tables (v.tables way.pdpt (pdpt_index va))
      ≤ pml4_entry violation violation v.tables (v.tables v.pml4_phys (pml4_index va))
  unfolding pml4_entry
  pml4_entry-below =
      rw (way.present4, way.at4)
        (term-sum_entries (λ j. pdpt_entry violation violation v.tables (v.tables way.pdpt j)) 512
          (pdpt_index va) (omega arith))

  count_pages-below :
      pml4_entry violation violation v.tables (v.tables v.pml4_phys (pml4_index va))
      ≤ count_pages violation violation v.tables v.pml4_phys
  unfolding count_pages
  count_pages-below =
      term-sum_entries (λ i. pml4_entry violation violation v.tables (v.tables v.pml4_phys i)) 512
        (pml4_index va) (omega arith)

  -- If the audit of a consistent state returns 0, and there are fewer than 2 ^ 32 violations, then
  -- no 4 KB page that the walk of `va` finds is both writable and executable.
  pub vmm_audit_wx-find_table :
      v.pml4_phys ≢ 0
      → count_pages violation violation v.tables v.pml4_phys < 2 ^ 32
      → vmm_audit_wx v ≡ 0
      → has_flag (v.tables pt (pt_index va)) pte_present ≡ true
      → is_wx (v.tables pt (pt_index va)) ≡ false
  unfolding vmm_audit_wx
  vmm_audit_wx-find_table there few clean p =
      elim (Bool-cases (is_wx (v.tables pt (pt_index va)))) [
        | inr ok ↦ ok
        | inl wx ↦ absurd (
            ground (
              arith,
              there,
              few,
              clean,
              counted_pt p wx,
              pd_entry-below,
              pdpt_entry-below,
              pml4_entry-below,
              count_pages-below,
            ))
      ]
