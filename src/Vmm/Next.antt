-- ===== src/Vmm/Next.antt =====
-- kernel/vmm.c, `get_or_create_entry`: the state after it, with a new table where there was none.
use alze_os.Base.{
  ℕ, ◌-◌, ◌/◌, ◌^◌, ◌≤◌, ◌≡◌, ◌≢◌, refl, ap, ◌∙◌, true, false, ◌==◌, ==_iff, if◌then◌else◌,
  Bool-cases, inl, inr, ◌⊎◌, update, arith, Option, none, some,
}
use alze_os.Pmm.{Pmm, add64, pmm_alloc_pages, pfn_to_phys}
use alze_os.Pmm.Blocks.{Division, Block}
use alze_os.Pmm.Inv.{Listing}
use alze_os.Pmm.Alloc.{Allocated, pmm_alloc_pages_lem}
use alze_os.Vmm.{
  Vmm, pte_present, has_flag, pte_to_phys, link_table, get_or_create_entry, next_table,
}
use alze_os.Vmm.Entries.{IsFrame}
use alze_os.Vmm.Create.{link_table-Tree, walk-link_table, link_table-cases, link_table-present}
use alze_os.Vmm.State.{IsVmm, Held, Grown, Grown-refl}

-- The frame that was allocated.
module _ {own : Division} {lists : Listing} {st : Pmm} {level : ℕ → ℕ}
    (a : Allocated own lists st 0 (pmm_alloc_pages 0 st)) (small : st.total_pfns ≤ 2 ^ 40)
    (known : Held level own st.total_pfns) where
  abbrev new : ℕ
  new = pfn_to_phys a.pfn

  new-pfn : (new / 2 ^ 12 ≡ a.pfn) × IsFrame new
  unfolding pfn_to_phys
  new-pfn = (
    omega (arith, a.inside),
    record { aligned = omega (arith, a.inside); small = omega (arith, a.inside) },
  )

  pub new_unused : level new ≡ 0
  new_unused = elim (Bool-cases (level new == 0)) [
    | inl e ↦ (==_iff _ _).0 e
    | inr f ↦ absurd (
        ground (
          arith,
          known new (ground (arith, f)),
          a.carved.inside a.pfn a.inside (ground arith),
          ap (λ p. (own p).kind) new-pfn.0,
        ))
  ]

  pub new-Held : (n : ℕ) → Held (update level new n) a.now a.final.total_pfns
  new-Held n t h = elim (Bool-cases (t == new)) [
    | inl e ↦ rw ((==_iff t new).0 e) (
      new-pfn.1.aligned,
      omega (arith, new-pfn.0, a.inside, a.total),
      ap (λ p. (a.now p).kind) new-pfn.0
          ∙ ap (λ (b : Block). b.kind) (a.carved.inside a.pfn a.inside (ground arith)).0,
    )
    | inr f ↦
        let (aligned, inside, kind) = known t (ground (arith, h, f)) in
        (
          aligned,
          omega (arith, inside, a.total),
          ground (
            arith,
            kind,
            a.carved.inside (t / 2 ^ 12) inside,
            a.carved.outside (t / 2 ^ 12) inside,
          ),
        )
  ]

-- What `next_table` returns, and the state after it.
pub record Next {v : Vmm} (a : IsVmm v) (t i : ℕ) (r : Option (ℕ × Vmm)) : Type 0 where
  pub final : Vmm
  pub grown : Grown a final
  pub present : has_flag (final.tables t i) pte_present ≡ true
  pub returns : r ≡ some (pte_to_phys (final.tables t i), final)

next_table-present :
    (t i : ℕ) (v : Vmm)
    → has_flag (v.tables t i) pte_present ≡ true
    → next_table t i v ≡ some (pte_to_phys (v.tables t i), v)
unfolding next_table get_or_create_entry
next_table-present t i v p = rw (p, next_table, get_or_create_entry) refl

-- The state with the new table.
abbrev linked : ℕ → ℕ → ℕ → Pmm → Vmm → Vmm
linked t i new pmm v = record v {
  tables = link_table t i new v.tables;
  tables_allocated = add64 v.tables_allocated 1;
  pmm = pmm;
}

next_table-linked :
    (t i : ℕ) (v : Vmm) (new : ℕ) (pmm : Pmm)
    → has_flag (v.tables t i) pte_present ≡ false
    → pmm_alloc_pages 0 v.pmm ≡ some (new, pmm)
    → (new == 0) ≡ false
    → next_table t i v ≡ some (pte_to_phys (link_table t i new v.tables t i), linked t i new pmm v)
unfolding next_table get_or_create_entry
next_table-linked t i v new pmm p e f = rw (p, e, f, next_table, get_or_create_entry) refl

next_table-none :
    (t i : ℕ) (v : Vmm) (new : ℕ) (pmm : Pmm)
    → has_flag (v.tables t i) pte_present ≡ false
    → pmm_alloc_pages 0 v.pmm ≡ some (new, pmm)
    → (new == 0) ≡ true
    → next_table t i v ≡ none
unfolding next_table get_or_create_entry
next_table-none t i v new pmm p e f = rw (p, e, f, next_table, get_or_create_entry) refl

module _ {v : Vmm} (a : IsVmm v) (t i : ℕ) (upper : 2 ≤ a.level t)
    (absent : has_flag (v.tables t i) pte_present ≡ false)
    (got : Allocated a.own a.lists v.pmm 0 (pmm_alloc_pages 0 v.pmm)) where
  abbrev frame : ℕ
  frame = new got a.small a.tables_held

  is_frame : IsFrame frame
  is_frame = (new-pfn got a.small a.tables_held).1

  unused : a.level frame ≡ 0
  unused = new_unused got a.small a.tables_held

  other : (s : ℕ) → a.level s ≢ 0 → s ≢ frame
  other s h e = h (ap a.level e ∙ unused)

  linked-IsVmm : IsVmm (linked t i frame got.final v)
  linked-IsVmm = record {
    level = update a.level frame (a.level t - 1);
    path = update a.path frame (λ k. if k == a.level t then i else a.path t k);
    own = got.now;
    lists = got.lists';
    tree = link_table-Tree a.tree t i frame is_frame unused upper absent;
    inv = got.inv;
    none_held = got.none_held;
    small = omega (arith, got.total, a.small);
    tables_held = new-Held got a.small a.tables_held (a.level t - 1);
  }

  linked-Grown : Grown a (linked t i frame got.final v)
  unfolding linked-IsVmm
  linked-Grown = record {
    after = linked-IsVmm;
    same_root = refl;
    same_rule = refl;
    levels = λ s h. ground (arith, other s h);
    kept = λ s j h p. elim (link_table-cases a.tree t i frame is_frame unused upper absent s j) [
      | inl (es, ej, e) ↦ absurd (
          ground (
            arith,
            p,
            absent,
            ap (λ x. has_flag (v.tables x j) pte_present) es,
            ap (λ x. has_flag (v.tables t x) pte_present) ej,
          ))
      | inr (inl (es, e)) ↦ absurd (other s h es)
      | inr (inr (apart, e)) ↦ e
    ];
    same_paths = λ s k h. ground (arith, other s h);
    translations = λ va.
        walk-link_table a.tree t i frame is_frame unused upper absent 4 v.pml4_phys va
          a.tree.root_level;
  }

  linked-Next : (frame == 0) ≡ false → Next a t i (next_table t i v)
  linked-Next f = record {
    final = linked t i frame got.final v;
    grown = linked-Grown;
    present = link_table-present a.tree t i frame is_frame unused upper absent;
    returns = next_table-linked t i v frame got.final absent got.returns f;
  }

pub next_table_lem :
    {v : Vmm} (a : IsVmm v) (t i : ℕ)
    → 2 ≤ a.level t
    → (next_table t i v ≡ none) ⊎ Next a t i (next_table t i v)
next_table_lem {v} a t i l = elim (Bool-cases (has_flag (v.tables t i) pte_present)) [
  | inl p ↦ inr (record {
    final = v;
    grown = Grown-refl a;
    present = p;
    returns = next_table-present t i v p;
  })
  | inr absent ↦ elim (pmm_alloc_pages_lem v.pmm 0 a.inv a.none_held (omega arith)) [
    | inl (e, empty) ↦ inl (next_table-none t i v 0 v.pmm absent e refl)
    | inr got ↦ elim (Bool-cases (frame a t i l absent got == 0)) [
      | inl zero_frame ↦ inl (next_table-none t i v _ got.final absent got.returns zero_frame)
      | inr f ↦ inr (linked-Next a t i l absent got f)
    ]
  ]
]
