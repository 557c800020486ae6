-- ===== src/Vmm/Way.antt =====
-- kernel/vmm.c: the way from the root to the tables of the lower levels.

use alze_os.Base.{
  ℕ, suc, ◌≤◌, ◌<◌, ◌≡◌, ◌≢◌, refl, ap, ◌∙◌, true, false, if◌then◌else◌, Bool-cases, inl, inr, ◌⊎◌,
  arith, Option, none, some,
}
use alze_os.Vmm.{
  Tables, Vmm, pte_present, pte_huge, has_flag, pte_to_phys, next_table, pd_table, page_table,
  ◌>>=◌,
}
use alze_os.Vmm.Walk.{walk, walk-follow, index, OnPath, down-OnPath}
use alze_os.Vmm.State.{IsVmm, Grown, Grown-trans}
use alze_os.Vmm.Next.{next_table_lem}

-- The addresses have the same indices at the levels from `n` up.
abbrev pub SameFrom : ℕ → ℕ → ℕ → Type 0
SameFrom n va virt = (k : ℕ) → n ≤ k → k ≤ 4 → index k va ≡ index k virt

-- Table `t` of level `n` is on the way of `virt`: the walk passes it, whatever the entries below.
pub record Way {v : Vmm} (a : IsVmm v) (virt n t : ℕ) : Type 0 where
  pub level_t : a.level t ≡ n
  pub on_path : OnPath a.level a.path virt t
  pub passes :
      (va : ℕ) (tables' : Tables)
      → SameFrom (suc n) va virt
      → ((s j : ℕ)
          → n < a.level s
          → has_flag (v.tables s j) pte_present ≡ true
          → tables' s j ≡ v.tables s j)
      → walk 4 tables' v.pml4_phys va ≡ walk n tables' t va

pub Way-root : {v : Vmm} (a : IsVmm v) (virt : ℕ) → Way a virt 4 v.pml4_phys
Way-root a virt = record {
  level_t = a.tree.root_level;
  on_path = λ k l h. absurd (omega (arith, a.tree.root_level));
  passes = λ va tables' page same. refl;
}

pub Way-Grown :
    {v v' : Vmm} (a : IsVmm v) (g : Grown a v') (virt n t : ℕ)
    → 1 ≤ n
    → Way a virt n t
    → Way g.after virt n t
Way-Grown {v} a g virt n t l w =
    let known : a.level t ≢ 0 = λ e. absurd (omega (arith, w.level_t, e)) in
    record {
      level_t = g.levels t known ∙ w.level_t;
      on_path = λ k p q. g.same_paths t k known ∙ w.on_path k (omega (arith, g.levels t known)) q;
      passes = λ va tables' page same.
          ap (λ r. walk 4 tables' r va) g.same_root
          ∙ w.passes va tables' page (λ s j p q.
            let known_s : a.level s ≢ 0 = λ e. absurd (omega (arith, e)) in
            same s j (omega (arith, g.levels s known_s))
              (ap (λ e. has_flag e pte_present) (g.kept s j known_s q) ∙ q)
            ∙ g.kept s j known_s q);
    }

pub Way-follow :
    {v : Vmm} (a : IsVmm v) (virt n t : ℕ)
    → 1 ≤ n
    → Way a virt (suc n) t
    → has_flag (v.tables t (index (suc n) virt)) pte_present ≡ true
    → has_flag (v.tables t (index (suc n) virt)) pte_huge ≡ false
    → Way a virt n (pte_to_phys (v.tables t (index (suc n) virt)))
Way-follow {v} a virt n t l w p h = record {
  level_t =
      omega (arith, w.level_t, a.tree.down t (index (suc n) virt) (omega (arith, w.level_t)) p h);
  on_path = down-OnPath a.tree t n virt w.level_t (omega (arith, w.level_t)) p h w.on_path;
  passes = λ va tables' page same.
      w.passes va tables' (λ k q r. page k (omega arith) r) (λ s j q r. same s j (omega arith) r)
      ∙ walk-follow n tables' t va (v.tables t (index (suc n) virt))
          (ap (tables' t) (page (suc n) (omega arith) (omega (arith, w.level_t, a.tree.bounded t)))
            ∙ same t (index (suc n) virt) (omega (arith, w.level_t)) p)
          p (ground (arith, h));
}

-- At levels 4 and 3 a present entry is not huge.
pub Way-not_huge :
    {v : Vmm} (a : IsVmm v) (virt n t : ℕ)
    → 3 ≤ n
    → Way a virt n t
    → has_flag (v.tables t (index n virt)) pte_present ≡ true
    → has_flag (v.tables t (index n virt)) pte_huge ≡ false
Way-not_huge a virt n t l w p = a.tree.no_huge t (index n virt) (omega (arith, w.level_t)) p

-- A table of level `n` was reached, and more tables may have been added.
pub record Reached {v : Vmm} (a : IsVmm v) (virt n : ℕ) (r : Option (ℕ × Vmm)) : Type 0 where
  pub table : ℕ
  pub final : Vmm
  pub returns : r ≡ some (table, final)
  pub grown : Grown a final
  pub way : Way grown.after virt n table

pub bind-none : {A B : Type 0} {o : Option A} (f : A → Option B) → o ≡ none → (o >>= f) ≡ none
bind-none f e = ap (λ o. o >>= f) e

pub bind-some :
    {A B : Type 0} {o : Option A} {x : A} (f : A → Option B) → o ≡ some x → (o >>= f) ≡ f x
bind-some f e = ap (λ o. o >>= f) e

next_table-Reached :
    {v : Vmm} (a : IsVmm v) (virt n t : ℕ)
    → 2 ≤ n
    → Way a virt (suc n) t
    → (next_table t (index (suc n) virt) v ≡ none)
      ⊎ Reached a virt n (next_table t (index (suc n) virt) v)
next_table-Reached a virt n t l w =
    elim (next_table_lem a t (index (suc n) virt) (omega (arith, w.level_t))) [
      | inl e ↦ inl e
      | inr next ↦
          let w' = Way-Grown a next.grown virt (suc n) t (omega arith) w in
          inr (record {
            table = pte_to_phys (next.final.tables t (index (suc n) virt));
            final = next.final;
            returns = next.returns;
            grown = next.grown;
            way =
                Way-follow next.grown.after virt n t (omega arith) w' next.present
                  (Way-not_huge next.grown.after virt (suc n) t (omega arith) w' next.present);
          })
    ]

pub pd_table_lem :
    {v : Vmm} (a : IsVmm v) (virt : ℕ)
    → (pd_table virt v ≡ none) ⊎ Reached a virt 2 (pd_table virt v)
unfolding pd_table Grown-trans
pd_table_lem {v} a virt =
    elim (next_table-Reached a virt 3 v.pml4_phys (omega arith) (Way-root a virt)) [
      | inl e ↦ inl (bind-none _ e)
      | inr r3 ↦ elim (next_table-Reached r3.grown.after virt 2 r3.table (omega arith) r3.way) [
        | inl e ↦ inl (bind-some _ r3.returns ∙ e)
        | inr r2 ↦ inr (record {
          table = r2.table;
          final = r2.final;
          returns = bind-some _ r3.returns ∙ r2.returns;
          grown = Grown-trans a r3.grown r2.grown;
          way = r2.way;
        })
      ]
    ]

pub page_table_lem :
    {v : Vmm} (a : IsVmm v) (virt : ℕ)
    → (page_table virt v ≡ none) ⊎ Reached a virt 1 (page_table virt v)
unfolding page_table Grown-trans
page_table_lem {v} a virt = elim (pd_table_lem a virt) [
  | inl e ↦ inl (bind-none _ e)
  | inr r2 ↦
      elim (next_table_lem r2.grown.after r2.table (index 2 virt) (omega (arith, r2.way.level_t))) [
        | inl e ↦ inl (bind-some _ r2.returns ∙ bind-none _ e)
        | inr next ↦
            elim (Bool-cases (has_flag (next.final.tables r2.table (index 2 virt)) pte_huge)) [
              | inl huge ↦ inl (
                  bind-some _ r2.returns
                  ∙ bind-some _ next.returns
                  ∙ ap
                      (λ b.
                        if b
                        then none
                        else some
                            (pte_to_phys (next.final.tables r2.table (index 2 virt)), next.final))
                      huge)
              | inr last ↦ inr (record {
                table = pte_to_phys (next.final.tables r2.table (index 2 virt));
                final = next.final;
                returns =
                    bind-some _ r2.returns
                    ∙ bind-some _ next.returns
                    ∙ ap
                        (λ b.
                          if b
                          then none
                          else some
                              (pte_to_phys (next.final.tables r2.table (index 2 virt)), next.final))
                        last;
                grown = Grown-trans a r2.grown next.grown;
                way =
                    Way-follow next.grown.after virt 1 r2.table (omega arith)
                      (Way-Grown r2.grown.after next.grown virt 2 r2.table (omega arith) r2.way)
                      next.present last;
              })
            ]
      ]
]
