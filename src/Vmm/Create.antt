-- ===== src/Vmm/Create.antt =====
-- kernel/vmm.c, `get_or_create_entry`: a new table joins the tree, and changes no translation.

use alze_os.Base.{
  ℕ, zero, suc, ◌+◌, ◌-◌, ◌≤◌, ◌≡◌, ◌≢◌, refl, sym, ap, ◌∙◌, true, false, ◌==◌, ==_iff,
  if◌then◌else◌, Bool-cases, inl, inr, ◌⊎◌, update, bit_or, arith,
}
use alze_os.Vmm.{Tables, pte_present, pte_write, pte_huge, has_flag, pte_to_phys, link_table}
use alze_os.Vmm.Entries.{IsFrame, IsFlags, has_flag-flags, pte_to_phys-flags, pow-IsFlags}
use alze_os.Vmm.Walk.{Tree, walk, walk-absent, walk-follow, walk-same, index, followed}

module _ {root : ℕ} {tables : Tables} {level : ℕ → ℕ} {path : ℕ → ℕ → ℕ}
    (tree : Tree root tables level path) (t i new : ℕ) (frame : IsFrame new)
    (unused : level new ≡ 0) (upper : 2 ≤ level t)
    (absent : has_flag (tables t i) pte_present ≡ false) where
  abbrev pub level' : ℕ → ℕ
  level' = update level new (level t - 1)

  abbrev pub path' : ℕ → ℕ → ℕ
  path' = update path new (λ k. if k == level t then i else path t k)

  abbrev link : ℕ
  link = bit_or (bit_or new pte_present) pte_write

  flags : IsFlags pte_present
  flags = pow-IsFlags 0 (omega arith) refl

  more : IsFlags pte_write
  more = pow-IsFlags 1 (omega arith) refl

  link-phys : pte_to_phys link ≡ new
  link-phys = pte_to_phys-flags new pte_present pte_write frame flags more

  link-present : has_flag link pte_present ≡ true
  unfolding has_flag
  link-present = has_flag-flags new pte_present pte_write frame flags more 0 (inl (omega arith))

  link-huge : has_flag link pte_huge ≡ false
  unfolding has_flag
  link-huge = has_flag-flags new pte_present pte_write frame flags more 7 (inl (omega arith))

  -- The entries after the change: the new one, those of the new table, and the others.
  pub link_table-cases :
      (t' i' : ℕ)
      → ((t' ≡ t) × (i' ≡ i) × (link_table t i new tables t' i' ≡ link))
        ⊎ (((t' ≡ new) × (link_table t i new tables t' i' ≡ 0))
            ⊎ ((t' ≢ new) × (link_table t i new tables t' i' ≡ tables t' i')))
  link_table-cases t' i' =
      let new_apart : (t == new) ≡ false = ground (arith, λ (f : t ≡ new). ap level f) in
      elim (Bool-cases (t' == t)) [
        | inl at_t ↦
            let e : level t' ≡ level t = ap level ((==_iff t' t).0 at_t) in
            let apart : t' ≢ new = λ f. absurd (omega (arith, ap level f)) in
            elim (Bool-cases (i' == i)) [
              | inl at_i ↦ inl ((==_iff t' t).0 at_t, (==_iff i' i).0 at_i, rw (at_t, at_i) refl)
              | inr beside ↦ inr (
                  inr (
                    apart,
                    rw (at_t, beside, new_apart)
                        (ap (λ x. tables x i') (sym ((==_iff t' t).0 at_t))),
                  ))
            ]
        | inr elsewhere ↦ elim (Bool-cases (t' == new)) [
          | inl at_new ↦ inr (inl ((==_iff t' new).0 at_new, rw (elsewhere, at_new) refl))
          | inr other ↦ inr (inr (ground (arith, other), rw (elsewhere, other) refl))
        ]
      ]

  pub link_table-present : has_flag (link_table t i new tables t i) pte_present ≡ true
  link_table-present = rw ((==_iff t t).1 refl, (==_iff i i).1 refl) link-present

  new_entry : (j : ℕ) → link_table t i new tables new j ≡ 0
  new_entry j = elim (link_table-cases new j) [
    | inl (e, at_i, is_link) ↦ absurd (omega (arith, ap level e))
    | inr (inl (e, is_zero)) ↦ is_zero
    | inr (inr (apart, e)) ↦ absurd (apart refl)
  ]

  walk-new : (n va : ℕ) → walk n (link_table t i new tables) new va ≡ 0
  unfolding has_flag
  walk-new n va =
      walk-absent n (link_table t i new tables) new va (rw (new_entry (index n va)) refl)

  -- No translation changes.
  pub walk-link_table :
      (n s va : ℕ) → level s ≡ n → walk n (link_table t i new tables) s va ≡ walk n tables s va
  unfolding walk
  walk-link_table zero s va l = refl
  walk-link_table (suc n) s va l = elim (link_table-cases s (index (suc n) va)) [
    | inl (es, ei, e) ↦
        walk-follow n (link_table t i new tables) s va link e link-present
          (ground (arith, ap level es, link-huge))
        ∙ ap (λ x. walk n (link_table t i new tables) x va) link-phys
        ∙ walk-new n va
        ∙ sym (walk-absent (suc n) tables s va (rw (es, ei) absent))
    | inr (inl (es, e)) ↦ absurd (omega (arith, ap level es))
    | inr (inr (apart, e)) ↦ walk-same n (link_table t i new tables) tables s va e (λ here follow.
        let (l', h) = followed tree s n (index (suc n) va) l here follow in
        walk-link_table n (pte_to_phys (tables s (index (suc n) va))) va
          (omega (arith, tree.down s (index (suc n) va) l' here h)))
  ]

  level'-old : (s : ℕ) → s ≢ new → level' s ≡ level s
  level'-old s f = ground (arith, f)

  -- What an entry that leads on after the change has before it.
  data Leads (s j : ℕ) : Type 0 where
    added : s ≡ t → j ≡ i → link_table t i new tables s j ≡ link → Leads s j
    kept :
        s ≢ new
        → link_table t i new tables s j ≡ tables s j
        → has_flag (tables s j) pte_present ≡ true
        → Leads s j

  leads : (s j : ℕ) → has_flag (link_table t i new tables s j) pte_present ≡ true → Leads s j
  unfolding has_flag
  leads s j p = elim (link_table-cases s j) [
    | inl (es, ej, e) ↦ added es ej e
    | inr (inl (es, e)) ↦ absurd (ground (arith, ap (λ x. has_flag x pte_present) e, p))
    | inr (inr (apart, e)) ↦ kept apart e (ap (λ x. has_flag x pte_present) (sym e) ∙ p)
  ]

  path'-old : (s k : ℕ) → s ≢ new → path' s k ≡ path s k
  path'-old s k f = ground (arith, f)

  level'-new : level' new ≡ level t - 1
  level'-new = ground arith

  path'-new : (k : ℕ) → path' new k ≡ (if k == level t then i else path t k)
  path'-new k = ground arith

  -- A table that the tree knows is not the new one.
  old : (s : ℕ) → level s ≢ 0 → s ≢ new
  old s f e = f (ap level e ∙ unused)

  no_huge :
      (s j : ℕ)
      → 3 ≤ level' s
      → has_flag (link_table t i new tables s j) pte_present ≡ true
      → has_flag (link_table t i new tables s j) pte_huge ≡ false
  no_huge s j l p = elim (leads s j p) [
    | added es ej e ↦ ap (λ x. has_flag x pte_huge) e ∙ link-huge
    | kept apart e q ↦
        ap (λ x. has_flag x pte_huge) e ∙ tree.no_huge s j (omega (arith, level'-old s apart)) q
  ]

  -- Where an entry of the tree leads before and after.
  module _ (s j : ℕ) (apart : s ≢ new) (e : link_table t i new tables s j ≡ tables s j)
      (q : has_flag (tables s j) pte_present ≡ true) (l : 2 ≤ level' s)
      (h : has_flag (link_table t i new tables s j) pte_huge ≡ false) where
    h_old : has_flag (tables s j) pte_huge ≡ false
    h_old = ap (λ x. has_flag x pte_huge) (sym e) ∙ h

    down_old : level (pte_to_phys (tables s j)) + 1 ≡ level s
    down_old = tree.down s j (omega (arith, level'-old s apart)) q h_old

    next_old : pte_to_phys (tables s j) ≢ new
    next_old = old (pte_to_phys (tables s j)) (omega (arith, down_old, level'-old s apart))

    next-kept : pte_to_phys (link_table t i new tables s j) ≡ pte_to_phys (tables s j)
    next-kept = ap pte_to_phys e

  down :
      (s j : ℕ)
      → 2 ≤ level' s
      → has_flag (link_table t i new tables s j) pte_present ≡ true
      → has_flag (link_table t i new tables s j) pte_huge ≡ false
      → level' (pte_to_phys (link_table t i new tables s j)) + 1 ≡ level' s
  down s j l p h = elim (leads s j p) [
    | added es ej e ↦ omega (
      arith,
      ap level' (ap pte_to_phys e ∙ link-phys),
      level'-new,
      ap level es,
      level'-old s (old s (omega (arith, ap level es))),
    )
    | kept apart e q ↦ omega (
      arith,
      ap level' (next-kept s j apart e q l h),
      level'-old s apart,
      level'-old (pte_to_phys (tables s j)) (next_old s j apart e q l h),
      down_old s j apart e q l h,
    )
  ]

  paths :
      (s j k : ℕ)
      → 2 ≤ level' s
      → has_flag (link_table t i new tables s j) pte_present ≡ true
      → has_flag (link_table t i new tables s j) pte_huge ≡ false
      → level' s ≤ k
      → k ≤ 4
      → path' (pte_to_phys (link_table t i new tables s j)) k
        ≡ (if k == level' s then j else path' s k)
  paths s j k l p h a b = elim (leads s j p) [
    | added es ej e ↦
        let apart = old s (omega (arith, ap level es)) in
        ap (λ x. path' x k) (ap pte_to_phys e ∙ link-phys)
        ∙ path'-new k
        ∙ ground
            (arith, ap level es, ej, level'-old s apart, path'-old s k apart, ap (λ x. path x k) es)
    | kept apart e q ↦
        ap (λ x. path' x k) (next-kept s j apart e q l h)
        ∙ path'-old (pte_to_phys (tables s j)) k (next_old s j apart e q l h)
        ∙ tree.paths s j k (omega (arith, level'-old s apart)) q (h_old s j apart e q l h)
            (omega (arith, level'-old s apart)) b
        ∙ ground (arith, level'-old s apart, path'-old s k apart)
  ]

  -- The tables with the new one are a tree.
  pub link_table-Tree : Tree root (link_table t i new tables) level' path'
  link_table-Tree = record {
    root_level =
        level'-old root (λ e. absurd (omega (arith, ap level e, tree.root_level)))
        ∙ tree.root_level;
    bounded = λ s. ground (arith, tree.bounded s, tree.bounded t);
    no_huge = no_huge;
    down = down;
    paths = paths;
  }
