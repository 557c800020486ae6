-- ===== src/Vmm/Walk.antt =====
-- kernel/vmm.c: the translation as a walk over levels, and the tables as a tree.

use mathlib.Core.Path.{subst}
use alze_os.Base.{
  ℕ, zero, suc, ◌+◌, ◌*◌, ◌/◌, ◌%◌, ◌^◌, ◌≤◌, ◌<◌, ◌≡◌, ◌≢◌, refl, sym, ap, ◌∙◌, Bool, true, false,
  ◌&&◌, ◌||◌, not, ◌==◌, ==_iff, ltb, if◌then◌else◌, Bool-cases, inl, inr, bit_or, arith,
}
use alze_os.Vmm.{
  Tables, Vmm, pte_present, pte_huge, has_flag, pte_to_phys, set_entry, vmm_virt_to_phys,
}

-- The index of a virtual address into a table of level `n`.
abbrev pub index : ℕ → ℕ → ℕ
index n va = va / 2 ^ (3 + 9 * n) % 512

-- At level `n` the entry maps a page: always at level 1, by the huge flag at levels 2 and 3.
abbrev pub is_leaf : ℕ → ℕ → Bool
is_leaf n entry = n == 1 || ltb n 4 && has_flag entry pte_huge

-- The walk from a table of level `n` on.
unfoldable pub walk : ℕ → Tables → ℕ → ℕ → ℕ
walk zero tables t va = 0
walk (suc n) tables t va =
    let entry = tables t (index (suc n) va) in
    let rest = walk n tables (pte_to_phys entry) va in
    if not (has_flag entry pte_present)
    then 0
    else if is_leaf (suc n) entry
    then bit_or (pte_to_phys entry) (va % 2 ^ (3 + 9 * suc n))
    else rest

pub walk-absent :
    (n : ℕ) (tables : Tables) (t va : ℕ)
    → has_flag (tables t (index n va)) pte_present ≡ false
    → walk n tables t va ≡ 0
unfolding walk
walk-absent zero tables t va e = refl
walk-absent (suc n) tables t va e = rw e refl

pub walk-leaf :
    (n : ℕ) (tables : Tables) (t va entry : ℕ)
    → tables t (index (suc n) va) ≡ entry
    → has_flag entry pte_present ≡ true
    → is_leaf (suc n) entry ≡ true
    → walk (suc n) tables t va ≡ bit_or (pte_to_phys entry) (va % 2 ^ (3 + 9 * suc n))
unfolding walk
walk-leaf n tables t va entry e p f = rw (e, p, f) refl

pub walk-follow :
    (n : ℕ) (tables : Tables) (t va entry : ℕ)
    → tables t (index (suc n) va) ≡ entry
    → has_flag entry pte_present ≡ true
    → is_leaf (suc n) entry ≡ false
    → walk (suc n) tables t va ≡ walk n tables (pte_to_phys entry) va
unfolding walk
walk-follow n tables t va entry e p f = rw (e, p, f) refl

-- Two walks agree if their entries do, and the walks from there on.
pub walk-same :
    (n : ℕ) (tables' tables : Tables) (t va : ℕ)
    → tables' t (index (suc n) va) ≡ tables t (index (suc n) va)
    → (has_flag (tables t (index (suc n) va)) pte_present ≡ true
        → is_leaf (suc n) (tables t (index (suc n) va)) ≡ false
        → walk n tables' (pte_to_phys (tables t (index (suc n) va))) va
          ≡ walk n tables (pte_to_phys (tables t (index (suc n) va))) va)
    → walk (suc n) tables' t va ≡ walk (suc n) tables t va
unfolding walk
walk-same n tables' tables t va same rest =
    elim (Bool-cases (has_flag (tables t (index (suc n) va)) pte_present)) [
      | inr absent ↦ rw (same, absent) refl
      | inl here ↦ elim (Bool-cases (is_leaf (suc n) (tables t (index (suc n) va)))) [
        | inl leaf ↦ rw (same, here, leaf) refl
        | inr follow ↦ rw (same, here, follow) (rest here follow)
      ]
    ]

-- The translation is the walk over four levels: it stops with 0 at the first entry that is not
-- present, at a huge page of level 3 or 2, and at level 1.
pub vmm_virt_to_phys-walk :
    (v : Vmm) (va : ℕ) → v.pml4_phys ≢ 0 → vmm_virt_to_phys v va ≡ walk 4 v.tables v.pml4_phys va
unfolding vmm_virt_to_phys walk
vmm_virt_to_phys-walk v va h = ground arith

-- The tables reached from the root: each has a level, and knows the indices that lead to it.
pub record Tree (root : ℕ) (tables : Tables) (level : ℕ → ℕ) (path : ℕ → ℕ → ℕ) : Type 0 where
  pub root_level : level root ≡ 4
  pub bounded : (t : ℕ) → level t ≤ 4
  pub no_huge :
      (t i : ℕ)
      → 3 ≤ level t
      → has_flag (tables t i) pte_present ≡ true
      → has_flag (tables t i) pte_huge ≡ false
  pub down :
      (t i : ℕ)
      → 2 ≤ level t
      → has_flag (tables t i) pte_present ≡ true
      → has_flag (tables t i) pte_huge ≡ false
      → level (pte_to_phys (tables t i)) + 1 ≡ level t
  pub paths :
      (t i k : ℕ)
      → 2 ≤ level t
      → has_flag (tables t i) pte_present ≡ true
      → has_flag (tables t i) pte_huge ≡ false
      → level t ≤ k
      → k ≤ 4
      → path (pte_to_phys (tables t i)) k ≡ (if k == level t then i else path t k)

-- The table lies on the way of a virtual address.
abbrev pub OnPath : (ℕ → ℕ) → (ℕ → ℕ → ℕ) → ℕ → ℕ → Type 0
OnPath level path va t = (k : ℕ) → level t < k → k ≤ 4 → path t k ≡ index k va

module _ {root : ℕ} {tables : Tables} {level : ℕ → ℕ} {path : ℕ → ℕ → ℕ}
    (tree : Tree root tables level path) where
  pub down-OnPath :
      (t n va : ℕ)
      → level t ≡ suc n
      → 2 ≤ level t
      → has_flag (tables t (index (suc n) va)) pte_present ≡ true
      → has_flag (tables t (index (suc n) va)) pte_huge ≡ false
      → OnPath level path va t
      → OnPath level path va (pte_to_phys (tables t (index (suc n) va)))
  down-OnPath t n va e l p h on k a b =
      let d = tree.down t (index (suc n) va) l p h in
      let q = tree.paths t (index (suc n) va) k l p h (omega arith) b in
      elim (Bool-cases (k == level t)) [
        | inl here ↦ q ∙ rw here (ap (λ m. index m va) {x = suc n} {y = k} (ground arith))
        | inr there ↦ q ∙ rw there (on k (ground arith) b)
      ]

  -- An entry that is followed is not huge.
  pub followed :
      (t n i : ℕ)
      → level t ≡ suc n
      → has_flag (tables t i) pte_present ≡ true
      → is_leaf (suc n) (tables t i) ≡ false
      → (2 ≤ level t) × (has_flag (tables t i) pte_huge ≡ false)
  followed t n i l p f = elim (Bool-cases (ltb (suc n) 3)) [
    | inl low ↦ ground (arith, l, f)
    | inr high ↦ (ground (arith, l), tree.no_huge t i (ground (arith, l)) p)
  ]

  -- A write off the way of `va` does not change its translation.
  pub walk-set_entry :
      (t' i' entry va : ℕ)
      → ((t : ℕ) → t ≡ t' → OnPath level path va t → index (level t) va ≢ i')
      → (n t : ℕ) → level t ≡ n
      → OnPath level path va t
      → walk n (set_entry t' i' entry tables) t va ≡ walk n tables t va
  unfolding walk
  walk-set_entry t' i' entry va off zero t l on = refl
  walk-set_entry t' i' entry va off (suc n) t l on =
      let same : set_entry t' i' entry tables t (index (suc n) va) ≡ tables t (index (suc n) va) =
        elim (Bool-cases (t == t')) [
          | inl here ↦
              let off' = off t ((==_iff t t').0 here) on in
              let a : index (level t) va ≡ index (suc n) va = ap (λ m. index m va) l in
              ground (arith, off', a)
          | inr there ↦ ground arith
        ] in
      walk-same n (set_entry t' i' entry tables) tables t va same (λ here follow.
        let (l', h) = followed t n (index (suc n) va) l here follow in
        walk-set_entry t' i' entry va off n (pte_to_phys (tables t (index (suc n) va)))
          (omega (arith, tree.down t (index (suc n) va) l' here h))
          (down-OnPath t n va l l' here h on))

  -- A new entry of a last table, or for a huge page of level 2, leaves the tree as it is.
  pub set_entry-Tree :
      (t' i' entry : ℕ)
      → level t' ≤ 2
      → (level t' ≡ 2 → has_flag entry pte_huge ≡ true)
      → Tree root (set_entry t' i' entry tables) level path
  set_entry-Tree t' i' entry l h = record {
    root_level = tree.root_level;
    bounded = tree.bounded;
    no_huge = λ t i a. rw (apart t i a) (tree.no_huge t i a);
    down = λ t i a p q.
        subst (λ e. level (pte_to_phys e) + 1 ≡ level t) (sym (kept t i a q))
          (tree.down t i a (ap (λ e. has_flag e pte_present) (sym (kept t i a q)) ∙ p)
            (ap (λ e. has_flag e pte_huge) (sym (kept t i a q)) ∙ q));
    paths = λ t i k a p q b c.
        subst (λ e. path (pte_to_phys e) k ≡ (if k == level t then i else path t k))
          (sym (kept t i a q))
          (tree.paths t i k a (ap (λ e. has_flag e pte_present) (sym (kept t i a q)) ∙ p)
            (ap (λ e. has_flag e pte_huge) (sym (kept t i a q)) ∙ q) b c);
  }
    where
      apart : (t i : ℕ) → 3 ≤ level t → set_entry t' i' entry tables t i ≡ tables t i
      apart t i a = elim (Bool-cases (t == t')) [
        | inl here ↦
            let b : level t ≡ level t' = ap level ((==_iff t t').0 here) in absurd (omega arith)
        | inr there ↦ ground arith
      ]

      kept :
          (t i : ℕ)
          → 2 ≤ level t
          → has_flag (set_entry t' i' entry tables t i) pte_huge ≡ false
          → set_entry t' i' entry tables t i ≡ tables t i
      kept t i a = elim (Bool-cases (t == t')) [
        | inl here ↦ elim (Bool-cases (i == i')) [
          | inl written ↦
              let b : level t ≡ level t' = ap level ((==_iff t t').0 here) in
              rw (here, written) (λ f. ground (arith, h (omega arith), f))
          | inr beside ↦ rw (here, beside) (λ f. ap (λ x. tables x i) (sym ((==_iff t t').0 here)))
        ]
        | inr there ↦ rw there (λ f. refl)
      ]
