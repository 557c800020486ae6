-- ===== src/Vmm/State.antt =====
-- kernel/vmm.c: the consistent states, and the tables added on the way to an entry.

use alze_os.Base.{ℕ, ◌/◌, ◌%◌, ◌^◌, ◌≤◌, ◌<◌, ◌≡◌, ◌≢◌, refl, sym, ap, ◌∙◌, true}
use alze_os.Pmm.Blocks.{Division, used}
use alze_os.Pmm.Inv.{Listing, Inv, NoneHeld}
use alze_os.Vmm.{Vmm, pte_present, has_flag}
use alze_os.Vmm.Walk.{Tree, walk}

-- The known tables are frames in use.
abbrev pub Held : (ℕ → ℕ) → Division → ℕ → Type 0
Held level own total =
    (t : ℕ)
    → level t ≢ 0
    → (t % 2 ^ 12 ≡ 0) × (t / 2 ^ 12 < total) × ((own (t / 2 ^ 12)).kind ≡ used)

-- The tables are a tree of frames in use, and the frame allocator is consistent.
pub record IsVmm (v : Vmm) : Type 0 where
  pub level : ℕ → ℕ
  pub path : ℕ → ℕ → ℕ
  pub own : Division
  pub lists : Listing
  pub tree : Tree v.pml4_phys v.tables level path
  pub inv : Inv own lists v.pmm
  pub none_held : NoneHeld v.pmm.total_pfns own
  pub small : v.pmm.total_pfns ≤ 2 ^ 40
  pub tables_held : Held level own v.pmm.total_pfns

-- More tables may have been added: what was known stays, and no translation changes.
pub record Grown {v : Vmm} (a : IsVmm v) (v' : Vmm) : Type 0 where
  pub after : IsVmm v'
  pub same_root : v'.pml4_phys ≡ v.pml4_phys
  pub same_rule : v'.wx_enforced ≡ v.wx_enforced
  pub levels : (s : ℕ) → a.level s ≢ 0 → after.level s ≡ a.level s
  pub kept :
      (s j : ℕ)
      → a.level s ≢ 0
      → has_flag (v.tables s j) pte_present ≡ true
      → v'.tables s j ≡ v.tables s j
  pub same_paths : (s k : ℕ) → a.level s ≢ 0 → after.path s k ≡ a.path s k
  pub translations : (va : ℕ) → walk 4 v'.tables v'.pml4_phys va ≡ walk 4 v.tables v.pml4_phys va

pub Grown-refl : {v : Vmm} (a : IsVmm v) → Grown a v
Grown-refl a = record {
  after = a;
  same_root = refl;
  same_rule = refl;
  levels = λ s h. refl;
  kept = λ s j h p. refl;
  same_paths = λ s k h. refl;
  translations = λ va. refl;
}

unfoldable pub Grown-trans :
    {v v' v'' : Vmm} (a : IsVmm v) (g : Grown a v') → Grown g.after v'' → Grown a v''
Grown-trans a g g' = record {
  after = g'.after;
  same_root = g'.same_root ∙ g.same_root;
  same_rule = g'.same_rule ∙ g.same_rule;
  levels = λ s h. g'.levels s (λ e. h (sym (g.levels s h) ∙ e)) ∙ g.levels s h;
  kept = λ s j h p.
      g'.kept s j (λ e. h (sym (g.levels s h) ∙ e))
        (ap (λ e. has_flag e pte_present) (g.kept s j h p) ∙ p)
      ∙ g.kept s j h p;
  same_paths = λ s k h. g'.same_paths s k (λ e. h (sym (g.levels s h) ∙ e)) ∙ g.same_paths s k h;
  translations = λ va. g'.translations va ∙ g.translations va;
}
