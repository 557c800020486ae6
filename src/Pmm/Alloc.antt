-- ===== src/Pmm/Alloc.antt =====
-- Allocation: the smallest large enough block, split down to the order asked for.
use mathlib.Core.Path.{subst}
use native.Mathlib.Nat.{one-le-pow}
use alze_os.Base.{
  ℕ, zero, suc, ◌+◌, ◌-◌, ◌^◌, ◌≤◌, ◌<◌, ◌≡◌, refl, sym, ◌∙◌, true, ◌==◌, ==_iff, Bool-cases, inl,
  inr, ◌⊎◌, Option, none, some, List, [], ◌∷◌, arith,
}
use alze_os.Pmm.{
  Page, Pmm, max_order, list_remove, clear_head, split, find_block, take_block, mark_used,
  pmm_alloc_pages, pfn_to_phys,
}
use alze_os.Pmm.Chain.{has, Chain}
use alze_os.Pmm.Blocks.{free, used, held, block, Division, in_range, fill, whole}
use alze_os.Pmm.Inv.{Listing, Inv, NoneHeld, own-in_range, take_block-Inv, mark_used-Inv}
use alze_os.Pmm.Split.{Carved, SplitTo, split-SplitTo}

abbrev pub AllEmpty : Listing → ℕ → ℕ → Type 0
AllEmpty lists o n = (j : ℕ) → o ≤ j → j < o + n → lists j ≡ []

-- What `find_block` finds: the first block of the first list with one, from order `o` on.
record Found (lists : Listing) (o n : ℕ) (r : Option (ℕ × ℕ)) : Type 0 where
  order : ℕ
  first : ℕ
  returns : r ≡ some (order, first)
  range : (o ≤ order) × (order < o + n)
  listed : has first (lists order) ≡ true
  smaller : (j : ℕ) → o ≤ j → j < order → lists j ≡ []

head-listed :
    (pages : ℕ → Page) (head : Option ℕ) (xs : List ℕ)
    → Chain pages none head xs
    → ((head ≡ none) × (xs ≡ [])) ⊎ ((x : ℕ) × (head ≡ some x) × (has x xs ≡ true))
head-listed pages head [] c = inl (c, refl)
head-listed pages head (x ∷ xs) c = inr (x, c.0, ground arith)

find_block-none :
    (st : Pmm) (n o : ℕ)
    → (st.free_lists o).head ≡ none
    → find_block st o (suc n) ≡ find_block st (suc o) n
unfolding find_block
find_block-none st n o e = rw (e, find_block)

find_block-some :
    (st : Pmm) (n o x : ℕ) → (st.free_lists o).head ≡ some x → find_block st o (suc n) ≡ some (o, x)
unfolding find_block
find_block-some st n o x e = rw (e, find_block)

AllEmpty-suc :
    {lists : Listing} (o n : ℕ) → lists o ≡ [] → AllEmpty lists (suc o) n → AllEmpty lists o (suc n)
AllEmpty-suc {lists} o n e h j p q = elim (Bool-cases (j == o)) [
  | inl here ↦ subst (λ k. lists k ≡ []) (sym ((==_iff j o).0 here)) e
  | inr there ↦ h j (ground arith) (omega arith)
]

find_block_cases :
    {own : Division} {lists : Listing} (st : Pmm) (n o : ℕ)
    → Inv own lists st
    → ((find_block st o n ≡ none) × AllEmpty lists o n) ⊎ Found lists o n (find_block st o n)
unfolding find_block
find_block_cases st zero o inv = inl (refl, λ j p q. absurd (omega arith))
find_block_cases {own} {lists} st (suc n) o inv =
    elim (head-listed st.pages (st.free_lists o).head (lists o) (inv.holds.stores o).chain) [
      | inl (e, nil) ↦ elim (find_block_cases st n (suc o) inv) [
        | inl (none_found, all) ↦
            inl (find_block-none st n o e ∙ none_found, AllEmpty-suc o n nil all)
        | inr f ↦ inr (record {
          order = f.order;
          first = f.first;
          returns = find_block-none st n o e ∙ f.returns;
          range = omega (arith, f.range);
          listed = f.listed;
          smaller = λ j p q.
              AllEmpty-suc o (f.order - suc o) nil (λ i h g. f.smaller i h (omega arith)) j p
                (omega (arith, f.range));
        })
      ]
      | inr (x, e, m) ↦ inr (record {
        order = o;
        first = x;
        returns = find_block-some st n o x e;
        range = omega arith;
        listed = m;
        smaller = λ j p q. absurd (omega arith);
      })
    ]

-- A successful allocation.
pub record Allocated (own : Division) (lists : Listing) (st : Pmm) (order : ℕ)
    (r : Option (ℕ × Pmm)) : Type 0 where
  pub pfn : ℕ
  pub final : Pmm
  pub returns : r ≡ some (pfn_to_phys pfn, final)
  pub now : Division
  pub lists' : Listing
  pub inv : Inv now lists' final
  pub none_held : NoneHeld final.total_pfns now
  pub carved : Carved st.total_pfns own now pfn order used
  pub inside : pfn < st.total_pfns
  pub total : final.total_pfns ≡ st.total_pfns

Carved-take :
    {total : ℕ} {own : Division} (b o : ℕ)
    → ((y : ℕ) → in_range b (2 ^ o) y ≡ true → own y ≡ block b o free)
    → Carved total own (fill own b (2 ^ o) (whole (block b o held))) b o held
Carved-take b o at = record {
  inside = λ x l m. ground (arith, at x);
  outside = λ x l m. (ground arith, λ n. ground arith);
}

Carved-used :
    {total : ℕ} {own now : Division} (b o : ℕ)
    → Carved total own now b o held
    → Carved total own (fill now b (2 ^ o) (whole (block b o used))) b o used
Carved-used b o c = record {
  inside = λ x l m. ground (arith, c.inside x l);
  outside = λ x l m. (ground (arith, c.outside x l), λ n. ground (arith, c.outside x l));
}

Carved-NoneHeld :
    {total : ℕ} {own now : Division} (b o : ℕ)
    → NoneHeld total own
    → Carved total own now b o used
    → NoneHeld total now
Carved-NoneHeld b o n c x l = ground (arith, c.inside x l, c.outside x l, n x l)

module _ {own : Division} {lists : Listing} (st : Pmm) (order : ℕ) (inv : Inv own lists st)
    (none_held : NoneHeld st.total_pfns own) (small : order ≤ max_order) where
  pmm_alloc_pages-none :
      find_block st order (suc max_order - order) ≡ none → pmm_alloc_pages order st ≡ some (0, st)
  unfolding pmm_alloc_pages
  pmm_alloc_pages-none e = rw e (ground arith)

  pmm_alloc_pages-some :
      (o b : ℕ) (st' : Pmm)
      → find_block st order (suc max_order - order) ≡ some (o, b)
      → split b order (o - order) (take_block o b st) ≡ some st'
      → pmm_alloc_pages order st ≡ some (pfn_to_phys b, mark_used b order st')
  unfolding pmm_alloc_pages
  pmm_alloc_pages-some o b st' e f = rw (e, f) (ground arith)

  taken :
      (o b : ℕ)
      → order ≤ o
      → has b (lists o) ≡ true
      → SplitTo own b order st.total_pfns (split b order (o - order) (take_block o b st))
  unfolding take_block clear_head list_remove
  taken o b h m =
      let (l, e) = inv.holds.listed o b m in
      split-SplitTo {own = own} (o - order) b order (take_block o b st)
        (take_block-Inv st b o inv m) l
        (subst
          (λ t. Carved st.total_pfns own (fill own b (2 ^ o) (whole (block b o held))) b t held)
          {x = o} (omega arith) (Carved-take b o (own-in_range inv b o free l e)))

  allocated :
      Found lists order (suc max_order - order) (find_block st order (suc max_order - order))
      → Allocated own lists st order (pmm_alloc_pages order st)
  unfolding mark_used
  allocated f =
      let s = taken f.order f.first f.range.0 f.listed in
      let l = (inv.holds.listed f.order f.first f.listed).0 in
      let l' : f.first < s.final.total_pfns = subst (λ t. f.first < t) (sym s.same_total) l in
      let carved = Carved-used f.first order s.carved in
      record {
        pfn = f.first;
        final = mark_used f.first order s.final;
        returns = pmm_alloc_pages-some f.order f.first s.final f.returns s.returns;
        now = fill s.now f.first (2 ^ order) (whole (block f.first order used));
        lists' = s.lists;
        inv =
            mark_used-Inv s.final f.first order s.inv l'
              (s.carved.inside f.first l (ground (arith, one-le-pow order 2))).0;
        none_held =
            subst
              (λ t. NoneHeld t (fill s.now f.first (2 ^ order) (whole (block f.first order used))))
              (sym s.same_total) (Carved-NoneHeld f.first order none_held carved);
        carved = carved;
        inside = l;
        total = s.same_total;
      }

  -- In a consistent state with no block in hand, a request of at most the largest order either
  -- finds every list from that order on empty, and returns 0 with the state unchanged, or returns
  -- the address of a block of that order that was free. The new state is consistent, no other
  -- frame changes from free to not free or back, and the blocks in use keep their place and size.
  pub pmm_alloc_pages_lem :
      ((pmm_alloc_pages order st ≡ some (0, st)) × AllEmpty lists order (suc max_order - order))
      ⊎ Allocated own lists st order (pmm_alloc_pages order st)
  pmm_alloc_pages_lem = elim (find_block_cases st (suc max_order - order) order inv) [
    | inl (e, all) ↦ inl (pmm_alloc_pages-none e, all)
    | inr f ↦ inr (allocated f)
  ]
