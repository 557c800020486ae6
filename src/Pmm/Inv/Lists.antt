-- ===== src/Pmm/Inv/Lists.antt =====
-- The free lists hold exactly the free blocks of a division, each at its order.
use mathlib.Core.Path.{subst}
use alze_os.Base.{
  ℕ, ◌%◌, ◌^◌, ◌<◌, ◌≡◌, ◌≢◌, sym, true, false, ◌==◌, ==_iff, Bool-cases, inl, inr, none, List, ◌∷◌,
  length, update, update_self, update_ne, arith,
}
use alze_os.Pmm.{Page, FreeArea, Pmm, list_add, list_remove, add_links, remove_links}
use alze_os.Pmm.Chain.{
  has, Distinct, Chain, Chain-ext, add_links-at, remove_links-at, links-out, links_self, head-in,
  without, length-without, has-without, Distinct-without, Chain-add_links, Chain-remove_links,
}
use alze_os.Pmm.Blocks.{free, block, Division}

-- The blocks of each order that are in its list, first to last.
abbrev pub Listing : Type 0
Listing = ℕ → List ℕ

-- One list, as it is stored.
pub record Stores (pages : ℕ → Page) (area : FreeArea) (xs : List ℕ) : Type 0 where
  pub chain : Chain pages none area.head xs
  pub distinct : Distinct xs
  pub count : area.count ≡ length xs % 2 ^ 64

pub record HoldsFree (total : ℕ) (own : Division) (lists : Listing) (pages : ℕ → Page)
    (areas : ℕ → FreeArea) : Type 0 where
  pub stores : (o : ℕ) → Stores pages (areas o) (lists o)
  pub listed : (o x : ℕ) → has x (lists o) ≡ true → (x < total) × (own x ≡ block x o free)
  pub complete : (o x : ℕ) → x < total → own x ≡ block x o free → has x (lists o) ≡ true

-- A page's links are those of one list at most: a block stands in the list of its order only.
pub one_list :
    {total : ℕ} {own : Division} {lists : Listing} {pages : ℕ → Page} {areas : ℕ → FreeArea}
    → HoldsFree total own lists pages areas
    → (o j x : ℕ) → has x (lists o) ≡ true
    → has x (lists j) ≡ true
    → o ≡ j
one_list h o j x p q = ground (arith, h.listed o x p, h.listed j x q)

-- The other fields of the pages, and the links of pages that are not next to the one removed.
pub list_add-fields :
    (o pg : ℕ) (st : Pmm) (y : ℕ)
    → (((list_add o pg st).pages y).flags ≡ (st.pages y).flags)
      × (((list_add o pg st).pages y).order ≡ (st.pages y).order)
unfolding list_add add_links
list_add-fields o pg st y =
    (ground (arith, (st.free_lists o).head), ground (arith, (st.free_lists o).head))

pub list_remove-fields :
    (o pg : ℕ) (st : Pmm) (y : ℕ)
    → (((list_remove o pg st).pages y).flags ≡ (st.pages y).flags)
      × (((list_remove o pg st).pages y).order ≡ (st.pages y).order)
unfolding list_remove remove_links
list_remove-fields o pg st y = (ground arith, ground arith)

-- The free blocks of `own'` are those of `own` but the one at `x`, of order `o`.
pub record Drops (total o x : ℕ) (own own' : Division) : Type 0 where
  pub gone :
      (j y : ℕ)
      → y < total
      → own' y ≡ block y j free
      → (own y ≡ block y j free) × ((y == x) ≡ false)
  pub kept :
      (j y : ℕ) → y < total → own y ≡ block y j free → (y == x) ≡ false → own' y ≡ block y j free

module _ {total : ℕ} {own : Division} {lists : Listing} (st : Pmm)
    (h : HoldsFree total own lists st.pages st.free_lists) (o x : ℕ)
    (listed : has x (lists o) ≡ true) where
  remove-Stores :
      Stores (list_remove o x st).pages ((list_remove o x st).free_lists o) (without x (lists o))
  unfolding list_remove
  remove-Stores =
      subst (λ a. Stores (remove_links st.pages x) a (without x (lists o)))
        (sym (update_self st.free_lists o _))
        (let s = h.stores o in
          record {
            chain =
                Chain-remove_links st.pages (st.free_lists o).head (lists o) x listed s.distinct
                  s.chain;
            distinct = Distinct-without x (lists o) s.distinct;
            count = omega (arith, s.count, length-without x (lists o) listed);
          })

  remove-Stores_other :
      (j : ℕ)
      → (j == o) ≡ false
      → Stores (list_remove o x st).pages ((list_remove o x st).free_lists j) (lists j)
  unfolding list_remove
  remove-Stores_other j ne =
      subst (λ a. Stores (remove_links st.pages x) a (lists j))
        (sym (update_ne st.free_lists o j _ ne))
        (let s = h.stores j in
          record {
            chain =
                Chain-ext st.pages (remove_links st.pages x) none (st.free_lists j).head (lists j)
                  (λ y m. same y m) s.chain;
            distinct = s.distinct;
            count = s.count;
          })
    where
      same :
          (y : ℕ)
          → has y (lists j) ≡ true
          → ((remove_links st.pages x y).next ≡ (st.pages y).next)
            × ((remove_links st.pages x y).prev ≡ (st.pages y).prev)
      same y m =
          let out : has y (lists o) ≡ false = ground (arith, one_list h o j y) in
          let (p, n) =
            links-out st.pages (st.free_lists o).head (lists o) x y (h.stores o).chain listed out in
          let (q, r) =
            links_self st.pages (st.free_lists o).head (lists o) x (h.stores o).chain
              (h.stores o).distinct listed in
          (
            ground (arith, remove_links-at st.pages x y),
            ground (arith, remove_links-at st.pages x y),
          )

  -- After `list_remove` the lists hold the free blocks but the one removed.
  pub list_remove-HoldsFree :
      (own' : Division)
      → Drops total o x own own'
      → HoldsFree total own'
          (update lists o (without x (lists o)))
          (list_remove o x st).pages
          (list_remove o x st).free_lists
  list_remove-HoldsFree own' d = record {
    stores = λ j. elim (Bool-cases (j == o)) [
      | inl here ↦
          subst
            (λ k.
              Stores (list_remove o x st).pages ((list_remove o x st).free_lists k)
                (update lists o (without x (lists o)) k))
            (sym ((==_iff j o).0 here))
            (subst (λ l. Stores (list_remove o x st).pages ((list_remove o x st).free_lists o) l)
              (sym (update_self lists o (without x (lists o)))) remove-Stores)
      | inr there ↦
          subst (λ l. Stores (list_remove o x st).pages ((list_remove o x st).free_lists j) l)
            (sym (update_ne lists o j (without x (lists o)) there)) (remove-Stores_other j there)
    ];
    listed = λ j y m. ground (
      arith,
      has-without x y (lists o) (h.stores o).distinct,
      h.listed j y,
      h.listed o y,
      h.listed o x listed,
      d.kept j y,
    );
    complete = λ j y l e.
        ground (
          arith,
          has-without x y (lists o) (h.stores o).distinct,
          h.complete j y l,
          d.gone j y l e,
        );
  }

-- The free blocks of `own'` are those of `own` and one at `x`, of order `o`, which was none.
pub record Adds (total o x : ℕ) (own own' : Division) : Type 0 where
  pub inside : x < total
  pub new : own' x ≡ block x o free
  pub fresh : (j : ℕ) → own x ≢ block x j free
  pub gone :
      (j y : ℕ) → y < total → own' y ≡ block y j free → (y == x) ≡ false → own y ≡ block y j free
  pub kept : (j y : ℕ) → y < total → own y ≡ block y j free → own' y ≡ block y j free

module _ {total : ℕ} {own : Division} {lists : Listing} (st : Pmm)
    (h : HoldsFree total own lists st.pages st.free_lists) (o x : ℕ) (own' : Division)
    (d : Adds total o x own own') where
  unlisted : (j : ℕ) → has x (lists j) ≡ false
  unlisted j = elim (Bool-cases (has x (lists j))) [
    | inl in_it ↦ absurd (d.fresh j (h.listed j x in_it).1)
    | inr out ↦ out
  ]

  add-Stores : Stores (list_add o x st).pages ((list_add o x st).free_lists o) (x ∷ lists o)
  unfolding list_add
  add-Stores =
      subst (λ a. Stores (add_links st.pages (st.free_lists o).head x) a (x ∷ lists o))
        (sym (update_self st.free_lists o _))
        (let s = h.stores o in
          record {
            chain =
                Chain-add_links st.pages (st.free_lists o).head (lists o) x (unlisted o) s.distinct
                  s.chain;
            distinct = (unlisted o, s.distinct);
            count = omega (arith, s.count);
          })

  add-Stores_other :
      (j : ℕ)
      → (j == o) ≡ false
      → Stores (list_add o x st).pages ((list_add o x st).free_lists j) (lists j)
  unfolding list_add
  add-Stores_other j ne =
      subst (λ a. Stores (add_links st.pages (st.free_lists o).head x) a (lists j))
        (sym (update_ne st.free_lists o j _ ne))
        (let s = h.stores j in
          record {
            chain =
                Chain-ext st.pages (add_links st.pages (st.free_lists o).head x) none
                  (st.free_lists j).head (lists j) (λ y m. same y m) s.chain;
            distinct = s.distinct;
            count = s.count;
          })
    where
      same :
          (y : ℕ)
          → has y (lists j) ≡ true
          → ((add_links st.pages (st.free_lists o).head x y).next ≡ (st.pages y).next)
            × ((add_links st.pages (st.free_lists o).head x y).prev ≡ (st.pages y).prev)
      same y m =
          let out : has y (lists o) ≡ false = ground (arith, one_list h o j y) in
          let p = head-in st.pages (st.free_lists o).head (lists o) y (h.stores o).chain out in
          let q =
            head-in st.pages (st.free_lists o).head (lists o) x (h.stores o).chain (unlisted o) in
          (
            ground (arith, add_links-at st.pages (st.free_lists o).head x y, unlisted j),
            ground (arith, add_links-at st.pages (st.free_lists o).head x y, unlisted j),
          )

  -- After `list_add` the lists hold the free blocks and the one added.
  pub list_add-HoldsFree :
      HoldsFree total own'
        (update lists o (x ∷ lists o))
        (list_add o x st).pages
        (list_add o x st).free_lists
  list_add-HoldsFree = record {
    stores = λ j. elim (Bool-cases (j == o)) [
      | inl here ↦
          subst
            (λ k.
              Stores (list_add o x st).pages ((list_add o x st).free_lists k)
                (update lists o (x ∷ lists o) k))
            (sym ((==_iff j o).0 here))
            (subst (λ l. Stores (list_add o x st).pages ((list_add o x st).free_lists o) l)
              (sym (update_self lists o (x ∷ lists o))) add-Stores)
      | inr there ↦
          subst (λ l. Stores (list_add o x st).pages ((list_add o x st).free_lists j) l)
            (sym (update_ne lists o j (x ∷ lists o) there)) (add-Stores_other j there)
    ];
    listed = λ j y m. ground (arith, h.listed j y, d.kept j y, d.new, d.inside);
    complete = λ j y l e. ground (arith, h.complete j y l, d.gone j y l e, d.new);
  }
