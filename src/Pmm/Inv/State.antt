-- ===== src/Pmm/Inv/State.antt =====
-- The allocator's state against a division of the frames, and the writes that keep the two together.
use mathlib.Core.Path.{subst}
use native.Mathlib.Nat.{one-le-pow}
use alze_os.Base.{ℕ, ◌+◌, ◌^◌, ◌≤◌, ◌<◌, ◌≡◌, ◌≢◌, true, none, ◌∷◌, update, arith}
use alze_os.Pmm.{
  Page, FreeArea, Pmm, max_order, page_used, page_reserved, page_buddy_head, list_add, list_remove,
  clear_head, take_block, mark_used, mark_free,
}
use alze_os.Pmm.Chain.{has, Chain-ext, without, SameLinks}
use alze_os.Pmm.Buddy.{Aligned}
use alze_os.Pmm.Blocks.{
  Kind, free, used, held, reserved, Block, block, Division, IsDivision, in_range, fill, whole,
  whole-Covers, IsUnion, fill-IsDivision, block-IsUnion,
}
use alze_os.Pmm.Inv.Lists.{
  Listing, HoldsFree, list_add-fields, list_remove-fields, list_remove-HoldsFree,
  list_add-HoldsFree,
}

-- What the first page of a block says of it. A held block is being rewritten.
pub record Heads (total : ℕ) (own : Division) (pages : ℕ → Page) : Type 0 where
  pub free_head :
      (x o : ℕ)
      → x < total
      → own x ≡ block x o free
      → ((pages x).flags ≡ page_buddy_head) × ((pages x).order ≡ o)
  pub used_head :
      (x o : ℕ)
      → x < total
      → own x ≡ block x o used
      → ((pages x).flags ≡ page_used) × ((pages x).order ≡ o)
  pub reserved_head :
      (x o : ℕ) → x < total → own x ≡ block x o reserved → (pages x).flags ≡ page_reserved

pub record Inv (own : Division) (lists : Listing) (st : Pmm) : Type 0 where
  pub division : IsDivision st.total_pfns own
  pub holds : HoldsFree st.total_pfns own lists st.pages st.free_lists
  pub heads : Heads st.total_pfns own st.pages

-- Between calls no block is held.
abbrev pub NoneHeld : ℕ → Division → Type 0
NoneHeld total own = (x : ℕ) → x < total → (own x).kind ≢ held

-- The two divisions have the same free blocks.
abbrev pub SameFree : ℕ → Division → Division → Type 0
SameFree total own own' =
    (j y : ℕ)
    → y < total
    → (own' y ≡ block y j free → own y ≡ block y j free)
      × (own y ≡ block y j free → own' y ≡ block y j free)

-- The lists depend on the links of the pages only.
pub HoldsFree-ext :
    {total : ℕ} {own : Division} {lists : Listing} {old : ℕ → Page} {areas : ℕ → FreeArea}
    (own' : Division) (pages : ℕ → Page)
    → ((y : ℕ) → SameLinks (pages y) (old y))
    → SameFree total own own'
    → HoldsFree total own lists old areas
    → HoldsFree total own' lists pages areas
HoldsFree-ext {lists} {old} {areas} own' pages same frees h = record {
  stores = λ o.
      let s = h.stores o in
      record {
        chain = Chain-ext old pages none (areas o).head (lists o) (λ y m. same y) s.chain;
        distinct = s.distinct;
        count = s.count;
      };
  listed = λ o x m. ((h.listed o x m).0, (frees o x (h.listed o x m).0).1 (h.listed o x m).1);
  complete = λ o x l e. h.complete o x l ((frees o x l).0 e);
}

-- One block of a consistent state, of a given kind.
module _ {own : Division} {lists : Listing} {st : Pmm} (inv : Inv own lists st) (b o : ℕ) (k : Kind)
    (l : b < st.total_pfns) (e : own b ≡ block b o k) where
  -- A block takes on another kind.
  rekinded : (k' : Kind) → IsDivision st.total_pfns (fill own b (2 ^ o) (whole (block b o k')))
  rekinded k' =
      let d = inv.division in
      fill-IsDivision d b (2 ^ o) (whole (block b o k'))
        (subst (λ (c : Block). IsUnion st.total_pfns own c.start (2 ^ c.order)) e
          (block-IsUnion d b l))
        (whole-Covers st.total_pfns b o k'
          (subst (λ (c : Block). c.order ≤ max_order) e (d.small b l))
          (subst (λ (c : Block). Aligned c.start c.order) e (d.aligned b l))
          (subst (λ (c : Block). c.start + 2 ^ c.order ≤ st.total_pfns) e (d.fits b l)))

  -- Every frame of a block knows it.
  pub own-in_range : (y : ℕ) → in_range b (2 ^ o) y ≡ true → own y ≡ block b o k
  own-in_range y m = ground (arith, inv.division.agree b y l)

-- `take_block`: a listed free block leaves its list and is held.
pub take_block-Inv :
    {own : Division} {lists : Listing} (st : Pmm) (b o : ℕ)
    → Inv own lists st
    → has b (lists o) ≡ true
    → Inv
        (fill own b (2 ^ o) (whole (block b o held)))
        (update lists o (without b (lists o)))
        (take_block o b st)
unfolding take_block clear_head list_remove
take_block-Inv {own} {lists} st b o inv m =
    let (l, e) = inv.holds.listed o b m in
    let at = own-in_range inv b o free l e in
    let own' = fill own b (2 ^ o) (whole (block b o held)) in
    record {
      division = rekinded inv b o free l e held;
      holds =
          HoldsFree-ext own' (clear_head b (list_remove o b st)).pages (λ y. ground arith)
            (λ j y h. (λ q. q, λ q. q))
            (list_remove-HoldsFree st inv.holds o b m own' (record {
              gone = λ j y h q. ground (arith, one-le-pow o 2);
              kept = λ j y h q n. ground (arith, at y);
            }));
      heads = record {
        free_head = λ x j h q.
            ground
              (arith, inv.heads.free_head x j h, list_remove-fields o b st x, at x, one-le-pow o 2);
        used_head = λ x j h q.
            ground
              (arith, inv.heads.used_head x j h, list_remove-fields o b st x, at x, one-le-pow o 2);
        reserved_head = λ x j h q. ground (
          arith,
          inv.heads.reserved_head x j h,
          list_remove-fields o b st x,
          at x,
          one-le-pow o 2,
        );
      };
    }

-- `mark_used`: a held block is handed out.
pub mark_used-Inv :
    {own : Division} {lists : Listing} (st : Pmm) (b o : ℕ)
    → Inv own lists st
    → b < st.total_pfns
    → own b ≡ block b o held
    → Inv (fill own b (2 ^ o) (whole (block b o used))) lists (mark_used b o st)
unfolding mark_used
mark_used-Inv {own} {lists} st b o inv l e =
    let at = own-in_range inv b o held l e in
    let own' = fill own b (2 ^ o) (whole (block b o used)) in
    record {
      division = rekinded inv b o held l e used;
      holds =
          HoldsFree-ext own' (mark_used b o st).pages (λ y. ground arith)
            (λ j y h. (λ q. ground arith, λ q. ground (arith, at y))) inv.holds;
      heads = record {
        free_head = λ x j h q. ground (arith, inv.heads.free_head x j h, at x, one-le-pow o 2);
        used_head = λ x j h q. ground (arith, inv.heads.used_head x j h, at x, one-le-pow o 2);
        reserved_head =
            λ x j h q. ground (arith, inv.heads.reserved_head x j h, at x, one-le-pow o 2);
      };
    }

-- `mark_free`: a used block is taken back, and held while it is joined with its buddies.
pub mark_free-Inv :
    {own : Division} {lists : Listing} (st : Pmm) (b o : ℕ)
    → Inv own lists st
    → b < st.total_pfns
    → own b ≡ block b o used
    → Inv (fill own b (2 ^ o) (whole (block b o held))) lists (mark_free b o st)
unfolding mark_free
mark_free-Inv {own} {lists} st b o inv l e =
    let at = own-in_range inv b o used l e in
    let own' = fill own b (2 ^ o) (whole (block b o held)) in
    record {
      division = rekinded inv b o used l e held;
      holds =
          HoldsFree-ext own' (mark_free b o st).pages (λ y. ground arith)
            (λ j y h. (λ q. ground arith, λ q. ground (arith, at y))) inv.holds;
      heads = record {
        free_head = λ x j h q. ground (arith, inv.heads.free_head x j h, at x, one-le-pow o 2);
        used_head = λ x j h q. ground (arith, inv.heads.used_head x j h, at x, one-le-pow o 2);
        reserved_head =
            λ x j h q. ground (arith, inv.heads.reserved_head x j h, at x, one-le-pow o 2);
      };
    }

-- `list_add` of a held block whose page says that it heads a free block of that order.
pub list_add-Inv :
    {own : Division} {lists : Listing} (st : Pmm) (b o : ℕ)
    → Inv own lists st
    → b < st.total_pfns
    → own b ≡ block b o held
    → (st.pages b).flags ≡ page_buddy_head
    → (st.pages b).order ≡ o
    → Inv
        (fill own b (2 ^ o) (whole (block b o free)))
        (update lists o (b ∷ lists o))
        (list_add o b st)
unfolding list_add
list_add-Inv {own} {lists} st b o inv l e flag order =
    let at = own-in_range inv b o held l e in
    let own' = fill own b (2 ^ o) (whole (block b o free)) in
    record {
      division = rekinded inv b o held l e free;
      holds = list_add-HoldsFree st inv.holds o b own' (record {
        inside = l;
        new = ground (arith, one-le-pow o 2);
        fresh = λ j q. ground arith;
        gone = λ j y h q n. ground (arith, at y);
        kept = λ j y h q. ground (arith, at y);
      });
      heads = record {
        free_head = λ x j h q.
            ground
              (arith, inv.heads.free_head x j h, at x, list_add-fields o b st x, one-le-pow o 2);
        used_head = λ x j h q.
            ground
              (arith, inv.heads.used_head x j h, at x, list_add-fields o b st x, one-le-pow o 2);
        reserved_head = λ x j h q.
            ground (
              arith,
              inv.heads.reserved_head x j h,
              at x,
              list_add-fields o b st x,
              one-le-pow o 2,
            );
      };
    }
