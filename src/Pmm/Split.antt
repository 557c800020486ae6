-- ===== src/Pmm/Split.antt =====
-- Splitting a block in hand: the upper halves become free blocks.
use mathlib.Core.Path.{subst}
use native.Mathlib.Nat.{one-le-pow, pow-suc}
use alze_os.Base.{
  ℕ, zero, suc, ◌+◌, ◌^◌, ◌≤◌, ◌<◌, ◌≡◌, ◌≢◌, refl, sym, ◌∙◌, true, false, Option, some, ◌∷◌,
  update, arith,
}
use alze_os.Pmm.{Pmm, max_order, page_buddy_head, list_add, set_page, split_once, split, add64}
use alze_os.Pmm.Buddy.{Aligned}
use alze_os.Pmm.Blocks.{
  Kind, free, held, Block, block, Division, in_range, fill, halves, halves-Covers, IsUnion,
  fill-IsDivision, block-IsUnion,
}
use alze_os.Pmm.Inv.{Listing, HoldsFree-ext, list_add-fields, list_add-HoldsFree, Inv, own-in_range}

-- The division after `split_once`.
abbrev pub split_division : Division → ℕ → ℕ → Division
split_division own b o = fill own b (2 ^ suc o) (halves b o held free)

abbrev split_state : ℕ → ℕ → Pmm → Pmm
split_state b o st =
    let listed = list_add o (b + 2 ^ o) (set_page (b + 2 ^ o) o page_buddy_head st) in
    record listed { free_pages = add64 listed.free_pages (2 ^ o) }

module _ {own : Division} {lists : Listing} (st : Pmm) (b o : ℕ) (inv : Inv own lists st)
    (l : b < st.total_pfns) (e : own b ≡ block b (suc o) held) where
  split_once-some : split_once b o st ≡ some (split_state b o st)
  unfolding split_once
  split_once-some = ground (arith, inv.division.fits b l, pow-suc 2 o, one-le-pow o 2)

  split_once-Inv :
      Inv (split_division own b o) (update lists o ((b + 2 ^ o) ∷ lists o)) (split_state b o st)
  unfolding list_add set_page
  split_once-Inv =
      let at = own-in_range inv b (suc o) held l e in
      let own' = split_division own b o in
      let upper = b + 2 ^ o in
      let inside : upper < st.total_pfns =
        ground (arith, inv.division.fits b l, pow-suc 2 o, one-le-pow o 2) in
      let next = set_page upper o page_buddy_head st in
      record {
        division =
            fill-IsDivision inv.division b (2 ^ suc o) (halves b o held free)
              (subst (λ (c : Block). IsUnion st.total_pfns own c.start (2 ^ c.order)) e
                (block-IsUnion inv.division b l))
              (halves-Covers st.total_pfns b o held free
                (subst (λ (c : Block). c.order ≤ max_order) e (inv.division.small b l))
                (subst (λ (c : Block). Aligned c.start c.order) e (inv.division.aligned b l))
                (subst (λ (c : Block). c.start + 2 ^ c.order ≤ st.total_pfns) e
                  (inv.division.fits b l)));
        holds =
            list_add-HoldsFree next
              (HoldsFree-ext own next.pages (λ y. ground arith) (λ j y h. (λ q. q, λ q. q))
                inv.holds)
              o upper own'
              (record {
                inside = inside;
                new = ground (arith, one-le-pow o 2, pow-suc 2 o);
                fresh = λ j q. ground (arith, at upper, one-le-pow o 2, pow-suc 2 o);
                gone = λ j y h q n. ground (arith, at y, one-le-pow o 2, pow-suc 2 o);
                kept = λ j y h q. ground (arith, at y, one-le-pow o 2, pow-suc 2 o);
              });
        heads = record {
          free_head = λ x j h q. ground (
            arith,
            inv.heads.free_head x j h,
            at x,
            list_add-fields o upper next x,
            one-le-pow o 2,
            pow-suc 2 o,
          );
          used_head = λ x j h q. ground (
            arith,
            inv.heads.used_head x j h,
            at x,
            list_add-fields o upper next x,
            one-le-pow o 2,
            pow-suc 2 o,
          );
          reserved_head = λ x j h q. ground (
            arith,
            inv.heads.reserved_head x j h,
            at x,
            list_add-fields o upper next x,
            one-le-pow o 2,
            pow-suc 2 o,
          );
        };
      }

-- Of `own`, the block at `b` of order `o` has been carved out and has kind `k`; it was free, and
-- no other frame has changed what it is.
pub record Carved (total : ℕ) (own own' : Division) (b o : ℕ) (k : Kind) : Type 0 where
  pub inside :
      (x : ℕ)
      → x < total
      → in_range b (2 ^ o) x ≡ true
      → (own' x ≡ block b o k) × ((own x).kind ≡ free)
  pub outside :
      (x : ℕ)
      → x < total
      → in_range b (2 ^ o) x ≡ false
      → ((own' x).kind ≡ (own x).kind) × ((own x).kind ≢ free → own' x ≡ own x)

Carved-split :
    {total : ℕ} {own now : Division} (b o : ℕ)
    → Carved total own now b (suc o) held
    → Carved total own (split_division now b o) b o held
Carved-split {now} b o c = record {
  inside = λ x l m. ground (arith, c.inside x l, pow-suc 2 o, one-le-pow o 2);
  outside = λ x l m. (
    ground (arith, c.inside x l, c.outside x l, pow-suc 2 o, one-le-pow o 2),
    λ n. ground (arith, c.inside x l, c.outside x l, pow-suc 2 o, one-le-pow o 2),
  );
}

-- What a run of the split loop achieves.
pub record SplitTo (own : Division) (b o : ℕ) (total : ℕ) (r : Option Pmm) : Type 0 where
  pub final : Pmm
  pub returns : r ≡ some final
  pub now : Division
  pub lists : Listing
  pub inv : Inv now lists final
  pub carved : Carved total own now b o held
  pub same_total : final.total_pfns ≡ total

split_state-total : (b o : ℕ) (st : Pmm) → (split_state b o st).total_pfns ≡ st.total_pfns
unfolding list_add set_page
split_state-total b o st = refl

split-suc :
    (b o d : ℕ) (st st' : Pmm)
    → split_once b (o + d) st ≡ some st'
    → split b o (suc d) st ≡ split b o d st'
unfolding split
split-suc b o d st st' e = rw (e, split)

pub split-SplitTo :
    {own : Division} (d b o : ℕ) (st : Pmm) {now : Division} {lists : Listing}
    → Inv now lists st
    → b < st.total_pfns
    → Carved st.total_pfns own now b (o + d) held
    → SplitTo own b o st.total_pfns (split b o d st)
unfolding split
split-SplitTo {own} zero b o st {now} {lists} inv l c = record {
  final = st;
  returns = refl;
  now = now;
  lists = lists;
  inv = inv;
  carved = subst (λ t. Carved st.total_pfns own now b t held) (omega arith) c;
  same_total = refl;
}
split-SplitTo {own} (suc d) b o st {now} {lists} inv l c =
    let c' = subst (λ t. Carved st.total_pfns own now b t held) {y = suc (o + d)} (omega arith) c in
    let e : now b ≡ block b (suc (o + d)) held =
      (c'.inside b l (ground (arith, one-le-pow (suc (o + d)) 2))).0 in
    let same = split_state-total b (o + d) st in
    let rest =
      split-SplitTo {own = own} d b o (split_state b (o + d) st)
        (split_once-Inv st b (o + d) inv l e) (subst (λ t. b < t) (sym same) l)
        (subst (λ t. Carved t own (split_division now b (o + d)) b (o + d) held) (sym same)
          (Carved-split b (o + d) c')) in
    record {
      final = rest.final;
      returns =
          split-suc b o d st (split_state b (o + d) st) (split_once-some st b (o + d) inv l e)
          ∙ rest.returns;
      now = rest.now;
      lists = rest.lists;
      inv = rest.inv;
      carved = subst (λ t. Carved t own rest.now b o held) same rest.carved;
      same_total = rest.same_total ∙ same;
    }
