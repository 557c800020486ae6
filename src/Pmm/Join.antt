-- ===== src/Pmm/Join.antt =====
-- Coalescing: a block in hand and its free buddy become one block in hand.
use mathlib.Core.Path.{subst}
use native.Mathlib.Nat.{one-le-pow, pow-suc}
use alze_os.Base.{
  ℕ, zero, suc, ◌+◌, ◌^◌, ◌≤◌, ◌<◌, ◌≡◌, ◌≢◌, sym, ap, ◌∙◌, true, false, ltb, ◌==◌, if◌then◌else◌,
  Bool-cases, inl, inr, ◌⊎◌, update, arith, bit_and,
}
use alze_os.Pmm.{
  Pmm, max_order, page_buddy_head, list_remove, set_page, clear_head, is_buddy_free, buddy_pfn,
  join_once, coalesce,
}
use alze_os.Pmm.Chain.{without}
use alze_os.Pmm.Buddy.{Aligned, buddy_cases}
use alze_os.Pmm.Blocks.{
  free, held, Block, block, Division, IsDivision, in_range, fill, whole, whole-Covers, IsUnion,
  fill-IsDivision, block-IsUnion, buddy-start,
}
use alze_os.Pmm.Inv.{
  Listing, HoldsFree-ext, list_remove-fields, list_remove-HoldsFree, Inv, NoneHeld, own-in_range,
}

-- Two blocks next to each other, `m` the lower one.
abbrev pub Beside : ℕ → ℕ → ℕ → ℕ → Type 0
Beside m c bp n = ((m ≡ c) × (bp ≡ c + n)) ⊎ ((m ≡ bp) × (c ≡ bp + n))

abbrev joined_division : Division → ℕ → ℕ → Division
joined_division now m o = fill now m (2 ^ suc o) (whole (block m (suc o) held))

module _ {now : Division} {lists : Listing} (st : Pmm) (o c bp m : ℕ) (inv : Inv now lists st)
    (lc : c < st.total_pfns) (lb : bp < st.total_pfns) (ec : now c ≡ block c o held)
    (eb : now bp ≡ block bp o free) (pair : Beside m c bp (2 ^ o))
    (whole_aligned : Aligned m (suc o)) (small : suc o ≤ max_order) where
  joined-IsDivision : IsDivision st.total_pfns (joined_division now m o)
  joined-IsDivision =
      let d = inv.division in
      let u =
        subst (λ (b : Block). IsUnion st.total_pfns now b.start (2 ^ b.order)) ec
          (block-IsUnion d c lc) in
      let v =
        subst (λ (b : Block). IsUnion st.total_pfns now b.start (2 ^ b.order)) eb
          (block-IsUnion d bp lb) in
      fill-IsDivision d m (2 ^ suc o) (whole (block m (suc o) held))
        (λ x y l h p q. ground (arith, u x y l, v x y l, pow-suc 2 o))
        (whole-Covers st.total_pfns m (suc o) held small whole_aligned
          (ground (arith, d.fits c lc, d.fits bp lb, pow-suc 2 o)))

  join-Inv :
      Inv
        (joined_division now m o)
        (update lists o (without bp (lists o)))
        (set_page m (suc o) page_buddy_head (clear_head bp (list_remove o bp st)))
  unfolding set_page clear_head list_remove
  join-Inv =
      let at = own-in_range inv c o held lc ec in
      let at' = own-in_range inv bp o free lb eb in
      let own' = joined_division now m o in
      record {
        division = joined-IsDivision;
        holds =
            HoldsFree-ext own'
              (set_page m (suc o) page_buddy_head (clear_head bp (list_remove o bp st))).pages
              (λ y. ground arith) (λ j y h. (λ q. q, λ q. q))
              (list_remove-HoldsFree st inv.holds o bp (inv.holds.complete o bp lb eb) own'
                (record {
                  gone = λ j y h q. ground (arith, one-le-pow o 2, pow-suc 2 o);
                  kept = λ j y h q n. ground (arith, at y, at' y, pow-suc 2 o);
                }));
        heads = record {
          free_head = λ x j h q. ground (
            arith,
            inv.heads.free_head x j h,
            list_remove-fields o bp st x,
            at x,
            at' x,
            one-le-pow o 2,
            pow-suc 2 o,
          );
          used_head = λ x j h q. ground (
            arith,
            inv.heads.used_head x j h,
            list_remove-fields o bp st x,
            at x,
            at' x,
            one-le-pow o 2,
            pow-suc 2 o,
          );
          reserved_head = λ x j h q. ground (
            arith,
            inv.heads.reserved_head x j h,
            list_remove-fields o bp st x,
            at x,
            at' x,
            one-le-pow o 2,
            pow-suc 2 o,
          );
        };
      }

-- Of `own`, the block at `c` of order `o` is made up of free blocks and the range from `p` on,
-- `n` long, and is held; all else is as it was.
pub record Merged (total : ℕ) (own now : Division) (p n c o : ℕ) : Type 0 where
  pub inside :
      (x : ℕ)
      → x < total
      → in_range c (2 ^ o) x ≡ true
      → (now x ≡ block c o held) × (((own x).kind ≡ free) ⊎ (in_range p n x ≡ true))
  pub outside :
      (x : ℕ)
      → x < total
      → in_range c (2 ^ o) x ≡ false
      → (now x ≡ own x) × (in_range p n x ≡ false)

-- The coalescing loop's state.
pub record Joining (total : ℕ) (own : Division) (p n : ℕ) (c o : ℕ) (st : Pmm) : Type 0 where
  pub now : Division
  pub lists : Listing
  pub inv : Inv now lists st
  pub merged : Merged total own now p n c o
  pub inside : c < total
  pub small : o ≤ max_order
  pub head : ((st.pages c).flags ≡ page_buddy_head) × ((st.pages c).order ≡ o)
  pub same_total : st.total_pfns ≡ total

module _ {total : ℕ} {own : Division} {p n : ℕ} (none_held : NoneHeld total own) (c o : ℕ)
    (st : Pmm) (j : Joining total own p n c o st) (room : o < max_order)
    (buddy : is_buddy_free st (buddy_pfn c o) o ≡ true) where
  abbrev bp : ℕ
  bp = buddy_pfn c o

  c_held : j.now c ≡ block c o held
  c_held = (j.merged.inside c j.inside (ground (arith, one-le-pow o 2))).0

  buddy_inside : bp < st.total_pfns
  unfolding is_buddy_free
  buddy_inside = ground (arith, buddy)

  buddy_flags : (bit_and (st.pages bp).flags page_buddy_head == 0) ≡ false
  unfolding is_buddy_free
  buddy_flags = ground (arith, buddy)

  buddy_order : (st.pages bp).order ≡ o
  unfolding is_buddy_free
  buddy_order = ground (arith, buddy)

  c_inside : c < st.total_pfns
  c_inside = subst (λ t. c < t) (sym j.same_total) j.inside

  c_aligned : Aligned c o
  c_aligned =
      subst (λ (b : Block). Aligned b.start b.order) c_held (j.inv.division.aligned c c_inside)

  buddy_apart : in_range c (2 ^ o) bp ≡ false
  buddy_apart = ground (arith, buddy_cases o c_aligned, one-le-pow o 2)

  buddy_block : (j.now bp).start ≡ bp
  buddy_block = (buddy-start j.inv.division c o held c_inside c_held buddy_inside).0

  buddy_not_held : (j.now bp).kind ≢ held
  buddy_not_held h =
      let l : bp < total = subst (λ t. bp < t) j.same_total buddy_inside in
      none_held bp l (ap (λ (b : Block). b.kind) (sym (j.merged.outside bp l buddy_apart).0) ∙ h)

  -- The test of the flags and the order finds free blocks only.
  buddy_free : j.now bp ≡ block bp o free
  buddy_free = ground (
    arith,
    buddy_flags,
    buddy_order,
    buddy_block,
    buddy_not_held,
    j.inv.heads.free_head bp (j.now bp).order buddy_inside,
    j.inv.heads.used_head bp (j.now bp).order buddy_inside,
    j.inv.heads.reserved_head bp (j.now bp).order buddy_inside,
  )

  abbrev lower : ℕ
  lower = if ltb bp c then bp else c

  lower-Beside : Beside lower c bp (2 ^ o)
  lower-Beside = ground (arith, buddy_cases o c_aligned, one-le-pow o 2)

  lower-Aligned : Aligned lower (suc o)
  lower-Aligned = elim (buddy_cases o c_aligned) [
    | inl (e, a) ↦ subst (λ t. Aligned t (suc o)) {x = c} (ground (arith, one-le-pow o 2)) a
    | inr (e, a) ↦ subst (λ t. Aligned t (suc o)) {x = bp} (ground (arith, one-le-pow o 2)) a
  ]

  joined-Merged : Merged total own (joined_division j.now lower o) p n lower (suc o)
  joined-Merged =
      let pair = lower-Beside in
      let at = own-in_range j.inv bp o free buddy_inside buddy_free in
      record {
        inside = λ x l m.
            ground (arith, j.merged.inside x l, j.merged.outside x l, at x, pair, pow-suc 2 o);
        outside =
            λ x l m. ground (arith, j.merged.inside x l, j.merged.outside x l, pair, pow-suc 2 o);
      }

  join_once-Joining : Joining total own p n (join_once c o st).0 (suc o) (join_once c o st).1
  unfolding join_once set_page clear_head list_remove
  join_once-Joining = record {
    now = joined_division j.now lower o;
    lists = update j.lists o (without bp (j.lists o));
    inv =
        join-Inv st o c bp lower j.inv c_inside buddy_inside c_held buddy_free lower-Beside
          lower-Aligned (omega arith);
    merged = joined-Merged;
    inside = ground (arith, c_inside, buddy_inside, j.same_total);
    small = omega arith;
    head = ground arith;
    same_total = j.same_total;
  }

pub coalesce-Joining :
    {total : ℕ} {own : Division} {p len : ℕ}
    → NoneHeld total own
    → (n c o : ℕ) (st : Pmm) → n + o ≡ max_order
    → Joining total own p len c o st
    → Joining total own p len (coalesce n c o st).0 (coalesce n c o st).1 (coalesce n c o st).2
unfolding coalesce
coalesce-Joining none_held zero c o st h j = j
coalesce-Joining none_held (suc n) c o st h j =
    elim (Bool-cases (is_buddy_free st (buddy_pfn c o) o)) [
      | inl joins ↦
          rw (joins, coalesce)
            (coalesce-Joining none_held n (join_once c o st).0 (suc o) (join_once c o st).1
              (omega arith) (join_once-Joining none_held c o st j (omega arith) joins))
      | inr stops ↦ rw (stops, coalesce) j
    ]
