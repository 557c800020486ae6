-- ===== src/Pmm/Blocks.antt =====
-- How the page frames are divided into blocks: a view of the allocator that its state does not
-- store. Each frame knows the block that it lies in, and what that block is.
use native.Mathlib.Nat.{pow-suc, one-le-pow}
use alze_os.Base.{
  ℕ, suc, ◌+◌, ◌*◌, ◌^◌, ◌≤◌, ◌<◌, ◌≡◌, refl, ap, Bool, false, ◌&&◌, ltb, leb, if◌then◌else◌,
  Bool-cases, inl, inr, arith,
}
use alze_os.Pmm.{max_order, buddy_pfn}
use alze_os.Pmm.Buddy.{Aligned, Aligned-le, inside, parent}
use native.Mathlib.Decide.{dec_lt}
use mathlib.Core.Path.{subst}

-- `held` is a block that a running call has in hand, in no list and not yet handed out.
pub data Kind : Type 0 where
  free used held reserved : Kind

pub record Block : Type 0 where
  pub start : ℕ
  pub order : ℕ
  pub kind : Kind

abbrev pub block : ℕ → ℕ → Kind → Block
block s o k = record { start = s; order = o; kind = k }

abbrev pub Division : Type 0
Division = ℕ → Block

-- The blocks that cover the frames below `total` are aligned, fit, and are known to each of their
-- frames alike.
pub record IsDivision (total : ℕ) (own : Division) : Type 0 where
  pub small : (x : ℕ) → x < total → (own x).order ≤ max_order
  pub aligned : (x : ℕ) → x < total → Aligned (own x).start (own x).order
  pub above : (x : ℕ) → x < total → (own x).start ≤ x
  pub below : (x : ℕ) → x < total → x < (own x).start + 2 ^ (own x).order
  pub fits : (x : ℕ) → x < total → (own x).start + 2 ^ (own x).order ≤ total
  pub agree :
      (x y : ℕ)
      → x < total
      → (own x).start ≤ y
      → y < (own x).start + 2 ^ (own x).order
      → own y ≡ own x

abbrev pub in_range : ℕ → ℕ → ℕ → Bool
in_range s n x = leb s x && ltb x (s + n)

-- The frames of a range are divided anew.
abbrev pub fill : Division → ℕ → ℕ → Division → Division
fill own s n new x = if in_range s n x then new x else own x

abbrev pub whole : Block → Division
whole b x = b

-- Two blocks of order `o` from `s` on.
abbrev pub halves : ℕ → ℕ → Kind → Kind → Division
halves s o k k' x = if ltb x (s + 2 ^ o) then block s o k else block (s + 2 ^ o) o k'

-- `new` divides the range from `s`, `n` long, without leaving it.
pub record Covers (total s n : ℕ) (new : Division) : Type 0 where
  pub small : (x : ℕ) → s ≤ x → x < s + n → (new x).order ≤ max_order
  pub aligned : (x : ℕ) → s ≤ x → x < s + n → Aligned (new x).start (new x).order
  pub above : (x : ℕ) → s ≤ x → x < s + n → (s ≤ (new x).start) × ((new x).start ≤ x)
  pub below :
      (x : ℕ)
      → s ≤ x
      → x < s + n
      → (x < (new x).start + 2 ^ (new x).order) × ((new x).start + 2 ^ (new x).order ≤ s + n)
  pub agree :
      (x y : ℕ)
      → s ≤ x
      → x < s + n
      → (new x).start ≤ y
      → y < (new x).start + 2 ^ (new x).order
      → new y ≡ new x
  pub room : s + n ≤ total

pub whole-Covers :
    (total s o : ℕ) (k : Kind)
    → o ≤ max_order
    → Aligned s o
    → s + 2 ^ o ≤ total
    → Covers total s (2 ^ o) (whole (block s o k))
whole-Covers total s o k h a l = record {
  small = λ x p q. h;
  aligned = λ x p q. a;
  above = λ x p q. (omega arith, p);
  below = λ x p q. (q, omega arith);
  agree = λ x y p q r t. refl;
  room = l;
}

halves-aligned :
    (s o : ℕ) (k k' : Kind) (x : ℕ)
    → Aligned s (suc o)
    → Aligned (halves s o k k' x).start (halves s o k k' x).order
halves-aligned s o k k' x a = elim (Bool-cases (ltb x (s + 2 ^ o))) [
  | inl lower ↦ rw lower (Aligned-le (suc o) o (omega arith) a)
  | inr upper ↦ rw upper (record {
    factor = 2 * a.factor + 1;
    multiple = omega (arith, a.multiple, ap (λ (t : ℕ). a.factor * t) (pow-suc 2 o));
  })
]

pub halves-Covers :
    (total s o : ℕ) (k k' : Kind)
    → suc o ≤ max_order
    → Aligned s (suc o)
    → s + 2 ^ suc o ≤ total
    → Covers total s (2 ^ suc o) (halves s o k k')
halves-Covers total s o k k' h a l = record {
  small = λ x p q. ground arith;
  aligned = λ x p q. halves-aligned s o k k' x a;
  above = λ x p q. ground arith;
  below = λ x p q. ground (arith, pow-suc 2 o);
  agree = λ x y p q r t. ground (arith, pow-suc 2 o);
  room = l;
}

-- No block of the division lies partly in the range.
abbrev pub IsUnion : ℕ → Division → ℕ → ℕ → Type 0
IsUnion total own s n =
    (x y : ℕ)
    → x < total
    → in_range s n x ≡ false
    → (own x).start ≤ y
    → y < (own x).start + 2 ^ (own x).order
    → in_range s n y ≡ false

module _ {total : ℕ} {own : Division} (d : IsDivision total own) where
  fill-aligned :
      (s n : ℕ) (new : Division)
      → Covers total s n new
      → (x : ℕ) → x < total
      → Aligned (fill own s n new x).start (fill own s n new x).order
  fill-aligned s n new c x h = elim (Bool-cases (in_range s n x)) [
    | inl inner ↦ rw inner (c.aligned x (ground arith) (ground arith))
    | inr outer ↦ rw outer (d.aligned x h)
  ]

  pub fill-IsDivision :
      (s n : ℕ) (new : Division)
      → IsUnion total own s n
      → Covers total s n new
      → IsDivision total (fill own s n new)
  fill-IsDivision s n new u c = record {
    small = λ x h. ground (arith, d.small x, c.small x);
    aligned = λ x h. fill-aligned s n new c x h;
    above = λ x h. ground (arith, d.above x, c.above x);
    below = λ x h. ground (arith, d.below x, c.below x);
    fits = λ x h. ground (arith, d.fits x, c.below x, c.room);
    agree = λ x y h p q. ground (arith, c.agree x y, c.above x, c.below x, d.agree x y, u x y);
  }

  pub block-IsUnion : (s : ℕ) → s < total → IsUnion total own (own s).start (2 ^ (own s).order)
  block-IsUnion s h x y l o p q =
      ground (arith, d.agree s y h, d.agree x y l, d.above x l, d.below x l)

  -- The union of two ranges that are unions of blocks.
  pub pair-IsUnion :
      (s n m : ℕ)
      → IsUnion total own s n
      → IsUnion total own (s + n) m
      → IsUnion total own s (n + m)
  pair-IsUnion s n m u w x y l o p q = ground (arith, u x y l, w x y l)

  -- The buddy of a block that is not part of a larger one starts a block, of at most its order.
  pub buddy-start :
      (p o : ℕ) (k : Kind)
      → p < total
      → own p ≡ block p o k
      → buddy_pfn p o < total
      → ((own (buddy_pfn p o)).start ≡ buddy_pfn p o) × ((own (buddy_pfn p o)).order ≤ o)
  buddy-start p o k l e b =
      let start = (own (buddy_pfn p o)).start in
      let order = (own (buddy_pfn p o)).order in
      let a : Aligned p o = subst (λ (b : Block). Aligned b.start b.order) e (d.aligned p l) in
      let (m, q) = parent o a in
      elim (dec_lt o order) [
        | yes large ↦ absurd (
            let w =
              inside (suc o) order (buddy_pfn p o) large q.whole (d.aligned (buddy_pfn p o) b)
                q.lower.1 q.upper.1 (d.above (buddy_pfn p o) b) (d.below (buddy_pfn p o) b) in
            ground (
              arith,
              d.agree (buddy_pfn p o) p b,
              w,
              q.lower,
              q.upper,
              ap (λ (t : Block). t.order) e,
            ))
        | no small ↦ (
          let w =
                inside {m = start} order o (buddy_pfn p o) (omega arith)
                  (d.aligned (buddy_pfn p o) b) q.half (d.above (buddy_pfn p o) b)
                  (d.below (buddy_pfn p o) b) (omega arith) (omega (arith, one-le-pow o 2)) in
              omega (arith, w, d.above (buddy_pfn p o) b),
          omega arith,
        )
      ]
