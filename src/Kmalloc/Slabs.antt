-- ===== src/Kmalloc/Slabs.antt =====
-- kernel/kmalloc.c: a slab as a stack of free slots. Its header and the links of its free slots
-- lie in one page of memory.
use mathlib.Core.Path.{subst}
use native.Mathlib.Decide.{dec_lt}
use native.Mathlib.Nat.{div-le_of_le-mul, le-div_iff_mul-le, mul-le-mul_right}
use alze_os.Base.{
  ℕ, suc, ◌+◌, ◌-◌, ◌*◌, ◌/◌, ◌%◌, ◌^◌, ◌≤◌, ◌<◌, ◌≡◌, ◌≢◌, ◌⊎◌, inl, inr, sym, ap, ap₂, ◌∙◌, List,
  [], ◌∷◌, length, All, has, Distinct, false, arith,
}
use alze_os.Words.{load, store, load-store, load-store_apart, load_ext, store-outside}
use alze_os.Strings.{Memory}
use alze_os.Kmalloc.{Heap, free_of, used_of, obj_size_of, set_free_of, set_used_of, take_slot}
use alze_os.Kmalloc.Free.{return_slot}

-- The slots of a page.
abbrev pub slab_total : ℕ → ℕ
slab_total size = (4096 - 32) / size

-- `x` is slot number `i`.
abbrev pub IsSlot : ℕ → ℕ → ℕ → Type 0
IsSlot s size x = (i : ℕ) × (i < slab_total size) × (x ≡ s + 32 + i * size)

-- The list of free slots that begins at `p`.
abbrev pub FreeChain : Memory → ℕ → List ℕ → Type 0
FreeChain mem p [] = p ≡ 0
FreeChain mem p (x ∷ xs) = (p ≡ x) × FreeChain mem (load 8 mem x) xs

-- A page for a slab of slots of `size` bytes.
pub record IsPage (s size : ℕ) : Type 0 where
  pub aligned : s % 4096 ≡ 0
  pub not_null : 0 < s
  pub top : s + 4096 ≤ 2 ^ 64
  pub least : 16 ≤ size
  pub most : size ≤ 2048

pub record IsSlab (mem : Memory) (size s : ℕ) (xs : List ℕ) : Type 0 where
  pub page : IsPage s size
  pub sized : obj_size_of mem s ≡ size
  pub chain : FreeChain mem (free_of mem s) xs
  pub slots : All (IsSlot s size) xs
  pub distinct : Distinct xs
  pub counted : used_of mem s + length xs ≡ slab_total size

-- A slot lies behind the header and within the page.
pub slot_bounds :
    (s size x : ℕ) → IsPage s size → IsSlot s size x → (s + 32 ≤ x) × (x + size ≤ s + 4096)
slot_bounds s size x p (i, l, e) =
    omega
      (arith, (le-div_iff_mul-le {k = size} {x = suc i} {y = 4064} (omega (arith, p.least))).0 l)

-- Writes that leave the slots of the list alone leave the list as it is.
FreeChain-ext :
    (m m' : Memory) (s size p : ℕ) (xs : List ℕ)
    → IsPage s size
    → All (IsSlot s size) xs
    → ((a : ℕ) → s + 32 ≤ a → a < s + 4096 → m a ≡ m' a)
    → FreeChain m p xs
    → FreeChain m' p xs
FreeChain-ext m m' s size p [] page slots same chain = chain
FreeChain-ext m m' s size p (x ∷ xs) page (slot, slots) same (e, chain) =
    let (above, below) = slot_bounds s size x page slot in
    let link : load 8 m x ≡ load 8 m' x =
      load_ext 8 m m' x
        (λ a l h. same a (omega (arith, l, h, above)) (omega (arith, h, below, page.least))) in
    (
      e,
      FreeChain-ext m m' s size (load 8 m' x) xs page slots same
          (subst (λ q. FreeChain m q xs) link chain),
    )

-- A header with a new free list and a new count of slots in use.
abbrev headed : ℕ → ℕ → ℕ → Memory → Memory
headed s free used mem = set_used_of s used (set_free_of s free mem)

record Headed (mem : Memory) (s free used : ℕ) (m : Memory) : Type 0 where
  free_set : free_of m s ≡ free
  used_set : used_of m s ≡ used
  size_kept : obj_size_of m s ≡ obj_size_of mem s
  behind : (a : ℕ) → s + 32 ≤ a → m a ≡ mem a

headed-Headed :
    (mem : Memory) (s free used : ℕ)
    → free < 2 ^ 64
    → used < 2 ^ 32
    → Headed mem s free used (headed s free used mem)
headed-Headed mem s free used h l =
    let m = set_free_of s free mem in
    record {
      free_set =
          load-store_apart 8 4 m (s + 8) (s + 20) used (inl (omega arith))
          ∙ load-store 8 mem (s + 8) free h;
      used_set = load-store 4 m (s + 20) used l;
      size_kept =
          load-store_apart 4 4 m (s + 16) (s + 20) used (inl (omega arith))
          ∙ load-store_apart 4 8 mem (s + 16) (s + 8) free (inr (omega arith));
      behind = λ a p.
          store-outside 4 m (s + 20) used a (inr (omega arith))
          ∙ store-outside 8 mem (s + 8) free a (inr (omega arith));
    }

total_small : (size : ℕ) → 16 ≤ size → slab_total size ≤ 254
total_small size h = div-le_of_le-mul size (omega (arith, mul-le-mul_right 254 h))

-- A pointer to the first slot of a free list, or none.
link_small :
    (mem : Memory) (s size p : ℕ) (xs : List ℕ)
    → IsPage s size
    → All (IsSlot s size) xs
    → FreeChain mem p xs
    → p < 2 ^ 64
link_small mem s size p [] page slots chain = omega arith
link_small mem s size p (x ∷ xs) page (slot, slots) chain =
    omega (arith, slot_bounds s size x page slot, page.top, page.least)

slot_apart :
    (s size x y : ℕ)
    → 16 ≤ size
    → IsSlot s size x
    → IsSlot s size y
    → x ≢ y
    → (x + 8 ≤ y) ⊎ (y + 8 ≤ x)
slot_apart s size x y h (i, _, e) (j, _, f) apart = elim (dec_lt i j) [
  | yes l ↦ inl (let later : suc i * size ≤ j * size = mul-le-mul_right size l in omega arith)
  | no l ↦ elim (dec_lt j i) [
    | yes g ↦ inr (let later : suc j * size ≤ i * size = mul-le-mul_right size g in omega arith)
    | no g ↦ absurd (apart (e ∙ ap (λ k. s + 32 + k * size) {y = j} (omega arith) ∙ sym f))
  ]
]

-- The link of a slot outside the list does not matter to the list.
FreeChain-store :
    (mem : Memory) (s size x v p : ℕ) (xs : List ℕ)
    → 16 ≤ size
    → IsSlot s size x
    → All (IsSlot s size) xs
    → has x xs ≡ false
    → FreeChain mem p xs
    → FreeChain (store 8 mem x v) p xs
FreeChain-store mem s size x v p [] h slot slots out chain = chain
FreeChain-store mem s size x v p (y ∷ ys) h slot (here, slots) out (e, chain) =
    let apart : x ≢ y = λ same. ground (arith, out) in
    let link : load 8 (store 8 mem x v) y ≡ load 8 mem y =
      load-store_apart 8 8 mem y x v
        (slot_apart s size y x h here slot (λ same. apart (sym same))) in
    (
      e,
      FreeChain-store mem s size x v (load 8 (store 8 mem x v) y) ys h slot slots
          (ground (arith, out)) (subst (λ q. FreeChain mem q ys) (sym link) chain),
    )

-- Without its first free slot the slab is the rest of the stack.
pop-IsSlab :
    (mem : Memory) (size s x : ℕ) (xs : List ℕ)
    → IsSlab mem size s (x ∷ xs)
    → IsSlab (headed s (load 8 mem x) ((used_of mem s + 1) % 2 ^ 32) mem) size s xs
pop-IsSlab mem size s x xs slab =
    let used = (used_of mem s + 1) % 2 ^ 32 in
    let small = link_small mem s size (load 8 mem x) xs slab.page slab.slots.1 slab.chain.1 in
    let h : Headed mem s (load 8 mem x) used (headed s (load 8 mem x) used mem) =
      headed-Headed mem s (load 8 mem x) used small (omega arith) in
    record {
      page = slab.page;
      sized = h.size_kept ∙ slab.sized;
      chain =
          subst (λ q. FreeChain (headed s (load 8 mem x) used mem) q xs) (sym h.free_set)
            (FreeChain-ext mem (headed s (load 8 mem x) used mem) s size (load 8 mem x) xs slab.page
              slab.slots.1 (λ a p q. sym (h.behind a p)) slab.chain.1);
      slots = slab.slots.1;
      distinct = slab.distinct.1;
      counted = omega (arith, h.used_set, slab.counted, total_small size slab.page.least);
    }

-- A slot is put before the free list.
abbrev pub linked : ℕ → ℕ → Memory → Memory
linked s x mem = set_free_of s x (store 8 mem x (free_of mem s))

pub record Linked (mem : Memory) (size s x : ℕ) (xs : List ℕ) (m : Memory) : Type 0 where
  pub chain : FreeChain m (free_of m s) (x ∷ xs)
  pub used_kept : used_of m s ≡ used_of mem s
  pub size_kept : obj_size_of m s ≡ obj_size_of mem s

pub linked-Linked :
    (mem : Memory) (size s x : ℕ) (xs : List ℕ)
    → IsPage s size
    → FreeChain mem (free_of mem s) xs
    → All (IsSlot s size) xs
    → IsSlot s size x
    → has x xs ≡ false
    → Linked mem size s x xs (linked s x mem)
linked-Linked mem size s x xs page chain slots slot out =
    let (above, below) = slot_bounds s size x page slot in
    let first = free_of mem s in
    let m0 = store 8 mem x first in
    let m = linked s x mem in
    let behind : (a : ℕ) → s + 32 ≤ a → m a ≡ m0 a =
      λ a p. store-outside 8 m0 (s + 8) x a (inr (omega arith)) in
    let link : load 8 m x ≡ first =
      load_ext 8 m m0 x (λ a p q. behind a (omega (arith, above, p)))
      ∙ load-store 8 mem x first (link_small mem s size first xs page slots chain) in
    record {
      chain = (
        load-store 8 m0 (s + 8) x (omega (arith, below, page.top, page.least)),
        subst (λ q. FreeChain m q xs) (sym link)
            (FreeChain-ext m0 m s size first xs page slots (λ a p q. sym (behind a p))
              (FreeChain-store mem s size x first first xs page.least slot slots out chain)),
      );
      used_kept =
          load-store_apart 4 8 m0 (s + 20) (s + 8) x (inr (omega arith))
          ∙ load-store_apart 4 8 mem (s + 20) x first (inl (omega (arith, above)));
      size_kept =
          load-store_apart 4 8 m0 (s + 16) (s + 8) x (inr (omega arith))
          ∙ load-store_apart 4 8 mem (s + 16) x first (inl (omega (arith, above)));
    }

-- A slot of the slab that is not free goes back in front of the free ones, and the slab is right
-- again, as long as its header counts a slot in use.
pub return_slot-IsSlab :
    (mem : Memory) (size s x : ℕ) (xs : List ℕ)
    → IsSlab mem size s xs
    → IsSlot s size x
    → has x xs ≡ false
    → 0 < used_of mem s
    → IsSlab (return_slot s x mem) size s (x ∷ xs)
unfolding return_slot
return_slot-IsSlab mem size s x xs slab slot out some_used =
    let m = linked s x mem in
    let k : Linked mem size s x xs m =
      linked-Linked mem size s x xs slab.page slab.chain slab.slots slot out in
    let used = (used_of m s + 2 ^ 32 - 1) % 2 ^ 32 in
    let free_kept : free_of (set_used_of s used m) s ≡ free_of m s =
      load-store_apart 8 4 m (s + 8) (s + 20) used (inl (omega arith)) in
    record {
      page = slab.page;
      sized =
          load-store_apart 4 4 m (s + 16) (s + 20) used (inl (omega arith))
          ∙ k.size_kept
          ∙ slab.sized;
      chain =
          subst (λ q. FreeChain (set_used_of s used m) q (x ∷ xs)) (sym free_kept)
            (FreeChain-ext m (set_used_of s used m) s size (free_of m s) (x ∷ xs) slab.page
              (slot, slab.slots)
              (λ a p q. sym (store-outside 4 m (s + 20) used a (inr (omega arith)))) k.chain);
      slots = (slot, slab.slots);
      distinct = (out, slab.distinct);
      counted = omega (
        arith,
        load-store 4 m (s + 20) used (omega arith),
        k.used_kept,
        slab.counted,
        total_small size slab.page.least,
        some_used,
      );
    }

-- `kmalloc` hands out the first free slot of a slab, leaves the other free slots in their order, and
-- writes to no byte behind the slab's header. Handed back, the slot is the first free one again.
pub take_slot-IsSlab :
    (h : Heap) (c size s x : ℕ) (xs : List ℕ)
    → IsSlab h.mem size s (x ∷ xs)
    → let (slot, h') = take_slot c s h in
      (slot ≡ x)
      × IsSlab h'.mem size s xs
      × ((a : ℕ) → s + 32 ≤ a → h'.mem a ≡ h.mem a)
      × IsSlab (return_slot s slot h'.mem) size s (x ∷ xs)
unfolding take_slot
take_slot-IsSlab h c size s x xs slab = (
  first,
  subst (λ m. IsSlab m size s xs) (sym memory) taken,
  λ a p. ap (λ m. m a) memory ∙ head.behind a p,
  subst (λ y. IsSlab (return_slot s y (take_slot c s h).1.mem) size s (x ∷ xs)) (sym first)
      (return_slot-IsSlab (take_slot c s h).1.mem size s x xs
        (subst (λ m. IsSlab m size s xs) (sym memory) taken) slab.slots.0 slab.distinct.0
        (omega (
          arith,
          ap (λ m. used_of m s) memory,
          head.used_set,
          slab.counted,
          total_small size slab.page.least,
        ))),
)
  where
    first : free_of h.mem s ≡ x
    first = slab.chain.0

    link : ℕ
    link = load 8 h.mem x

    used : ℕ
    used = (used_of h.mem s + 1) % 2 ^ 32

    taken : IsSlab (headed s link used h.mem) size s xs
    taken = pop-IsSlab h.mem size s x xs slab

    head : Headed h.mem s link used (headed s link used h.mem)
    head =
        headed-Headed h.mem s link used
          (link_small h.mem s size link xs slab.page slab.slots.1 slab.chain.1) (omega arith)

    memory : (take_slot c s h).1.mem ≡ headed s link used h.mem
    memory =
        ap₂ (λ l k. headed s l ((k + 1) % 2 ^ 32) h.mem) (ap (load 8 h.mem) first)
          (load-store_apart 4 8 h.mem (s + 20) (s + 8) (load 8 h.mem (free_of h.mem s))
            (inr (omega arith)))
