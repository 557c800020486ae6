-- ===== src/Kmalloc/Setup.antt =====
-- kernel/kmalloc.c: a new slab has all its slots free.
use mathlib.Core.Path.{subst}
use native.Mathlib.Nat.{mul-le-mul_right}
use alze_os.Base.{
  ℕ, zero, suc, ◌+◌, ◌*◌, ◌≤◌, ◌<◌, ◌≡◌, inl, inr, refl, ap, ◌∙◌, List, [], ◌∷◌, length, All, has,
  Distinct, false, arith,
}
use alze_os.Words.{load-store, load-store_apart}
use alze_os.Strings.{Memory}
use alze_os.Kmalloc.{
  free_of, used_of, obj_size_of, set_next_of, set_free_of, set_obj_size_of, set_used_of,
  set_total_of, chain_slots, slab_setup,
}
use alze_os.Kmalloc.Slabs.{
  slab_total, IsSlot, FreeChain, IsPage, IsSlab, linked, Linked, linked-Linked,
}

-- The slots below number `n`, the last first.
abbrev pub slots_below : ℕ → ℕ → ℕ → List ℕ
slots_below s size zero = []
slots_below s size (suc n) = (s + 32 + n * size) ∷ slots_below s size n

length-slots_below : (s size n : ℕ) → length (slots_below s size n) ≡ n
length-slots_below s size zero = refl
length-slots_below s size (suc n) = ap suc (length-slots_below s size n)

slots_below-IsSlot :
    (s size n : ℕ) → n ≤ slab_total size → All (IsSlot s size) (slots_below s size n)
slots_below-IsSlot s size zero h = tt
slots_below-IsSlot s size (suc n) h = ((n, h, refl), slots_below-IsSlot s size n (omega arith))

has-slots_below :
    (s size j n : ℕ) → 0 < size → n ≤ j → has (s + 32 + j * size) (slots_below s size n) ≡ false
has-slots_below s size j zero h l = refl
has-slots_below s size j (suc n) h l =
    let later : suc n * size ≤ j * size = mul-le-mul_right size l in
    ground (arith, has-slots_below s size j n)

slots_below-Distinct : (s size n : ℕ) → 0 < size → Distinct (slots_below s size n)
slots_below-Distinct s size zero h = tt
slots_below-Distinct s size (suc n) h =
    (has-slots_below s size n n h (omega arith), slots_below-Distinct s size n h)

-- What holds of the page once the slots below `n` are chained.
record Chained (size s n : ℕ) (mem : Memory) : Type 0 where
  chain : FreeChain mem (free_of mem s) (slots_below s size n)
  none_used : used_of mem s ≡ 0
  sized : obj_size_of mem s ≡ size

chain_slots-Chained :
    (mem : Memory) (size s i n : ℕ)
    → IsPage s size
    → i + n ≤ slab_total size
    → Chained size s i mem
    → Chained size s (i + n) (chain_slots s size i n mem)
unfolding chain_slots
chain_slots-Chained mem size s i zero page h c =
    subst (λ k. Chained size s k mem) {x = i} (omega arith) c
chain_slots-Chained mem size s i (suc n) page h c =
    let x = s + 32 + i * size in
    let k : Linked mem size s x (slots_below s size i) (linked s x mem) =
      linked-Linked mem size s x (slots_below s size i) page c.chain
        (slots_below-IsSlot s size i (omega arith)) (i, omega arith, refl)
        (has-slots_below s size i i (omega (arith, page.least)) (omega arith)) in
    subst (λ j. Chained size s j (chain_slots s size (suc i) n (linked s x mem))) {x = suc i + n}
      (omega arith)
      (chain_slots-Chained (linked s x mem) size s (suc i) n page (omega arith) (record {
        chain = k.chain;
        none_used = k.used_kept ∙ c.none_used;
        sized = k.size_kept ∙ c.sized;
      }))

-- The header with no slot chained yet.
slab_setup-Chained :
    (mem : Memory) (size s total : ℕ)
    → IsPage s size
    → let named = set_used_of s 0 (set_obj_size_of s size (set_next_of s 0 mem)) in
      Chained size s 0 (set_free_of s 0 (set_total_of s total named))
slab_setup-Chained mem size s total page =
    let m1 = set_next_of s 0 mem in
    let m2 = set_obj_size_of s size m1 in
    let m3 = set_used_of s 0 m2 in
    let m4 = set_total_of s total m3 in
    record {
      chain = load-store 8 m4 (s + 8) 0 (omega arith);
      none_used =
          load-store_apart 4 8 m4 (s + 20) (s + 8) 0 (inr (omega arith))
          ∙ load-store_apart 4 4 m3 (s + 20) (s + 24) total (inl (omega arith))
          ∙ load-store 4 m2 (s + 20) 0 (omega arith);
      sized =
          load-store_apart 4 8 m4 (s + 16) (s + 8) 0 (inr (omega arith))
          ∙ load-store_apart 4 4 m3 (s + 16) (s + 24) total (inl (omega arith))
          ∙ load-store_apart 4 4 m2 (s + 16) (s + 20) 0 (inl (omega arith))
          ∙ load-store 4 m1 (s + 16) size (omega (arith, page.most));
    }

-- A new slab has all its slots free, as many as fit behind the header.
pub slab_setup-IsSlab :
    (mem : Memory) (size s : ℕ)
    → IsPage s size
    → IsSlab (slab_setup s size mem) size s (slots_below s size (slab_total size))
unfolding slab_setup
slab_setup-IsSlab mem size s page =
    let total = slab_total size in
    let c =
      chain_slots-Chained _ size s 0 total page (omega arith)
        (slab_setup-Chained mem size s total page) in
    let full : 0 + total ≡ total = omega arith in
    record {
      page = page;
      sized = c.sized;
      chain =
          subst
            (λ n.
              FreeChain (slab_setup s size mem) (free_of (slab_setup s size mem) s)
                (slots_below s size n))
            full c.chain;
      slots = slots_below-IsSlot s size total (omega arith);
      distinct = slots_below-Distinct s size total (omega (arith, page.least));
      counted = omega (arith, c.none_used, length-slots_below s size total);
    }
