-- ===== src/Kmalloc/Classes.antt =====
-- kernel/kmalloc.c: the size classes.
use native.Mathlib.Nat.{pow-le-pow_right}
use alze_os.Base.{ℕ, ◌-◌, ◌*◌, ◌^◌, ◌≤◌, ◌<◌, ◌≡◌, ◌↔◌, none, some, arith}
use alze_os.Kmalloc.{Heap, size_to_class, kmalloc_init, init_classes}

-- The slots of class `c`.
abbrev pub class_size : ℕ → ℕ
class_size c = 16 * 2 ^ c

pub kmalloc_init-class_size :
    (h : Heap) (c : ℕ) → c < 8 → ((kmalloc_init h).classes c).obj_size ≡ class_size c
unfolding kmalloc_init init_classes
kmalloc_init-class_size h c l = ground arith

pub size_to_class-class_size :
    (size c : ℕ) → size_to_class size ≡ some c → (c < 8) × (size ≤ class_size c)
unfolding size_to_class
size_to_class-class_size size c e = ground arith

size_to_class-above : (size c j : ℕ) → size_to_class size ≡ some c → j < c → class_size j < size
unfolding size_to_class
size_to_class-above size c j e l =
    let last : 16 * 2 ^ (c - 1) < size = ground arith in
    let below : 2 ^ j ≤ 2 ^ (c - 1) = pow-le-pow_right (omega arith) (omega arith) in omega arith

pub size_to_class-none : (size : ℕ) → (size_to_class size ≡ none) ↔ (2048 < size)
unfolding size_to_class
size_to_class-none size = (λ e. ground arith, λ l. ground arith)

-- The class of a size is the first whose slots are large enough, and there is one exactly up to
-- 2048 bytes.
pub size_to_class-smallest :
    (h : Heap) (size c : ℕ)
    → (size_to_class size ≡ some c
        → (size ≤ ((kmalloc_init h).classes c).obj_size)
          × ((j : ℕ) → j < c → ((kmalloc_init h).classes j).obj_size < size))
      × ((size_to_class size ≡ none) ↔ (2048 < size))
size_to_class-smallest h size c = (
  λ e.
      let (in_range, fits) = size_to_class-class_size size c e in
      (
        omega (arith, kmalloc_init-class_size h c in_range),
        λ j l.
            omega
              (arith, kmalloc_init-class_size h j (omega arith), size_to_class-above size c j e l),
      ),
  size_to_class-none size,
)
