-- ===== src/Pmm/Buddy.antt =====
-- Blocks of `2 ^ o` pages that start at a multiple of their size.
use native.Mathlib.Nat.{pow-suc, one-le-pow}
use native.Mathlib.Decide.{dec_lt}
use mathlib.Core.Path.{subst}
use alze_os.Base.{
  ℕ, zero, suc, ◌+◌, ◌-◌, ◌*◌, ◌/◌, ◌%◌, ◌^◌, ◌≤◌, ◌<◌, bit_xor, ◌≡◌, refl, sym, ap, ◌∙◌, ◌⊎◌, inl,
  inr, arith, ◌==◌, if◌then◌else◌, Bool-cases,
}
use alze_os.Bits.{xor_digit_step}
use alze_os.Pmm.{buddy_pfn}

pub record Aligned (p o : ℕ) : Type 0 where
  pub factor : ℕ
  pub multiple : p ≡ factor * 2 ^ o

pow-add : (o d : ℕ) → 2 ^ (o + d) ≡ 2 ^ d * 2 ^ o
pow-add o zero = ap (λ t. 2 ^ t) {y = o} (omega arith) ∙ omega arith
pow-add o (suc d) =
    ap (λ t. 2 ^ t) {y = suc (o + d)} (omega arith)
    ∙ omega (
      arith,
      pow-suc 2 (o + d),
      pow-add o d,
      pow-suc 2 d,
      ap (λ (t : ℕ). t * 2 ^ o) (pow-suc 2 d),
    )

pub pow-split : (o j : ℕ) → j ≤ o → 2 ^ o ≡ 2 ^ (o - j) * 2 ^ j
pow-split o j h = ap (λ t. 2 ^ t) {x = o} (omega arith) ∙ pow-add j (o - j)

lt_of_mul : (a b t : ℕ) → a * t < b * t → a < b
lt_of_mul a b t h = elim (dec_lt a b) [ yes p ↦ p | no n ↦ absurd (grind arith) ]

mul_mono : (a b t : ℕ) → a ≤ b → a * t ≤ b * t
mul_mono a b t h = grind arith

-- A coarser alignment is a finer one.
pub Aligned-le : {p : ℕ} (o j : ℕ) → j ≤ o → Aligned p o → Aligned p j
Aligned-le {p} o j h a = record {
  factor = a.factor * 2 ^ (o - j);
  multiple = a.multiple ∙ omega (arith, ap (λ (t : ℕ). a.factor * t) (pow-split o j h));
}

-- A block that meets another of at least its order lies inside it.
pub inside :
    {m s : ℕ} (j o x : ℕ)
    → j ≤ o
    → Aligned m j
    → Aligned s o
    → m ≤ x
    → x < m + 2 ^ j
    → s ≤ x
    → x < s + 2 ^ o
    → (s ≤ m) × (m + 2 ^ j ≤ s + 2 ^ o)
inside {m} {s} j o x h a b p q r t =
    let b' = Aligned-le o j h b in
    let e = pow-split o j h in
    let below : a.factor < b'.factor + 2 ^ (o - j) =
      lt_of_mul a.factor (b'.factor + 2 ^ (o - j)) (2 ^ j)
        (omega (arith, e, b'.multiple, a.multiple)) in
    let above : b'.factor < a.factor + 1 =
      lt_of_mul b'.factor (a.factor + 1) (2 ^ j) (omega (arith, b'.multiple, a.multiple)) in
    (
      omega (arith, b'.multiple, a.multiple, mul_mono b'.factor a.factor (2 ^ j) (omega arith)),
      omega (
        arith,
        e,
        b'.multiple,
        a.multiple,
        mul_mono (a.factor + 1) (b'.factor + 2 ^ (o - j)) (2 ^ j) (omega arith),
      ),
    )

bit_xor-zero : (k a : ℕ) → a ≤ k → bit_xor a 0 ≡ a
bit_xor-zero k zero h = refl
bit_xor-zero zero (suc a) h = absurd (omega arith)
bit_xor-zero (suc k) (suc a) h =
    omega (arith, xor_digit_step (suc a) 0, bit_xor-zero k (suc a / 2) (omega arith))

-- Flipping bit `o` of a multiple of `2 ^ o`.
bit_xor-pow :
    (o c : ℕ)
    → bit_xor (c * 2 ^ o) (2 ^ o) ≡ (if c % 2 == 0 then (c + 1) * 2 ^ o else (c - 1) * 2 ^ o)
bit_xor-pow zero c =
    rw (xor_digit_step (c * 1) 1, bit_xor-zero (c * 1 / 2) (c * 1 / 2) (omega arith)) (ground arith)
bit_xor-pow (suc o) c =
    xor_digit_step (c * 2 ^ suc o) (2 ^ suc o)
    ∙ rw
        (
          halves (c * 2 ^ o) (c * 2 ^ suc o) (omega (arith, ap (λ (t : ℕ). c * t) (pow-suc 2 o))),
          halves (2 ^ o) (2 ^ suc o) (omega (arith, pow-suc 2 o)),
          bit_xor-pow o c,
        )
        (ground (
          arith,
          pow-suc 2 o,
          ap (λ (t : ℕ). c * t) (pow-suc 2 o),
          ap (λ (t : ℕ). (c - 1) * t) (pow-suc 2 o),
        ))
  where
    halves : (a b : ℕ) → b ≡ 2 * a → b / 2 ≡ a
    halves a b e = omega arith

-- The two cases of a block and its buddy: which is the lower half of the block of the next order.
pub buddy_cases :
    {p : ℕ} (o : ℕ)
    → Aligned p o
    → ((buddy_pfn p o ≡ p + 2 ^ o) × Aligned p (suc o))
      ⊎ ((p ≡ buddy_pfn p o + 2 ^ o) × Aligned (buddy_pfn p o) (suc o))
unfolding buddy_pfn
buddy_cases {p} o a = elim (Bool-cases (c % 2 == 0)) [
  | inl even ↦ inl (
    flipped ∙ rw even (omega (arith, a.multiple)),
    record {
      factor = c / 2;
      multiple = omega (arith, a.multiple, half_of (c / 2), scaled (2 * (c / 2)) (ground arith));
    },
  )
  | inr odd ↦ inr (
    rw (flipped, odd)
        (omega (
          arith,
          a.multiple,
          scaled (2 * (c / 2) + 1) (ground arith),
          scaled_pred (2 * (c / 2)) (ground arith),
        )),
    record {
      factor = c / 2;
      multiple =
          rw (flipped, odd)
            (omega (arith, half_of (c / 2), scaled_pred (2 * (c / 2)) (ground arith)));
    },
  )
]
  where
    c : ℕ
    c = a.factor

    flipped : bit_xor p (2 ^ o) ≡ (if c % 2 == 0 then (c + 1) * 2 ^ o else (c - 1) * 2 ^ o)
    flipped = ap (λ t. bit_xor t (2 ^ o)) a.multiple ∙ bit_xor-pow o c

    half_of : (d : ℕ) → d * 2 ^ suc o ≡ 2 * (d * 2 ^ o)
    half_of d = omega (arith, ap (λ (t : ℕ). d * t) (pow-suc 2 o))

    scaled : (d : ℕ) → c ≡ d → c * 2 ^ o ≡ d * 2 ^ o
    scaled d e = ap (λ (t : ℕ). t * 2 ^ o) e

    scaled_pred : (d : ℕ) → c - 1 ≡ d → (c - 1) * 2 ^ o ≡ d * 2 ^ o
    scaled_pred d e = ap (λ (t : ℕ). t * 2 ^ o) e

upper_half : {s : ℕ} (o : ℕ) → Aligned s (suc o) → Aligned (s + 2 ^ o) o
upper_half o a = record {
  factor = 2 * a.factor + 1;
  multiple = omega (arith, a.multiple, ap (λ (t : ℕ). a.factor * t) (pow-suc 2 o));
}

-- The block of the next order that a block and its buddy make up.
pub record Parent (p o m : ℕ) : Type 0 where
  pub whole : Aligned m (suc o)
  pub half : Aligned (buddy_pfn p o) o
  pub lower : (m ≤ p) × (m ≤ buddy_pfn p o)
  pub upper : (p < m + 2 ^ suc o) × (buddy_pfn p o < m + 2 ^ suc o)

pub parent : {p : ℕ} (o : ℕ) → Aligned p o → (m : ℕ) × Parent p o m
parent {p} o a = elim (buddy_cases o a) [
  | inl (e, w) ↦ (
    p,
    record {
      whole = w;
      half = subst (λ t. Aligned t o) (sym e) (upper_half o w);
      lower = (omega arith, omega (arith, e));
      upper = (
        omega (arith, e, pow-suc 2 o, one-le-pow o 2),
        omega (arith, e, pow-suc 2 o, one-le-pow o 2),
      );
    },
  )
  | inr (e, w) ↦ (
    buddy_pfn p o,
    record {
      whole = w;
      half = Aligned-le (suc o) o (omega arith) w;
      lower = (omega (arith, e), omega arith);
      upper = (
        omega (arith, e, pow-suc 2 o, one-le-pow o 2),
        omega (arith, pow-suc 2 o, one-le-pow o 2),
      );
    },
  )
]
