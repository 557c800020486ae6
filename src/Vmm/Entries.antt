-- ===== src/Vmm/Entries.antt =====
-- kernel/vmm.c: the fields of a page table entry.
use native.Mathlib.Nat.{one-le-pow}
use alze_os.Base.{
  holds_to, holds_to-at, ℕ, ◌-◌, ◌%◌, ◌^◌, ◌≤◌, ◌<◌, ◌≡◌, refl, ap, ◌∙◌, Bool, true, false, ◌&&◌,
  ◌||◌, not, ◌==◌, ==_iff, ltb, leb, if◌then◌else◌, Bool-cases, inl, inr, ◌⊎◌, bit_or, arith,
}
use alze_os.Bits.{
  bit, bit-le-one, zero-bit, bit-bit_and, bit-bit_or, bit-pow, bit-eq-zero, bit_ext, bit-complement,
  bit_or-lt-pow, bit_and-lt-pow, bit_and-mask, test_bit-eq, pow-lt-word,
}
use alze_os.Vmm.{pte_write, pte_nx, pte_addr_mask, has_flag, pte_to_phys, enforce_wx}

-- Bits 12 to 51 are the address.
abbrev pub is_addr : ℕ → Bool
is_addr j = leb 12 j && ltb j 52

mask_table : holds_to (λ j. bit pte_addr_mask j == (if is_addr j then 1 else 0)) 64 ≡ true
unfolding holds_to bit
mask_table = refl

bit-mask : (j : ℕ) → bit pte_addr_mask j ≡ (if is_addr j then 1 else 0)
bit-mask j = elim (Bool-cases (ltb j 64)) [
  | inl low ↦ (==_iff _ _).0 (holds_to-at _ 64 mask_table j (ground arith))
  | inr high ↦ bit-eq-zero 64 pte_addr_mask j (omega arith) (ground arith) ∙ ground arith
]

bit-pte_to_phys : (e j : ℕ) → bit (pte_to_phys e) j ≡ (if is_addr j then bit e j else 0)
unfolding pte_to_phys
bit-pte_to_phys e j = ground (arith, bit-bit_and e pte_addr_mask j, bit-mask j, bit-le-one e j)

-- A multiple of 2 ^ k has no bit below k.
bit-multiple : (k x j : ℕ) → x % 2 ^ k ≡ 0 → j < k → bit x j ≡ 0
bit-multiple k x j h l =
    let whole : bit (2 ^ k - 1) j ≡ 1 =
      ap (λ m. bit m j) {y = 2 ^ k - 1 - 0} (omega arith)
      ∙ bit-complement k 0 j (ground (arith, one-le-pow k 2)) l
      ∙ ap (λ b. 1 - b) (zero-bit j) in
    omega (
      arith,
      bit-bit_and x (2 ^ k - 1) j,
      ap (λ m. bit m j) (bit_and-mask k x ∙ h),
      zero-bit j,
      whole,
      bit-le-one x j,
    )

-- An address that an entry can hold.
pub record IsFrame (p : ℕ) : Type 0 where
  pub aligned : p % 2 ^ 12 ≡ 0
  pub small : p < 2 ^ 52

-- Flags beside the address of an entry.
pub record IsFlags (f : ℕ) : Type 0 where
  pub word : f < 2 ^ 64
  pub no_addr : (j : ℕ) → is_addr j ≡ true → bit f j ≡ 0

pub pte_to_phys-bit_or : (p f : ℕ) → IsFrame p → IsFlags f → pte_to_phys (bit_or p f) ≡ p
unfolding pte_to_phys
pte_to_phys-bit_or p f a b =
    bit_ext 64 (pte_to_phys (bit_or p f)) p
      (ground (
        arith,
        bit_and-lt-pow 64 (bit_or p f) pte_addr_mask
            (bit_or-lt-pow 64 p f (ground (arith, a.small)) b.word),
      ))
      (omega (arith, a.small))
      (λ j l. ground (
        arith,
        bit-pte_to_phys (bit_or p f) j,
        bit-bit_or p f j,
        b.no_addr j,
        bit-multiple 12 p j a.aligned,
        bit-eq-zero 52 p j a.small,
        bit-le-one p j,
      ))

pub has_flag-bit_or :
    (p f i : ℕ)
    → IsFrame p
    → (i < 12) ⊎ (52 ≤ i)
    → has_flag (bit_or p f) (2 ^ i) ≡ has_flag f (2 ^ i)
unfolding has_flag
has_flag-bit_or p f i a h = ground (
  arith,
  test_bit-eq (bit_or p f) i,
  test_bit-eq f i,
  bit-bit_or p f i,
  bit-multiple 12 p i a.aligned,
  bit-eq-zero 52 p i a.small,
  bit-le-one p i,
  bit-le-one f i,
)

has_flag-bit : (e i : ℕ) → has_flag e (2 ^ i) ≡ (bit e i == 1)
unfolding has_flag
has_flag-bit e i = test_bit-eq e i

has_flag-nx : (e i : ℕ) → has_flag (bit_or e pte_nx) (2 ^ i) ≡ (has_flag e (2 ^ i) || i == 63)
has_flag-nx e i = ground (
  arith,
  has_flag-bit (bit_or e pte_nx) i,
  has_flag-bit e i,
  bit-bit_or e pte_nx i,
  bit-pow 63 i,
  bit-le-one e i,
)

-- The rule changes no flag but the one against execution.
pub enforce_wx-has_flag :
    (enforced : Bool) (f i : ℕ)
    → i < 63
    → has_flag (enforce_wx enforced f) (2 ^ i) ≡ has_flag f (2 ^ i)
unfolding enforce_wx
enforce_wx-has_flag enforced f i l =
    elim (Bool-cases (enforced && has_flag f pte_write && not (has_flag f pte_nx))) [
      | inl forced ↦ rw forced (has_flag-nx f i ∙ ground arith)
      | inr kept ↦ rw kept refl
    ]

pub enforce_wx-nx :
    (f : ℕ)
    → has_flag (enforce_wx true f) pte_write ≡ true
    → has_flag (enforce_wx true f) pte_nx ≡ true
unfolding enforce_wx
enforce_wx-nx f = elim (Bool-cases (has_flag f pte_write && not (has_flag f pte_nx))) [
  | inl forced ↦ rw forced (λ h. has_flag-nx f 63 ∙ ground arith)
  | inr kept ↦ rw kept (λ h. ground arith)
]

pub enforce_wx-IsFlags : (enforced : Bool) (f : ℕ) → IsFlags f → IsFlags (enforce_wx enforced f)
unfolding enforce_wx
enforce_wx-IsFlags enforced f a =
    elim (Bool-cases (enforced && has_flag f pte_write && not (has_flag f pte_nx))) [
      | inl forced ↦ rw forced (record {
        word = bit_or-lt-pow 64 f pte_nx a.word (omega arith);
        no_addr = λ j h.
            ground (arith, bit-bit_or f pte_nx j, a.no_addr j h, bit-pow 63 j, bit-le-one f j);
      })
      | inr kept ↦ rw kept a
    ]

pub bit_or_assoc :
    (a b c : ℕ)
    → a < 2 ^ 64
    → b < 2 ^ 64
    → c < 2 ^ 64
    → bit_or (bit_or a b) c ≡ bit_or a (bit_or b c)
bit_or_assoc a b c p q r =
    bit_ext 64 (bit_or (bit_or a b) c) (bit_or a (bit_or b c))
      (bit_or-lt-pow 64 (bit_or a b) c (bit_or-lt-pow 64 a b p q) r)
      (bit_or-lt-pow 64 a (bit_or b c) p (bit_or-lt-pow 64 b c q r))
      (λ j l. omega (
        arith,
        bit-bit_or (bit_or a b) c j,
        bit-bit_or a b j,
        bit-bit_or a (bit_or b c) j,
        bit-bit_or b c j,
      ))

pub bit_or-IsFlags : (f g : ℕ) → IsFlags f → IsFlags g → IsFlags (bit_or f g)
bit_or-IsFlags f g a b = record {
  word = bit_or-lt-pow 64 f g a.word b.word;
  no_addr = λ j h. omega (arith, bit-bit_or f g j, a.no_addr j h, b.no_addr j h);
}

pub has_flag-or :
    (f g i : ℕ) → has_flag (bit_or f g) (2 ^ i) ≡ (has_flag f (2 ^ i) || has_flag g (2 ^ i))
has_flag-or f g i = ground (
  arith,
  has_flag-bit (bit_or f g) i,
  has_flag-bit f i,
  has_flag-bit g i,
  bit-bit_or f g i,
  bit-le-one f i,
  bit-le-one g i,
)

pub pow-IsFlags : (i : ℕ) → i < 64 → is_addr i ≡ false → IsFlags (2 ^ i)
pow-IsFlags i l h = record {
  word = pow-lt-word i l;
  no_addr = λ j a. ground (arith, bit-pow i j, ap is_addr {x = j} {y = i});
}

IsFrame-word : (p : ℕ) → IsFrame p → p < 2 ^ 64
IsFrame-word p a = omega (arith, a.small)

-- An entry with two sets of flags.
module _ (p f g : ℕ) (frame : IsFrame p) (flags : IsFlags f) (more : IsFlags g) where
  merge : bit_or (bit_or p f) g ≡ bit_or p (bit_or f g)
  merge = bit_or_assoc p f g (IsFrame-word p frame) flags.word more.word

  pub pte_to_phys-flags : pte_to_phys (bit_or (bit_or p f) g) ≡ p
  pte_to_phys-flags =
      ap pte_to_phys merge ∙ pte_to_phys-bit_or p (bit_or f g) frame (bit_or-IsFlags f g flags more)

  pub has_flag-flags :
      (i : ℕ)
      → (i < 12) ⊎ (52 ≤ i)
      → has_flag (bit_or (bit_or p f) g) (2 ^ i) ≡ (has_flag f (2 ^ i) || has_flag g (2 ^ i))
  has_flag-flags i h =
      ap (λ e. has_flag e (2 ^ i)) merge
      ∙ has_flag-bit_or p (bit_or f g) i frame h
      ∙ has_flag-or f g i
