-- ===== src/Bits/Words.antt =====
-- Single bits of a word, masks of low ones, the lowest set bit and the number of set bits.
use native.Mathlib.Nat.{pow-suc, one-le-pow, pow-le-pow_right}
use alze_os.Base.{
  ℕ, zero, suc, ◌+◌, ◌-◌, ◌*◌, ◌/◌, ◌%◌, ◌^◌, ◌≤◌, ◌<◌, bit_and, bit_or, ◌≡◌, ◌≢◌, refl, ap, Bool,
  false, not, arith, ◌==◌, if◌then◌else◌, Bool-cases, inl, inr, ◌∙◌, ltb, ltb→lt, ==_iff,
}
use alze_os.Bits.Step.{bit_and_step, bit_or_step}
use alze_os.Bits.Digits.{
  bit, bit-le-one, bit-bit_and, bit-bit_or, bit-pow, bit-eq-zero, bit-complement, bit_and-lt-pow,
  bit_or-lt-pow, bit_ext, zero-bit,
}

mul-pow_suc : (q k : ℕ) → q * 2 ^ suc k ≡ 2 * (q * 2 ^ k)
mul-pow_suc q k = omega (arith, ap (λ (t : ℕ). q * t) (pow-suc 2 k))

bit_and-zero : (k a : ℕ) → a ≤ k → bit_and a 0 ≡ 0
bit_and-zero k zero h = refl
bit_and-zero zero (suc a) h = absurd (omega arith)
bit_and-zero (suc k) (suc a) h =
    omega (arith, bit_and_step (suc a) 0, bit_and-zero k (suc a / 2) (omega arith))

-- Of a number split at bit `k` the mask keeps the low part.
bit_and-low : (k q r : ℕ) → r < 2 ^ k → bit_and (q * 2 ^ k + r) (2 ^ k - 1) ≡ r
bit_and-low zero q r h = rw (bit_and-zero (q * 1 + r) (q * 1 + r) (omega arith)) (omega arith)
bit_and-low (suc k) q r h = ground (
  arith,
  bit_and_step (q * 2 ^ suc k + r) (2 ^ suc k - 1),
  mul-pow_suc q k,
  pow-suc 2 k,
  one-le-pow k 2,
  bit_and-low k q (r / 2) (omega (arith, pow-suc 2 k)),
)

-- `x & (2^k - 1)`
pub bit_and-mask : (k a : ℕ) → bit_and a (2 ^ k - 1) ≡ a % 2 ^ k
bit_and-mask k a = ground (arith, one-le-pow k 2, bit_and-low k (a / 2 ^ k) (a % 2 ^ k))

-- `x | (1 << i)`, `x & ~(1 << i)` and `x & (1 << i)` of an unsigned word of 64 bits.
abbrev pub set_bit : ℕ → ℕ → ℕ
set_bit x i = bit_or x (2 ^ i)

abbrev pub clear_bit : ℕ → ℕ → ℕ
clear_bit x i = bit_and x (2 ^ 64 - 1 - 2 ^ i)

abbrev pub test_bit : ℕ → ℕ → Bool
test_bit x i = not (bit_and x (2 ^ i) == 0)

pub bit-set_bit : (x i j : ℕ) → bit (set_bit x i) j ≡ (if j == i then 1 else bit x j)
bit-set_bit x i j = ground (arith, bit-bit_or x (2 ^ i) j, bit-pow i j, bit-le-one x j)

pub pow-lt-word : (i : ℕ) → i < 64 → 2 ^ i < 2 ^ 64
pow-lt-word i h = omega (
  arith,
  pow-suc 2 i,
  one-le-pow i 2,
  pow-le-pow_right {n = 2} (omega arith) {i = suc i} {j = 64} h,
)

pub bit-clear_bit :
    (x i j : ℕ) → x < 2 ^ 64 → i < 64 → bit (clear_bit x i) j ≡ (if j == i then 0 else bit x j)
bit-clear_bit x i j hx hi = elim (Bool-cases (ltb j 64)) [
  | inl below ↦ ground (
    arith,
    bit-bit_and x (2 ^ 64 - 1 - 2 ^ i) j,
    bit-complement 64 (2 ^ i) j (pow-lt-word i hi) (ltb→lt j 64 below),
    bit-pow i j,
    bit-le-one x j,
  )
  | inr above ↦ ground (
    arith,
    bit-bit_and x (2 ^ 64 - 1 - 2 ^ i) j,
    bit-eq-zero 64 x j hx (omega (arith, ltb_false above)),
  )
]
  where
    ltb_false : ltb j 64 ≡ false → 64 ≤ j
    ltb_false h = ground arith

pub set_bit-lt : (x i : ℕ) → x < 2 ^ 64 → i < 64 → set_bit x i < 2 ^ 64
set_bit-lt x i hx hi = bit_or-lt-pow 64 x (2 ^ i) hx (pow-lt-word i hi)

pub clear_bit-lt : (x i : ℕ) → x < 2 ^ 64 → clear_bit x i < 2 ^ 64
clear_bit-lt x i hx = bit_and-lt-pow 64 x (2 ^ 64 - 1 - 2 ^ i) hx

-- `x & (1 << i)` is the digit, at its place.
bit_and-pow : (i x : ℕ) → bit_and x (2 ^ i) ≡ bit x i * 2 ^ i
unfolding bit
bit_and-pow zero x = omega (arith, bit_and_step x 1, bit_and-zero (x / 2) (x / 2))
bit_and-pow (suc i) x =
    let e : 2 ^ suc i / 2 ≡ 2 ^ i = omega (arith, pow-suc 2 i) in
    let f : 2 ^ suc i % 2 ≡ 0 = omega (arith, pow-suc 2 i) in
    bit_and_step x (2 ^ suc i)
    ∙ rw (e, f, bit_and-pow i (x / 2)) (omega (arith, mul-pow_suc (bit (x / 2) i) i))

pub test_bit-eq : (x i : ℕ) → test_bit x i ≡ (bit x i == 1)
test_bit-eq x i =
    rw bit_and-pow (ground (arith, bit-le-one x i, one-le-pow i 2, zero-one (bit x i) (2 ^ i)))
  where
    zero-one : (b p : ℕ) → b ≤ 1 → b * p ≡ (if b == 0 then 0 else p)
    zero-one zero p h = omega arith
    zero-one (suc zero) p h = omega arith
    zero-one (suc (suc b)) p h = absurd (omega arith)

-- The x86 instruction BSF on a word of `k` bits: the position of the lowest one.
unfoldable pub bsf : ℕ → ℕ → ℕ
bsf zero x = 0
bsf (suc k) x = if x % 2 == 1 then 0 else suc (bsf k (x / 2))

pub record IsLowest (x k i : ℕ) : Type 0 where
  pub inside : i < k
  pub set : bit x i ≡ 1
  pub below : (j : ℕ) → j < i → bit x j ≡ 0

below_suc :
    (x i : ℕ)
    → x % 2 ≡ 0
    → ((j : ℕ) → j < i → bit (x / 2) j ≡ 0)
    → (j : ℕ) → j < suc i
    → bit x j ≡ 0
unfolding bit
below_suc x i e h zero l = e
below_suc x i e h (suc j) l = h j (omega arith)

IsLowest-suc :
    {x k i : ℕ} → (x % 2 == 1) ≡ false → IsLowest (x / 2) k i → IsLowest x (suc k) (suc i)
unfolding bit
IsLowest-suc {x} {k} {i} even l = record {
  inside = omega (arith, l.inside);
  set = l.set;
  below = below_suc x i (ground arith) l.below;
}

pub bsf-IsLowest : (k x : ℕ) → x ≢ 0 → x < 2 ^ k → IsLowest x k (bsf k x)
unfolding bsf bit
bsf-IsLowest zero x p h = absurd (p (omega arith))
bsf-IsLowest (suc k) x p h = elim (Bool-cases (x % 2 == 1)) [
  | inl odd ↦
      rw odd
        (record { inside = omega arith; set = (==_iff (x % 2) 1).0 odd; below = λ j l. elim l [ ] })
  | inr even ↦ rw even (
      IsLowest-suc even
        (bsf-IsLowest k (x / 2) (λ e. p (ground arith)) (omega (arith, pow-suc 2 k))))
]

-- The number of ones among the lowest `k` digits (`__builtin_popcountll` at 64).
unfoldable pub popcount : ℕ → ℕ → ℕ
popcount zero x = 0
popcount (suc k) x = x % 2 + popcount k (x / 2)

pub popcount-le : (k x : ℕ) → popcount k x ≤ k
unfolding popcount
popcount-le zero x = omega arith
popcount-le (suc k) x = omega (arith, popcount-le k (x / 2))

pub popcount-eq : (k x y : ℕ) → ((j : ℕ) → j < k → bit y j ≡ bit x j) → popcount k y ≡ popcount k x
unfolding popcount bit
popcount-eq zero x y h = refl
popcount-eq (suc k) x y h =
    omega (arith, h 0 (omega arith), popcount-eq k (x / 2) (y / 2) (λ j l. h (suc j) (omega arith)))

-- A change of digit `i` alone changes the count by that digit.
pub popcount-change :
    (k i x y : ℕ)
    → i < k
    → ((j : ℕ) → j ≢ i → bit y j ≡ bit x j)
    → popcount k y + bit x i ≡ popcount k x + bit y i
unfolding popcount bit
popcount-change zero i x y l h = elim l [ ]
popcount-change (suc k) zero x y l h =
    omega (arith, popcount-eq k (x / 2) (y / 2) (λ j p. h (suc j) (λ e. omega arith)))
popcount-change (suc k) (suc i) x y l h = omega (
  arith,
  h 0 (λ e. omega arith),
  popcount-change k i (x / 2) (y / 2) (omega arith) (λ j n. h (suc j) (λ e. n (omega arith))),
)

bit_or-zero : (a : ℕ) → a < 2 ^ 64 → bit_or a 0 ≡ a
bit_or-zero a h =
    bit_ext 64 (bit_or a 0) a (bit_or-lt-pow 64 a 0 h (omega arith)) h
      (λ j l. omega (arith, bit-bit_or a 0 j, zero-bit j))

-- Numbers with no digit in common are added.
pub bit_or-add : (k a o : ℕ) → a < 2 ^ 64 → o < 2 ^ k → bit_or (a * 2 ^ k) o ≡ a * 2 ^ k + o
bit_or-add zero a o h l =
    ap (λ x. bit_or (a * 2 ^ 0) x) {x = o} {y = 0} (omega arith)
    ∙ ap (λ x. bit_or x 0) {x = a * 2 ^ 0} {y = a} (omega arith)
    ∙ bit_or-zero a h
    ∙ omega arith
bit_or-add (suc k) a o h l = omega (
  arith,
  bit_or_step (a * 2 ^ suc k) o,
  ap (λ x. bit_or x (o / 2)) {x = a * 2 ^ suc k / 2} {y = a * 2 ^ k}
      (omega (arith, mul-pow_suc a k)),
  bit_or-add k a (o / 2) h (omega (arith, pow-suc 2 k)),
  mul-pow_suc a k,
)
