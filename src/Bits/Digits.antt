-- ===== src/Bits/Digits.antt =====
-- The binary digit `i` of a number, and what each operation does to it.
use Prim.Native.Nat.{differ, bit_and-bitwise}
use native.Mathlib.Nat.{pow-suc, one-le-pow}
use alze_os.Base.{
  ℕ, zero, suc, ◌+◌, ◌-◌, ◌*◌, ◌/◌, ◌%◌, ◌^◌, ◌≤◌, ◌<◌, min, max, bit_and, bit_or, bit_xor, ◌≡◌,
  refl, arith, ◌==◌, if◌then◌else◌,
}
use alze_os.Bits.Step.{bit_and_step, bit_or_step, bit_xor_step}

unfoldable pub bit : ℕ → ℕ → ℕ
bit x zero = x % 2
bit x (suc i) = bit (x / 2) i

pub bit-le-one : (x i : ℕ) → bit x i ≤ 1
unfolding bit
bit-le-one x zero = omega arith
bit-le-one x (suc i) = bit-le-one (x / 2) i

pub zero-bit : (i : ℕ) → bit 0 i ≡ 0
unfolding bit
zero-bit zero = refl
zero-bit (suc i) = zero-bit i

pub bit-bit_and : (a b i : ℕ) → bit (bit_and a b) i ≡ min (bit a i) (bit b i)
unfolding bit
bit-bit_and a b zero = omega (arith, bit_and_step a b)
bit-bit_and a b (suc i) =
    let e : bit_and a b / 2 ≡ bit_and (a / 2) (b / 2) = omega (arith, bit_and_step a b) in
    rw e (bit-bit_and (a / 2) (b / 2) i)

pub bit-bit_or : (a b i : ℕ) → bit (bit_or a b) i ≡ max (bit a i) (bit b i)
unfolding bit
bit-bit_or a b zero = omega (arith, bit_or_step a b)
bit-bit_or a b (suc i) =
    let e : bit_or a b / 2 ≡ bit_or (a / 2) (b / 2) = omega (arith, bit_or_step a b) in
    rw e (bit-bit_or (a / 2) (b / 2) i)

differ-digits : (x y : ℕ) → x ≤ 1 → y ≤ 1 → differ x y ≡ (x + y) % 2
differ-digits zero zero p q = refl
differ-digits zero (suc y) p q = omega arith
differ-digits (suc x) zero p q = omega arith
differ-digits (suc zero) (suc zero) p q = refl
differ-digits (suc zero) (suc (suc y)) p q = absurd (omega arith)
differ-digits (suc (suc x)) (suc y) p q = absurd (omega arith)

pub xor_digit_step : (a b : ℕ) → bit_xor a b ≡ bit_xor (a / 2) (b / 2) * 2 + (a % 2 + b % 2) % 2
xor_digit_step a b =
    omega (arith, bit_xor_step a b, differ-digits (a % 2) (b % 2) (omega arith) (omega arith))

pub bit-bit_xor : (a b i : ℕ) → bit (bit_xor a b) i ≡ (bit a i + bit b i) % 2
unfolding bit
bit-bit_xor a b zero = omega (arith, xor_digit_step a b)
bit-bit_xor a b (suc i) =
    let e : bit_xor a b / 2 ≡ bit_xor (a / 2) (b / 2) = omega (arith, xor_digit_step a b) in
    rw e (bit-bit_xor (a / 2) (b / 2) i)

pub bit-pow : (i j : ℕ) → bit (2 ^ i) j ≡ (if j == i then 1 else 0)
unfolding bit
bit-pow zero zero = refl
bit-pow zero (suc j) = ground (arith, zero-bit j)
bit-pow (suc i) zero = ground (arith, pow-suc 2 i)
bit-pow (suc i) (suc j) =
    let e : 2 ^ suc i / 2 ≡ 2 ^ i = omega (arith, pow-suc 2 i) in rw e (ground (arith, bit-pow i j))

-- Beyond its width a number has no digits.
pub bit-eq-zero : (k x j : ℕ) → x < 2 ^ k → k ≤ j → bit x j ≡ 0
unfolding bit
bit-eq-zero zero x j h p = let e : x ≡ 0 = omega arith in rw e (zero-bit j)
bit-eq-zero (suc k) x zero h p = absurd (omega arith)
bit-eq-zero (suc k) x (suc j) h p =
    bit-eq-zero k (x / 2) j (omega (arith, pow-suc 2 k)) (omega arith)

-- Two numbers of one width with the same digits are equal.
pub bit_ext : (k x y : ℕ) → x < 2 ^ k → y < 2 ^ k → ((j : ℕ) → j < k → bit x j ≡ bit y j) → x ≡ y
unfolding bit
bit_ext zero x y p q h = omega arith
bit_ext (suc k) x y p q h = omega (
  arith,
  h 0 (omega arith),
  bit_ext k (x / 2) (y / 2) (omega (arith, pow-suc 2 k)) (omega (arith, pow-suc 2 k))
      (λ j l. h (suc j) (omega arith)),
)

-- `~x` at width `k`.
pub bit-complement : (k x j : ℕ) → x < 2 ^ k → j < k → bit (2 ^ k - 1 - x) j ≡ 1 - bit x j
unfolding bit
bit-complement zero x j h p = elim p [ ]
bit-complement (suc k) x zero h p = omega (arith, pow-suc 2 k, one-le-pow k 2)
bit-complement (suc k) x (suc j) h p =
    let e : (2 ^ suc k - 1 - x) / 2 ≡ 2 ^ k - 1 - x / 2 =
      omega (arith, pow-suc 2 k, one-le-pow k 2) in
    rw e (bit-complement k (x / 2) j (omega (arith, pow-suc 2 k)) (omega arith))

pub bit_or-lt-pow : (k a b : ℕ) → a < 2 ^ k → b < 2 ^ k → bit_or a b < 2 ^ k
bit_or-lt-pow zero a b p q =
    let e : a ≡ 0 = omega arith in let f : b ≡ 0 = omega arith in rw (e, f) (omega arith)
bit_or-lt-pow (suc k) a b p q = omega (
  arith,
  pow-suc 2 k,
  bit_or_step a b,
  bit_or-lt-pow k (a / 2) (b / 2) (omega (arith, pow-suc 2 k)) (omega (arith, pow-suc 2 k)),
)

pub bit_xor-lt-pow : (k a b : ℕ) → a < 2 ^ k → b < 2 ^ k → bit_xor a b < 2 ^ k
bit_xor-lt-pow zero a b p q =
    let e : a ≡ 0 = omega arith in let f : b ≡ 0 = omega arith in rw (e, f) (omega arith)
bit_xor-lt-pow (suc k) a b p q = omega (
  arith,
  pow-suc 2 k,
  xor_digit_step a b,
  bit_xor-lt-pow k (a / 2) (b / 2) (omega (arith, pow-suc 2 k)) (omega (arith, pow-suc 2 k)),
)

zero-bit_and : (b : ℕ) → bit_and 0 b ≡ 0
zero-bit_and b = bit_and-bitwise 0 b

pub bit_and-lt-pow : (k a b : ℕ) → a < 2 ^ k → bit_and a b < 2 ^ k
bit_and-lt-pow zero a b p = let e : a ≡ 0 = omega arith in rw (e, zero-bit_and) (omega arith)
bit_and-lt-pow (suc k) a b p = omega (
  arith,
  pow-suc 2 k,
  bit_and_step a b,
  bit_and-lt-pow k (a / 2) (b / 2) (omega (arith, pow-suc 2 k)),
)
