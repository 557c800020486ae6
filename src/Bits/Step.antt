-- ===== src/Bits/Step.antt =====
-- One equation for the lowest binary digit of each bitwise operation.
use Prim.Native.Nat.{digits, bitwise, bit_and-bitwise, bit_or-bitwise, bit_xor-bitwise, differ}
use mathlib.Core.Path.{◌∙◌}
use alze_os.Base.{
  ℕ, zero, suc, ◌+◌, ◌-◌, ◌*◌, ◌/◌, ◌%◌, ◌≤◌, min, max, bit_and, bit_or, bit_xor, ◌≡◌, refl, ap,
  arith,
}

-- An operation that `bitwise` gives, with `rest` for what is left of the second number when the
-- first has no digits, and `combine` for one pair of digits.
module _ (rest : ℕ → ℕ) (combine : ℕ → ℕ → ℕ) where
  -- One more step of fuel changes nothing when there is a step for each unit already.
  one_more :
      (fuel x : ℕ)
      → x ≤ fuel
      → (y : ℕ) → digits rest combine (suc fuel) x y ≡ digits rest combine fuel x y
  one_more zero zero h y = refl
  one_more (suc fuel) zero h y = refl
  one_more zero (suc x) h y = absurd (omega arith)
  one_more (suc fuel) (suc x) h y =
      ap (λ (t : ℕ). t * 2 + combine (suc x % 2) (y % 2))
        (one_more fuel (suc x / 2) (omega arith) (y / 2))

  some_more : (extra x y : ℕ) → digits rest combine (x + extra) x y ≡ bitwise rest combine x y
  some_more zero x y = ap (λ (t : ℕ). digits rest combine t x y) {y = x} (omega arith)
  some_more (suc extra) x y =
      ap (λ (t : ℕ). digits rest combine t x y) {y = suc (x + extra)} (omega arith)
      ∙ one_more (x + extra) x (omega arith) y
      ∙ some_more extra x y

  low_digit :
      (op : ℕ → ℕ → ℕ)
      → ((x y : ℕ) → op x y ≡ bitwise rest combine x y)
      → ((y : ℕ) → rest y ≡ rest (y / 2) * 2 + combine 0 (y % 2))
      → (x y : ℕ) → op x y ≡ op (x / 2) (y / 2) * 2 + combine (x % 2) (y % 2)
  low_digit op means none_left zero y = omega (arith, means 0 y, means 0 (y / 2), none_left y)
  low_digit op means none_left (suc x) y =
      let half = suc x / 2 in
      let shorter =
        ap (λ (t : ℕ). digits rest combine t half (y / 2)) {x = x} {y = half + (x - half)}
          (omega arith) in
      omega (arith, means (suc x) y, means half (y / 2), shorter, some_more (x - half) half (y / 2))

pub bit_and_step : (x y : ℕ) → bit_and x y ≡ bit_and (x / 2) (y / 2) * 2 + min (x % 2) (y % 2)
bit_and_step = low_digit (λ y. 0) min bit_and bit_and-bitwise (λ y. omega arith)

pub bit_or_step : (x y : ℕ) → bit_or x y ≡ bit_or (x / 2) (y / 2) * 2 + max (x % 2) (y % 2)
bit_or_step = low_digit (λ y. y) max bit_or bit_or-bitwise (λ y. omega arith)

differ-zero : (d : ℕ) → d ≤ 1 → differ 0 d ≡ d
differ-zero zero h = refl
differ-zero (suc d) h = omega arith

pub bit_xor_step : (x y : ℕ) → bit_xor x y ≡ bit_xor (x / 2) (y / 2) * 2 + differ (x % 2) (y % 2)
bit_xor_step =
    low_digit (λ y. y) differ bit_xor bit_xor-bitwise
      (λ y. omega (arith, differ-zero (y % 2) (omega arith)))
