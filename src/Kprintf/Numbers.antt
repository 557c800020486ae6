-- ===== src/Kprintf/Numbers.antt =====
-- kernel/kprintf.c: the texts that `%u`, `%x` and `%d` print.
use mathlib.Core.Path.{subst}
use native.Mathlib.Nat.{pow-le-pow_left}
use alze_os.Base.{
  ℕ, zero, suc, ◌-◌, ◌^◌, ◌≤◌, ◌<◌, ◌≡◌, ◌≢◌, refl, sym, ap, ◌∙◌, Bool, false, List, [], ◌∷◌, ◌++◌,
  ltb, ◌==◌, length, replicate, append_assoc, append-nil, arith, All, Bool-cases, inl, inr,
}
use alze_os.Kprintf.{
  fill_digits, number_digits, put_padding, put_digits, print_unsigned, print_signed, negate,
}
use alze_os.Kprintf.Sent.{snoc}
use alze_os.Kprintf.Digits.{
  value, digit_value, backwards, length-backwards, IsDecimal, Filled, fill_digits-Filled,
}

unfoldable pub number_text : Bool → ℕ → ℕ → List ℕ
unfolding number_digits backwards
number_text uppercase base val = let (buf, i) = number_digits uppercase base val in backwards buf i

-- Digits that spell `val`, no more than the twenty that `buf` has room for, and with no 0 before them.
pub record Spells (base val : ℕ) (t : List ℕ) : Type 0 where
  pub exact : value base 0 t ≡ val
  pub some_digit : 0 < length t
  pub fits : length t ≤ 20
  pub decimal : base ≤ 10 → All IsDecimal t
  pub leading : (c : ℕ) (u : List ℕ) → t ≡ c ∷ u → 0 < val → digit_value c ≢ 0

put_digits-backwards :
    (t : List ℕ) (buf : ℕ → ℕ) (i : ℕ) → put_digits snoc t buf i ≡ t ++ backwards buf i
unfolding put_digits backwards snoc
put_digits-backwards t buf zero = sym (append-nil t)
put_digits-backwards t buf (suc i) =
    put_digits-backwards (snoc t (buf i)) buf i ∙ append_assoc t (buf i ∷ []) (backwards buf i)

put_padding-replicate :
    (t : List ℕ) (pad i width : ℕ) → put_padding snoc t pad i width ≡ t ++ replicate (width - i) pad
unfolding put_padding snoc
put_padding-replicate t pad i zero =
    sym (append-nil t) ∙ ap (λ n. t ++ replicate n pad) {x = 0} (omega arith)
put_padding-replicate t pad i (suc width) = elim (Bool-cases (ltb i (suc width))) [
  | inl more ↦ rw more (
      put_padding-replicate (snoc t pad) pad i width
      ∙ append_assoc t (pad ∷ []) (replicate (width - i) pad)
      ∙ ap (λ n. t ++ replicate n pad) {x = suc (width - i)} (ground arith))
  | inr done ↦ rw done (sym (append-nil t) ∙ ap (λ n. t ++ replicate n pad) {x = 0} (ground arith))
]

backwards-All :
    (P : ℕ → Type 0) (buf : ℕ → ℕ) (i : ℕ) → ((j : ℕ) → j < i → P (buf j)) → All P (backwards buf i)
unfolding backwards
backwards-All P buf zero h = tt
backwards-All P buf (suc i) h =
    (h i (omega arith), backwards-All P buf i (λ j l. h j (omega arith)))

backwards_head : (buf : ℕ → ℕ) (i c : ℕ) (u : List ℕ) → backwards buf i ≡ c ∷ u → c ≡ buf (i - 1)
unfolding backwards
backwards_head buf zero c u e = cc
backwards_head buf (suc i) c u e = ground arith

pub number_text-Spells :
    (uppercase : Bool) (base val : ℕ)
    → 10 ≤ base
    → base ≤ 16
    → val < 2 ^ 64
    → Spells base val (number_text uppercase base val)
unfolding number_text number_digits
number_text-Spells uppercase base val least most h = elim (Bool-cases (val == 0)) [
  | inl none_left ↦ rw none_left (record {
    exact = unfold value backwards digit_value in ground arith;
    some_digit = unfold backwards in omega arith;
    fits = unfold backwards in omega arith;
    decimal = λ ten. unfold backwards in omega arith;
    leading = λ c u e pos. absurd (ground arith);
  })
  | inr some_left ↦ rw some_left (
      let (buf, i) = fill_digits 64 uppercase base val (λ _. 0) 0 in
      let f : Filled uppercase base (omega arith) most val (λ _. 0) 0 buf i =
        fill_digits-Filled uppercase base (omega arith) most 64 val (λ _. 0) 0 h in
      record {
        exact = f.exact ∙ (unfold value backwards in refl);
        some_digit = omega (arith, length-backwards buf i, f.more (ground arith));
        fits =
            omega
              (arith, length-backwards buf i, f.short 20 (omega (arith, pow-le-pow_left least 20)));
        decimal = λ ten. backwards-All IsDecimal buf i (λ j l. f.decimal ten j (omega arith) l);
        leading =
            λ c u e pos z. f.leading pos (ap digit_value (sym (backwards_head buf i c u e)) ∙ z);
      })
]

number_text-padded :
    (t : List ℕ) (val base width pad : ℕ) (uppercase : Bool)
    → print_unsigned snoc t val base width pad uppercase
      ≡ t
        ++ (replicate (width - length (number_text uppercase base val)) pad
            ++ number_text uppercase base val)
unfolding print_unsigned number_text
number_text-padded t val base width pad uppercase =
    let (buf, i) = number_digits uppercase base val in
    put_digits-backwards (put_padding snoc t pad i width) buf i
    ∙ ap (λ u. u ++ backwards buf i) (put_padding-replicate t pad i width)
    ∙ append_assoc t (replicate (width - i) pad) (backwards buf i)
    ∙ ap (λ n. t ++ (replicate (width - n) pad ++ backwards buf i)) (sym (length-backwards buf i))

-- `%u`, `%x` and `%X` print the padding up to the width, and then digits that read back as the
-- number: one at least, twenty at most, and with no 0 in front.
pub print_unsigned-Spells :
    (t : List ℕ) (val base width pad : ℕ) (uppercase : Bool)
    → 10 ≤ base
    → base ≤ 16
    → val < 2 ^ 64
    → (ds : List ℕ) × (print_unsigned snoc t val base width pad uppercase
        ≡ t ++ (replicate (width - length ds) pad ++ ds))
      × Spells base val ds
print_unsigned-Spells t val base width pad uppercase least most h = (
  number_text uppercase base val,
  number_text-padded t val base width pad uppercase,
  number_text-Spells uppercase base val least most h,
)

-- `%d` prints a number from 0 up as `%u` does. Of one below 0 it prints the sign, then the padding
-- to the rest of the width, and then the digits of its absolute value, -2 ^ 63 included.
pub print_signed-Spells :
    (t : List ℕ) (val width pad : ℕ)
    → val < 2 ^ 64
    → (ds : List ℕ) × (val < 2 ^ 63
        → (print_signed snoc t val width pad ≡ t ++ (replicate (width - length ds) pad ++ ds))
          × Spells 10 val ds)
      × (2 ^ 63 ≤ val
          → (print_signed snoc t val width pad
              ≡ t ++ (b'-' ∷ (replicate (width - 1 - length ds) pad ++ ds)))
            × Spells 10 (2 ^ 64 - val) ds)
unfolding print_signed
print_signed-Spells t val width pad h = elim (Bool-cases (ltb val (2 ^ 63))) [
  | inl positive ↦ rw positive (
    number_text false 10 val,
    λ _. (
      number_text-padded t val 10 width pad false,
      number_text-Spells false 10 val (omega arith) (omega arith) h,
    ),
    λ big. absurd (ground arith),
  )
  | inr negative ↦ rw negative (
    number_text false 10 (negate val),
    λ small. absurd (ground arith),
    λ _. (
      number_text-padded (snoc t b'-') (negate val) 10 (width - 1) pad false
          ∙ (unfold snoc in append_assoc t (b'-' ∷ []) _),
      subst (λ n. Spells 10 n (number_text false 10 (negate val))) (unfold negate in ground arith)
          (number_text-Spells false 10 (negate val) (omega arith) (omega arith)
            (unfold negate in omega arith)),
    ),
  )
]
