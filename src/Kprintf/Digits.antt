-- ===== src/Kprintf/Digits.antt =====
-- kernel/kprintf.c: the digits of a number, read back by the usual rule.
use mathlib.Core.Path.{subst}
use native.Mathlib.Decide.{dec_lt}
use native.Mathlib.Nat.{pow-zero, div-lt_iff_lt-mul, pow-suc, mul-le-mul_left, mod-lt, mod-add-div'}
use alze_os.Base.{
  update_self, ltb→lt, ℕ, zero, suc, ◌+◌, ◌-◌, ◌*◌, ◌/◌, ◌%◌, ◌^◌, ◌≤◌, ◌<◌, ◌≡◌, ◌≢◌, refl, sym,
  ap, ap₂, ◌∙◌, Bool, true, false, List, [], ◌∷◌, ltb, leb, if◌then◌else◌, length, update, arith,
  Bool-cases, inl, inr,
}
use alze_os.Kprintf.{digit, fill_digits}

-- What a digit stands for.
unfoldable pub digit_value : ℕ → ℕ
digit_value c = if leb c b'9' then c - b'0' else if leb c b'F' then c - b'A' + 10 else c - b'a' + 10

abbrev pub IsDecimal : ℕ → Type 0
IsDecimal c = (b'0' ≤ c) × (c ≤ b'9')

-- The number that the digits of a text spell, behind `n`.
unfoldable pub value : ℕ → ℕ → List ℕ → ℕ
value base n [] = n
value base n (c ∷ t) = value base (n * base + digit_value c) t

-- The characters in `buf` below `i`, the last one first.
unfoldable pub backwards : (ℕ → ℕ) → ℕ → List ℕ
backwards buf zero = []
backwards buf (suc i) = buf i ∷ backwards buf i

digit_value-digit : (uppercase : Bool) (d : ℕ) → d < 16 → digit_value (digit uppercase d) ≡ d
unfolding digit_value digit
digit_value-digit true d h = ground arith
digit_value-digit false d h = ground arith

pub length-backwards : (buf : ℕ → ℕ) (i : ℕ) → length (backwards buf i) ≡ i
unfolding backwards
length-backwards buf zero = refl
length-backwards buf (suc i) = ap suc (length-backwards buf i)

backwards-update :
    (buf : ℕ → ℕ) (i j v : ℕ) → i ≤ j → backwards (update buf j v) i ≡ backwards buf i
unfolding backwards
backwards-update buf zero j v h = refl
backwards-update buf (suc i) j v h =
    ap₂ ◌∷◌ (ground arith) (backwards-update buf i j v (omega arith))

module _ (uppercase : Bool) (base : ℕ) (least : 2 ≤ base) (most : base ≤ 16) where
  -- What the loop makes of `val`, with `i` characters in `buf` before it.
  pub record Filled (val : ℕ) (buf : ℕ → ℕ) (i : ℕ) (buf' : ℕ → ℕ) (i' : ℕ) : Type 0 where
    pub exact : value base 0 (backwards buf' i') ≡ value base val (backwards buf i)
    pub grows : i ≤ i'
    pub more : 0 < val → i < i'
    pub short : (k : ℕ) → val < base ^ k → i' ≤ i + k
    pub below : (j : ℕ) → j < i → buf' j ≡ buf j
    pub decimal : base ≤ 10 → (j : ℕ) → i ≤ j → j < i' → IsDecimal (buf' j)
    pub leading : 0 < val → digit_value (buf' (i' - 1)) ≢ 0

  Filled-zero : (buf : ℕ → ℕ) (i : ℕ) → Filled 0 buf i buf i
  Filled-zero buf i = record {
    exact = refl;
    grows = omega arith;
    more = λ h. absurd (omega arith);
    short = λ k h. omega arith;
    below = λ j h. refl;
    decimal = λ ten j h l. absurd (omega arith);
    leading = λ h. absurd (omega arith);
  }

  fewer : (val k : ℕ) → val < base ^ suc k → val / base < base ^ k
  fewer val k h = (div-lt_iff_lt-mul (omega arith)).1 (rw (pow-suc base k) at h)

  halved : (val fuel : ℕ) → val < 2 ^ suc fuel → val / base < 2 ^ fuel
  halved val fuel h =
      (div-lt_iff_lt-mul (omega arith)).1
        (omega (arith, mul-le-mul_left (2 ^ fuel) least, rw (pow-suc 2 fuel) at h))

  digit-IsDecimal : (val : ℕ) → base ≤ 10 → IsDecimal (digit uppercase (val % base))
  unfolding digit
  digit-IsDecimal val ten = ground (arith, mod-lt val {m = base} (omega arith))

  last_digit :
      (val : ℕ) (buf : ℕ → ℕ) (i : ℕ)
      → digit_value (update buf i (digit uppercase (val % base)) i) ≡ val % base
  last_digit val buf i =
      ap digit_value (update_self buf i _)
      ∙ digit_value-digit uppercase (val % base)
          (omega (arith, mod-lt val {m = base} (omega arith)))

  leading_digit :
      (val : ℕ) (buf : ℕ → ℕ) (i : ℕ) (buf' : ℕ → ℕ) (i' : ℕ)
      → 0 < val
      → Filled (val / base) (update buf i (digit uppercase (val % base))) (suc i) buf' i'
      → digit_value (buf' (i' - 1)) ≢ 0
  leading_digit val buf i buf' i' h f = elim (Bool-cases (ltb 0 (val / base))) [
    | inl more ↦ f.leading (ltb→lt _ _ more)
    | inr last ↦ λ e.
        let done : val / base ≡ 0 = ground arith in
        let here : i' ≡ suc i = omega (arith, f.grows, f.short 0 (omega (arith, pow-zero base))) in
        let same : buf' (i' - 1) ≡ buf' i = ap buf' (omega arith) in
        omega (
          arith,
          ap digit_value (same ∙ f.below i (omega arith)),
          last_digit val buf i,
          ap (λ q. val % base + q * base) done,
          mod-add-div' val base,
        )
  ]

  Filled-step :
      (val : ℕ) (buf : ℕ → ℕ) (i : ℕ) (buf' : ℕ → ℕ) (i' : ℕ)
      → 0 < val
      → Filled (val / base) (update buf i (digit uppercase (val % base))) (suc i) buf' i'
      → Filled val buf i buf' i'
  unfolding value backwards
  Filled-step val buf i buf' i' h f = record {
    exact =
        f.exact
        ∙ ap₂ (λ n t. value base n t) (omega (arith, last_digit val buf i, mod-add-div' val base))
            (backwards-update buf i i _ (omega arith));
    grows = omega (arith, f.grows);
    more = λ _. f.grows;
    short = λ k l.
        elim k as (λ k. val < base ^ k → i' ≤ i + k) [
          | zero ↦ λ l. absurd (omega (arith, pow-zero base))
          | suc k ↦ λ l. omega (arith, f.short k (fewer val k l))
        ]
          l;
    below = λ j l. f.below j (omega arith) ∙ ground arith;
    decimal = λ ten j p q. elim (dec_lt i j) [
      | yes later ↦ f.decimal ten j later q
      | no here ↦
          subst IsDecimal
            (sym (
              f.below j (omega arith)
              ∙ ap (update buf i _) {y = i} (omega arith)
              ∙ update_self buf i _))
            (digit-IsDecimal val ten)
    ];
    leading = λ _. leading_digit val buf i buf' i' h f;
  }

  pub fill_digits-Filled :
      (fuel val : ℕ) (buf : ℕ → ℕ) (i : ℕ)
      → val < 2 ^ fuel
      → let (buf', i') = fill_digits fuel uppercase base val buf i in Filled val buf i buf' i'
  unfolding fill_digits
  fill_digits-Filled zero val buf i h =
      subst (λ n. Filled n buf i buf i) (omega arith) (Filled-zero buf i)
  fill_digits-Filled (suc fuel) val buf i h = elim (Bool-cases (ltb 0 val)) [
    | inl more ↦ rw more (
        Filled-step val buf i _ _ (ltb→lt _ _ more)
          (fill_digits-Filled fuel (val / base) _ (suc i) (halved val fuel h)))
    | inr done ↦ rw done (subst (λ n. Filled n buf i buf i) (ground arith) (Filled-zero buf i))
  ]
