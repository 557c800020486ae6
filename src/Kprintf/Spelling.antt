-- ===== src/Kprintf/Spelling.antt =====
-- kernel/kprintf.c: a directive that is written out is parsed back.
use alze_os.Base.{
  ℕ, ◌+◌, ◌-◌, ◌*◌, ◌^◌, ◌<◌, ◌≡◌, ◌≢◌, refl, ap, ◌∙◌, true, false, some, List, [], ◌∷◌, ◌++◌, leb,
  ◌==◌, ◌&&◌, if◌then◌else◌, append_assoc, arith, All, Bool-cases, inl, inr,
}
use alze_os.Kprintf.Format.{
  Directive, parse_flags, parse_width, parse_length, with_spec, parse_directive,
}
use alze_os.Kprintf.Digits.{value, digit_value, IsDecimal}
use alze_os.Kprintf.Numbers.{number_text, number_text-Spells, Spells}

-- The flag, the width unless it is 0, the `l`, and the conversion.
unfoldable pub spell_flag : Directive → List ℕ
spell_flag d = if d.left_align then b'-' ∷ [] else if d.pad == b'0' then b'0' ∷ [] else []

unfoldable pub spell_width : ℕ → List ℕ
spell_width width = if width == 0 then [] else number_text false 10 width

unfoldable pub spell_end : Directive → List ℕ
spell_end d = if d.is_long then b'l' ∷ d.spec ∷ [] else d.spec ∷ []

unfoldable pub spell : Directive → List ℕ
unfolding spell_flag spell_width spell_end
spell d = spell_flag d ++ (spell_width d.width ++ spell_end d)

-- One flag at most, and a conversion that is no flag, digit or `l`.
pub record IsPlain (d : Directive) : Type 0 where
  pub one_flag : d.left_align ≡ true → d.pad ≡ b' '
  pub pads : d.pad ≢ b'0' → d.pad ≡ b' '
  pub small : d.width < 2 ^ 31
  pub no_minus : d.spec ≢ b'-'
  pub no_l : d.spec ≢ b'l'
  pub no_digit : (leb b'0' d.spec && leb d.spec b'9') ≡ false

parse_width-decimal :
    (ds : List ℕ) (w c : ℕ) (rest : List ℕ)
    → All IsDecimal ds
    → (leb b'0' c && leb c b'9') ≡ false
    → parse_width w (ds ++ (c ∷ rest)) ≡ (value 10 w ds, c ∷ rest)
unfolding parse_width value digit_value
parse_width-decimal [] w c rest h e = rw e
parse_width-decimal (d ∷ ds) w c rest (dec, later) e =
    ground (arith, parse_width-decimal ds (w * 10 + (d - b'0')) c rest later e)

parse_width-spell :
    (width c : ℕ) (rest : List ℕ)
    → width < 2 ^ 31
    → (leb b'0' c && leb c b'9') ≡ false
    → parse_width 0 (spell_width width ++ (c ∷ rest)) ≡ (width, c ∷ rest)
unfolding spell_width
parse_width-spell width c rest h e = elim (Bool-cases (width == 0)) [
  | inl no_width ↦ rw no_width (
      parse_width-decimal [] 0 c rest tt e
      ∙ ap (λ n. (n, c ∷ rest)) {x = value 10 0 []} {y = width} (unfold value in ground arith))
  | inr some_width ↦ rw some_width (
      let s : Spells 10 width (number_text false 10 width) =
        number_text-Spells false 10 width (omega arith) (omega arith) (omega arith) in
      parse_width-decimal (number_text false 10 width) 0 c rest (s.decimal (omega arith)) e
      ∙ ap (λ n. (n, c ∷ rest)) s.exact)
]

-- A text that does not begin with a flag.
abbrev Opens : List ℕ → Type 0
Opens [] = ⊥
Opens (c ∷ t) = (c ≢ b'-') × (c ≢ b'0')

Opens-append : (t u : List ℕ) → Opens t → Opens (t ++ u)
Opens-append [] u h = absurd h
Opens-append (c ∷ t) u h = h

Spells-Opens : (width : ℕ) (t : List ℕ) → 0 < width → Spells 10 width t → Opens t
Spells-Opens width [] pos s = absurd (omega (arith, s.some_digit))
Spells-Opens width (c ∷ t) pos s = (
  λ e. omega (arith, (s.decimal (omega arith)).0),
  λ e. s.leading c t refl pos (ap digit_value e ∙ (unfold digit_value in refl)),
)

spell_end-Opens : (d : Directive) (rest : List ℕ) → IsPlain d → Opens (spell_end d ++ rest)
unfolding spell_end
spell_end-Opens d rest p = elim (Bool-cases d.is_long) [
  | inl long ↦ rw long (λ e. omega arith, λ e. omega arith)
  | inr short ↦ rw short (p.no_minus, λ e. ground (arith, p.no_digit))
]

text-Opens :
    (d : Directive) (rest : List ℕ)
    → IsPlain d
    → Opens (spell_width d.width ++ (spell_end d ++ rest))
unfolding spell_width
text-Opens d rest p = elim (Bool-cases (d.width == 0)) [
  | inl no_width ↦ rw no_width (spell_end-Opens d rest p)
  | inr some_width ↦ rw some_width (
      Opens-append (number_text false 10 d.width) (spell_end d ++ rest) (
        Spells-Opens d.width (number_text false 10 d.width) (ground arith) (
          number_text-Spells false 10 d.width (omega arith) (omega arith)
            (omega (arith, p.small)))))
]

parse_flags-spell :
    (d : Directive) (t : List ℕ)
    → IsPlain d
    → Opens t
    → parse_flags (spell_flag d ++ t) ≡ (d.left_align, d.pad, t)
unfolding parse_flags spell_flag
parse_flags-spell d [] p h = absurd h
parse_flags-spell d (c ∷ t) p h = ground (arith, p.one_flag, p.pads, h.0, h.1)

parse_length-spell :
    (d : Directive) (rest : List ℕ)
    → IsPlain d
    → parse_length (spell_end d ++ rest) ≡ (d.is_long, d.spec ∷ rest)
unfolding parse_length spell_end
parse_length-spell d rest p = ground (arith, p.no_l)

parse_width-end :
    (d : Directive) (rest : List ℕ)
    → IsPlain d
    → parse_width 0 (spell_width d.width ++ (spell_end d ++ rest)) ≡ (d.width, spell_end d ++ rest)
unfolding spell_end
parse_width-end d rest p = elim (Bool-cases d.is_long) [
  | inl long ↦ rw long (parse_width-spell d.width b'l' (d.spec ∷ rest) p.small refl)
  | inr short ↦ rw short (parse_width-spell d.width d.spec rest p.small p.no_digit)
]

-- The parser reads back a directive that is written out with one flag at most, whatever follows.
pub parse_directive-spell :
    (d : Directive) (rest : List ℕ) → IsPlain d → parse_directive (spell d ++ rest) ≡ some (d, rest)
unfolding parse_directive spell with_spec
parse_directive-spell d rest p =
    let flags : parse_flags (spell d ++ rest)
        ≡ (d.left_align, d.pad, spell_width d.width ++ (spell_end d ++ rest)) =
      ap parse_flags (
        append_assoc (spell_flag d) (spell_width d.width ++ spell_end d) rest
        ∙ ap (λ t. spell_flag d ++ t) (append_assoc (spell_width d.width) (spell_end d) rest))
      ∙ parse_flags-spell d _ p (text-Opens d rest p) in
    rw flags (rw (parse_width-end d rest p) (rw (parse_length-spell d rest p)))
