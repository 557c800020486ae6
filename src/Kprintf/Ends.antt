-- ===== src/Kprintf/Ends.antt =====
-- kernel/kprintf.c: the loop over a format ends, since a directive is shorter than its text.
use alze_os.Base.{
  ℕ, ◌*◌, ◌-◌, Bool-cases, zero, suc, ◌+◌, ◌≤◌, ◌<◌, ◌≡◌, ◌≢◌, Bool, Option, some, List, [], ◌∷◌,
  length, ◌==◌, Option-cases, inl, inr, arith,
}
use alze_os.Kprintf.Format.{
  Arg, Directive, unfinished, parse_flags, parse_width, parse_length, with_spec, parse_directive,
  print_directive, format_loop,
}

length-parse_flags : (fmt : List ℕ) → length (parse_flags fmt).2 ≤ length fmt
unfolding parse_flags
length-parse_flags [] = omega arith
length-parse_flags (c ∷ fmt) = ground arith

length-parse_width : (width : ℕ) (fmt : List ℕ) → length (parse_width width fmt).1 ≤ length fmt
unfolding parse_width
length-parse_width width [] = omega arith
length-parse_width width (c ∷ fmt) =
    ground (arith, length-parse_width (width * 10 + (c - b'0')) fmt)

length-parse_length : (fmt : List ℕ) → length (parse_length fmt).1 ≤ length fmt
unfolding parse_length
length-parse_length [] = omega arith
length-parse_length (c ∷ []) = ground arith
length-parse_length (c ∷ c' ∷ fmt) = ground arith

length-with_spec :
    (left : Bool) (pad width : ℕ) (is_long : Bool) (fmt : List ℕ) (d : Directive) (rest : List ℕ)
    → with_spec left pad width is_long fmt ≡ some (d, rest)
    → length rest < length fmt
unfolding with_spec
length-with_spec left pad width is_long [] d rest h = ground arith
length-with_spec left pad width is_long (c ∷ fmt) d rest h = ground arith

pub length-parse_directive :
    (fmt : List ℕ) (d : Directive) (rest : List ℕ)
    → parse_directive fmt ≡ some (d, rest)
    → length rest < length fmt
unfolding parse_directive
length-parse_directive fmt d rest h =
    let (left, pad, flags) = parse_flags fmt in
    let (width, digits) = parse_width 0 flags in
    let (is_long, l) = parse_length digits in
    omega (
      arith,
      length-parse_flags fmt,
      length-parse_width 0 flags,
      length-parse_length digits,
      length-with_spec left pad width is_long l d rest h,
    )

module _ {S : Type 0} (put : S → ℕ → S) (print_string : S → Option (List ℕ) → ℕ → Bool → S) where
  pub format_loop-ne-unfinished :
      (fuel : ℕ) (fmt : List ℕ) (args : List Arg) (s : S)
      → length fmt < fuel
      → format_loop put print_string fuel fmt args s ≢ unfinished
  unfolding format_loop
  format_loop-ne-unfinished zero fmt args s h = absurd (omega arith)
  format_loop-ne-unfinished (suc fuel) [] args s h = ground arith
  format_loop-ne-unfinished (suc fuel) (c ∷ fmt) args s h = elim (Bool-cases (c == b'%')) [
    | inl e ↦ rw e (elim (Option-cases (parse_directive fmt)) [
      | inl gone ↦ rw gone (ground arith)
      | inr ((d, rest), parsed) ↦
          rw parsed (elim (Option-cases (print_directive put print_string d args s)) [
            | inl gone ↦ rw gone (ground arith)
            | inr ((s', args'), printed) ↦ rw printed (
                format_loop-ne-unfinished fuel rest args' s'
                  (omega (arith, length-parse_directive fmt d rest parsed)))
          ])
    ])
    | inr e ↦ rw e (format_loop-ne-unfinished fuel fmt args (put s c) (omega arith))
  ]
