-- ===== src/Kprintf/Homs.antt =====
-- kernel/kprintf.c: whatever prints the characters, the characters are the same. A map `h` that
-- turns one way of printing a character into another turns every run of a format into another.
use alze_os.Base.{
  ℕ, ltb, ◌^◌, zero, suc, ◌-◌, if_hom, ◌%◌, ◌==◌, Bool, true, false, Option, none, some, List, [],
  ◌∷◌, ◌≡◌, refl, ap, ◌∙◌, arith, length,
}
use alze_os.Kprintf.{
  number_digits, put_padding, put_digits, put_string, print_unsigned, print_signed, print_padded,
  print_plain, or_null, negate,
}
use alze_os.Kprintf.Format.{
  map_run, Arg, Directive, Run, parse_directive, print_directive, format_loop, next_int,
  next_signed, next_unsigned, next_string, next_pointer, fetch, defined,
}

abbrev pub map_state : {S T : Type 0} → (S → T) → Option (S × List Arg) → Option (T × List Arg)
map_state h none = none
map_state h (some (s, args)) = some (h s, args)

fetch-hom :
    {A S T : Type 0} (h : S → T) (o : Option (A × List Arg)) {k : A → S} {k' : A → T}
    → ((a : A) → h (k a) ≡ k' a)
    → map_state h (fetch o k) ≡ fetch o k'
fetch-hom h none p = refl
fetch-hom h (some (a, args)) p = ap (λ t. some (t, args)) (p a)

defined-hom :
    {A S T : Type 0} (h : S → T) (o : Option A) (k : A → Run S) (k' : A → Run T)
    → ((a : A) → map_run h (k a) ≡ k' a)
    → map_run h (defined o k) ≡ defined o k'
defined-hom h none k k' p = refl
defined-hom h (some a) k k' p = p a

defined-hom_state :
    {S T : Type 0} (h : S → T) (o : Option (S × List Arg)) (k : S × List Arg → Run S)
    (k' : T × List Arg → Run T)
    → ((a : S × List Arg) → map_run h (k a) ≡ k' (h a.0, a.1))
    → map_run h (defined o k) ≡ defined (map_state h o) k'
defined-hom_state h none k k' p = refl
defined-hom_state h (some a) k k' p = p a

module _ {S T : Type 0} (put : S → ℕ → S) (put' : T → ℕ → T) (h : S → T)
    (hom : (s : S) (c : ℕ) → h (put s c) ≡ put' (h s) c) where
  pub put_padding-hom :
      (s : S) (pad i width : ℕ)
      → h (put_padding put s pad i width) ≡ put_padding put' (h s) pad i width
  unfolding put_padding
  put_padding-hom s pad i zero = refl
  put_padding-hom s pad i (suc width) =
      ground (arith, put_padding-hom (put s pad) pad i width, hom s pad)

  pub put_digits-hom :
      (s : S) (buf : ℕ → ℕ) (i : ℕ) → h (put_digits put s buf i) ≡ put_digits put' (h s) buf i
  unfolding put_digits
  put_digits-hom s buf zero = refl
  put_digits-hom s buf (suc i) =
      put_digits-hom (put s (buf i)) buf i ∙ ap (λ t. put_digits put' t buf i) (hom s (buf i))

  pub put_string-hom : (s : S) (t : List ℕ) → h (put_string put s t) ≡ put_string put' (h s) t
  unfolding put_string
  put_string-hom s [] = refl
  put_string-hom s (c ∷ t) = put_string-hom (put s c) t ∙ ap (λ u. put_string put' u t) (hom s c)

  pub print_unsigned-hom :
      (s : S) (val base width pad : ℕ) (uppercase : Bool)
      → h (print_unsigned put s val base width pad uppercase)
        ≡ print_unsigned put' (h s) val base width pad uppercase
  unfolding print_unsigned
  print_unsigned-hom s val base width pad uppercase =
      let (buf, i) = number_digits uppercase base val in
      put_digits-hom (put_padding put s pad i width) buf i
      ∙ ap (λ t. put_digits put' t buf i) (put_padding-hom s pad i width)

  pub print_signed-hom :
      (s : S) (val width pad : ℕ)
      → h (print_signed put s val width pad) ≡ print_signed put' (h s) val width pad
  unfolding print_signed
  print_signed-hom s val width pad =
      if_hom h (ltb val (2 ^ 63)) (print_unsigned-hom s val 10 width pad false) (
        print_unsigned-hom (put s b'-') (negate val) 10 (width - 1) pad false
        ∙ ap (λ t. print_unsigned put' t (negate val) 10 (width - 1) pad false) (hom s b'-'))

  pub print_plain-hom :
      (s : S) (t : Option (List ℕ)) (width : ℕ) (left_align : Bool)
      → h (print_plain put s t width left_align) ≡ print_plain put' (h s) t width left_align
  unfolding print_plain
  print_plain-hom s t width left_align = put_string-hom s (or_null t)

  pub print_padded-hom :
      (s : S) (t : Option (List ℕ)) (width : ℕ) (left_align : Bool)
      → h (print_padded put s t width left_align) ≡ print_padded put' (h s) t width left_align
  unfolding print_padded
  print_padded-hom s t width true =
      put_padding-hom (put_string put s (or_null t)) b' ' (length (or_null t)) width
      ∙ ap (λ u. put_padding put' u b' ' (length (or_null t)) width) (put_string-hom s (or_null t))
  print_padded-hom s t width false =
      put_string-hom (put_padding put s b' ' (length (or_null t)) width) (or_null t)
      ∙ ap (λ u. put_string put' u (or_null t)) (put_padding-hom s b' ' (length (or_null t)) width)

  module _ (print_string : S → Option (List ℕ) → ℕ → Bool → S)
      (print_string' : T → Option (List ℕ) → ℕ → Bool → T)
      (hom_string : (s : S) (t : Option (List ℕ)) (w : ℕ) (left : Bool)
        → h (print_string s t w left) ≡ print_string' (h s) t w left) where
    pub print_directive-hom :
        (d : Directive) (args : List Arg) (s : S)
        → map_state h (print_directive put print_string d args s)
          ≡ print_directive put' print_string' d args (h s)
    unfolding print_directive
    print_directive-hom d args s =
        if_hom f (d.spec == b's')
          (fetch-hom h (next_string args) (λ t. hom_string s t d.width d.left_align))
          (if_hom f (d.spec == b'd')
            (fetch-hom h (next_signed d.is_long args) (λ n. print_signed-hom s n d.width d.pad))
            (if_hom f (d.spec == b'u') (unsigned 10 false) (
              if_hom f (d.spec == b'x') (unsigned 16 false) (
                if_hom f (d.spec == b'X') (unsigned 16 true) (
                  if_hom f (d.spec == b'p')
                    (fetch-hom h (next_pointer args) (λ n.
                      print_unsigned-hom (print_string s ox 0 false) n 16 16 b'0' false
                      ∙ ap (λ t. print_unsigned put' t n 16 16 b'0' false)
                          (hom_string s ox 0 false)))
                    (if_hom f (d.spec == b'c') (fetch-hom h (next_int args) (λ n. hom s (n % 256)))
                      (if_hom f (d.spec == b'%') (ap (λ t. some (t, args)) (hom s b'%')) (
                        ap (λ t. some (t, args))
                          (hom (put s b'%') d.spec ∙ ap (λ t. put' t d.spec) (hom s b'%'))))))))))
      where
        f : Option (S × List Arg) → Option (T × List Arg)
        f = map_state h

        ox : Option (List ℕ)
        ox = some (b'0' ∷ b'x' ∷ [])

        unsigned :
            (base : ℕ) (uppercase : Bool)
            → f (
                fetch
                  (next_unsigned d.is_long args)
                  (λ n. print_unsigned put s n base d.width d.pad uppercase))
              ≡ fetch
                  (next_unsigned d.is_long args)
                  (λ n. print_unsigned put' (h s) n base d.width d.pad uppercase)
        unsigned base uppercase =
            fetch-hom h (next_unsigned d.is_long args)
              (λ n. print_unsigned-hom s n base d.width d.pad uppercase)

    pub format_loop-hom :
        (fuel : ℕ) (fmt : List ℕ) (args : List Arg) (s : S)
        → map_run h (format_loop put print_string fuel fmt args s)
          ≡ format_loop put' print_string' fuel fmt args (h s)
    unfolding format_loop
    format_loop-hom zero fmt args s = refl
    format_loop-hom (suc fuel) [] args s = refl
    format_loop-hom (suc fuel) (c ∷ fmt) args s =
        if_hom (map_run h) (c == b'%')
          (defined-hom h (parse_directive fmt) _ _ (λ (d, rest).
            defined-hom_state h (print_directive put print_string d args s) _ _
              (λ (s', args'). format_loop-hom fuel rest args' s')
            ∙ ap (λ o. defined o (λ (s', args'). format_loop put' print_string' fuel rest args' s'))
                (print_directive-hom d args s)))
          (format_loop-hom fuel fmt args (put s c)
            ∙ ap (format_loop put' print_string' fuel fmt args) (hom s c))
