-- ===== src/Kprintf/Format.antt =====
-- kernel/kprintf.c: the arguments, the directives of a format and the loops over it.
use alze_os.Base.{
  ℕ, zero, suc, ◌+◌, ◌-◌, ◌*◌, ◌%◌, ◌^◌, ◌==◌, ◌&&◌, ltb, leb, if◌then◌else◌, update, Bool, true,
  false, Option, none, some, List, [], ◌∷◌, length,
}
use alze_os.Kprintf.{
  Sinks, kprint_char, kprint_string_padded, sign_extend, print_unsigned, print_signed, SnprintfCtx,
  snprint_char, snprint_string,
}

-- The arguments after the format.
pub data Arg : Type 0 where
  int : ℕ → Arg
  long : ℕ → Arg
  string : Option (List ℕ) → Arg
  pointer : ℕ → Arg

-- `va_arg`, which has no defined result for an argument of another type or for none.
unfoldable pub next_int : List Arg → Option (ℕ × List Arg)
next_int [] = none
next_int (int n ∷ args) = some (n, args)
next_int (a ∷ args) = none

unfoldable pub next_long : List Arg → Option (ℕ × List Arg)
next_long [] = none
next_long (long n ∷ args) = some (n, args)
next_long (a ∷ args) = none

unfoldable pub next_string : List Arg → Option (Option (List ℕ) × List Arg)
next_string [] = none
next_string (string t ∷ args) = some (t, args)
next_string (a ∷ args) = none

unfoldable pub next_pointer : List Arg → Option (ℕ × List Arg)
next_pointer [] = none
next_pointer (pointer n ∷ args) = some (n, args)
next_pointer (a ∷ args) = none

-- The `l` tells which of two types is read.
unfoldable pub next_unsigned : Bool → List Arg → Option (ℕ × List Arg)
unfolding next_int next_long
next_unsigned is_long args = if is_long then next_long args else next_int args

unfoldable pub next_signed : Bool → List Arg → Option (ℕ × List Arg)
unfolding next_int next_long sign_extend
next_signed is_long args =
    if is_long
    then next_long args
    else elim (next_int args) [ none ↦ none | some (n, rest) ↦ some (sign_extend n, rest) ]

-- What stands between a `%` and the end of its conversion.
pub record Directive : Type 0 where
  pub left_align : Bool
  pub pad : ℕ
  pub width : ℕ
  pub is_long : Bool
  pub spec : ℕ

unfoldable pub parse_flags : List ℕ → Bool × ℕ × List ℕ
parse_flags [] = (false, b' ', [])
parse_flags (c ∷ fmt) =
    if c == b'-'
    then (true, b' ', fmt)
    else if c == b'0'
    then (false, b'0', fmt)
    else (false, b' ', c ∷ fmt)

unfoldable pub parse_width : ℕ → List ℕ → ℕ × List ℕ
parse_width width [] = (width, [])
parse_width width (c ∷ fmt) =
    if leb b'0' c && leb c b'9' then parse_width (width * 10 + (c - b'0')) fmt else (width, c ∷ fmt)

unfoldable pub skip_l : List ℕ → List ℕ
skip_l [] = []
skip_l (c ∷ fmt) = if c == b'l' then fmt else c ∷ fmt

unfoldable pub parse_length : List ℕ → Bool × List ℕ
unfolding skip_l
parse_length [] = (false, [])
parse_length (c ∷ fmt) = if c == b'l' then (true, skip_l fmt) else (false, c ∷ fmt)

-- `none`: the format ends inside the directive, and the source goes on past its terminator.
unfoldable pub with_spec : Bool → ℕ → ℕ → Bool → List ℕ → Option (Directive × List ℕ)
with_spec left pad width is_long [] = none
with_spec left pad width is_long (c ∷ fmt) =
    some (record { left_align = left; pad = pad; width = width; is_long = is_long; spec = c }, fmt)

unfoldable pub parse_directive : List ℕ → Option (Directive × List ℕ)
unfolding parse_flags parse_width parse_length with_spec
parse_directive fmt =
    let (left, pad, after_flags) = parse_flags fmt in
    let (width, after_width) = parse_width 0 after_flags in
    let (is_long, after_length) = parse_length after_width in
    with_spec left pad width is_long after_length

-- How a run of a format ends. `unfinished` stands for fuel that is used up.
pub data Run (S : Type 0) : Type 0 where
  finished : S → Run S
  undefined : Run S
  unfinished : Run S

abbrev pub map_run : {S T : Type 0} → (S → T) → Run S → Run T
map_run h (finished s) = finished (h s)
map_run h undefined = undefined
map_run h unfinished = unfinished

-- What has no result ends the run.
abbrev pub defined : {A S : Type 0} → Option A → (A → Run S) → Run S
defined none k = undefined
defined (some a) k = k a

-- An argument is fetched and printed.
abbrev pub fetch : {A S : Type 0} → Option (A × List Arg) → (A → S) → Option (S × List Arg)
fetch none print = none
fetch (some (a, args)) print = some (print a, args)

module _ {S : Type 0} (put : S → ℕ → S) (print_string : S → Option (List ℕ) → ℕ → Bool → S) where
  unfoldable pub print_directive : Directive → List Arg → S → Option (S × List Arg)
  unfolding next_unsigned next_signed next_int next_string next_pointer print_unsigned print_signed
  print_directive d args s =
      if d.spec == b's'
      then fetch (next_string args) (λ t. print_string s t d.width d.left_align)
      else if d.spec == b'd'
      then fetch (next_signed d.is_long args) (λ n. print_signed put s n d.width d.pad)
      else if d.spec == b'u'
      then fetch (next_unsigned d.is_long args) (λ n. print_unsigned put s n 10 d.width d.pad false)
      else if d.spec == b'x'
      then fetch (next_unsigned d.is_long args) (λ n. print_unsigned put s n 16 d.width d.pad false)
      else if d.spec == b'X'
      then fetch (next_unsigned d.is_long args) (λ n. print_unsigned put s n 16 d.width d.pad true)
      else if d.spec == b'p'
      then fetch (next_pointer args) (λ n.
        print_unsigned put (print_string s (some (b'0' ∷ b'x' ∷ [])) 0 false) n 16 16 b'0' false)
      else if d.spec == b'c'
      then fetch (next_int args) (λ n. put s (n % 256))
      else if d.spec == b'%'
      then some (put s b'%', args)
      else some (put (put s b'%') d.spec, args)

  -- `while (*fmt) { … }`, with fuel for its rounds.
  unfoldable pub format_loop : ℕ → List ℕ → List Arg → S → Run S
  format_loop zero fmt args s = unfinished
  format_loop (suc fuel) [] args s = finished s
  format_loop (suc fuel) (c ∷ fmt) args s =
      if c == b'%'
      then defined (parse_directive fmt) (λ (d, rest).
        defined (print_directive d args s) (λ (s', args'). format_loop fuel rest args' s'))
      else format_loop fuel fmt args (put s c)

-- Each round moves past a character at least.
abbrev pub format_fuel : List ℕ → ℕ
format_fuel fmt = suc (length fmt)

unfoldable pub kprintf : List ℕ → List Arg → Sinks → Run Sinks
unfolding format_loop
kprintf fmt args s = format_loop kprint_char kprint_string_padded (format_fuel fmt) fmt args s

-- `if (size > 0) buf[ctx.pos < size ? ctx.pos : size - 1] = '\0';`
unfoldable pub terminate : SnprintfCtx → ℕ → ℕ
terminate ctx =
    if ltb 0 ctx.size
    then update ctx.buf (if ltb ctx.pos ctx.size then ctx.pos else ctx.size - 1) 0
    else ctx.buf

-- The buffer afterwards, and the `int` that is returned.
unfoldable pub kvsnprintf : (ℕ → ℕ) → ℕ → List ℕ → List Arg → Run ((ℕ → ℕ) × ℕ)
unfolding format_loop terminate
kvsnprintf buf size fmt args =
    let ctx : SnprintfCtx = record { buf = buf; size = size; pos = 0 } in
    map_run (λ done. (terminate done, done.pos % 2 ^ 32))
      (format_loop snprint_char snprint_string (format_fuel fmt) fmt args ctx)
