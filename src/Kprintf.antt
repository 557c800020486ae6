-- ===== src/Kprintf.antt =====
-- kernel/kprintf.c: formatted output to the three sinks and into a buffer. The source has each
-- printing loop twice, once for `kprint_char` and once for `snprint_char`; here the two share it, and
-- `put` is the one that prints a character. A C string is the list of its bytes before the
-- terminator, a machine word is its bit pattern, and a width stays below 2 ^ 31.
pub mod Format
pub mod Homs
pub mod Digits
pub mod Numbers
pub mod Spelling
pub mod Ends
pub mod Sent
pub mod Buffer
pub mod RateLimit
mod Tests
use alze_os.Base.{
  ℕ, zero, suc, ◌+◌, ◌-◌, ◌*◌, ◌/◌, ◌%◌, ◌^◌, ◌==◌, ◌&&◌, ltb, leb, if◌then◌else◌, update, Bool,
  true, false, Option, none, some, List, [], ◌∷◌, ◌++◌, length,
}
use alze_os.RingBuf.{RingBuf}
use alze_os.Klog.{klog_putchar}

-- What has gone to the UART and to the console, and the kernel log.
pub record Sinks : Type 0 where
  pub serial : List ℕ
  pub console : List ℕ
  pub log : RingBuf

unfoldable pub kprint_char : Sinks → ℕ → Sinks
kprint_char s c = record {
  serial = s.serial ++ (if c == b'\n' then b'\r' ∷ c ∷ [] else c ∷ []);
  console = s.console ++ (c ∷ []);
  log = klog_putchar s.log c;
}

-- `digits_lower[d]` and `digits_upper[d]`.
unfoldable pub digit : Bool → ℕ → ℕ
digit uppercase d = if ltb d 10 then b'0' + d else (if uppercase then b'A' else b'a') + (d - 10)

-- `while (val > 0) { buf[i++] = digits[val % base]; val /= base; }`, with fuel for its rounds.
unfoldable pub fill_digits : ℕ → Bool → ℕ → ℕ → (ℕ → ℕ) → ℕ → (ℕ → ℕ) × ℕ
unfolding digit
fill_digits zero uppercase base val buf i = (buf, i)
fill_digits (suc fuel) uppercase base val buf i =
    let rest =
      fill_digits fuel uppercase base (val / base) (update buf i (digit uppercase (val % base)))
        (suc i) in
    if ltb 0 val then rest else (buf, i)

-- `buf` and `i` before the padding.
unfoldable pub number_digits : Bool → ℕ → ℕ → (ℕ → ℕ) × ℕ
unfolding fill_digits
number_digits uppercase base val =
    if val == 0 then (update (λ _. 0) 0 b'0', 1) else fill_digits 64 uppercase base val (λ _. 0) 0

-- `-val` for an `int64_t`, as a `uint64_t`.
unfoldable pub negate : ℕ → ℕ
negate val = (2 ^ 64 - val) % 2 ^ 64

-- An `int` converted to `int64_t`.
unfoldable pub sign_extend : ℕ → ℕ
sign_extend n = if ltb n (2 ^ 31) then n else n + (2 ^ 64 - 2 ^ 32)

-- `if (!s) s = "(null)";`
unfoldable pub or_null : Option (List ℕ) → List ℕ
or_null none = b'(' ∷ b'n' ∷ b'u' ∷ b'l' ∷ b'l' ∷ b')' ∷ []
or_null (some t) = t

module _ {S : Type 0} (put : S → ℕ → S) where
  -- `while (i < width) { put(pad); width--; }`
  unfoldable pub put_padding : S → ℕ → ℕ → ℕ → S
  put_padding s pad i zero = s
  put_padding s pad i (suc width) =
      let rest = put_padding (put s pad) pad i width in if ltb i (suc width) then rest else s

  -- `while (i > 0) put(buf[--i]);`
  unfoldable pub put_digits : S → (ℕ → ℕ) → ℕ → S
  put_digits s buf zero = s
  put_digits s buf (suc i) = put_digits (put s (buf i)) buf i

  unfoldable pub put_string : S → List ℕ → S
  put_string s [] = s
  put_string s (c ∷ t) = put_string (put s c) t

  unfoldable pub print_unsigned : S → ℕ → ℕ → ℕ → ℕ → Bool → S
  unfolding put_padding put_digits number_digits
  print_unsigned s val base width pad uppercase =
      let (buf, i) = number_digits uppercase base val in
      put_digits (put_padding s pad i width) buf i

  unfoldable pub print_signed : S → ℕ → ℕ → ℕ → S
  unfolding print_unsigned negate
  print_signed s val width pad =
      if ltb val (2 ^ 63)
      then print_unsigned s val 10 width pad false
      else print_unsigned (put s b'-') (negate val) 10 (width - 1) pad false

  unfoldable pub print_padded : S → Option (List ℕ) → ℕ → Bool → S
  unfolding put_padding put_string or_null
  print_padded s t width left_align =
      let len = length (or_null t) in
      let s' = if left_align then s else put_padding s b' ' len width in
      let s'' = put_string s' (or_null t) in
      if left_align then put_padding s'' b' ' len width else s''

  unfoldable pub print_plain : S → Option (List ℕ) → ℕ → Bool → S
  unfolding put_string or_null
  print_plain s t width left_align = put_string s (or_null t)

unfoldable pub kprint_string_padded : Sinks → Option (List ℕ) → ℕ → Bool → Sinks
unfolding print_padded
kprint_string_padded = print_padded kprint_char

unfoldable pub kprint_unsigned : Sinks → ℕ → ℕ → ℕ → ℕ → Bool → Sinks
unfolding print_unsigned
kprint_unsigned = print_unsigned kprint_char

unfoldable pub kprint_signed : Sinks → ℕ → ℕ → ℕ → Sinks
unfolding print_signed
kprint_signed = print_signed kprint_char

pub record SnprintfCtx : Type 0 where
  pub buf : ℕ → ℕ
  pub size : ℕ
  pub pos : ℕ

unfoldable pub snprint_char : SnprintfCtx → ℕ → SnprintfCtx
snprint_char ctx c = record {
  buf = if ltb (ctx.pos + 1) ctx.size then update ctx.buf ctx.pos c else ctx.buf;
  size = ctx.size;
  pos = ctx.pos + 1;
}

unfoldable pub snprint_string : SnprintfCtx → Option (List ℕ) → ℕ → Bool → SnprintfCtx
unfolding print_plain
snprint_string = print_plain snprint_char

unfoldable pub snprint_unsigned : SnprintfCtx → ℕ → ℕ → ℕ → ℕ → Bool → SnprintfCtx
unfolding print_unsigned
snprint_unsigned = print_unsigned snprint_char

unfoldable pub snprint_signed : SnprintfCtx → ℕ → ℕ → ℕ → SnprintfCtx
unfolding print_signed
snprint_signed = print_signed snprint_char

pub record KprintfRatelimit : Type 0 where
  pub interval_ticks : ℕ
  pub burst : ℕ
  pub count : ℕ
  pub last_tick : ℕ

-- The state after a call at `now`, and whether the message is let through. The warning that it may
-- print goes to the sinks, which are not part of the limiter.
unfoldable pub kprintf_rl_allow : ℕ → KprintfRatelimit → KprintfRatelimit × Bool
kprintf_rl_allow now rl =
    let opened =
      if leb rl.interval_ticks ((now + 2 ^ 64 - rl.last_tick) % 2 ^ 64)
      then record rl { last_tick = now; count = 0 }
      else rl in
    let counted = record opened { count = (opened.count + 1) % 2 ^ 32 } in
    (counted, leb counted.count counted.burst)
