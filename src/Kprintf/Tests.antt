-- ===== src/Kprintf/Tests.antt =====
-- Runs of the printers, and their theorems at formats with a width, a string and a newline.
use alze_os.Base.{
  ℕ, ◌-◌, ◌%◌, ◌^◌, ◌≡◌, refl, List, [], ◌∷◌, ◌++◌, some, true, false, length, replicate, arith,
}
use alze_os.Klog.{klog_ring}
use alze_os.Klog.Keep.{klog_ring-IsLog}
use alze_os.Kprintf.{Sinks, KprintfRatelimit, print_unsigned, print_signed}
use alze_os.Kprintf.Format.{
  Arg, int, string, Directive, finished, undefined, kprintf, kvsnprintf, parse_directive,
  print_directive,
}
use alze_os.Kprintf.Numbers.{number_text, Spells, print_unsigned-Spells}
use alze_os.Kprintf.Spelling.{spell, IsPlain}
use alze_os.Kprintf.Sent.{snoc, padded_text, plain_text, Sent, kprintf-Sent}
use alze_os.Kprintf.Buffer.{Terminated, kvsnprintf-Terminated}

-- "x=%04x\n" and "%5s|"
abbrev hex_format : List ℕ
hex_format = b'x' ∷ b'=' ∷ b'%' ∷ b'0' ∷ b'4' ∷ b'x' ∷ b'\n' ∷ []

abbrev string_format : List ℕ
string_format = b'%' ∷ b'5' ∷ b's' ∷ b'|' ∷ []

abbrev hi : Arg
hi = string (some (b'h' ∷ b'i' ∷ []))

hex_run :
    padded_text hex_format (int 254 ∷ [])
    ≡ finished (b'x' ∷ b'=' ∷ b'0' ∷ b'0' ∷ b'f' ∷ b'e' ∷ b'\n' ∷ [])
unfolding padded_text parse_directive print_directive
hex_run = refl

-- `kvsnprintf` passes over the width of a string.
width_run :
    (padded_text string_format (hi ∷ []) ≡ finished (b' ' ∷ b' ' ∷ b' ' ∷ b'h' ∷ b'i' ∷ b'|' ∷ []))
    × (plain_text string_format (hi ∷ []) ≡ finished (b'h' ∷ b'i' ∷ b'|' ∷ []))
unfolding padded_text plain_text parse_directive print_directive
width_run = (refl, refl)

minus_run : print_signed snoc [] (2 ^ 64 - 42) 6 b'0' ≡ b'-' ∷ b'0' ∷ b'0' ∷ b'0' ∷ b'4' ∷ b'2' ∷ []
unfolding print_signed snoc
minus_run = refl

-- A `%` at the end of the format.
dangling_run : padded_text (b'%' ∷ []) [] ≡ undefined
unfolding padded_text parse_directive
dangling_run = refl

abbrev sinks : Sinks
sinks = record { serial = []; console = []; log = klog_ring }

kprintf-Sent_example :
    (s' : Sinks) × (kprintf hex_format (int 254 ∷ []) sinks ≡ finished s')
    × Sent (b'x' ∷ b'=' ∷ b'0' ∷ b'0' ∷ b'f' ∷ b'e' ∷ b'\n' ∷ []) sinks s'
kprintf-Sent_example =
    kprintf-Sent hex_format (int 254 ∷ []) sinks
      (b'x' ∷ b'=' ∷ b'0' ∷ b'0' ∷ b'f' ∷ b'e' ∷ b'\n' ∷ []) klog_ring-IsLog.0 hex_run

kvsnprintf-Terminated_example :
    (after : ℕ → ℕ) × (kvsnprintf (λ _. 9) 3 string_format (hi ∷ [])
      ≡ finished (after, length {A = ℕ} (b'h' ∷ b'i' ∷ b'|' ∷ []) % 2 ^ 32))
    × Terminated (b'h' ∷ b'i' ∷ b'|' ∷ []) 3 (λ _. 9) after
kvsnprintf-Terminated_example =
    kvsnprintf-Terminated (λ _. 9) 3 string_format (hi ∷ []) (b'h' ∷ b'i' ∷ b'|' ∷ []) width_run.1

print_unsigned-Spells_example :
    (ds : List ℕ) × (print_unsigned snoc [] 254 16 4 b'0' false
      ≡ [] ++ (replicate (4 - length ds) b'0' ++ ds))
    × Spells 16 254 ds
print_unsigned-Spells_example =
    print_unsigned-Spells [] 254 16 4 b'0' false (omega arith) (omega arith) (omega arith)

-- `%016lx`
abbrev wide : Directive
wide = record { left_align = false; pad = b'0'; width = 16; is_long = true; spec = b'x' }

wide-IsPlain : IsPlain wide
wide-IsPlain = record {
  one_flag = λ e. ground arith;
  pads = λ h. absurd (h refl);
  small = omega arith;
  no_minus = λ e. omega arith;
  no_l = λ e. omega arith;
  no_digit = refl;
}

spell_run : spell wide ≡ b'0' ∷ b'1' ∷ b'6' ∷ b'l' ∷ b'x' ∷ []
unfolding spell number_text
spell_run = refl

-- Five messages in a window of a hundred ticks, one of which has been counted.
abbrev limiter : KprintfRatelimit
limiter = record { interval_ticks = 100; burst = 5; count = 1; last_tick = 1000 }

abbrev times : List ℕ
times = 1001 ∷ 1002 ∷ 1003 ∷ 1004 ∷ 1005 ∷ 1006 ∷ []
