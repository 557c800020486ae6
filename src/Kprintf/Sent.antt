-- ===== src/Kprintf/Sent.antt =====
-- kernel/kprintf.c: the text of a format, and what becomes of it in the three sinks.
use alze_os.Base.{
  ℕ, ◌≡◌, refl, sym, ap, ◌∙◌, List, [], ◌∷◌, ◌++◌, append-nil, append_assoc, keep_last,
  keep_last-append, if◌then◌else◌, ◌==◌,
}
use alze_os.RingBuf.Inv.{contents}
use alze_os.Klog.{klog_size}
use alze_os.Klog.Keep.{IsLog, contents-keep_last, klog_putchar-keep_last}
use alze_os.Kprintf.{
  Sinks, kprint_char, kprint_string_padded, put_string, print_padded, print_plain,
}
use alze_os.Kprintf.Homs.{print_padded-hom, format_loop-hom}
use alze_os.Kprintf.Format.{map_run, Arg, Run, finished, format_loop, format_fuel, kprintf}

unfoldable pub snoc : List ℕ → ℕ → List ℕ
snoc t c = t ++ (c ∷ [])

-- The characters that `kprintf` prints, and those that `kvsnprintf` does.
unfoldable pub padded_text : List ℕ → List Arg → Run (List ℕ)
unfolding format_loop print_padded snoc
padded_text fmt args = format_loop snoc (print_padded snoc) (format_fuel fmt) fmt args []

unfoldable pub plain_text : List ℕ → List Arg → Run (List ℕ)
unfolding format_loop print_plain snoc
plain_text fmt args = format_loop snoc (print_plain snoc) (format_fuel fmt) fmt args []

pub put_string-snoc :
    {S : Type 0} (put : S → ℕ → S) (s : S) (t : List ℕ) (c : ℕ)
    → put_string put s (snoc t c) ≡ put (put_string put s t) c
unfolding put_string snoc
put_string-snoc put s [] c = refl
put_string-snoc put s (d ∷ t) c = put_string-snoc put (put s d) t c

-- Each newline goes out after a carriage return.
abbrev pub with_returns : List ℕ → List ℕ
with_returns [] = []
with_returns (c ∷ t) = (if c == b'\n' then b'\r' ∷ c ∷ [] else c ∷ []) ++ with_returns t

pub record Sent (t : List ℕ) (s s' : Sinks) : Type 0 where
  pub to_serial : s'.serial ≡ s.serial ++ with_returns t
  pub to_console : s'.console ≡ s.console ++ t
  pub to_log : contents s'.log ≡ keep_last klog_size (contents s.log ++ t)
  pub log_valid : IsLog s'.log

pub put_string-Sent : (t : List ℕ) (s : Sinks) → IsLog s.log → Sent t s (put_string kprint_char s t)
unfolding put_string kprint_char
put_string-Sent [] s v = record {
  to_serial = sym (append-nil s.serial);
  to_console = sym (append-nil s.console);
  to_log = contents-keep_last s.log v;
  log_valid = v;
}
put_string-Sent (c ∷ t) s v =
    let (held, w) = klog_putchar-keep_last s.log c v in
    let ih = put_string-Sent t (kprint_char s c) w in
    record {
      to_serial =
          ih.to_serial
          ∙ append_assoc s.serial (if c == b'\n' then b'\r' ∷ c ∷ [] else c ∷ []) (with_returns t);
      to_console = ih.to_console ∙ append_assoc s.console (c ∷ []) t;
      to_log =
          ih.to_log
          ∙ ap (λ l. keep_last klog_size (l ++ t)) held
          ∙ keep_last-append klog_size (contents s.log ++ (c ∷ [])) t
          ∙ ap (keep_last klog_size) (append_assoc (contents s.log) (c ∷ []) t);
      log_valid = ih.log_valid;
    }

pub kprintf-padded_text :
    (fmt : List ℕ) (args : List Arg) (s : Sinks)
    → kprintf fmt args s ≡ map_run (put_string kprint_char s) (padded_text fmt args)
unfolding kprintf padded_text put_string kprint_string_padded
kprintf-padded_text fmt args s = sym (
    format_loop-hom snoc kprint_char (put_string kprint_char s) (put_string-snoc kprint_char s)
      (print_padded snoc) (print_padded kprint_char)
      (print_padded-hom snoc kprint_char (put_string kprint_char s) (put_string-snoc kprint_char s))
      (format_fuel fmt) fmt args [])

-- A format whose text is `t` sends `t` to the console, `t` with a carriage return before each newline
-- to the UART, and leaves in the log the last 4096 bytes of what it held and `t`.
pub kprintf-Sent :
    (fmt : List ℕ) (args : List Arg) (s : Sinks) (t : List ℕ)
    → IsLog s.log
    → padded_text fmt args ≡ finished t
    → (s' : Sinks) × (kprintf fmt args s ≡ finished s') × Sent t s s'
kprintf-Sent fmt args s t v h = (
  put_string kprint_char s t,
  kprintf-padded_text fmt args s ∙ ap (map_run (put_string kprint_char s)) h,
  put_string-Sent t s v,
)
