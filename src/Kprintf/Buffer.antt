-- ===== src/Kprintf/Buffer.antt =====
-- kernel/kprintf.c: what `kvsnprintf` leaves in a buffer of `size` bytes.
use alze_os.Base.{
  ℕ, zero, suc, ◌+◌, ◌-◌, ◌%◌, ◌^◌, ◌≤◌, ◌<◌, min, ◌≡◌, ◌≢◌, ◌==◌, take-min, refl, sym, ap, ap₂,
  ◌∙◌, List, [], ◌∷◌, ltb, length, take, cells, cells_ext, if◌then◌else◌, Bool-cases, inl, inr,
  arith,
}
use alze_os.Kprintf.{SnprintfCtx, snprint_char, snprint_string, put_string, print_plain}
use alze_os.Kprintf.Homs.{print_plain-hom, format_loop-hom}
use alze_os.Kprintf.Format.{Arg, finished, map_run, format_fuel, terminate, kvsnprintf}
use alze_os.Kprintf.Sent.{snoc, plain_text, put_string-snoc}

pub put_string-size :
    (t : List ℕ) (ctx : SnprintfCtx)
    → ((put_string snprint_char ctx t).size ≡ ctx.size)
      × ((put_string snprint_char ctx t).pos ≡ ctx.pos + length t)
unfolding put_string snprint_char
put_string-size [] ctx = omega arith
put_string-size (c ∷ t) ctx = omega (arith, put_string-size t (snprint_char ctx c))

put_string-outside :
    (t : List ℕ) (ctx : SnprintfCtx) (j : ℕ)
    → (ctx.pos ≤ j → suc j < ctx.size → ctx.pos + length t ≤ j)
    → (put_string snprint_char ctx t).buf j ≡ ctx.buf j
unfolding put_string snprint_char
put_string-outside [] ctx j h = refl
put_string-outside (c ∷ t) ctx j h = ground (arith, put_string-outside t (snprint_char ctx c) j)

snprint_char_lem :
    (ctx : SnprintfCtx) (c : ℕ)
    → ((snprint_char ctx c).pos ≡ suc ctx.pos)
      × ((snprint_char ctx c).size ≡ ctx.size)
      × (ctx.pos + 1 < ctx.size → (snprint_char ctx c).buf ctx.pos ≡ c)
unfolding snprint_char
snprint_char_lem ctx c = (omega arith, refl, λ h. ground arith)

put_string-cells :
    (m : ℕ) (t : List ℕ) (ctx : SnprintfCtx)
    → m ≤ length t
    → ctx.pos + m < ctx.size
    → cells (put_string snprint_char ctx t).buf ctx.pos m ≡ take m t
unfolding put_string
put_string-cells zero t ctx h l = refl
put_string-cells (suc m) [] ctx h l = absurd (omega arith)
put_string-cells (suc m) (c ∷ t) ctx h l =
    let (pos_step, size_kept, written) = snprint_char_lem ctx c in
    ap₂ ◌∷◌
      (put_string-outside t (snprint_char ctx c) ctx.pos (λ p q. absurd (omega arith))
        ∙ written (omega arith))
      (ap (λ k. cells (put_string snprint_char (snprint_char ctx c) t).buf k m) (sym pos_step)
        ∙ put_string-cells m t (snprint_char ctx c) (omega arith) (omega arith))

-- The buffer after a text: as much of it as leaves room for the terminator, the terminator, and
-- nothing else.
pub record Terminated (t : List ℕ) (size : ℕ) (before after : ℕ → ℕ) : Type 0 where
  pub kept : cells after 0 (min (length t) (size - 1)) ≡ take (size - 1) t
  pub terminator : 0 < size → after (min (length t) (size - 1)) ≡ 0
  pub outside : (j : ℕ) → min (length t) (size - 1) < j → after j ≡ before j
  pub nothing : size ≡ 0 → (j : ℕ) → after j ≡ before j

terminate_lem :
    (ctx : SnprintfCtx) (j : ℕ)
    → 0 < ctx.size
    → terminate ctx j ≡ (if j == min ctx.pos (ctx.size - 1) then 0 else ctx.buf j)
unfolding terminate
terminate_lem ctx j h = ground arith

terminate-outside :
    (ctx : SnprintfCtx) (j : ℕ)
    → (0 < ctx.size → j ≢ min ctx.pos (ctx.size - 1))
    → terminate ctx j ≡ ctx.buf j
unfolding terminate
terminate-outside ctx j h = ground arith

put_string-Terminated :
    (t : List ℕ) (buf : ℕ → ℕ) (size : ℕ)
    → Terminated t size buf
        (terminate (put_string snprint_char (record { buf = buf; size = size; pos = 0 }) t))
put_string-Terminated t buf size = record {
  kept =
      cells_ext (terminate done) done.buf 0 end
        (λ j p q. terminate-outside done j (λ h e. omega (arith, end_eq)))
      ∙ put_string-kept
      ∙ take-min (size - 1) t;
  terminator = λ h. terminate_lem done end (omega (arith, size_kept)) ∙ ground (arith, end_eq);
  outside = λ j h.
      terminate-outside done j (λ room e. omega (arith, end_eq))
      ∙ put_string-outside t ctx j (λ p q. omega arith);
  nothing = λ e j.
      terminate-outside done j (λ h. absurd (omega (arith, size_kept)))
      ∙ put_string-outside t ctx j (λ p q. absurd (omega arith));
}
  where
    ctx : SnprintfCtx
    ctx = record { buf = buf; size = size; pos = 0 }

    done : SnprintfCtx
    done = put_string snprint_char ctx t

    end : ℕ
    end = min (length t) (size - 1)

    size_kept : done.size ≡ size
    size_kept = (put_string-size t ctx).0

    end_eq : min done.pos (done.size - 1) ≡ end
    end_eq = omega (arith, put_string-size t ctx)

    put_string-kept : cells done.buf 0 end ≡ take end t
    put_string-kept = elim (Bool-cases (ltb 0 size)) [
      | inl some_room ↦ put_string-cells end t ctx (omega arith) (ground arith)
      | inr no_room ↦
          ap (λ m. cells done.buf 0 m) {y = 0} (ground arith)
          ∙ ap (λ m. take m t) {x = 0} (ground arith)
    ]

-- Where the text of the format is `t`, `kvsnprintf` leaves in a buffer of `size` bytes the first
-- `size - 1` characters of it and a terminator after them, changes no byte behind the terminator and
-- none at all if `size` is 0, and returns the length of the whole text.
pub kvsnprintf-Terminated :
    (buf : ℕ → ℕ) (size : ℕ) (fmt : List ℕ) (args : List Arg) (t : List ℕ)
    → plain_text fmt args ≡ finished t
    → (after : ℕ → ℕ) × (kvsnprintf buf size fmt args ≡ finished (after, length t % 2 ^ 32))
      × Terminated t size buf after
unfolding kvsnprintf plain_text snprint_string
kvsnprintf-Terminated buf size fmt args t h = (
  terminate (put_string snprint_char ctx t),
  ap (map_run _) (
        sym (
          format_loop-hom snoc snprint_char (put_string snprint_char ctx)
            (put_string-snoc snprint_char ctx) (print_plain snoc) (print_plain snprint_char)
            (print_plain-hom snoc snprint_char (put_string snprint_char ctx)
              (put_string-snoc snprint_char ctx))
            (format_fuel fmt) fmt args []))
      ∙ ap
          (λ r.
            map_run (λ done. (terminate done, done.pos % 2 ^ 32))
              (map_run (put_string snprint_char ctx) r))
          h
      ∙ ap (λ n. finished (terminate (put_string snprint_char ctx t), n % 2 ^ 32)) {y = length t}
          (omega (arith, (put_string-size t ctx).1)),
  put_string-Terminated t buf size,
)
  where
    ctx : SnprintfCtx
    ctx = record { buf = buf; size = size; pos = 0 }
