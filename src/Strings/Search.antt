-- ===== src/Strings/Search.antt =====
-- kernel/string.c: the searches for a byte.
use alze_os.Base.{
  ℕ, zero, suc, ◌+◌, ◌%◌, ◌<◌, ◌≡◌, ◌≢◌, refl, sym, ap, ◌∙◌, ◌==◌, ==_iff, false, if◌then◌else◌,
  Bool-cases, inl, inr, Option, none, some, arith,
}
use alze_os.Strings.{Memory}
use alze_os.Strings.Scan.{IsString, IsString-suc}

unfoldable pub memchr : ℕ → ℕ → ℕ → Memory → Option ℕ
memchr s c zero mem = none
memchr s c (suc n) mem =
    let rest = memchr (s + 1) c n mem in if mem s == c % 256 then some s else rest

-- The search ends at the terminator, which is itself found if `c` is 0. The outer none is a lack of
-- fuel, the inner one the null pointer.
unfoldable pub strchr : ℕ → ℕ → ℕ → Memory → Option (Option ℕ)
strchr zero s c mem = none
strchr (suc fuel) s c mem =
    let rest = strchr fuel (s + 1) c mem in
    if mem s == 0
    then some (if c == 0 then some s else none)
    else if mem s == c % 256
    then some (some s)
    else rest

-- The first byte that is `c`, among the `n` from `s` on.
abbrev pub IsFirst : Memory → ℕ → ℕ → ℕ → Option ℕ → Type 0
IsFirst mem s c n none = (i : ℕ) → i < n → mem (s + i) ≢ c
IsFirst mem s c n (some a) =
    (j : ℕ) × (j < n) × (a ≡ s + j) × (mem a ≡ c) × ((i : ℕ) → i < j → mem (s + i) ≢ c)

earlier :
    (mem : Memory) (s c n : ℕ)
    → mem s ≢ c
    → ((i : ℕ) → i < n → mem (s + 1 + i) ≢ c)
    → (i : ℕ) → i < suc n
    → mem (s + i) ≢ c
earlier mem s c n f h zero l e = f (ap mem {x = s} {y = s + 0} (omega arith) ∙ e)
earlier mem s c n f h (suc i) l e =
    h i (omega arith) (ap mem {x = s + 1 + i} {y = s + suc i} (omega arith) ∙ e)

IsFirst-suc :
    (mem : Memory) (s c n : ℕ) (r : Option ℕ)
    → mem s ≢ c
    → IsFirst mem (s + 1) c n r
    → IsFirst mem s c (suc n) r
IsFirst-suc mem s c n none f h = earlier mem s c n f h
IsFirst-suc mem s c n (some a) f (j, l, e, found, before) =
    (suc j, omega arith, omega (arith, e), found, earlier mem s c j f before)

IsFirst-here : (mem : Memory) (s c n : ℕ) → mem s ≡ c → IsFirst mem s c (suc n) (some s)
IsFirst-here mem s c n e = (0, omega arith, omega arith, e, λ i l. absurd (omega arith))

-- `memchr` finds the first of the `n` bytes that is `c`, or nothing if there is none.
pub memchr-IsFirst : (s c n : ℕ) (mem : Memory) → IsFirst mem s (c % 256) n (memchr s c n mem)
unfolding memchr
memchr-IsFirst s c zero mem = λ i p. absurd (omega arith)
memchr-IsFirst s c (suc n) mem = elim (Bool-cases (mem s == c % 256)) [
  | inl here ↦ rw here (IsFirst-here mem s (c % 256) n ((==_iff _ _).0 here))
  | inr other ↦
      rw other
        (IsFirst-suc mem s (c % 256) n _ (ground (arith, other)) (memchr-IsFirst (s + 1) c n mem))
]

-- `strchr` ends, and finds the first byte of the string that is `c`, the terminator included, or
-- nothing if there is none, for a byte `c`.
pub strchr-IsFirst :
    (fuel s c n : ℕ) (mem : Memory)
    → IsString mem s n
    → n < fuel
    → c < 256
    → (r : Option ℕ) × (strchr fuel s c mem ≡ some r) × IsFirst mem s c (suc n) r
unfolding strchr
strchr-IsFirst zero s c n mem h l b = absurd (omega arith)
strchr-IsFirst (suc fuel) s c zero mem h l b =
    let at_end : mem s ≡ 0 = ap mem {x = s} {y = s + 0} (omega arith) ∙ h.ends in
    elim (Bool-cases (c == 0)) [
      | inl nul ↦ (
        some s,
        rw (at_end, nul) refl,
        IsFirst-here mem s c 0 (at_end ∙ sym ((==_iff c 0).0 nul)),
      )
      | inr byte ↦ (
        none,
        rw (at_end, byte) refl,
        λ i p e. ground (arith, byte, at_end, e, ap mem {x = s + i} {y = s}),
      )
    ]
strchr-IsFirst (suc fuel) s c (suc n) mem h l b =
    let more : (mem s == 0) ≡ false = ground (arith, h.inside 0 (omega arith)) in
    elim (Bool-cases (mem s == c % 256)) [
      | inl here ↦
          (some s, rw (more, here) refl, IsFirst-here mem s c (suc n) (ground (arith, here, b)))
      | inr other ↦
          let (r, e, first) =
            strchr-IsFirst fuel (s + 1) c n mem (IsString-suc mem s n h) (omega arith) b in
          (r, rw (more, other) e, IsFirst-suc mem s c (suc n) r (ground (arith, other, b)) first)
    ]
