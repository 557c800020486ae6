-- ===== src/Strings/Scan.antt =====
-- kernel/string.c: the loops that run to the end of a string. The fuel is at least one more than the
-- number of rounds; without it the result is none.
use alze_os.Base.{
  ℕ, zero, suc, ◌+◌, ◌-◌, ◌≤◌, ◌<◌, ◌≡◌, ◌≢◌, ap, ◌∙◌, ◌==◌, ◌&&◌, leb, false, if◌then◌else◌, ◌⊎◌,
  Option, none, some, arith,
}
use alze_os.Strings.{Memory}

unfoldable pub strlen_loop : ℕ → ℕ → ℕ → Memory → Option ℕ
strlen_loop zero s len mem = none
strlen_loop (suc fuel) s len mem =
    let rest = strlen_loop fuel s (len + 1) mem in if mem (s + len) == 0 then some len else rest

unfoldable pub strlen : ℕ → ℕ → Memory → Option ℕ
unfolding strlen_loop
strlen fuel s mem = strlen_loop fuel s 0 mem

-- `while ((*d++ = *src++));`
unfoldable pub copy_loop : ℕ → ℕ → ℕ → Memory → Option Memory
copy_loop zero d src mem = none
copy_loop (suc fuel) d src mem =
    let rest = copy_loop fuel (d + 1) (src + 1) (λ a. if a == d then mem src else mem a) in
    if mem src == 0 then some (λ a. if a == d then 0 else mem a) else rest

-- `while (*d) d++;`
unfoldable pub end_of : ℕ → ℕ → Memory → Option ℕ
end_of zero d mem = none
end_of (suc fuel) d mem = let rest = end_of fuel (d + 1) mem in if mem d == 0 then some d else rest

unfoldable pub strcat : ℕ → ℕ → ℕ → Memory → Option Memory
unfolding end_of copy_loop
strcat fuel dest src mem = elim (end_of fuel dest mem) [
  | none ↦ none
  | some d ↦ copy_loop fuel d src mem
]

-- A string of length `n` at `s`.
pub record IsString (mem : Memory) (s n : ℕ) : Type 0 where
  pub ends : mem (s + n) ≡ 0
  pub inside : (i : ℕ) → i < n → mem (s + i) ≢ 0

-- The string from its second byte on.
pub IsString-suc : (mem : Memory) (s n : ℕ) → IsString mem s (suc n) → IsString mem (s + 1) n
IsString-suc mem s n h = record {
  ends = ap mem {x = s + 1 + n} {y = s + suc n} (omega arith) ∙ h.ends;
  inside = λ i p e.
      h.inside (suc i) (omega arith) (ap mem {x = s + suc i} {y = s + 1 + i} (omega arith) ∙ e);
}

strlen_loop-IsString :
    (fuel k len s n : ℕ) (mem : Memory)
    → IsString mem s n
    → len + k ≡ n
    → k < fuel
    → strlen_loop fuel s len mem ≡ some n
unfolding strlen_loop
strlen_loop-IsString zero k len s n mem h e l = absurd (omega arith)
strlen_loop-IsString (suc fuel) zero len s n mem h e l =
    let at_end : mem (s + len) ≡ 0 = ap mem {x = s + len} {y = s + n} (omega arith) ∙ h.ends in
    rw at_end (ap some (omega arith))
strlen_loop-IsString (suc fuel) (suc k) len s n mem h e l =
    let more : (mem (s + len) == 0) ≡ false = ground (arith, h.inside len (omega arith)) in
    rw more (strlen_loop-IsString fuel k (len + 1) s n mem h (omega arith) (omega arith))

-- `strlen` returns the number of bytes before the terminator.
pub strlen-IsString :
    (fuel s n : ℕ) (mem : Memory) → IsString mem s n → n < fuel → strlen fuel s mem ≡ some n
unfolding strlen
strlen-IsString fuel s n mem h l = strlen_loop-IsString fuel n 0 s n mem h (omega arith) l

-- The memory with the `m + 1` bytes at `src` at `d` as well.
abbrev pub copied : ℕ → ℕ → ℕ → Memory → Memory
copied d src m mem a = if leb d a && leb a (d + m) then mem (src + (a - d)) else mem a

pub record Copied (d src m : ℕ) (mem : Memory) (r : Option Memory) : Type 0 where
  pub final : Memory
  pub returns : r ≡ some final
  pub bytes : (a : ℕ) → final a ≡ copied d src m mem a

abbrev write : ℕ → ℕ → Memory → Memory
write d v mem a = if a == d then v else mem a

-- The string at `src` follows the string at `dest`, whose terminator it takes the place of.
pub record Appended (dest k src m : ℕ) (mem : Memory) (r : Option Memory) : Type 0 where
  pub final : Memory
  pub returns : r ≡ some final
  pub string : IsString final dest (k + m)
  pub first : (i : ℕ) → i < k → final (dest + i) ≡ mem (dest + i)
  pub second : (i : ℕ) → i ≤ m → final (dest + k + i) ≡ mem (src + i)
  pub outside : (a : ℕ) → (a < dest) ⊎ (dest + k + m < a) → final a ≡ mem a
