-- ===== src/Strings/Compare.antt =====
-- When the comparisons of memory and of strings return 0.
use alze_os.Base.{ℕ, zero, suc, ◌≡◌, ◌≢◌, ◌↔◌, refl, List, [], ◌∷◌, pos, cells, arith}
use alze_os.Strings.{Memory, memcmp, strncmp, difference, c_string}

abbrev head_of : List ℕ → ℕ
head_of [] = 0
head_of (x ∷ _) = x

abbrev tail_of : List ℕ → List ℕ
tail_of [] = []
tail_of (_ ∷ xs) = xs

difference-ne : (x y : ℕ) → x ≢ y → difference x y ≢ pos 0
difference-ne x y h e = ground arith

-- `memcmp` returns 0 exactly when the two runs of bytes are the same.
pub memcmp_iff :
    (n a b : ℕ) (mem : Memory) → (memcmp a b n mem ≡ pos 0) ↔ (cells mem a n ≡ cells mem b n)
unfolding memcmp
memcmp_iff zero a b mem = (λ e. refl, λ e. refl)
memcmp_iff (suc n) a b mem = let rest = memcmp_iff n (suc a) (suc b) mem in ground (arith, rest)

-- `strncmp` returns 0 exactly when the first `n` bytes of the two strings, up to the first
-- terminator among them, are the same.
pub strncmp_iff :
    (n a b : ℕ) (mem : Memory)
    → (strncmp a b n mem ≡ pos 0) ↔ (c_string (cells mem a n) ≡ c_string (cells mem b n))
unfolding strncmp c_string
strncmp_iff zero a b mem = (λ e. refl, λ e. refl)
strncmp_iff (suc n) a b mem = let rest = strncmp_iff n (suc a) (suc b) mem in ground (arith, rest)
