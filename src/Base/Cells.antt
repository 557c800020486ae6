-- ===== src/Base/Cells.antt =====
-- Memory as a function from places to values: runs of it, and writes round a circular buffer.
use Prim.Native.Nat.{ℕ, zero, suc, ◌+◌, ◌-◌, ◌%◌, ◌≤◌, ◌<◌}
use mathlib.Core.Path.{◌≡◌, refl, sym, ap, ap₂, ◌∙◌}
use mathlib.Core.Logic.{◌≢◌}
use mathlib.Core.List.{List, [], ◌∷◌, ◌++◌}
use native.Mathlib.Nat.{mod-add-mod, mod-eq_of_lt, mod-eq-sub-mod, mod-lt, suc-mod}
use native.Mathlib.Decide.{dec_lt}
use native.Mathlib.Omega.{arith}
use alze_os.Base.Tests.{ltb, if◌then◌else◌, update}
use alze_os.Base.Lists.{length, take, drop}

-- Fewer than `s` steps round a buffer of `s` places do not come back to the start.
pub mod-ne : (s a b : ℕ) → a < b → b < a + s → a % s ≢ b % s
mod-ne s a b h l e = elim (dec_lt (a % s + (b - a)) s) [
  | yes p ↦ omega (arith, mod-eq_of_lt p, back)
  | no p ↦ omega (
    arith,
    back,
    mod-lt a {m = s} (omega arith),
    mod-eq-sub-mod {n = a % s + (b - a)} {m = s} (omega arith),
    mod-eq_of_lt {n = a % s + (b - a) - s} {m = s} (omega (arith, mod-lt a {m = s} (omega arith))),
  )
]
  where
    back : (a % s + (b - a)) % s ≡ b % s
    back = mod-add-mod a s (b - a) ∙ ap (λ k. k % s) (omega arith)

module _ {ℓ} {A : Type ℓ} where
  -- `f i`, `f (i + 1)`, …: `n` cells.
  abbrev pub cells : (ℕ → A) → ℕ → ℕ → List A
  cells f i zero = []
  cells f i (suc n) = f i ∷ cells f (suc i) n

  -- The first `n` cells of `src` over those of `dst`: a copy between two objects.
  abbrev pub copy : (ℕ → A) → (ℕ → A) → ℕ → ℕ → A
  copy dst src n j = if ltb j n then src j else dst j

  pub length-cells : (f : ℕ → A) (i n : ℕ) → length (cells f i n) ≡ n
  length-cells f i zero = refl
  length-cells f i (suc n) = ap suc (length-cells f (suc i) n)

  pub cells_ext :
      (f g : ℕ → A) (i n : ℕ)
      → ((j : ℕ) → i ≤ j → j < i + n → f j ≡ g j)
      → cells f i n ≡ cells g i n
  cells_ext f g i zero h = refl
  cells_ext f g i (suc n) h =
      ap₂ ◌∷◌ (h i (omega arith) (omega arith))
        (cells_ext f g (suc i) n (λ j p q. h j (omega arith) (omega arith)))

  pub cells-copy : (dst src : ℕ → A) (m n : ℕ) → n ≤ m → cells (copy dst src m) 0 n ≡ cells src 0 n
  cells-copy dst src m n h = cells_ext (copy dst src m) src 0 n (λ j p q. ground arith)

  pub take-cells : (f : ℕ → A) (i n m : ℕ) → m ≤ n → take m (cells f i n) ≡ cells f i m
  take-cells f i n zero h = refl
  take-cells f i zero (suc m) h = absurd (omega arith)
  take-cells f i (suc n) (suc m) h = ap (λ l. f i ∷ l) (take-cells f (suc i) n m (omega arith))

  -- The `n` cells from position `t` of a buffer of `s` places, going round.
  abbrev pub window : (ℕ → A) → ℕ → ℕ → ℕ → List A
  window f s t zero = []
  window f s t (suc n) = f (t % s) ∷ window f s (suc t) n

  pub length-window : (f : ℕ → A) (s t n : ℕ) → length (window f s t n) ≡ n
  length-window f s t zero = refl
  length-window f s t (suc n) = ap suc (length-window f s (suc t) n)

  pub window-snoc :
      (f : ℕ → A) (s t n : ℕ) → window f s t (suc n) ≡ window f s t n ++ (f ((t + n) % s) ∷ [])
  window-snoc f s t zero = ap (λ k. f (k % s) ∷ []) (omega arith)
  window-snoc f s t (suc n) =
      ap (λ l. f (t % s) ∷ l)
        (window-snoc f s (suc t) n
          ∙ ap (λ k. window f s (suc t) n ++ (f (k % s) ∷ [])) (omega arith))

  pub window-update :
      (f : ℕ → A) (s t n p : ℕ) (v : A)
      → t + n ≤ p
      → p < t + s
      → window (update f (p % s) v) s t n ≡ window f s t n
  window-update f s t zero p v h l = refl
  window-update f s t (suc n) p v h l =
      ap₂ ◌∷◌ (ground (arith, mod-ne s t p))
        (window-update f s (suc t) n p v (omega arith) (omega arith))

  pub window_mod : (f : ℕ → A) (s t u n : ℕ) → t % s ≡ u % s → window f s t n ≡ window f s u n
  window_mod f s t u zero h = refl
  window_mod f s t u (suc n) h =
      ap₂ ◌∷◌ (ap f h) (window_mod f s (suc t) (suc u) n (suc-mod t s ∙ rw h (sym (suc-mod u s))))

  pub drop-window :
      (f : ℕ → A) (s t n m : ℕ) → m ≤ n → drop m (window f s t n) ≡ window f s (t + m) (n - m)
  drop-window f s t n zero h = ap₂ (λ k m. window f s k m) (omega arith) (omega arith)
  drop-window f s t zero (suc m) h = absurd (omega arith)
  drop-window f s t (suc n) (suc m) h =
      drop-window f s (suc t) n m (omega arith)
      ∙ ap₂ (λ k m. window f s k m) (omega arith) (omega arith)

  pub take-window : (f : ℕ → A) (s t n m : ℕ) → m ≤ n → take m (window f s t n) ≡ window f s t m
  take-window f s t n zero h = refl
  take-window f s t zero (suc m) h = absurd (omega arith)
  take-window f s t (suc n) (suc m) h =
      ap (λ l. f (t % s) ∷ l) (take-window f s (suc t) n m (omega arith))

  -- Cells that hold what stands round the buffer from `t` on.
  pub cells-eq-window :
      (f g : ℕ → A) (s t i n : ℕ)
      → ((j : ℕ) → j < n → f (i + j) ≡ g ((t + j) % s))
      → cells f i n ≡ window g s t n
  cells-eq-window f g s t i zero h = refl
  cells-eq-window f g s t i (suc n) h =
      ap₂ ◌∷◌
        (ap f {y = i + 0} (omega arith)
          ∙ h 0 (omega arith)
          ∙ ap (λ k. g (k % s)) {y = t} (omega arith))
        (cells-eq-window f g s (suc t) (suc i) n (λ j l.
          ap f {y = i + suc j} (omega arith)
          ∙ h (suc j) (omega arith)
          ∙ ap (λ k. g (k % s)) {y = suc t + j} (omega arith)))
