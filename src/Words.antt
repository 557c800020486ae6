-- ===== src/Words.antt =====
-- Words of `w` bytes in a memory of bytes, the low byte first, as the processor keeps them.
use native.Mathlib.Nat.{pow-suc}
use alze_os.Base.{
  ℕ, zero, suc, ◌+◌, ◌*◌, ◌/◌, ◌%◌, ◌^◌, ◌≤◌, ◌<◌, ◌≡◌, ◌⊎◌, inl, refl, ap₂, ◌∙◌, update,
  update_self, ltb, leb, ◌&&◌, if◌then◌else◌, arith,
}

-- `n` bytes from `a` on, all of them `v`.
abbrev pub filled : ℕ → ℕ → ℕ → (ℕ → ℕ) → ℕ → ℕ
filled a n v mem j = if leb a j && ltb j (a + n) then v else mem j

unfoldable pub load : ℕ → (ℕ → ℕ) → ℕ → ℕ
load zero mem a = 0
load (suc w) mem a = mem a + 256 * load w mem (suc a)

unfoldable pub store : ℕ → (ℕ → ℕ) → ℕ → ℕ → ℕ → ℕ
store zero mem a v = mem
store (suc w) mem a v = store w (update mem a (v % 256)) (suc a) (v / 256)

pub store-outside :
    (w : ℕ) (mem : ℕ → ℕ) (a v j : ℕ) → (j < a) ⊎ (a + w ≤ j) → store w mem a v j ≡ mem j
unfolding store
store-outside zero mem a v j h = refl
store-outside (suc w) mem a v j h =
    ground (arith, store-outside w (update mem a (v % 256)) (suc a) (v / 256) j)

pub load_ext :
    (w : ℕ) (m m' : ℕ → ℕ) (a : ℕ)
    → ((j : ℕ) → a ≤ j → j < a + w → m j ≡ m' j)
    → load w m a ≡ load w m' a
unfolding load
load_ext zero m m' a h = refl
load_ext (suc w) m m' a h =
    ap₂ (λ x y. x + 256 * y) (h a (omega arith) (omega arith))
      (load_ext w m m' (suc a) (λ j p q. h j (omega arith) (omega arith)))

-- A word is read back.
pub load-store : (w : ℕ) (mem : ℕ → ℕ) (a v : ℕ) → v < 256 ^ w → load w (store w mem a v) a ≡ v
unfolding load store
load-store zero mem a v h = omega arith
load-store (suc w) mem a v h =
    let mem' = update mem a (v % 256) in
    omega (
      arith,
      store-outside w mem' (suc a) (v / 256) a (inl (omega arith)) ∙ update_self mem a (v % 256),
      load-store w mem' (suc a) (v / 256) (omega (arith, rw (pow-suc 256 w) at h)),
    )

-- What is written elsewhere leaves a word as it is.
pub load-store_apart :
    (w x : ℕ) (mem : ℕ → ℕ) (a b v : ℕ)
    → (a + w ≤ b) ⊎ (b + x ≤ a)
    → load w (store x mem b v) a ≡ load w mem a
load-store_apart w x mem a b v h =
    load_ext w (store x mem b v) mem a (λ j p q. store-outside x mem b v j (ground arith))

pub load-filled_apart :
    (w : ℕ) (mem : ℕ → ℕ) (a b n v : ℕ)
    → (a + w ≤ b) ⊎ (b + n ≤ a)
    → load w (filled b n v mem) a ≡ load w mem a
load-filled_apart w mem a b n v h = load_ext w (filled b n v mem) mem a (λ j p q. ground arith)
