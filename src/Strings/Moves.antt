-- ===== src/Strings/Moves.antt =====
-- What the block moves do to memory, and that they are right for objects that overlap.
use alze_os.Base.{
  ℕ, zero, suc, ◌+◌, ◌-◌, ◌*◌, ◌/◌, ◌%◌, ◌≡◌, ◌≤◌, refl, ap, ◌∙◌, ◌⊎◌, inl, inr, ◌==◌, ◌&&◌, ◌||◌,
  ltb, leb, if◌then◌else◌, Bool-cases, arith,
}
use alze_os.Strings.{Memory, move_block, rep_up, rep_down, memcpy, memmove}

-- The first `n` bytes from `s` stand at `d`, as they were before; all else is as it was.
abbrev pub moved : ℕ → ℕ → ℕ → Memory → Memory
moved d s n mem a = if leb d a && ltb a (d + n) then mem (s + (a - d)) else mem a

moved-at :
    (d s n d' s' n' : ℕ) (mem : Memory) (a : ℕ)
    → d ≡ d'
    → s ≡ s'
    → n ≡ n'
    → moved d s n mem a ≡ moved d' s' n' mem a
moved-at d s n d' s' n' mem a e f g = rw (e, f, g) refl

rep_up-moved :
    (w n d s : ℕ) (mem : Memory) (a : ℕ)
    → (d ≤ s) ⊎ (s + w * n ≤ d)
    → rep_up w n d s mem a ≡ moved d s (w * n) mem a
unfolding rep_up move_block
rep_up-moved w zero d s mem a h = ground arith
rep_up-moved w (suc n) d s mem a h =
    let e : w * suc n ≡ w + w * n = omega arith in
    let same : d + w ≤ a → mem (s + w + (a - (d + w))) ≡ mem (s + (a - d)) =
      λ l. ap mem (omega arith) in
    rep_up-moved w n (d + w) (s + w) (move_block w d s mem) a (ground (arith, e))
    ∙ ground (arith, e, same)

rep_down-moved :
    (w n d s : ℕ) (mem : Memory) (a : ℕ)
    → s ≤ d
    → w * n ≤ s
    → rep_down w n d s mem a ≡ moved (d - w * n) (s - w * n) (w * n) mem a
unfolding rep_down move_block
rep_down-moved w zero d s mem a h l = ground arith
rep_down-moved w (suc n) d s mem a h l =
    let e : w * suc n ≡ w + w * n = omega arith in
    let last : d - w ≤ a
        → mem (s - w + (a - (d - w))) ≡ mem (s - w * suc n + (a - (d - w * suc n))) =
      λ k. ap mem (omega (arith, e)) in
    let rest : d - w - w * n ≤ a
        → mem (s - w - w * n + (a - (d - w - w * n)))
          ≡ mem (s - w * suc n + (a - (d - w * suc n))) =
      λ k. ap mem (omega (arith, e)) in
    rep_down-moved w n (d - w) (s - w) (move_block w (d - w) (s - w) mem) a (omega arith)
      (omega (arith, e))
    ∙ ground (arith, e, last, rest)

memcpy-moved :
    (d s n : ℕ) (mem : Memory) (a : ℕ)
    → (d ≤ s) ⊎ (s + n ≤ d)
    → memcpy d s n mem a ≡ moved d s n mem a
unfolding memcpy
memcpy-moved d s n mem a h = elim (Bool-cases (leb 8 n)) [
  | inl long ↦
      (let q = 8 * (n / 8) in
        let bulk : (x : ℕ)
            → (d ≤ s) ⊎ (s + q ≤ d)
            → rep_up 8 (n / 8) d s mem x ≡ moved d s q mem x =
          rep_up-moved 8 (n / 8) d s mem in
        let split : n ≡ q + n % 8 = omega arith in
        let same : d + q ≤ a → mem (s + q + (a - (d + q))) ≡ mem (s + (a - d)) =
          λ l. ap mem (omega arith) in
        rw (long, memcpy)
          (rep_up-moved 1 (n % 8) (d + q) (s + q) (rep_up 8 (n / 8) d s mem) a (omega (arith, h))
            ∙ ground (
              arith,
              split,
              h,
              same,
              bulk a (omega (arith, h)),
              bulk (s + q + (a - (d + q))) (omega (arith, h)),
            )))
  | inr short ↦
      rw (short, memcpy)
        (rep_up-moved 1 n d s mem a (omega (arith, h))
          ∙ moved-at d s (1 * n) d s n mem a refl refl (omega arith))
]

backward :
    (d s n : ℕ) (mem : Memory) (a : ℕ)
    → s ≤ d
    → rep_down 8 (n / 8) (d + n - n % 8) (s + n - n % 8) (rep_down 1 (n % 8) (d + n) (s + n) mem) a
      ≡ moved d s n mem a
backward d s n mem a h =
    let q = 8 * (n / 8) in
    let split : n ≡ q + n % 8 = omega arith in
    let tail : (x : ℕ)
        → rep_down 1 (n % 8) (d + n) (s + n) mem x ≡ moved (d + q) (s + q) (n % 8) mem x =
      λ x.
        rep_down-moved 1 (n % 8) (d + n) (s + n) mem x (omega arith) (omega (arith, split))
        ∙ moved-at (d + n - 1 * (n % 8)) (s + n - 1 * (n % 8)) (1 * (n % 8)) (d + q) (s + q) (n % 8)
            mem x (omega (arith, split)) (omega (arith, split)) (omega arith) in
    let same : d + q ≤ a → mem (s + q + (a - (d + q))) ≡ mem (s + (a - d)) =
      λ l. ap mem (omega arith) in
    rep_down-moved 8 (n / 8) (d + n - n % 8) (s + n - n % 8)
      (rep_down 1 (n % 8) (d + n) (s + n) mem) a (omega (arith, split)) (omega (arith, split))
    ∙ moved-at (d + n - n % 8 - q) (s + n - n % 8 - q) q d s q
        (rep_down 1 (n % 8) (d + n) (s + n) mem) a (omega (arith, split)) (omega (arith, split))
        refl
    ∙ ground (arith, split, same, tail a, tail (s + (a - d)))

-- `memmove` moves the bytes of any object to any place, in units of eight and the rest singly,
-- forward or backward: however the two overlap, the target holds what the source held before, and
-- no other byte changes.
pub memmove-moved :
    (dest src n : ℕ) (mem : Memory) (a : ℕ) → memmove dest src n mem a ≡ moved dest src n mem a
unfolding memmove
memmove-moved dest src n mem a = elim (Bool-cases (dest == src || n == 0)) [
  | inl nothing ↦
      rw (nothing, memmove)
        (let same : dest ≡ src → dest ≤ a → mem a ≡ mem (src + (a - dest)) =
            λ e l. ap mem (omega (arith, e)) in
          ground (arith, nothing, same))
  | inr something ↦ elim (Bool-cases (ltb dest src || leb (src + n) dest)) [
    | inl apart ↦
        rw (something, apart, memmove) (memcpy-moved dest src n mem a (ground (arith, apart)))
    | inr overlap ↦ elim (Bool-cases (leb 8 n)) [
      | inl long ↦
          rw (something, overlap, long, memmove)
            (backward dest src n mem a (ground (arith, overlap)))
      | inr short ↦
          rw (something, overlap, short, memmove)
            (rep_down-moved 1 n (dest + n) (src + n) mem a (ground (arith, overlap)) (omega arith)
              ∙ moved-at (dest + n - 1 * n) (src + n - 1 * n) (1 * n) dest src n mem a (omega arith)
                  (omega arith) (omega arith))
    ]
  ]
]
