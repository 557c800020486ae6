-- ===== src/Strings/Fill.antt =====
-- What `memset` does to memory.
use alze_os.Base.{
  holds_to, holds_to-at, ℕ, zero, suc, ◌+◌, ◌*◌, ◌/◌, ◌%◌, ◌≡◌, ◌<◌, refl, ap, ◌∙◌, true, ◌==◌, leb,
  Bool-cases, ==_iff, inl, inr, arith,
}
use alze_os.Words.{store, filled}
use alze_os.Strings.{Memory, rep_store, broadcast, memset}

-- Every byte of the broadcast word is the byte.
broadcast_table : holds_to (λ v. broadcast v == v * 0x0101010101010101) 256 ≡ true
unfolding holds_to broadcast
broadcast_table = refl

broadcast_lem : (v : ℕ) → v < 256 → broadcast v ≡ v * 0x0101010101010101
broadcast_lem v h = (==_iff _ _).0 (holds_to-at _ 256 broadcast_table v h)

store-filled_one : (mem : Memory) (d v j : ℕ) → v < 256 → store 1 mem d v j ≡ filled d 1 v mem j
unfolding store
store-filled_one mem d v j h = ground arith

store-filled_eight :
    (mem : Memory) (d v j : ℕ)
    → v < 256
    → store 8 mem d (v * 0x0101010101010101) j ≡ filled d 8 v mem j
unfolding store
store-filled_eight mem d v j h = ground arith

rep_store-filled :
    (w word v : ℕ)
    → ((mem : Memory) (d j : ℕ) → store w mem d word j ≡ filled d w v mem j)
    → (n d : ℕ) (mem : Memory) (j : ℕ) → rep_store w n d word mem j ≡ filled d (w * n) v mem j
unfolding rep_store
rep_store-filled w word v one zero d mem j = ground arith
rep_store-filled w word v one (suc n) d mem j =
    let e : w * suc n ≡ w + w * n = omega arith in
    rep_store-filled w word v one n (d + w) (store w mem d word) j ∙ ground (arith, e, one mem d j)

-- `memset` sets `n` bytes from `dest` on to the low byte of `val`, and leaves the rest of memory.
pub memset-filled :
    (dest val n : ℕ) (mem : Memory) (j : ℕ)
    → memset dest val n mem j ≡ filled dest n (val % 256) mem j
unfolding memset
memset-filled dest val n mem j =
    let v = val % 256 in
    let q = 8 * (n / 8) in
    let bulk : rep_store 8 (n / 8) dest (broadcast v) mem
        ≡ rep_store 8 (n / 8) dest (v * 0x0101010101010101) mem =
      ap (λ word. rep_store 8 (n / 8) dest word mem) (broadcast_lem v (omega arith)) in
    elim (Bool-cases (leb 8 n)) [
      | inl long ↦ rw long (
          ap (λ m. rep_store 1 (n % 8) (dest + q) v m j) bulk
          ∙ rep_store-filled 1 v v (λ m d i. store-filled_one m d v i (omega arith)) (n % 8)
              (dest + q) (rep_store 8 (n / 8) dest (v * 0x0101010101010101) mem) j
          ∙ ground (
            arith,
            rep_store-filled 8 (v * 0x0101010101010101) v
                (λ m d i. store-filled_eight m d v i (omega arith)) (n / 8) dest mem j,
          ))
      | inr short ↦ rw short (
          rep_store-filled 1 v v (λ m d i. store-filled_one m d v i (omega arith)) n dest mem j
          ∙ ground arith)
    ]
