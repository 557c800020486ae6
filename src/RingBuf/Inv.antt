-- ===== src/RingBuf/Inv.antt =====
-- The invariant of a ring and the list of bytes that it holds.
use native.Mathlib.Nat.{pow-suc, add-zero, pow-le-pow_right, mod-mod_of_dvd, dvd-mul_left}
use Prim.Native.Nat.{◌∣◌}
use mathlib.Core.Path.{subst}
use alze_os.Base.{
  ℕ, zero, suc, ◌+◌, ◌-◌, ◌*◌, ◌%◌, ◌^◌, ◌≤◌, ◌<◌, ◌≡◌, sym, ap, ◌∙◌, bit_and, List, window, length,
  length-window, arith,
}
use alze_os.Bits.{bit_and-mask}
use alze_os.RingBuf.{RingBuf, add32, ring_used, ring_free}

pub record IsValid (k : ℕ) (r : RingBuf) : Type 0 where
  pub width : k ≤ 31
  pub power : r.size ≡ 2 ^ k
  pub masks : r.mask ≡ 2 ^ k - 1
  pub head_word : r.head < 2 ^ 32
  pub tail_word : r.tail < 2 ^ 32
  pub fits : ring_used r ≤ r.size

-- The bytes held, oldest first.
abbrev pub contents : RingBuf → List ℕ
contents r = window r.storage r.size r.tail (ring_used r)

pub length-contents : (r : RingBuf) → length (contents r) ≡ ring_used r
length-contents r = length-window r.storage r.size r.tail (ring_used r)

pow-add : (k j : ℕ) → 2 ^ (k + j) ≡ 2 ^ j * 2 ^ k
pow-add k zero = rw (add-zero k) (omega arith)
pow-add k (suc j) =
    ap (λ t. 2 ^ t) (omega arith)
    ∙ pow-suc 2 (k + j)
    ∙ ground (arith, pow-add k j, pow-suc 2 j, ap (λ (t : ℕ). t * 2 ^ k) (pow-suc 2 j))

-- `2 ^ k` divides `2 ^ 32`, so wrapping a position does not move it in the ring.
pub pow-mod_32 : (k x : ℕ) → k ≤ 32 → x % 2 ^ 32 % 2 ^ k ≡ x % 2 ^ k
pow-mod_32 k x h = mod-mod_of_dvd (2 ^ k) x (
    subst (λ t. 2 ^ k ∣ t) (sym (pow-add k (32 - k)) ∙ ap (λ t. 2 ^ t) {y = 32} (omega arith))
      (dvd-mul_left (2 ^ k) (2 ^ (32 - k))))

module _ {k : ℕ} {r : RingBuf} (v : IsValid k r) where
  open v use {width, power, masks}

  pub size-le : r.size ≤ 2 ^ 31
  size-le = rw power (pow-le-pow_right {n = 2} (omega arith) {i = k} {j = 31} width)

  -- `(p & mask)` after a wrapping sum is the place of the sum in the ring.
  pub place : (p i : ℕ) → bit_and (add32 p i) r.mask ≡ (p + i) % r.size
  place p i = rw (masks, bit_and-mask, power) (pow-mod_32 k (p + i) (omega arith))

  pub head-eq : r.head ≡ (r.tail + ring_used r) % 2 ^ 32
  unfolding ring_used
  head-eq = omega arith

  pub free-eq : ring_free r ≡ r.size - ring_used r
  unfolding ring_free ring_used
  free-eq = omega (arith, size-le, v.fits)
