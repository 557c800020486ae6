-- ===== src/Base/Int.antt =====
-- Signed integers, as a C `int` returns them: a count, or a negated error number.
use Prim.Native.Nat.{ℕ, ◌-◌}

-- `negsuc n` is -(n + 1).
pub data ℤ : Type 0 where
  pos : ℕ → ℤ
  negsuc : ℕ → ℤ

-- `-e` for an error number `e`, which is never 0.
abbrev pub neg : ℕ → ℤ
neg e = negsuc (e - 1)
