-- ===== src/IdPool.antt =====
-- kernel/bitmap_alloc.h: a pool of 64 small integers in one word, 1 for a free one. Each function
-- holds the pool's spinlock from its first read to its last write, so it is one step here.
pub mod Alloc
mod Tests
use alze_os.Base.{ℕ, ◌-◌, ◌^◌, Bool, true, false, not, ◌==◌, leb, if◌then◌else◌, ℤ, pos, negsuc}
use alze_os.Bits.{set_bit, clear_bit, test_bit, bsf, popcount}

pub record IdPool : Type 0 where
  pub bitmap : ℕ

abbrev pub id_pool_bits : ℕ
id_pool_bits = 64

-- `~0ULL`
pub id_pool_init : IdPool
id_pool_init = record { bitmap = 2 ^ 64 - 1 }

-- -1 when every id is in use.
unfoldable pub id_alloc : IdPool → ℤ × IdPool
id_alloc pool = if pool.bitmap == 0 then (negsuc 0, pool) else (
  pos (bsf 64 pool.bitmap),
  record pool { bitmap = clear_bit pool.bitmap (bsf 64 pool.bitmap) },
)

unfoldable pub id_free : IdPool → ℤ → IdPool
id_free pool (negsuc n) = pool
id_free pool (pos i) =
    if leb id_pool_bits i then pool else record pool { bitmap = set_bit pool.bitmap i }

unfoldable pub id_is_used : IdPool → ℤ → Bool
id_is_used pool (negsuc n) = false
id_is_used pool (pos i) = if leb id_pool_bits i then false else not (test_bit pool.bitmap i)

unfoldable pub id_pool_count_free : IdPool → ℕ
id_pool_count_free pool = popcount 64 pool.bitmap
