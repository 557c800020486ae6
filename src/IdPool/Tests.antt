-- ===== src/IdPool/Tests.antt =====
-- Runs of the id pool, and its theorems at a pool where ids 0 and 1 are in use.
use alze_os.Base.{ℕ, ◌-◌, ◌^◌, ◌≡◌, refl, true, not, ◌&&◌, ◌==◌, arith, pos, ◌<◌}
use alze_os.IdPool.{IdPool, id_alloc, id_free, id_is_used}
use alze_os.IdPool.Alloc.{
  IsValid, Allocated, id_alloc-Allocated, id_is_used-id_free, id_is_used-bit,
}
use alze_os.Bits.{bsf, zero-bit}

abbrev two_used : IdPool
two_used = record { bitmap = 2 ^ 64 - 4 }

abbrev all_used : IdPool
all_used = record { bitmap = 0 }

two_used-IsValid : IsValid two_used
two_used-IsValid = record { word = omega arith }

two_used-alloc : id_alloc two_used ≡ (pos 2, record { bitmap = 2 ^ 64 - 8 })
unfolding id_alloc bsf
two_used-alloc = refl

all_used-used : (j : ℕ) → j < 64 → id_is_used all_used (pos j) ≡ true
all_used-used j h = ground (arith, id_is_used-bit all_used j h, zero-bit j)

id_alloc-Allocated_example : Allocated two_used (bsf 64 two_used.bitmap) (id_alloc two_used)
unfolding id_is_used
id_alloc-Allocated_example = id_alloc-Allocated two_used 2 two_used-IsValid (omega arith) refl

id_is_used-id_free_example :
    id_is_used (id_free two_used (pos 1)) (pos 1) ≡ (not (1 == 1) && id_is_used two_used (pos 1))
id_is_used-id_free_example = id_is_used-id_free two_used 1 1 (omega arith) (omega arith)
