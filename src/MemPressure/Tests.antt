-- ===== src/MemPressure/Tests.antt =====
-- kernel/mempressure.c: a check with half of the frames free.
use alze_os.Base.{◌≡◌, refl, [], ◌∷◌}
use alze_os.Pmm.Tests.{half_used}
use alze_os.MemPressure.{MemPressure, normal, warning, mempressure_check, notify, level_of}

abbrev two_callbacks : MemPressure
two_callbacks = record { callbacks = 7 ∷ 3 ∷ []; last_level = normal }

told_test : (mempressure_check half_used two_callbacks).calls ≡ (7, warning) ∷ (3, warning) ∷ []
unfolding mempressure_check notify level_of
told_test = refl
