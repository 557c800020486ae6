-- ===== src/WorkQueue/Tests.antt =====
-- kernel/workqueue_def.c: two items in a queue.
use alze_os.Base.{◌≡◌, ◌==◌, ◌||◌, [], ◌∷◌, arith}
use alze_os.WorkQueue.{WorkQueue, workqueue_schedule}
use alze_os.WorkQueue.Order.{IsValid, workqueue_schedule-IsValid}

abbrev two : WorkQueue
two = record { items = 4 ∷ 2 ∷ []; pending = λ w. w == 4 || w == 2; processed = 0; calls = [] }

two-IsValid : IsValid two
two-IsValid = record { distinct = ground arith; pending = λ w. ground arith }

workqueue_schedule-IsValid_example :
    IsValid (workqueue_schedule 5 two)
    × ((workqueue_schedule 5 two).items ≡ 4 ∷ 2 ∷ 5 ∷ [])
    × (workqueue_schedule 5 (workqueue_schedule 5 two) ≡ workqueue_schedule 5 two)
workqueue_schedule-IsValid_example = workqueue_schedule-IsValid 5 two two-IsValid
