-- ===== src/WorkQueue.antt =====
-- kernel/workqueue_def.c, kernel/workqueue_def.h: work that is put off. A work item is a number;
-- the circular list is the sequence of its items. `calls` are the calls of work functions, in
-- order; what such a function does to the queue is the parameter `effect`.
pub mod Order
mod Tests
use alze_os.Base.{
  ℕ, zero, suc, ◌+◌, ◌%◌, ◌^◌, Bool, true, false, not, List, [], ◌∷◌, ◌++◌, if◌then◌else◌, update,
  Option, none, some,
}

pub record WorkQueue : Type 0 where
  pub items : List ℕ
  pub pending : ℕ → Bool
  pub processed : ℕ
  pub calls : List ℕ

unfoldable pub workqueue_init : WorkQueue
workqueue_init = record { items = []; pending = λ w. false; processed = 0; calls = [] }

unfoldable pub workqueue_schedule : ℕ → WorkQueue → WorkQueue
workqueue_schedule w wq =
    if not (wq.pending w)
    then record wq { pending = update wq.pending w true; items = wq.items ++ (w ∷ []) }
    else wq

unfoldable pub workqueue_pending : WorkQueue → Bool
workqueue_pending wq = elim wq.items [ [] ↦ false | _ ∷ _ ↦ true ]

-- One round of the loop, up to the call of the work function.
unfoldable pub take_work : ℕ → List ℕ → WorkQueue → WorkQueue
take_work w rest wq = record wq {
  items = rest;
  pending = update wq.pending w false;
  processed = (wq.processed + 1) % 2 ^ 64;
  calls = wq.calls ++ (w ∷ []);
}

-- At most `fuel` rounds: none when they do not empty the queue.
unfoldable pub workqueue_process : (ℕ → WorkQueue → WorkQueue) → ℕ → WorkQueue → Option WorkQueue
workqueue_process effect zero wq = if workqueue_pending wq then none else some wq
workqueue_process effect (suc fuel) wq = elim wq.items [
  | [] ↦ some wq
  | w ∷ rest ↦ workqueue_process effect fuel (effect w (take_work w rest wq))
]
