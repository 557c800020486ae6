-- ===== src/Sync.antt =====
-- kernel/waitqueue.c, kernel/waitqueue.h and the fields of a task in kernel/task.h that the
-- blocking primitives use. A pointer to a task is a number; the circular list of a wait queue is
-- the sequence of the tasks in it, first to last. `added` records the calls of `sched_add_ready`.
-- A function that sleeps is cut at its call of `schedule`.
pub mod Queue
pub mod Semaphore
pub mod Mutex
pub mod AdaptiveMutex
pub mod Kevent
pub mod RwLock
pub mod Spinlock
mod Tests
use alze_os.Base.{ℕ, zero, suc, ◌+◌, ◌%◌, ◌^◌, Bool, true, false, List, [], ◌∷◌, ◌++◌, update}

pub data TaskState : Type 0 where
  task_ready task_running task_sleeping task_dead : TaskState

pub record Task : Type 0 where
  pub tid : ℕ
  pub state : TaskState
  pub priority : ℕ

pub record Tasks : Type 0 where
  pub task : ℕ → Task
  pub added : List ℕ

unfoldable pub set_state : ℕ → TaskState → Tasks → Tasks
set_state t state ts = record ts { task = update ts.task t (record (ts.task t) { state = state }) }

unfoldable pub set_priority : ℕ → ℕ → Tasks → Tasks
set_priority t priority ts = record ts {
  task = update ts.task t (record (ts.task t) { priority = priority });
}

-- `cur->state = TASK_SLEEPING; list_push_back(…);`
unfoldable pub sleep_on : ℕ → List ℕ → Tasks → List ℕ × Tasks
sleep_on cur waiters ts = (waiters ++ (cur ∷ []), set_state cur task_sleeping ts)

-- `t->state = TASK_READY; sched_add_ready(t);`
unfoldable pub make_ready : ℕ → Tasks → Tasks
make_ready t ts =
    let woken = set_state t task_ready ts in record woken { added = woken.added ++ (t ∷ []) }

unfoldable pub wq_init : List ℕ
wq_init = []

unfoldable pub wq_wait : ℕ → List ℕ → Tasks → List ℕ × Tasks
wq_wait cur waiters ts = sleep_on cur waiters ts

unfoldable pub wq_wake_one : List ℕ → Tasks → Bool × List ℕ × Tasks
wq_wake_one [] ts = (false, [], ts)
wq_wake_one (t ∷ waiters) ts = (true, waiters, make_ready t ts)

-- The loop of `wq_wake_all`, with its count so far.
unfoldable pub wake_loop : List ℕ → ℕ → Tasks → ℕ × Tasks
wake_loop [] count ts = (count, ts)
wake_loop (t ∷ waiters) count ts = wake_loop waiters (count + 1) (make_ready t ts)

unfoldable pub wq_wake_all : List ℕ → Tasks → ℕ × List ℕ × Tasks
wq_wake_all waiters ts = ((wake_loop waiters 0 ts).0, [], (wake_loop waiters 0 ts).1)
