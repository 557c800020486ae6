-- ===== src/Sync/Semaphore.antt =====
-- kernel/semaphore.c, kernel/semaphore.h. The count is an `int`: its word is kept, 2^31 and above
-- for negative values. `sem_try` is one round of the loop of `sem_wait`.
pub mod Count
use alze_os.Base.{
  ℕ, zero, suc, ◌+◌, ◌-◌, ◌*◌, ◌%◌, ◌^◌, ◌&&◌, Bool, true, false, List, [], ◌∷◌, ltb, if◌then◌else◌,
  ℤ, pos, neg,
}
use alze_os.Errno.{eagain}
use alze_os.Sync.{Tasks, sleep_on, make_ready, wq_init, wq_wake_one}

pub record Semaphore : Type 0 where
  pub count : ℕ
  pub waiters : List ℕ

unfoldable pub sem_init : ℕ → Semaphore
sem_init count = record { count = count; waiters = wq_init }

-- `sem->count > 0`
abbrev pub positive : ℕ → Bool
positive n = ltb 0 n && ltb n (2 ^ 31)

-- Whether the round returns; if not, the task sleeps.
unfoldable pub sem_try : ℕ → Semaphore → Tasks → Bool × Semaphore × Tasks
sem_try cur sem ts =
    if positive sem.count then (true, record sem { count = sem.count - 1 }, ts) else (
      false,
      record sem { waiters = (sleep_on cur sem.waiters ts).0 },
      (sleep_on cur sem.waiters ts).1,
    )

unfoldable pub sem_post : Semaphore → Tasks → Semaphore × Tasks
sem_post sem ts = (
  record sem { count = (sem.count + 1) % 2 ^ 32; waiters = (wq_wake_one sem.waiters ts).1 },
  (wq_wake_one sem.waiters ts).2,
)

unfoldable pub sem_trywait : Semaphore → ℤ × Semaphore
sem_trywait sem =
    if positive sem.count then (pos 0, record sem { count = sem.count - 1 }) else (neg eagain, sem)

unfoldable pub sem_getvalue : Semaphore → ℕ
sem_getvalue sem = sem.count
