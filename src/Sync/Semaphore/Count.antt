-- ===== src/Sync/Semaphore/Count.antt =====
-- The count of a semaphore, for every order in which tasks run its critical sections.
use alze_os.Base.{
  ℕ, suc, ◌+◌, ◌^◌, ◌≡◌, ◌⊎◌, ◌≤◌, ◌<◌, Bool, true, false, List, [], ◌∷◌, if◌then◌else◌,
}
use alze_os.Sync.{Tasks, wq_wake_one}
use alze_os.Sync.Semaphore.{Semaphore, sem_init, sem_try, sem_post, sem_trywait, positive}

-- `taken` and `posted` count the returns of `sem_wait` and `sem_trywait` and the calls of
-- `sem_post`; `woken` counts the tasks that were woken and have not tried again yet.
pub record System : Type 0 where
  pub sem : Semaphore
  pub tasks : Tasks
  pub taken : ℕ
  pub posted : ℕ
  pub woken : ℕ

abbrev is_nil : List ℕ → Bool
is_nil [] = true
is_nil (_ ∷ _) = false

abbrev pub count_if : Bool → ℕ → ℕ
count_if b n = if b then suc n else n

pub data Step (n : ℕ) (s : System) : System → Type 0 where
  wait :
      (cur : ℕ)
      → Step n s (record {
        sem = (sem_try cur s.sem s.tasks).1;
        tasks = (sem_try cur s.sem s.tasks).2;
        taken = count_if (sem_try cur s.sem s.tasks).0 s.taken;
        posted = s.posted;
        woken = s.woken;
      })
  wait_again :
      (cur w : ℕ)
      → s.woken ≡ suc w
      → Step n s (record {
        sem = (sem_try cur s.sem s.tasks).1;
        tasks = (sem_try cur s.sem s.tasks).2;
        taken = count_if (sem_try cur s.sem s.tasks).0 s.taken;
        posted = s.posted;
        woken = w;
      })
  trywait : Step n s (record {
    sem = (sem_trywait s.sem).1;
    tasks = s.tasks;
    taken = count_if (positive s.sem.count) s.taken;
    posted = s.posted;
    woken = s.woken;
  })
  -- The number of units stays an `int`.
  post :
      n + s.posted + 1 < 2 ^ 31
      → Step n s (record {
        sem = (sem_post s.sem s.tasks).0;
        tasks = (sem_post s.sem s.tasks).1;
        taken = s.taken;
        posted = suc s.posted;
        woken = count_if (wq_wake_one s.sem.waiters s.tasks).0 s.woken;
      })

pub data Reachable (n : ℕ) : System → Type 0 where
  start :
      (ts : Tasks)
      → Reachable n (record { sem = sem_init n; tasks = ts; taken = 0; posted = 0; woken = 0 })
  next : (s s' : System) → Reachable n s → Step n s s' → Reachable n s'

record Counts (n : ℕ) (s : System) : Type 0 where
  small : n + s.posted < 2 ^ 31
  conserved : s.sem.count + s.taken ≡ n + s.posted
  on_the_way : (is_nil s.sem.waiters ≡ true) ⊎ (s.sem.count ≤ s.woken)
