-- ===== src/Sync/Tests.antt =====
-- The blocking primitives at concrete states.
use alze_os.Base.{
  ℕ, ◌≡◌, ◌≤◌, ◌<◌, ◌⊎◌, ◌==◌, refl, true, false, [], ◌∷◌, length, if◌then◌else◌, some, arith,
}
use alze_os.Sync.{Tasks, task_running}
use alze_os.Sync.Semaphore.{sem_init, sem_try}
use alze_os.Sync.Semaphore.Count as Units
use alze_os.Sync.Mutex.{mutex_init, mutex_try, mutex_unlock}
use alze_os.Sync.Mutex.Inherit.{contend, best, mutex_unlock-contend}
use alze_os.Sync.Mutex.Exclusion as Held
use alze_os.Sync.AdaptiveMutex.{AdaptiveMutex}
use alze_os.Sync.Kevent.{Kevent, kevent_auto_reset}
use alze_os.Sync.Spinlock as Tickets
use alze_os.Sync.Spinlock.{spinlock_init, draw_ticket}
use alze_os.Sync.RwLock as Crowd
use alze_os.Sync.RwLock.{rwlock_init, announce_writer, rwlock_read_lock}

-- Task 0 has the priority 48, tasks 1 and 2 have 32 and 10.
abbrev three_tasks : Tasks
three_tasks = record {
  task = λ t. record {
    tid = t;
    state = task_running;
    priority = if t == 0 then 48 else if t == 1 then 32 else 10;
  };
  added = [];
}

mutex_unlock-contend_example :
    (((contend
          (1 ∷ 2 ∷ [])
          (mutex_try 0 mutex_init three_tasks).1
          (mutex_try 0 mutex_init three_tasks).2).1.task
        0).priority
      ≡ 10)
    × (((mutex_unlock
            (contend
              (1 ∷ 2 ∷ [])
              (mutex_try 0 mutex_init three_tasks).1
              (mutex_try 0 mutex_init three_tasks).2).0
            (contend
              (1 ∷ 2 ∷ [])
              (mutex_try 0 mutex_init three_tasks).1
              (mutex_try 0 mutex_init three_tasks).2).1).1.task
          0).priority
        ≡ 48)
unfolding best mutex_init
mutex_unlock-contend_example =
    mutex_unlock-contend mutex_init three_tasks 0 (1 ∷ 2 ∷ []) refl (ground arith)

abbrev initial : Held.System
initial = record { mutex = mutex_init; tasks = three_tasks; inside = [] }

-- Task 1 has the mutex.
abbrev taken : Held.System
taken = record {
  mutex = (mutex_try 1 mutex_init three_tasks).1;
  tasks = (mutex_try 1 mutex_init three_tasks).2;
  inside = if (mutex_try 1 mutex_init three_tasks).0 then 1 ∷ [] else [];
}

Reachable-exclusion_example :
    (length taken.inside ≤ 1)
    × ((taken.mutex.locked ≡ true
          → (o : ℕ) × (taken.inside ≡ o ∷ []) × (taken.mutex.owner ≡ some o))
        × (taken.mutex.locked ≡ false → taken.inside ≡ []))
Reachable-exclusion_example =
    Held.Reachable-exclusion taken (
      Held.Reachable.next initial taken (Held.Reachable.start three_tasks) (Held.Step.lock_round 1))

abbrev fresh : Units.System
fresh = record { sem = sem_init 1; tasks = three_tasks; taken = 0; posted = 0; woken = 0 }

abbrev one_less : Units.System
one_less = record {
  sem = (sem_try 1 (sem_init 1) three_tasks).1;
  tasks = (sem_try 1 (sem_init 1) three_tasks).2;
  taken = Units.count_if (sem_try 1 (sem_init 1) three_tasks).0 0;
  posted = 0;
  woken = 0;
}

abbrev held_by_zero : AdaptiveMutex
held_by_zero = record { locked = true; owner = some 0; waiters = []; owner_prio = 0 }

abbrev event : Kevent
event = record { signaled = false; type = kevent_auto_reset; waiters = [] }

abbrev two_out : Crowd.System
two_out = record { rw_lock = rwlock_init; out = 2; reading = 0; waiting = 0; writing = 0 }

abbrev one_waits : Crowd.System
one_waits = record {
  rw_lock = announce_writer rwlock_init;
  out = 1;
  reading = 0;
  waiting = 1;
  writing = 0;
}

Reachable-exclusion_lem_example :
    (0 ≤ 1)
    × ((one_waits.writing ≡ 0) ⊎ (one_waits.reading ≡ 0))
    × (0 < 1 → rwlock_read_lock one_waits.rw_lock ≡ (false, one_waits.rw_lock))
Reachable-exclusion_lem_example = Crowd.Reachable-exclusion_lem 2 one_waits (omega arith) (
    Crowd.Reachable.next two_out one_waits Crowd.Reachable.start (Crowd.Step.write_announce 1 refl))

abbrev nobody : Tickets.System
nobody = record { lock = spinlock_init; line = [] }

abbrev one_drawn : Tickets.System
one_drawn = record {
  lock = (draw_ticket spinlock_init).1;
  line = record { my_ticket = (draw_ticket spinlock_init).0; inside = false } ∷ [];
}
