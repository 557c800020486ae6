-- ===== src/Sync/RwLock.antt =====
-- kernel/rwlock.h: a spinning read-write lock that prefers writers. Each step is one critical
-- section of its spinlock; a round of a loop that does not get the lock changes nothing. The
-- `int32_t` counters are words.
use alze_os.Base.{
  ℕ, suc, ◌+◌, ◌-◌, ◌%◌, ◌^◌, ◌≡◌, ◌<◌, ◌≤◌, refl, ◌⊎◌, inl, Bool, true, false, ◌&&◌, ◌==◌,
  if◌then◌else◌, arith,
}

pub record RwLock : Type 0 where
  pub readers : ℕ
  pub writer : ℕ
  pub w_waiting : ℕ

unfoldable pub rwlock_init : RwLock
rwlock_init = record { readers = 0; writer = 0; w_waiting = 0 }

-- One round of the loop: whether it returns.
unfoldable pub rwlock_read_lock : RwLock → Bool × RwLock
rwlock_read_lock rw_lock =
    if rw_lock.writer == 0 && rw_lock.w_waiting == 0
    then (true, record rw_lock { readers = (rw_lock.readers + 1) % 2 ^ 32 })
    else (false, rw_lock)

unfoldable pub rwlock_read_unlock : RwLock → RwLock
rwlock_read_unlock rw_lock = record rw_lock { readers = (rw_lock.readers + 2 ^ 32 - 1) % 2 ^ 32 }

-- The first critical section of `rwlock_write_lock`.
unfoldable pub announce_writer : RwLock → RwLock
announce_writer rw_lock = record rw_lock { w_waiting = (rw_lock.w_waiting + 1) % 2 ^ 32 }

-- One round of its loop: whether it returns.
unfoldable pub rwlock_write_lock : RwLock → Bool × RwLock
rwlock_write_lock rw_lock =
    if rw_lock.readers == 0 && rw_lock.writer == 0
    then (
      true,
      record rw_lock { writer = 1; w_waiting = (rw_lock.w_waiting + 2 ^ 32 - 1) % 2 ^ 32 },
    )
    else (false, rw_lock)

unfoldable pub rwlock_write_unlock : RwLock → RwLock
rwlock_write_unlock rw_lock = record rw_lock { writer = 0 }

-- The lock, and how many threads are out, reading, waiting to write, and writing.
pub record System : Type 0 where
  pub rw_lock : RwLock
  pub out : ℕ
  pub reading : ℕ
  pub waiting : ℕ
  pub writing : ℕ

abbrev pub move : Bool → ℕ → ℕ
move b n = if b then suc n else n

abbrev pub stay : Bool → ℕ → ℕ
stay b n = if b then n else suc n

pub data Step (s : System) : System → Type 0 where
  read_lock :
      (n : ℕ)
      → s.out ≡ suc n
      → Step s (record s {
        rw_lock = (rwlock_read_lock s.rw_lock).1;
        out = stay (rwlock_read_lock s.rw_lock).0 n;
        reading = move (rwlock_read_lock s.rw_lock).0 s.reading;
      })
  read_unlock :
      (n : ℕ)
      → s.reading ≡ suc n
      → Step s (record s { rw_lock = rwlock_read_unlock s.rw_lock; out = suc s.out; reading = n })
  write_announce :
      (n : ℕ)
      → s.out ≡ suc n
      → Step s (record s { rw_lock = announce_writer s.rw_lock; out = n; waiting = suc s.waiting })
  write_lock :
      (n : ℕ)
      → s.waiting ≡ suc n
      → Step s (record s {
        rw_lock = (rwlock_write_lock s.rw_lock).1;
        waiting = stay (rwlock_write_lock s.rw_lock).0 n;
        writing = move (rwlock_write_lock s.rw_lock).0 s.writing;
      })
  write_unlock :
      (n : ℕ)
      → s.writing ≡ suc n
      → Step s (record s { rw_lock = rwlock_write_unlock s.rw_lock; out = suc s.out; writing = n })

pub data Reachable (threads : ℕ) : System → Type 0 where
  start :
      Reachable threads
        (record { rw_lock = rwlock_init; out = threads; reading = 0; waiting = 0; writing = 0 })
  next : (s s' : System) → Reachable threads s → Step s s' → Reachable threads s'

record Counts (threads : ℕ) (s : System) : Type 0 where
  all : s.out + s.reading + s.waiting + s.writing ≡ threads
  readers : s.rw_lock.readers ≡ s.reading
  waiters : s.rw_lock.w_waiting ≡ s.waiting
  writers : s.rw_lock.writer ≡ s.writing
  apart : (s.writing ≡ 0) ⊎ ((s.writing ≡ 1) × (s.reading ≡ 0))

Step-Counts :
    (threads : ℕ) (s s' : System)
    → threads < 2 ^ 31
    → Step s s'
    → Counts threads s
    → Counts threads s'
unfolding rwlock_read_lock rwlock_read_unlock announce_writer rwlock_write_lock rwlock_write_unlock
Step-Counts threads s s' h (read_lock n e) c = record {
  all = ground (arith, c.all);
  readers = ground (arith, c.all, c.readers);
  waiters = ground (arith, c.waiters);
  writers = ground (arith, c.writers);
  apart = ground (arith, c.apart, c.writers);
}
Step-Counts threads s s' h (read_unlock n e) c = record {
  all = ground (arith, c.all);
  readers = ground (arith, c.all, c.readers);
  waiters = ground (arith, c.waiters);
  writers = ground (arith, c.writers);
  apart = ground (arith, c.apart, c.writers);
}
Step-Counts threads s s' h (write_announce n e) c = record {
  all = ground (arith, c.all);
  readers = ground (arith, c.all, c.readers);
  waiters = ground (arith, c.all, c.waiters);
  writers = ground (arith, c.writers);
  apart = ground (arith, c.apart, c.writers);
}
Step-Counts threads s s' h (write_lock n e) c = record {
  all = ground (arith, c.all);
  readers = ground (arith, c.all, c.readers);
  waiters = ground (arith, c.all, c.waiters);
  writers = ground (arith, c.writers);
  apart = ground (arith, c.apart, c.writers, c.readers);
}
Step-Counts threads s s' h (write_unlock n e) c = record {
  all = ground (arith, c.all);
  readers = ground (arith, c.all, c.readers);
  waiters = ground (arith, c.waiters);
  writers = ground (arith, c.writers, c.apart);
  apart = ground (arith, c.apart, c.writers);
}

Reachable-Counts :
    (threads : ℕ) (s : System) → threads < 2 ^ 31 → Reachable threads s → Counts threads s
unfolding rwlock_init
Reachable-Counts threads s h start = record {
  all = omega arith;
  readers = refl;
  waiters = refl;
  writers = refl;
  apart = inl refl;
}
Reachable-Counts threads after h (next s s' r step) =
    Step-Counts threads s s' h step (Reachable-Counts threads s h r)

-- Among fewer than 2^31 threads, and however their critical sections interleave, at most one
-- thread writes, nobody reads while one does, and while a writer waits no new reader gets in.
pub Reachable-exclusion_lem :
    (threads : ℕ) (s : System)
    → threads < 2 ^ 31
    → Reachable threads s
    → (s.writing ≤ 1)
      × ((s.writing ≡ 0) ⊎ (s.reading ≡ 0))
      × (0 < s.waiting → rwlock_read_lock s.rw_lock ≡ (false, s.rw_lock))
unfolding rwlock_read_lock
Reachable-exclusion_lem threads s h r =
    let c = Reachable-Counts threads s h r in
    (ground (arith, c.apart), ground (arith, c.apart), λ w. ground (arith, c.waiters))
