-- ===== src/Sync/Mutex.antt =====
-- kernel/mutex.c, kernel/mutex.h: a sleeping mutex with priority inheritance. `mutex_try` is one
-- round of the loop of `mutex_lock`.
pub mod Inherit
pub mod Exclusion
use alze_os.Base.{
  ℕ, zero, suc, ◌&&◌, Bool, true, false, not, List, [], ◌∷◌, ltb, if◌then◌else◌, Option, none, some,
}
use alze_os.Sync.{Task, Tasks, set_priority, sleep_on, wq_init, wq_wake_one}

pub record Mutex : Type 0 where
  pub locked : Bool
  pub waiters : List ℕ
  pub owner_tid : ℕ
  pub owner : Option ℕ
  pub saved_priority : ℕ
  pub priority_boosted : Bool

unfoldable pub mutex_init : Mutex
mutex_init = record {
  locked = false;
  waiters = wq_init;
  owner_tid = 0;
  owner = none;
  saved_priority = 32;
  priority_boosted = false;
}

-- The ownership that both `mutex_lock` and `mutex_trylock` record.
unfoldable pub acquire : ℕ → Mutex → Tasks → Mutex
acquire cur m ts = record m {
  locked = true;
  owner = some cur;
  owner_tid = (ts.task cur).tid;
  saved_priority = (ts.task cur).priority;
  priority_boosted = false;
}

-- Whether the waiter has the higher priority: the lower number.
unfoldable pub boosts : ℕ → Option ℕ → Tasks → Bool
boosts cur none ts = false
boosts cur (some owner) ts = ltb (ts.task cur).priority (ts.task owner).priority

unfoldable pub boost : ℕ → Option ℕ → Tasks → Tasks
boost cur none ts = ts
boost cur (some owner) ts =
    if boosts cur (some owner) ts then set_priority owner (ts.task cur).priority ts else ts

-- Whether the round returns, with the mutex; if not, the task sleeps.
unfoldable pub mutex_try : ℕ → Mutex → Tasks → Bool × Mutex × Tasks
mutex_try cur m ts = if not m.locked then (true, acquire cur m ts, ts) else (
  false,
  record m {
    priority_boosted = if boosts cur m.owner ts then true else m.priority_boosted;
    waiters = (sleep_on cur m.waiters (boost cur m.owner ts)).0;
  },
  (sleep_on cur m.waiters (boost cur m.owner ts)).1,
)

-- The owner's priority comes back, if it was boosted.
unfoldable pub restore : Mutex → Tasks → Tasks
restore m ts = elim m.owner [
  | none ↦ ts
  | some owner ↦ if m.priority_boosted then set_priority owner m.saved_priority ts else ts
]

unfoldable pub has_owner : Option ℕ → Bool
has_owner none = false
has_owner (some _) = true

unfoldable pub mutex_unlock : Mutex → Tasks → Mutex × Tasks
mutex_unlock m ts = (
  record m {
    locked = false;
    owner = none;
    owner_tid = 0;
    priority_boosted =
        if m.priority_boosted && has_owner m.owner then false else m.priority_boosted;
    waiters = (wq_wake_one m.waiters (restore m ts)).1;
  },
  (wq_wake_one m.waiters (restore m ts)).2,
)

unfoldable pub mutex_trylock : ℕ → Mutex → Tasks → Bool × Mutex
mutex_trylock cur m ts = if not m.locked then (true, acquire cur m ts) else (false, m)
