-- ===== src/Sync/Kevent.antt =====
-- kernel/kevent.h: events that tasks wait for. `kevent_wait` tests the flag under the lock of the
-- event, and lets that lock go before it calls `wq_wait`: `kevent_check` is the test, and a task
-- for which it fails goes to sleep in a step of its own.
use alze_os.Base.{ℕ, ◌≡◌, ◌⊎◌, Bool, true, false, List, if◌then◌else◌, arith}
use alze_os.Sync.{Tasks, wq_init, wq_wait, wq_wake_one, wq_wake_all}

pub data KeventType : Type 0 where
  kevent_manual_reset kevent_auto_reset : KeventType

pub record Kevent : Type 0 where
  pub signaled : Bool
  pub type : KeventType
  pub waiters : List ℕ

unfoldable pub kevent_init : KeventType → Kevent
kevent_init type = record { signaled = false; type = type; waiters = wq_init }

unfoldable pub wake : KeventType → List ℕ → Tasks → List ℕ × Tasks
wake kevent_auto_reset waiters ts = ((wq_wake_one waiters ts).1, (wq_wake_one waiters ts).2)
wake kevent_manual_reset waiters ts = ((wq_wake_all waiters ts).1, (wq_wake_all waiters ts).2)

unfoldable pub kevent_signal : Kevent → Tasks → Kevent × Tasks
kevent_signal e ts = (
  record e { signaled = true; waiters = (wake e.type e.waiters ts).0 },
  (wake e.type e.waiters ts).1,
)

abbrev pub clears : KeventType → Bool
clears kevent_auto_reset = true
clears kevent_manual_reset = false

-- Whether `kevent_wait` returns, with the event after it.
unfoldable pub kevent_check : Kevent → Bool × Kevent
kevent_check e =
    if e.signaled
    then (true, record e { signaled = if clears e.type then false else e.signaled })
    else (false, e)

unfoldable pub kevent_sleep : ℕ → Kevent → Tasks → Kevent × Tasks
kevent_sleep cur e ts =
    (record e { waiters = (wq_wait cur e.waiters ts).0 }, (wq_wait cur e.waiters ts).1)

unfoldable pub kevent_reset : Kevent → Kevent
kevent_reset e = record e { signaled = false }

unfoldable pub kevent_is_signaled : Kevent → Bool
kevent_is_signaled e = e.signaled

-- After a signal an event of the manual kind lets every `kevent_wait` through until it is reset,
-- and none after; one of the automatic kind lets exactly one through.
pub kevent_check-kevent_signal :
    (e : Kevent) (ts : Tasks)
    → (((e.type ≡ kevent_manual_reset)
          × (kevent_check (kevent_signal e ts).0 ≡ (true, (kevent_signal e ts).0)))
        ⊎ ((e.type ≡ kevent_auto_reset)
            × ((kevent_check (kevent_signal e ts).0).0 ≡ true)
            × ((kevent_check (kevent_check (kevent_signal e ts).0).1).0 ≡ false)))
      × ((kevent_check (kevent_reset (kevent_signal e ts).0)).0 ≡ false)
unfolding kevent_check kevent_signal kevent_reset
kevent_check-kevent_signal e ts = ground arith
