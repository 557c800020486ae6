-- ===== src/Sync/Queue.antt =====
-- Wait queues: tasks sleep in order and are woken in order.

use alze_os.Base.{
  ℕ, ◌+◌, ◌≡◌, refl, sym, ap, ◌∙◌, ◌==◌, Bool, true, false, List, [], ◌∷◌, ◌++◌, length,
  if◌then◌else◌, append_assoc, append-nil, arith,
}
use alze_os.Sync.{
  Tasks, task_ready, task_sleeping, set_state, sleep_on, make_ready, wq_init, wq_wait, wake_loop,
  wq_wake_all,
}

abbrev pub has : ℕ → List ℕ → Bool
has t [] = false
has t (x ∷ xs) = if t == x then true else has t xs

-- Tasks that call `wq_wait` one after the other.
unfoldable pub wait_all : List ℕ → List ℕ → Tasks → List ℕ × Tasks
wait_all [] waiters ts = (waiters, ts)
wait_all (cur ∷ rest) waiters ts =
    wait_all rest (wq_wait cur waiters ts).0 (wq_wait cur waiters ts).1

wake_loop_lem :
    (waiters : List ℕ) (n : ℕ) (ts : Tasks)
    → ((wake_loop waiters n ts).0 ≡ n + length waiters)
      × ((wake_loop waiters n ts).1.added ≡ ts.added ++ waiters)
unfolding wake_loop make_ready set_state
wake_loop_lem [] n ts = (omega arith, sym (append-nil ts.added))
wake_loop_lem (t ∷ waiters) n ts =
    let rest = wake_loop_lem waiters (n + 1) (make_ready t ts) in
    (omega (arith, rest.0), rest.1 ∙ append_assoc ts.added (t ∷ []) waiters)

wake_loop-state :
    (waiters : List ℕ) (n : ℕ) (ts : Tasks) (t : ℕ)
    → ((wake_loop waiters n ts).1.task t).state
      ≡ (if has t waiters then task_ready else (ts.task t).state)
unfolding wake_loop make_ready set_state
wake_loop-state [] n ts t = refl
wake_loop-state (x ∷ waiters) n ts t =
    ground (arith, wake_loop-state waiters (n + 1) (make_ready x ts) t)

wait_all_lem :
    (cs waiters : List ℕ) (ts : Tasks)
    → ((wait_all cs waiters ts).0 ≡ waiters ++ cs)
      × ((wait_all cs waiters ts).1.added ≡ ts.added)
      × ((t : ℕ)
          → ((wait_all cs waiters ts).1.task t).state
            ≡ (if has t cs then task_sleeping else (ts.task t).state))
unfolding wait_all wq_wait sleep_on set_state
wait_all_lem [] waiters ts = (sym (append-nil waiters), refl, λ t. refl)
wait_all_lem (c ∷ cs) waiters ts =
    let r = wait_all_lem cs (wq_wait c waiters ts).0 (wq_wait c waiters ts).1 in
    (r.0 ∙ append_assoc waiters (c ∷ []) cs, r.1, λ t. ground (arith, r.2 t))

-- Tasks that go to sleep on an empty queue are all asleep, and `wq_wake_all` wakes each of them,
-- in the order in which they came, and counts them. No other task changes its state.
pub wq_wake_all-wait_all :
    (cs : List ℕ) (ts : Tasks)
    → ((t : ℕ) → has t cs ≡ true → ((wait_all cs wq_init ts).1.task t).state ≡ task_sleeping)
      × ((wq_wake_all (wait_all cs wq_init ts).0 (wait_all cs wq_init ts).1).0 ≡ length cs)
      × ((wq_wake_all (wait_all cs wq_init ts).0 (wait_all cs wq_init ts).1).1 ≡ [])
      × ((wq_wake_all (wait_all cs wq_init ts).0 (wait_all cs wq_init ts).1).2.added
          ≡ ts.added ++ cs)
      × ((t : ℕ)
          → ((wq_wake_all (wait_all cs wq_init ts).0 (wait_all cs wq_init ts).1).2.task t).state
            ≡ (if has t cs then task_ready else (ts.task t).state))
unfolding wq_wake_all wq_init
wq_wake_all-wait_all cs ts =
    let (waiting, added, states) = wait_all_lem cs [] ts in
    let after = (wait_all cs [] ts).1 in
    let w = wake_loop_lem cs 0 after in
    rw waiting (
      λ t h. ground (arith, states t),
      w.0 ∙ omega arith,
      refl,
      w.1 ∙ ap (λ l. l ++ cs) added,
      λ t. ground (arith, wake_loop-state cs 0 after t, states t),
    )
