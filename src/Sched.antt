-- ===== src/Sched.antt =====
-- kernel/sched.c: the queues of the scheduler and the choice of the next task. A task is a number;
-- the circular lists are the sequences of their tasks. Each function runs under `sched_lock`. The
-- flag that asks for a reschedule, the stack canaries and the prefetch are left out.
pub mod Pick
mod Tests
use alze_os.Base.{
  ℕ, zero, suc, ◌+◌, ◌%◌, ◌^◌, Bool, true, false, not, ltb, leb, ◌==◌, if◌then◌else◌, List, [], ◌∷◌,
  ◌++◌, Option, none, some, update,
}
use alze_os.Bits.{set_bit, clear_bit, bsf}
use alze_os.Sync.{TaskState, task_ready, task_running, task_sleeping}

-- The fields that scheduling reads and writes.
pub record Thread : Type 0 where
  pub state : TaskState
  pub priority : ℕ
  pub deadline : ℕ
  pub sleep_until : ℕ
  pub watchdog_ticks : ℕ

pub record Sched : Type 0 where
  pub prio_queues : ℕ → List ℕ
  pub prio_bitmap : ℕ
  pub sleep_queue : List ℕ
  pub deadline_queue : List ℕ
  pub thread : ℕ → Thread
  pub current : ℕ
  pub idle : ℕ

unfoldable pub bitmap_find_first : ℕ → Option ℕ
bitmap_find_first bm = if bm == 0 then none else some (bsf 64 bm)

-- Before the first task with a later deadline.
unfoldable pub deadline_insert : (ℕ → Thread) → ℕ → List ℕ → List ℕ
deadline_insert thread t [] = t ∷ []
deadline_insert thread t (q ∷ rest) =
    if ltb (thread t).deadline (thread q).deadline
    then t ∷ q ∷ rest
    else q ∷ deadline_insert thread t rest

unfoldable pub deadline_enqueue : ℕ → Sched → Sched
deadline_enqueue t s = record s { deadline_queue = deadline_insert s.thread t s.deadline_queue }

unfoldable pub bitmap_enqueue : ℕ → Sched → Sched
bitmap_enqueue t s = if ltb 0 (s.thread t).deadline then deadline_enqueue t s else record s {
  prio_queues =
      update s.prio_queues (s.thread t).priority (s.prio_queues (s.thread t).priority ++ (t ∷ []));
  prio_bitmap = set_bit s.prio_bitmap (s.thread t).priority;
}

abbrev pub is_nil : List ℕ → Bool
is_nil [] = true
is_nil (_ ∷ _) = false

-- The queue `p` without its first task.
unfoldable pub take_first : ℕ → List ℕ → Sched → Sched
take_first p rest s = record s {
  prio_queues = update s.prio_queues p rest;
  prio_bitmap = if is_nil rest then clear_bit s.prio_bitmap p else s.prio_bitmap;
}

-- None for NULL. An empty queue whose bit is set does not occur.
unfoldable pub bitmap_dequeue : Sched → Option ℕ × Sched
bitmap_dequeue s = elim (bitmap_find_first s.prio_bitmap) [
  | none ↦ (none, s)
  | some p ↦ elim (s.prio_queues p) [ [] ↦ (none, s) | t ∷ rest ↦ (some t, take_first p rest s) ]
]

unfoldable pub edf_pick : Sched → Option ℕ × Sched
edf_pick s = elim s.deadline_queue [
  | [] ↦ (none, s)
  | t ∷ rest ↦ (some t, record s { deadline_queue = rest })
]

unfoldable pub or_idle : ℕ → Option ℕ → ℕ
or_idle idle none = idle
or_idle idle (some t) = t

-- The choice that `schedule` makes.
unfoldable pub pick_next : Sched → ℕ × Sched
pick_next s = elim (edf_pick s).0 [
  | some t ↦ (t, (edf_pick s).1)
  | none ↦
      if not (s.prio_bitmap == 0)
      then (or_idle s.idle (bitmap_dequeue s).0, (bitmap_dequeue s).1)
      else (s.idle, s)
]

-- The walk over the sleeping tasks; those that stay are returned.
unfoldable pub wake_sleepers : ℕ → List ℕ → Sched → List ℕ × Sched
wake_sleepers now [] s = ([], s)
wake_sleepers now (t ∷ rest) s =
    if leb (s.thread t).sleep_until now
    then wake_sleepers now rest (
        bitmap_enqueue t
          (record s { thread = update s.thread t (record (s.thread t) { state = task_ready }) }))
    else (t ∷ (wake_sleepers now rest s).0, (wake_sleepers now rest s).1)

abbrev pub is_running : TaskState → Bool
is_running task_running = true
is_running _ = false

-- The task that was running goes back to its queue, and the chosen one runs.
unfoldable pub switch_to : ℕ → Sched → Sched
switch_to next s =
    let old = s.current in
    let kept =
      if is_running (s.thread old).state
      then bitmap_enqueue old
          (record s { thread = update s.thread old (record (s.thread old) { state = task_ready }) })
      else s in
    record kept {
      thread =
          update kept.thread next
            (record (kept.thread next) { state = task_running; watchdog_ticks = 0 });
      current = next;
    }

-- Up to the call of `context_switch`.
unfoldable pub schedule : ℕ → Sched → Sched
schedule now s =
    let woken = record (wake_sleepers now s.sleep_queue s).1 {
      sleep_queue = (wake_sleepers now s.sleep_queue s).0;
    } in
    let picked = pick_next woken in
    if picked.0 == picked.1.current then picked.1 else switch_to picked.0 picked.1

unfoldable pub sched_add_ready : ℕ → Sched → Sched
sched_add_ready t s = bitmap_enqueue t s

unfoldable pub task_set_deadline : ℕ → Sched → Sched
task_set_deadline deadline_tick s = record s {
  thread = update s.thread s.current (record (s.thread s.current) { deadline = deadline_tick });
}
