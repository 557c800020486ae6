-- ===== src/Sched/Tests.antt =====
-- kernel/sched.c: task 5 waits with the priority 3, and task 6 with the priority 9.
use alze_os.Base.{◌^◌, ◌==◌, [], ◌∷◌, if◌then◌else◌, arith}
use alze_os.Bits.{bit-set_bit, bit-pow, set_bit, set_bit-lt}
use alze_os.Sync.{task_ready}
use alze_os.Sched.{Sched, pick_next}
use alze_os.Sched.Pick.{IsValid, Picked, pick_next-Picked}

abbrev two_waiting : Sched
two_waiting = record {
  prio_queues = λ p. if p == 9 then 6 ∷ [] else if p == 3 then 5 ∷ [] else [];
  prio_bitmap = set_bit (2 ^ 3) 9;
  sleep_queue = [];
  deadline_queue = [];
  thread = λ t. record {
    state = task_ready;
    priority = if t == 5 then 3 else 9;
    deadline = 0;
    sleep_until = 0;
    watchdog_ticks = 0;
  };
  current = 0;
  idle = 1;
}

two_waiting-IsValid : IsValid two_waiting
two_waiting-IsValid = record {
  word = set_bit-lt (2 ^ 3) 9 (omega arith) (omega arith);
  bits = λ p l. ground (arith, bit-set_bit (2 ^ 3) 9 p, bit-pow 3 p);
  sorted = ground arith;
}

pick_next-Picked_example :
    IsValid (pick_next two_waiting).1 × Picked two_waiting (pick_next two_waiting)
pick_next-Picked_example = pick_next-Picked two_waiting two_waiting-IsValid
