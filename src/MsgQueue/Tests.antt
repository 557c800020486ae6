-- ===== src/MsgQueue/Tests.antt =====
-- kernel/msgqueue.c: a queue with one message of two bytes.
use alze_os.Base.{◌+◌, []}
use alze_os.Sync.{Tasks, task_running}
use alze_os.MsgQueue.{MsgQueue}

abbrev tasks : Tasks
tasks = record { task = λ t. record { tid = 7; state = task_running; priority = 32 }; added = [] }

-- The message stands in the last place, so that the tail has come round.
abbrev one_message : MsgQueue
one_message = record {
  buf = λ i. record { bytes = λ j. i + j; len = 2; sender_tid = 3 };
  head = 15;
  tail = 0;
  count = 1;
  send_wq = [];
  recv_wq = [];
}
