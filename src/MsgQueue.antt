-- ===== src/MsgQueue.antt =====
-- kernel/msgqueue.c, kernel/msgqueue.h: a queue of 16 messages of up to 64 bytes each. A byte
-- buffer is a function from offsets. `mq_send_round` and `mq_recv_round` are one round of the
-- loops of `mq_send` and `mq_recv`; a task that must wait sleeps at the end of its round.
pub mod Fifo
mod Tests
use alze_os.Base.{
  ℕ, zero, suc, ◌+◌, ◌-◌, ◌%◌, ◌^◌, Bool, true, false, ltb, leb, ◌==◌, if◌then◌else◌, List, [], ◌∷◌,
  Option, none, some, ℤ, pos, neg, update, copy,
}
use alze_os.Errno.{einval, eagain}
use alze_os.Sync.{Tasks, sleep_on, wq_init, wq_wake_one}

abbrev pub mq_msg_size : ℕ
mq_msg_size = 64

abbrev pub mq_capacity : ℕ
mq_capacity = 16

pub record MqMessage : Type 0 where
  pub bytes : ℕ → ℕ
  pub len : ℕ
  pub sender_tid : ℕ

pub record MsgQueue : Type 0 where
  pub buf : ℕ → MqMessage
  pub head : ℕ
  pub tail : ℕ
  pub count : ℕ
  pub send_wq : List ℕ
  pub recv_wq : List ℕ

-- The messages that the buffer holds from before.
unfoldable pub mq_init : (ℕ → MqMessage) → MsgQueue
mq_init buf = record {
  buf = buf;
  head = 0;
  tail = 0;
  count = 0;
  send_wq = wq_init;
  recv_wq = wq_init;
}

unfoldable pub mq_enqueue : MsgQueue → (ℕ → ℕ) → ℕ → ℕ → MsgQueue
mq_enqueue mq bytes len sender =
    let copy_len = if ltb mq_msg_size len then mq_msg_size else len in
    record mq {
      buf = update mq.buf mq.tail (record {
        bytes = copy (mq.buf mq.tail).bytes bytes copy_len;
        len = copy_len;
        sender_tid = sender;
      });
      tail = (mq.tail + 1) % mq_capacity;
      count = (mq.count + 1) % 2 ^ 32;
    }

-- What a receiver gets: its buffer, the length and the sender.
pub record Received : Type 0 where
  pub buf : ℕ → ℕ
  pub out_len : ℕ
  pub out_sender : ℕ

unfoldable pub mq_dequeue : MsgQueue → (ℕ → ℕ) → Received × MsgQueue
mq_dequeue mq buf =
    let msg = mq.buf mq.head in
    (
      record { buf = copy buf msg.bytes msg.len; out_len = msg.len; out_sender = msg.sender_tid },
      record mq { head = (mq.head + 1) % mq_capacity; count = (mq.count + 2 ^ 32 - 1) % 2 ^ 32 },
    )

-- The queue after `wq_wake_one(&mq->recv_wq)`, and after that of `send_wq`.
unfoldable pub wake_receiver : MsgQueue → Tasks → MsgQueue × Tasks
wake_receiver mq ts =
    (record mq { recv_wq = (wq_wake_one mq.recv_wq ts).1 }, (wq_wake_one mq.recv_wq ts).2)

unfoldable pub wake_sender : MsgQueue → Tasks → MsgQueue × Tasks
wake_sender mq ts =
    (record mq { send_wq = (wq_wake_one mq.send_wq ts).1 }, (wq_wake_one mq.send_wq ts).2)

-- The result, or none when the task goes to sleep.
unfoldable pub mq_send_round : ℕ → MsgQueue → (ℕ → ℕ) → ℕ → Tasks → Option ℤ × MsgQueue × Tasks
mq_send_round cur mq bytes len ts =
    if ltb mq_msg_size len
    then (some (neg einval), mq, ts)
    else if ltb mq.count mq_capacity
    then (
      some (pos 0),
      (wake_receiver (mq_enqueue mq bytes len (ts.task cur).tid) ts).0,
      (wake_receiver (mq_enqueue mq bytes len (ts.task cur).tid) ts).1,
    )
    else (
      none,
      record mq { send_wq = (sleep_on cur mq.send_wq ts).0 },
      (sleep_on cur mq.send_wq ts).1,
    )

unfoldable pub mq_recv_round : ℕ → MsgQueue → (ℕ → ℕ) → Tasks → Option Received × MsgQueue × Tasks
mq_recv_round cur mq buf ts =
    if ltb 0 mq.count
    then (
      some (mq_dequeue mq buf).0,
      (wake_sender (mq_dequeue mq buf).1 ts).0,
      (wake_sender (mq_dequeue mq buf).1 ts).1,
    )
    else (
      none,
      record mq { recv_wq = (sleep_on cur mq.recv_wq ts).0 },
      (sleep_on cur mq.recv_wq ts).1,
    )

unfoldable pub mq_trysend : ℕ → MsgQueue → (ℕ → ℕ) → ℕ → Tasks → ℤ × MsgQueue × Tasks
mq_trysend cur mq bytes len ts =
    if ltb mq_msg_size len
    then (neg einval, mq, ts)
    else if leb mq_capacity mq.count
    then (neg eagain, mq, ts)
    else (
      pos 0,
      (wake_receiver (mq_enqueue mq bytes len (ts.task cur).tid) ts).0,
      (wake_receiver (mq_enqueue mq bytes len (ts.task cur).tid) ts).1,
    )

-- Nothing is received with -EAGAIN.
unfoldable pub mq_tryrecv : MsgQueue → (ℕ → ℕ) → Tasks → ℤ × Option Received × MsgQueue × Tasks
mq_tryrecv mq buf ts = if mq.count == 0 then (neg eagain, none, mq, ts) else (
  pos 0,
  some (mq_dequeue mq buf).0,
  (wake_sender (mq_dequeue mq buf).1 ts).0,
  (wake_sender (mq_dequeue mq buf).1 ts).1,
)
