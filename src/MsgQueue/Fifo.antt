-- ===== src/MsgQueue/Fifo.antt =====
-- The message queue is a first-in, first-out sequence of at most 16 messages.

use alze_os.Base.{
  ℕ, suc, ◌+◌, ◌-◌, ◌%◌, ◌≡◌, ◌≤◌, ◌<◌, refl, sym, ap, ap₂, ◌∙◌, ◌⊎◌, inl, inr, ◌==◌, List, [], ◌∷◌,
  none, some, pos, neg, cells, cells-copy, window, window_mod, map, Bool-cases, arith,
}
use alze_os.Errno.{eagain}
use alze_os.Sync.{Tasks}
use alze_os.MsgQueue.{
  MqMessage, MsgQueue, mq_dequeue, Received, wake_receiver, wake_sender, mq_tryrecv,
}

pub record IsValid (mq : MsgQueue) : Type 0 where
  pub head : mq.head < 16
  pub count : mq.count ≤ 16
  pub tail : mq.tail ≡ (mq.head + mq.count) % 16

-- A message as its bytes and its sender.
abbrev pub content : MqMessage → List ℕ × ℕ
content msg = (cells msg.bytes 0 msg.len, msg.sender_tid)

unfoldable pub messages : MsgQueue → List (List ℕ × ℕ)
messages mq = map content (window mq.buf 16 mq.head mq.count)

module _ (mq : MsgQueue) (valid : IsValid mq) where
  dequeue-messages :
      (buf : ℕ → ℕ)
      → 0 < mq.count
      → messages mq
        ≡ (
          cells (mq_dequeue mq buf).0.buf 0 (mq_dequeue mq buf).0.out_len,
          (mq_dequeue mq buf).0.out_sender,
        )
          ∷ messages (mq_dequeue mq buf).1
  unfolding messages mq_dequeue
  dequeue-messages buf some_left =
      let msg = mq.buf mq.head in
      ap (λ n. map content (window mq.buf 16 mq.head n)) {y = suc (mq.count - 1)} (omega arith)
      ∙ ap₂ ◌∷◌
          (ap (λ i. content (mq.buf i)) (omega (arith, valid.head))
            ∙ ap₂ (λ l n. (l, n)) (sym (cells-copy buf msg.bytes msg.len msg.len (omega arith)))
                refl)
          (ap (map content) (
            window_mod mq.buf 16 (suc mq.head) ((mq.head + 1) % 16) (mq.count - 1) (omega arith)
            ∙ ap (λ n. window mq.buf 16 ((mq.head + 1) % 16) n) (omega (arith, valid.count))))

  dequeue-IsValid : (buf : ℕ → ℕ) → 0 < mq.count → IsValid (mq_dequeue mq buf).1
  unfolding mq_dequeue
  dequeue-IsValid buf some_left = record {
    head = omega (arith, valid.head);
    count = omega (arith, valid.count);
    tail = omega (arith, valid.tail, valid.count, valid.head);
  }

none_left : (mq : MsgQueue) → mq.count ≡ 0 → messages mq ≡ []
unfolding messages
none_left mq e = rw e refl

waking :
    (mq : MsgQueue) (ts : Tasks)
    → (messages (wake_receiver mq ts).0 ≡ messages mq)
      × (IsValid mq → IsValid (wake_receiver mq ts).0)
      × (messages (wake_sender mq ts).0 ≡ messages mq)
      × (IsValid mq → IsValid (wake_sender mq ts).0)
unfolding messages wake_receiver wake_sender
waking mq ts = (
  refl,
  (λ v. record { head = v.head; count = v.count; tail = v.tail }),
  refl,
  (λ v. record { head = v.head; count = v.count; tail = v.tail }),
)

-- `mq_tryrecv` takes the oldest message, with its bytes and its sender, or returns -EAGAIN and
-- changes nothing when there is none.
pub mq_tryrecv_lem :
    (mq : MsgQueue) (buf : ℕ → ℕ) (ts : Tasks)
    → IsValid mq
    → ((messages mq ≡ []) × (mq_tryrecv mq buf ts ≡ (neg eagain, none, mq, ts)))
      ⊎ ((got : Received) × (next : MsgQueue) × (ts' : Tasks) × (mq_tryrecv mq buf ts
            ≡ (pos 0, some got, next, ts'))
          × (messages mq ≡ (cells got.buf 0 got.out_len, got.out_sender) ∷ messages next)
          × IsValid next)
unfolding mq_tryrecv
mq_tryrecv_lem mq buf ts valid = elim (Bool-cases (mq.count == 0)) [
  | inl nothing ↦ inl (none_left mq (ground (arith, nothing)), rw nothing refl)
  | inr left ↦
      (let r = mq_dequeue mq buf in
        let (_, _, same, still) = waking r.1 ts in
        inr (
          r.0,
          (wake_sender r.1 ts).0,
          (wake_sender r.1 ts).1,
          rw left refl,
          dequeue-messages mq valid buf (ground (arith, left))
              ∙ ap (λ l. (cells r.0.buf 0 r.0.out_len, r.0.out_sender) ∷ l) (sym same),
          still (dequeue-IsValid mq valid buf (ground (arith, left))),
        ))
]
