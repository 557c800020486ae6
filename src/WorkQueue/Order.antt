-- ===== src/WorkQueue/Order.antt =====
-- Each item is queued once, and run once, in the order in which items were queued.
use alze_os.Base.{
  has, Distinct, ℕ, suc, ◌+◌, ◌%◌, ◌^◌, ◌≡◌, refl, sym, ap, ◌∙◌, false, ◌||◌, ◌==◌, List, [], ◌∷◌,
  ◌++◌, length, if◌then◌else◌, some, append_assoc, append-nil, Bool-cases, inl, inr, arith,
}
use alze_os.WorkQueue.{
  WorkQueue, workqueue_schedule, workqueue_process, workqueue_pending, take_work,
}

pub record IsValid (wq : WorkQueue) : Type 0 where
  pub distinct : Distinct wq.items
  pub pending : (w : ℕ) → wq.pending w ≡ has w wq.items

has-append : (w x : ℕ) (xs : List ℕ) → has w (xs ++ (x ∷ [])) ≡ (has w xs || w == x)
has-append w x [] = ground arith
has-append w x (y ∷ xs) = ground (arith, has-append w x xs)

Distinct-append : (x : ℕ) (xs : List ℕ) → has x xs ≡ false → Distinct xs → Distinct (xs ++ (x ∷ []))
Distinct-append x [] h d = ground arith
Distinct-append x (y ∷ xs) h d =
    (ground (arith, has-append y x xs, d.0), Distinct-append x xs (ground (arith, h)) d.1)

-- Scheduling keeps the queue consistent: every pending item stands in it once. An item that is
-- not pending goes behind all others, and a second time changes nothing.
pub workqueue_schedule-IsValid :
    (w : ℕ) (wq : WorkQueue)
    → IsValid wq
    → IsValid (workqueue_schedule w wq)
      × ((workqueue_schedule w wq).items
          ≡ (if has w wq.items then wq.items else wq.items ++ (w ∷ [])))
      × (workqueue_schedule w (workqueue_schedule w wq) ≡ workqueue_schedule w wq)
unfolding workqueue_schedule
workqueue_schedule-IsValid w wq v = elim (Bool-cases (wq.pending w)) [
  | inl queued ↦ rw queued (v, ground (arith, v.pending w, queued), rw queued refl)
  | inr idle ↦ rw idle (
    record {
      distinct = Distinct-append w wq.items (ground (arith, v.pending w, idle)) v.distinct;
      pending = λ x. ground (arith, v.pending x, has-append x w wq.items);
    },
    ground (arith, v.pending w, idle),
    ground arith,
  )
]

take_work-IsValid :
    (w : ℕ) (rest : List ℕ) (wq : WorkQueue)
    → wq.items ≡ w ∷ rest
    → IsValid wq
    → IsValid (take_work w rest wq)
unfolding take_work
take_work-IsValid w rest wq e v = record {
  distinct = ground (arith, e, v.distinct);
  pending = λ x. ground (arith, e, v.pending x, v.distinct);
}

process-cons :
    (w : ℕ) (rest : List ℕ) (wq : WorkQueue)
    → wq.items ≡ w ∷ rest
    → workqueue_process (λ w q. q) (suc (length rest)) wq
      ≡ workqueue_process (λ w q. q) (length rest) (take_work w rest wq)
unfolding workqueue_process take_work
process-cons w rest wq e = rw (e, workqueue_process) refl

-- When the work functions queue nothing, a round for each item is enough. They are then all called
-- once, in the order in which they were queued, and counted, and nothing is pending.
pub workqueue_process-calls :
    (items : List ℕ) (wq : WorkQueue)
    → wq.items ≡ items
    → IsValid wq
    → (done : WorkQueue) × (workqueue_process (λ w q. q) (length items) wq ≡ some done)
      × (done.items ≡ [])
      × (done.calls ≡ wq.calls ++ items)
      × ((done.processed % 2 ^ 64 ≡ (wq.processed + length items) % 2 ^ 64)
          × ((w : ℕ) → done.pending w ≡ false))
unfolding workqueue_process workqueue_pending take_work
workqueue_process-calls [] wq e v =
    (wq, rw e refl, e, sym (append-nil wq.calls), (omega arith, λ w. v.pending w ∙ ap (has w) e))
workqueue_process-calls (w ∷ rest) wq e v =
    let (done, runs, empty, calls, (counted, idle)) =
      workqueue_process-calls rest (take_work w rest wq) refl (take_work-IsValid w rest wq e v) in
    (
      done,
      process-cons w rest wq e ∙ runs,
      empty,
      calls ∙ append_assoc wq.calls (w ∷ []) rest,
      (omega (arith, counted), idle),
    )
