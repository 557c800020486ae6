-- ===== src/Sched/Pick.antt =====
-- The bitmap says which queues have tasks, and the scheduler picks the best task there is.
use mathlib.Core.Path.{subst}
use alze_os.Base.{
  ℕ, ◌^◌, ◌≡◌, ◌≤◌, ◌<◌, refl, sym, ap, ◌∙◌, inl, inr, true, false, ltb, ◌==◌, List, [], ◌∷◌, ◌++◌,
  some, Bool-cases, arith,
}
use alze_os.Bits.{
  bit, zero-bit, bit-set_bit, bit-clear_bit, set_bit-lt, clear_bit-lt, bsf, bsf-IsLowest, IsLowest,
}
use alze_os.Sched.{
  Thread, Sched, bitmap_enqueue, deadline_enqueue, deadline_insert, bitmap_dequeue,
  bitmap_find_first, take_first, edf_pick, or_idle, pick_next, is_nil,
}

-- Every deadline is at least `low`.
abbrev pub From : (ℕ → Thread) → ℕ → List ℕ → Type 0
From thread low [] = Unit {0}
From thread low (t ∷ ts) = (low ≤ (thread t).deadline) × From thread low ts

abbrev pub Sorted : (ℕ → Thread) → List ℕ → Type 0
Sorted thread [] = Unit {0}
Sorted thread (t ∷ ts) = From thread (thread t).deadline ts × Sorted thread ts

pub record IsValid (s : Sched) : Type 0 where
  pub word : s.prio_bitmap < 2 ^ 64
  pub bits : (p : ℕ) → p < 64 → (bit s.prio_bitmap p == 0) ≡ is_nil (s.prio_queues p)
  pub sorted : Sorted s.thread s.deadline_queue

From-le :
    (thread : ℕ → Thread) (low high : ℕ) (ts : List ℕ)
    → low ≤ high
    → From thread high ts
    → From thread low ts
From-le thread low high [] h f = f
From-le thread low high (t ∷ ts) h f = (omega (arith, f.0), From-le thread low high ts h f.1)

From-insert :
    (thread : ℕ → Thread) (low t : ℕ) (ts : List ℕ)
    → low ≤ (thread t).deadline
    → From thread low ts
    → From thread low (deadline_insert thread t ts)
unfolding deadline_insert
From-insert thread low t [] h f = (h, f)
From-insert thread low t (q ∷ ts) h f = ground (arith, From-insert thread low t ts h f.1)

insert-Sorted :
    (thread : ℕ → Thread) (t : ℕ) (ts : List ℕ)
    → Sorted thread ts
    → Sorted thread (deadline_insert thread t ts)
unfolding deadline_insert
insert-Sorted thread t [] s = ground arith
insert-Sorted thread t (q ∷ ts) s = ground (
  arith,
  From-le thread (thread t).deadline (thread q).deadline ts,
  From-insert thread (thread q).deadline t ts,
  insert-Sorted thread t ts s.1,
)

append-is_nil : (xs : List ℕ) (t : ℕ) → is_nil (xs ++ (t ∷ [])) ≡ false
append-is_nil [] t = refl
append-is_nil (x ∷ xs) t = refl

-- Putting a task with one of the 64 priorities into its queue keeps the queues consistent: the
-- bitmap has a one exactly for the queues that have tasks, and deadlines come in order.
pub bitmap_enqueue-IsValid :
    (t : ℕ) (s : Sched) → IsValid s → (s.thread t).priority < 64 → IsValid (bitmap_enqueue t s)
unfolding bitmap_enqueue deadline_enqueue
bitmap_enqueue-IsValid t s v h = elim (Bool-cases (ltb 0 (s.thread t).deadline)) [
  | inl timed ↦ rw timed (record {
    word = v.word;
    bits = v.bits;
    sorted = insert-Sorted s.thread t s.deadline_queue v.sorted;
  })
  | inr untimed ↦ rw untimed (record {
    word = set_bit-lt s.prio_bitmap (s.thread t).priority v.word h;
    bits = λ p l. ground (
      arith,
      bit-set_bit s.prio_bitmap (s.thread t).priority p,
      v.bits p l,
      append-is_nil (s.prio_queues (s.thread t).priority) t,
    );
    sorted = v.sorted;
  })
]

-- What was picked: the task with the earliest deadline, or without one the first task of the
-- best priority, or the idle task.
pub data Picked (s : Sched) (r : ℕ × Sched) : Type 0 where
  deadline :
      (rest : List ℕ)
      → s.deadline_queue ≡ r.0 ∷ rest
      → From s.thread (s.thread r.0).deadline rest
      → Picked s r
  priority :
      (p : ℕ) (rest : List ℕ)
      → s.deadline_queue ≡ []
      → p < 64
      → s.prio_queues p ≡ r.0 ∷ rest
      → r.1.prio_queues p ≡ rest
      → ((j : ℕ) → j < p → s.prio_queues j ≡ [])
      → Picked s r
  idle :
      s.deadline_queue ≡ []
      → ((j : ℕ) → j < 64 → s.prio_queues j ≡ [])
      → r ≡ (s.idle, s)
      → Picked s r

nil_of : (xs : List ℕ) → is_nil xs ≡ true → xs ≡ []
nil_of [] e = refl
nil_of (x ∷ xs) e = absurd (ground (arith, e))

timed-eq :
    (s : Sched) (t : ℕ) (rest : List ℕ)
    → s.deadline_queue ≡ t ∷ rest
    → pick_next s ≡ (t, record s { deadline_queue = rest })
unfolding pick_next edf_pick
timed-eq s t rest e = ground (arith, e)

idle-eq :
    (s : Sched) → s.deadline_queue ≡ [] → (s.prio_bitmap == 0) ≡ true → pick_next s ≡ (s.idle, s)
unfolding pick_next edf_pick
idle-eq s e z = ground (arith, e, z)

dequeue-eq :
    (s : Sched) (t : ℕ) (rest : List ℕ)
    → (s.prio_bitmap == 0) ≡ false
    → s.prio_queues (bsf 64 s.prio_bitmap) ≡ t ∷ rest
    → bitmap_dequeue s ≡ (some t, take_first (bsf 64 s.prio_bitmap) rest s)
unfolding bitmap_dequeue bitmap_find_first
dequeue-eq s t rest z q = rw (z, q, bitmap_dequeue) refl

prio-eq :
    (s : Sched) (t : ℕ) (s' : Sched)
    → s.deadline_queue ≡ []
    → (s.prio_bitmap == 0) ≡ false
    → bitmap_dequeue s ≡ (some t, s')
    → pick_next s ≡ (t, s')
unfolding pick_next edf_pick or_idle
prio-eq s t s' e z d = ground (arith, e, z, d)

take_first-IsValid :
    (s : Sched) (p t : ℕ) (rest : List ℕ)
    → IsValid s
    → p < 64
    → s.prio_queues p ≡ t ∷ rest
    → IsValid (take_first p rest s)
unfolding take_first
take_first-IsValid s p t rest v h q = record {
  word = ground (arith, v.word, clear_bit-lt s.prio_bitmap p v.word);
  bits = λ j l. ground (arith, v.bits j l, q, bit-clear_bit s.prio_bitmap p j v.word h);
  sorted = v.sorted;
}

some_first :
    (s : Sched)
    → IsValid s
    → (s.prio_bitmap == 0) ≡ false
    → (t : ℕ) × (rest : List ℕ) × (s.prio_queues (bsf 64 s.prio_bitmap) ≡ t ∷ rest)
some_first s v z =
    list_first (s.prio_queues (bsf 64 s.prio_bitmap))
      (sym (v.bits (bsf 64 s.prio_bitmap) low.inside) ∙ ground (arith, low.set))
  where
    low : IsLowest s.prio_bitmap 64 (bsf 64 s.prio_bitmap)
    low = bsf-IsLowest 64 s.prio_bitmap (λ h. ground (arith, h, z)) v.word

    list_first : (xs : List ℕ) → is_nil xs ≡ false → (t : ℕ) × (rest : List ℕ) × (xs ≡ t ∷ rest)
    list_first [] e = absurd (ground (arith, e))
    list_first (x ∷ xs) e = (x, xs, refl)

pick_prio :
    (s : Sched)
    → IsValid s
    → s.deadline_queue ≡ []
    → (s.prio_bitmap == 0) ≡ false
    → IsValid (pick_next s).1 × Picked s (pick_next s)
unfolding take_first
pick_prio s v e z =
    let p = bsf 64 s.prio_bitmap in
    let low = bsf-IsLowest 64 s.prio_bitmap (λ h. ground (arith, h, z)) v.word in
    let (t, rest, q) = some_first s v z in
    subst (λ (r : ℕ × Sched). IsValid r.1 × Picked s r)
      (sym (prio-eq s t (take_first p rest s) e z (dequeue-eq s t rest z q)))
      (
        take_first-IsValid s p t rest v low.inside q,
        Picked.priority p rest e low.inside q (ground arith) (λ j l.
            nil_of (s.prio_queues j)
              (sym (v.bits j (omega (arith, low.inside))) ∙ ground (arith, low.below j l))),
      )

-- In a consistent scheduler the choice is the task with the earliest deadline if any task has one,
-- else the first task of the lowest priority number that has one, which leaves its queue, else
-- the idle task; and the scheduler is consistent after it.
pub pick_next-Picked : (s : Sched) → IsValid s → IsValid (pick_next s).1 × Picked s (pick_next s)
pick_next-Picked s v = by_queue s.deadline_queue refl
  where
    by_queue :
        (l : List ℕ) → s.deadline_queue ≡ l → IsValid (pick_next s).1 × Picked s (pick_next s)
    by_queue (t ∷ rest) e =
        let sorted : Sorted s.thread (t ∷ rest) = subst (λ l. Sorted s.thread l) e v.sorted in
        subst (λ (r : ℕ × Sched). IsValid r.1 × Picked s r) (sym (timed-eq s t rest e))
          (
            record { word = v.word; bits = v.bits; sorted = sorted.1 },
            Picked.deadline rest e sorted.0,
          )
    by_queue [] e = elim (Bool-cases (s.prio_bitmap == 0)) [
      | inl z ↦
          subst (λ (r : ℕ × Sched). IsValid r.1 × Picked s r) (sym (idle-eq s e z))
            (
              v,
              Picked.idle e (λ j l. nil_of (s.prio_queues j) (sym (v.bits j l) ∙ no_bit j z)) refl,
            )
      | inr nz ↦ pick_prio s v e nz
    ]
      where
        no_bit : (j : ℕ) → (s.prio_bitmap == 0) ≡ true → (bit s.prio_bitmap j == 0) ≡ true
        no_bit j z = ground (
          arith,
          zero-bit j,
          ap (λ (b : ℕ). bit b j) {x = s.prio_bitmap} {y = 0} (ground (arith, z)),
        )
