-- ===== src/Sync/Mutex/Inherit.antt =====
-- Priority inheritance: what the owner's priority is while others wait, and after.
use alze_os.Base.{
  ℕ, ◌≡◌, refl, ap, ◌∙◌, ◌⊎◌, inr, ◌==◌, ltb, true, false, List, [], ◌∷◌, if◌then◌else◌, some,
  arith,
}
use alze_os.Sync.{Tasks, set_state, set_priority, sleep_on, make_ready, wq_wake_one}
use alze_os.Sync.Mutex.{Mutex, mutex_try, mutex_unlock, acquire, boosts, boost, restore}

-- Other tasks that try to take the mutex, one after the other, and go to sleep.
unfoldable pub contend : List ℕ → Mutex → Tasks → Mutex × Tasks
contend [] m ts = (m, ts)
contend (cur ∷ rest) m ts = contend rest (mutex_try cur m ts).1 (mutex_try cur m ts).2

abbrev pub NotIn : ℕ → List ℕ → Type 0
NotIn t [] = Unit {0}
NotIn t (x ∷ xs) = ((t == x) ≡ false) × NotIn t xs

-- The best priority of all, that is the lowest number.
unfoldable pub best : ℕ → (ℕ → ℕ) → List ℕ → ℕ
best p priority [] = p
best p priority (x ∷ xs) = best (if ltb (priority x) p then priority x else p) priority xs

record Held (o p : ℕ) (m : Mutex) (ts : Tasks) : Type 0 where
  locked : m.locked ≡ true
  owner : m.owner ≡ some o
  saved : m.saved_priority ≡ p
  boosted : (m.priority_boosted ≡ true) ⊎ ((ts.task o).priority ≡ p)

mutex_try-Held :
    (o p cur : ℕ) (m : Mutex) (ts : Tasks)
    → (o == cur) ≡ false
    → Held o p m ts
    → Held o p (mutex_try cur m ts).1 (mutex_try cur m ts).2
      × (((mutex_try cur m ts).2.task o).priority ≡ (
          if ltb (ts.task cur).priority (ts.task o).priority
          then (ts.task cur).priority
          else (ts.task o).priority))
      × ((t : ℕ)
          → (t == o) ≡ false
          → ((mutex_try cur m ts).2.task t).priority ≡ (ts.task t).priority)
unfolding mutex_try boosts boost sleep_on set_state set_priority
mutex_try-Held o p cur m ts ne h =
    rw (h.locked, h.owner)
      (
        record {
          locked = refl;
          owner = refl;
          saved = h.saved;
          boosted = ground (arith, h.boosted);
        },
        ground arith,
        λ t n. ground arith,
      )

best_ext :
    (p : ℕ) (f g : ℕ → ℕ) (cs : List ℕ) (o : ℕ)
    → ((t : ℕ) → (t == o) ≡ false → f t ≡ g t)
    → NotIn o cs
    → best p f cs ≡ best p g cs
unfolding best
best_ext p f g [] o e n = refl
best_ext p f g (x ∷ cs) o e n =
    rw (e x (ground (arith, n.0))) (best_ext (if ltb (g x) p then g x else p) f g cs o e n.1)

contend-Held :
    (o p : ℕ) (cs : List ℕ) (m : Mutex) (ts : Tasks)
    → NotIn o cs
    → Held o p m ts
    → Held o p (contend cs m ts).0 (contend cs m ts).1
      × (((contend cs m ts).1.task o).priority
          ≡ best (ts.task o).priority (λ t. (ts.task t).priority) cs)
unfolding contend best
contend-Held o p [] m ts n h = (h, refl)
contend-Held o p (c ∷ cs) m ts n h =
    let (held, own, others) = mutex_try-Held o p c m ts n.0 h in
    let (last, lowest) = contend-Held o p cs (mutex_try c m ts).1 (mutex_try c m ts).2 n.1 held in
    (
      last,
      lowest
          ∙ ap (λ q. best q (λ t. ((mutex_try c m ts).2.task t).priority) cs) own
          ∙ best_ext _ (λ t. ((mutex_try c m ts).2.task t).priority) (λ t. (ts.task t).priority) cs
              o others n.1,
    )

mutex_unlock-Held :
    (o p : ℕ) (m : Mutex) (ts : Tasks) → Held o p m ts → ((mutex_unlock m ts).1.task o).priority ≡ p
unfolding mutex_unlock restore wq_wake_one make_ready set_state set_priority
mutex_unlock-Held o p m ts h = rw h.owner (ground (arith, h.boosted, h.saved))

-- A task takes the free mutex, and then others, among which it is not, try to take it one after
-- the other. The owner runs at the best of its own priority and theirs while it holds the mutex,
-- however many of them boost it, and at its own priority again after it unlocks.
pub mutex_unlock-contend :
    (m : Mutex) (ts : Tasks) (o : ℕ) (cs : List ℕ)
    → m.locked ≡ false
    → NotIn o cs
    → (((contend cs (mutex_try o m ts).1 (mutex_try o m ts).2).1.task o).priority
        ≡ best (ts.task o).priority (λ t. (ts.task t).priority) cs)
      × (((mutex_unlock
              (contend cs (mutex_try o m ts).1 (mutex_try o m ts).2).0
              (contend cs (mutex_try o m ts).1 (mutex_try o m ts).2).1).1.task
            o).priority
          ≡ (ts.task o).priority)
unfolding mutex_try acquire
mutex_unlock-contend m ts o cs free n =
    let taken : Held o (ts.task o).priority (acquire o m ts) ts = record {
      locked = refl;
      owner = refl;
      saved = refl;
      boosted = inr refl;
    } in
    let (held, lowest) = contend-Held o (ts.task o).priority cs (acquire o m ts) ts n taken in
    rw free (
      lowest,
      mutex_unlock-Held o (ts.task o).priority (contend cs (acquire o m ts) ts).0
          (contend cs (acquire o m ts) ts).1 held,
    )
