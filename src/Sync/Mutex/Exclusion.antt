-- ===== src/Sync/Mutex/Exclusion.antt =====
-- Mutual exclusion, for every order in which tasks run the critical sections of the mutex. Each
-- step is one critical section of the spinlock of the mutex.

use alze_os.Base.{
  ℕ, ◌≡◌, refl, ap, ◌⊎◌, inl, inr, ◌≤◌, ◌==◌, Bool, true, false, List, [], ◌∷◌, length,
  if◌then◌else◌, some, arith,
}
use alze_os.Sync.{Tasks}
use alze_os.Sync.Mutex.{Mutex, mutex_init, mutex_try, mutex_trylock, mutex_unlock, acquire}

-- The mutex, the tasks, and those that have taken it and not yet given it back.
pub record System : Type 0 where
  pub mutex : Mutex
  pub tasks : Tasks
  pub inside : List ℕ

abbrev pub leave : ℕ → List ℕ → List ℕ
leave t [] = []
leave t (x ∷ xs) = if t == x then xs else x ∷ leave t xs

abbrev pub is_inside : ℕ → List ℕ → Bool
is_inside t [] = false
is_inside t (x ∷ xs) = if t == x then true else is_inside t xs

-- Any task may run a round of `mutex_lock` or a `mutex_trylock`; one that holds the mutex may
-- unlock it.
pub data Step (s : System) : System → Type 0 where
  lock_round :
      (cur : ℕ)
      → Step s (record {
        mutex = (mutex_try cur s.mutex s.tasks).1;
        tasks = (mutex_try cur s.mutex s.tasks).2;
        inside = if (mutex_try cur s.mutex s.tasks).0 then cur ∷ s.inside else s.inside;
      })
  trylock :
      (cur : ℕ)
      → Step s (record {
        mutex = (mutex_trylock cur s.mutex s.tasks).1;
        tasks = s.tasks;
        inside = if (mutex_trylock cur s.mutex s.tasks).0 then cur ∷ s.inside else s.inside;
      })
  unlock :
      (cur : ℕ)
      → is_inside cur s.inside ≡ true
      → Step s (record {
        mutex = (mutex_unlock s.mutex s.tasks).0;
        tasks = (mutex_unlock s.mutex s.tasks).1;
        inside = leave cur s.inside;
      })

pub data Reachable : System → Type 0 where
  start : (ts : Tasks) → Reachable (record { mutex = mutex_init; tasks = ts; inside = [] })
  next : (s s' : System) → Reachable s → Step s s' → Reachable s'

-- Free and nobody inside, or held by the one task inside.
abbrev Excludes : System → Type 0
Excludes s =
    ((s.mutex.locked ≡ false) × (s.inside ≡ []))
    ⊎ ((o : ℕ) × (s.mutex.locked ≡ true) × (s.mutex.owner ≡ some o) × (s.inside ≡ o ∷ []))

Step-Excludes : (s s' : System) → Step s s' → Excludes s → Excludes s'
unfolding mutex_try mutex_trylock mutex_unlock acquire
Step-Excludes s s' (lock_round cur) (inl (free, nobody)) =
    rw (free, nobody) (inr (cur, refl, refl, refl))
Step-Excludes s s' (lock_round cur) (inr (o, held, owner, one)) =
    rw (held, owner, one) (inr (o, refl, refl, refl))
Step-Excludes s s' (trylock cur) (inl (free, nobody)) =
    rw (free, nobody) (inr (cur, refl, refl, refl))
Step-Excludes s s' (trylock cur) (inr (o, held, owner, one)) =
    rw (held, owner, one) (inr (o, refl, refl, refl))
Step-Excludes s s' (unlock cur mine) (inl (free, nobody)) = absurd (ground (arith, nobody, mine))
Step-Excludes s s' (unlock cur mine) (inr (o, held, owner, one)) =
    inl (refl, ground (arith, one, mine))

Reachable-Excludes : (s : System) → Reachable s → Excludes s
unfolding mutex_init
Reachable-Excludes s (start ts) = inl (refl, refl)
Reachable-Excludes after (next s s' r step) = Step-Excludes s s' step (Reachable-Excludes s r)

-- However tasks interleave their calls of `mutex_lock`, `mutex_trylock` and `mutex_unlock`, at
-- most one of them has the mutex, the flag says whether one has, and the owner field is that task.
pub Reachable-exclusion :
    (s : System)
    → Reachable s
    → (length s.inside ≤ 1)
      × ((s.mutex.locked ≡ true → (o : ℕ) × (s.inside ≡ o ∷ []) × (s.mutex.owner ≡ some o))
          × (s.mutex.locked ≡ false → s.inside ≡ []))
Reachable-exclusion s r = elim (Reachable-Excludes s r) [
  | inl (free, nobody) ↦
      (omega (arith, ap length nobody), (λ h. absurd (ground (arith, free, h)), λ h. nobody))
  | inr (o, held, owner, one) ↦
      (omega (arith, ap length one), (λ h. (o, one, owner), λ h. absurd (ground (arith, held, h))))
]
