-- ===== src/Sync/Spinlock.antt =====
-- kernel/spinlock.h: the ticket lock, with its two 16-bit counters. Each step is one atomic
-- operation: the ticket is drawn, a load finds that it is served, or the lock is given back.
use alze_os.Base.{
  ℕ, suc, ◌+◌, ◌%◌, ◌^◌, ◌≡◌, ◌<◌, ◌==◌, if◌then◌else◌, Bool, true, false, not, List, [], ◌∷◌, ◌++◌,
  length,
}

pub record Spinlock : Type 0 where
  pub next_ticket : ℕ
  pub serving_ticket : ℕ

unfoldable pub spinlock_init : Spinlock
spinlock_init = record { next_ticket = 0; serving_ticket = 0 }

-- The first line of `spin_lock`: the ticket drawn.
unfoldable pub draw_ticket : Spinlock → ℕ × Spinlock
draw_ticket lock = (lock.next_ticket, record lock { next_ticket = (lock.next_ticket + 1) % 2 ^ 16 })

-- The loop's test.
unfoldable pub is_served : ℕ → Spinlock → Bool
is_served my_ticket lock = lock.serving_ticket == my_ticket

unfoldable pub spin_unlock : Spinlock → Spinlock
spin_unlock lock = record lock { serving_ticket = (lock.serving_ticket + 1) % 2 ^ 16 }

-- The compare-and-exchange of `spin_trylock`, with the ticket that it has loaded.
unfoldable pub spin_trylock : ℕ → Spinlock → Bool × Spinlock
spin_trylock expected lock =
    if lock.next_ticket == expected
    then (true, record lock { next_ticket = (expected + 1) % 2 ^ 16 })
    else (false, lock)

unfoldable pub spin_is_locked : Spinlock → Bool
spin_is_locked lock = not (lock.next_ticket == lock.serving_ticket)

-- A processor that has drawn a ticket, and whether it has left the loop.
pub record Holder : Type 0 where
  pub my_ticket : ℕ
  pub inside : Bool

-- Those who have drawn a ticket, in the order in which they drew them.
pub record System : Type 0 where
  pub lock : Spinlock
  pub line : List Holder

pub data Step (s : System) : System → Type 0 where
  draw :
      suc (length s.line) < 2 ^ 16
      → Step s (record {
        lock = (draw_ticket s.lock).1;
        line = s.line ++ (record { my_ticket = (draw_ticket s.lock).0; inside = false } ∷ []);
      })
  enter :
      (xs ys : List Holder) (my : ℕ)
      → s.line ≡ xs ++ (record { my_ticket = my; inside = false } ∷ ys)
      → is_served my s.lock ≡ true
      → Step s
          (record { lock = s.lock; line = xs ++ (record { my_ticket = my; inside = true } ∷ ys) })
  unlock :
      (xs ys : List Holder) (my : ℕ)
      → s.line ≡ xs ++ (record { my_ticket = my; inside = true } ∷ ys)
      → Step s (record { lock = spin_unlock s.lock; line = xs ++ ys })

pub data Reachable : System → Type 0 where
  start : Reachable (record { lock = spinlock_init; line = [] })
  next : (s s' : System) → Reachable s → Step s s' → Reachable s'

-- Tickets from `k` on, and nobody inside.
abbrev Waiting : ℕ → List Holder → Type 0
Waiting k [] = Unit {0}
Waiting k (t ∷ ts) = (t.my_ticket ≡ k % 2 ^ 16) × (t.inside ≡ false) × Waiting (suc k) ts

abbrev Line : ℕ → List Holder → Type 0
Line k [] = Unit {0}
Line k (t ∷ ts) = (t.my_ticket ≡ k % 2 ^ 16) × Waiting (suc k) ts

-- `served` is the number of unlocks so far.
record Ordered (s : System) : Type 0 where
  served : ℕ
  serving : s.lock.serving_ticket ≡ served % 2 ^ 16
  drawn : s.lock.next_ticket ≡ (served + length s.line) % 2 ^ 16
  few : length s.line < 2 ^ 16
  in_line : Line served s.line

-- Nobody but the first in line is inside.
abbrev pub OnlyFirst : List Holder → Type 0
OnlyFirst [] = Unit {0}
OnlyFirst (t ∷ ts) = (xs ys : List Holder) (u : Holder) → ts ≡ xs ++ (u ∷ ys) → u.inside ≡ false
