-- ===== src/Sync/AdaptiveMutex.antt =====
-- kernel/adaptive_mutex.h: a mutex that spins before it sleeps. `adaptive_spin` is the spinning
-- phase, which sees the flag as other processors leave it at each of its tests, and
-- `adaptive_round` one test of the sleeping phase.
use alze_os.Base.{
  ℕ, zero, suc, ◌≡◌, ◌<◌, ◌∙◌, ◌==◌, ltb, Bool, true, false, List, if◌then◌else◌, Option, none,
  some, arith,
}
use alze_os.Sync.{Tasks, set_state, set_priority, wq_wait, sleep_on, make_ready, wq_wake_one}

abbrev pub adaptive_spin_limit : ℕ
adaptive_spin_limit = 100

pub record AdaptiveMutex : Type 0 where
  pub locked : Bool
  pub owner : Option ℕ
  pub waiters : List ℕ
  pub owner_prio : ℕ

-- `seen i` is the flag that test `i` reads and sets; the tests that are left are counted down.
unfoldable pub spin_from : ℕ → (ℕ → Bool) → ℕ → AdaptiveMutex → Option AdaptiveMutex
spin_from cur seen zero m = none
spin_from cur seen (suc n) m =
    if seen n then spin_from cur seen n m else some (record m { locked = true; owner = some cur })

unfoldable pub adaptive_spin : ℕ → (ℕ → Bool) → AdaptiveMutex → Option AdaptiveMutex
adaptive_spin cur seen m = spin_from cur seen adaptive_spin_limit m

-- The owner's priority is kept in `owner_prio` and replaced.
unfoldable pub inherit : ℕ → Option ℕ → AdaptiveMutex → Tasks → AdaptiveMutex × Tasks
inherit cur none m ts = (m, ts)
inherit cur (some owner) m ts =
    if ltb (ts.task cur).priority (ts.task owner).priority
    then (
      record m { owner_prio = (ts.task owner).priority },
      set_priority owner (ts.task cur).priority ts,
    )
    else (m, ts)

-- Whether the round returns; if not, the task sleeps.
unfoldable pub adaptive_round : ℕ → AdaptiveMutex → Tasks → Bool × AdaptiveMutex × Tasks
adaptive_round cur m ts =
    if m.locked
    then (let (m', ts') = inherit cur m.owner m ts in
        (
          false,
          record m' { waiters = (wq_wait cur m'.waiters ts').0 },
          (wq_wait cur m'.waiters ts').1,
        ))
    else (true, record m { locked = true; owner = some cur }, ts)

-- `m->owner->priority = m->owner_prio`; through a null pointer the write is undefined: none.
unfoldable pub give_back : AdaptiveMutex → Tasks → Option Tasks
give_back m ts =
    if ltb 0 m.owner_prio
    then elim m.owner [ none ↦ none | some owner ↦ some (set_priority owner m.owner_prio ts) ]
    else some ts

unfoldable pub adaptive_unlock : AdaptiveMutex → Tasks → Option (AdaptiveMutex × Tasks)
adaptive_unlock m ts = elim (give_back m ts) [
  | none ↦ none
  | some ts' ↦ some (
    record m {
      locked = false;
      owner = none;
      owner_prio = 0;
      waiters = (wq_wake_one m.waiters ts').1;
    },
    (wq_wake_one m.waiters ts').2,
  )
]

record Boosted (o cur : ℕ) (m : AdaptiveMutex) (ts : Tasks) (r : Bool × AdaptiveMutex × Tasks)
    : Type 0 where
  locked : r.1.locked ≡ true
  owner : r.1.owner ≡ some o
  kept : r.1.owner_prio ≡ (ts.task o).priority
  raised : (r.2.task o).priority ≡ (ts.task cur).priority
  others : (t : ℕ) → (o == t) ≡ false → (r.2.task t).priority ≡ (ts.task t).priority

adaptive_round-Boosted :
    (m : AdaptiveMutex) (ts : Tasks) (o cur : ℕ)
    → m.locked ≡ true
    → m.owner ≡ some o
    → (o == cur) ≡ false
    → (ts.task cur).priority < (ts.task o).priority
    → Boosted o cur m ts (adaptive_round cur m ts)
unfolding adaptive_round inherit wq_wait sleep_on set_state set_priority
adaptive_round-Boosted m ts o cur locked owner ne h =
    rw (locked, owner)
      (record {
        locked = ground (arith, locked);
        owner = ground (arith, owner);
        kept = ground arith;
        raised = ground arith;
        others = λ t n. ground arith;
      })

adaptive_unlock-some :
    (m : AdaptiveMutex) (ts : Tasks) (o : ℕ)
    → m.owner ≡ some o
    → 0 < m.owner_prio
    → (final : AdaptiveMutex × Tasks) × (adaptive_unlock m ts ≡ some final)
      × ((final.1.task o).priority ≡ m.owner_prio)
unfolding adaptive_unlock give_back wq_wake_one make_ready set_state set_priority
adaptive_unlock-some m ts o owner h = (
  (
    record m {
      locked = false;
      owner = none;
      owner_prio = 0;
      waiters = (wq_wake_one m.waiters (set_priority o m.owner_prio ts)).1;
    },
    (wq_wake_one m.waiters (set_priority o m.owner_prio ts)).2,
  ),
  rw owner (ground arith),
  ground arith,
)

-- A task boosted by one waiter gets its own priority back when it unlocks. One that is boosted by
-- two, the second better than the first, does not: it keeps the priority of the first.
pub adaptive_unlock-inherit :
    (m : AdaptiveMutex) (ts : Tasks) (o a b : ℕ)
    → m.locked ≡ true
    → m.owner ≡ some o
    → (o == a) ≡ false
    → (o == b) ≡ false
    → (b == a) ≡ false
    → (ts.task a).priority < (ts.task o).priority
    → (ts.task b).priority < (ts.task a).priority
    → ((final : AdaptiveMutex × Tasks) × (adaptive_unlock
            (adaptive_round a m ts).1
            (adaptive_round a m ts).2
          ≡ some final)
        × ((final.1.task o).priority ≡ (ts.task o).priority))
      × ((final : AdaptiveMutex × Tasks) × (adaptive_unlock
              (adaptive_round b (adaptive_round a m ts).1 (adaptive_round a m ts).2).1
              (adaptive_round b (adaptive_round a m ts).1 (adaptive_round a m ts).2).2
            ≡ some final)
          × ((final.1.task o).priority ≡ (ts.task a).priority))
adaptive_unlock-inherit m ts o a b held owner oa ob ba h g =
    let r = adaptive_round a m ts in
    let one = adaptive_round-Boosted m ts o a held owner oa h in
    let two =
      adaptive_round-Boosted r.1 r.2 o b one.locked one.owner ob
        (omega (arith, one.raised, one.others b ob)) in
    let (f, e, p) = adaptive_unlock-some r.1 r.2 o one.owner (omega (arith, one.kept)) in
    let t = adaptive_round b r.1 r.2 in
    let (f', e', p') =
      adaptive_unlock-some t.1 t.2 o two.owner (omega (arith, two.kept, one.raised)) in
    ((f, e, p ∙ one.kept), (f', e', p' ∙ two.kept ∙ one.raised))
