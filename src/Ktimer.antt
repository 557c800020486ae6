-- ===== src/Ktimer.antt =====
-- kernel/ktimer.c, kernel/ktimer.h: a wheel of 256 lists of timers, initialised. A timer is a
-- number; `fired` are the calls of timer callbacks, in order; `now` is what `pit_get_ticks`
-- returns. Callbacks that themselves start or cancel timers are not covered: they would run while
-- the list is walked.
pub mod Tick
mod Tests
use alze_os.Base.{
  ℕ, zero, suc, ◌+◌, ◌-◌, ◌/◌, ◌%◌, ◌^◌, bit_and, Bool, true, false, not, ltb, leb, ◌==◌,
  if◌then◌else◌, List, [], ◌∷◌, ◌++◌, update,
}

pub record Timer : Type 0 where
  pub expires : ℕ
  pub interval : ℕ
  pub active : Bool

abbrev pub timer_wheel_mask : ℕ
timer_wheel_mask = 255

pub record Wheel : Type 0 where
  pub slots : ℕ → List ℕ
  pub timer : ℕ → Timer
  pub active_timers : ℕ
  pub fired : List ℕ

unfoldable pub ktimer_init : Timer
ktimer_init = record { expires = 0; interval = 0; active = false }

unfoldable pub ktimer_init_subsystem : (ℕ → Timer) → Wheel
ktimer_init_subsystem timer = record {
  slots = λ s. [];
  timer = timer;
  active_timers = 0;
  fired = [];
}

abbrev pub slot_of : ℕ → ℕ
slot_of expires = bit_and expires timer_wheel_mask

-- A list without the node of a timer.
abbrev pub without : ℕ → List ℕ → List ℕ
without t [] = []
without t (x ∷ xs) = let rest = without t xs in if x == t then rest else x ∷ rest

unfoldable pub timer_insert : ℕ → Wheel → Wheel
timer_insert t w =
    let slot = slot_of (w.timer t).expires in
    record w {
      slots = update w.slots slot (w.slots slot ++ (t ∷ []));
      timer = update w.timer t (record (w.timer t) { active = true });
      active_timers = (w.active_timers + 1) % 2 ^ 32;
    }

-- `list_remove_node(&t->node); active_timers--;`
unfoldable pub unlink : ℕ → Wheel → Wheel
unlink t w = record w {
  slots = λ s. without t (w.slots s);
  active_timers = (w.active_timers + 2 ^ 32 - 1) % 2 ^ 32;
}

abbrev pub ticks_of : ℕ → ℕ
ticks_of ms = if ms / 10 == 0 then 1 else ms / 10

unfoldable pub start_with : ℕ → ℕ → ℕ → ℕ → Wheel → Wheel
start_with t ticks interval now w =
    let off = if (w.timer t).active then unlink t w else w in
    timer_insert t (record off {
      timer =
          update off.timer t
            (record (off.timer t) { expires = (now + ticks) % 2 ^ 64; interval = interval });
    })

unfoldable pub ktimer_start : ℕ → ℕ → ℕ → Wheel → Wheel
ktimer_start t delay_ms now w = start_with t (ticks_of delay_ms) 0 now w

unfoldable pub ktimer_start_repeating : ℕ → ℕ → ℕ → Wheel → Wheel
ktimer_start_repeating t interval_ms now w =
    start_with t (ticks_of interval_ms) (ticks_of interval_ms) now w

unfoldable pub set_inactive : ℕ → Wheel → Wheel
set_inactive t w = record w { timer = update w.timer t (record (w.timer t) { active = false }) }

unfoldable pub ktimer_cancel : ℕ → Wheel → Wheel
ktimer_cancel t w = if (w.timer t).active then set_inactive t (unlink t w) else w

-- A timer that is due: it leaves the list, its callback runs, and it is armed again if it repeats.
unfoldable pub fire : ℕ → ℕ → Wheel → Wheel
fire now t w =
    let off = set_inactive t (unlink t w) in
    let called = record off { fired = off.fired ++ (t ∷ []) } in
    if ltb 0 (called.timer t).interval
    then timer_insert t (record called {
      timer =
          update called.timer t
            (record (called.timer t) { expires = (now + (called.timer t).interval) % 2 ^ 64 });
    })
    else called

-- The walk over the list. A timer that is put into the list meanwhile is not due yet.
unfoldable pub tick_loop : ℕ → List ℕ → Wheel → Wheel
tick_loop now [] w = w
tick_loop now (t ∷ rest) w =
    tick_loop now rest (if leb (w.timer t).expires now then fire now t w else w)

unfoldable pub ktimer_tick : ℕ → Wheel → Wheel
ktimer_tick now w = tick_loop now (w.slots (slot_of now)) w

unfoldable pub ktimer_active_count : Wheel → ℕ
ktimer_active_count w = w.active_timers
