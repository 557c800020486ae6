-- ===== src/Ktimer/Tests.antt =====
-- kernel/ktimer.c: timer 1 fires once and timer 2 repeats, both at tick 300; timer 3 is for 556.
use alze_os.Base.{◌≡◌, ◌==◌, refl, true, [], ◌∷◌, if◌then◌else◌, arith}
use alze_os.Ktimer.{Wheel, ktimer_tick, tick_loop, fire, set_inactive, unlink, timer_insert}
use alze_os.Ktimer.Tick.{Ticked, ktimer_tick-Ticked}

abbrev wheel : Wheel
wheel = record {
  slots = λ s. if s == 44 then 1 ∷ 2 ∷ 3 ∷ [] else [];
  timer = λ t. record {
    expires = if t == 3 then 556 else 300;
    interval = if t == 2 then 10 else 0;
    active = true;
  };
  active_timers = 3;
  fired = [];
}

ktimer_tick-Ticked_example : Ticked 300 (1 ∷ 2 ∷ 3 ∷ []) wheel (ktimer_tick 300 wheel)
ktimer_tick-Ticked_example = ktimer_tick-Ticked 300 wheel (refl, (refl, (refl, ground arith)))

tick_test :
    ((ktimer_tick 300 wheel).fired ≡ 1 ∷ 2 ∷ []) × ((ktimer_tick 300 wheel).slots 54 ≡ 2 ∷ [])
unfolding ktimer_tick tick_loop fire set_inactive unlink timer_insert
tick_test = (refl, refl)
