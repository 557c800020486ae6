-- ===== src/Ktimer/Tick.antt =====
-- Which timers a tick fires, and where they stand after it.
use alze_os.Base.{
  has, Distinct, ℕ, ◌+◌, ◌%◌, ◌^◌, ◌≡◌, refl, sym, ap, ◌∙◌, inl, inr, Bool, true, false, not, ◌&&◌,
  ◌||◌, ltb, leb, ◌==◌, if◌then◌else◌, List, [], ◌∷◌, ◌++◌, append_assoc, append-nil, Bool-cases,
  arith,
}
use alze_os.Ktimer.{
  Timer, Wheel, slot_of, without, timer_insert, unlink, set_inactive, fire, tick_loop, ktimer_tick,
}

abbrev pub due : ℕ → Wheel → ℕ → Bool
due now w t = leb (w.timer t).expires now

-- The timers of a list that are due, in order.
abbrev pub all_due : ℕ → Wheel → List ℕ → List ℕ
all_due now w [] = []
all_due now w (t ∷ rest) =
    let later = all_due now w rest in if due now w t then t ∷ later else later

-- A timer after it has fired.
abbrev pub after_firing : ℕ → Timer → Timer
after_firing now t =
    if ltb 0 t.interval
    then record { expires = (now + t.interval) % 2 ^ 64; interval = t.interval; active = true }
    else record t { active = false }

has-append : (t x : ℕ) (xs : List ℕ) → has t (xs ++ (x ∷ [])) ≡ (has t xs || t == x)
has-append t x [] = ground arith
has-append t x (y ∷ xs) = ground (arith, has-append t x xs)

has-without : (t x : ℕ) (xs : List ℕ) → has t (without x xs) ≡ (has t xs && not (t == x))
has-without t x [] = refl
has-without t x (y ∷ xs) = ground (arith, has-without t x xs)

record Fired (now x : ℕ) (w w' : Wheel) : Type 0 where
  calls : w'.fired ≡ w.fired ++ (x ∷ [])
  timer : (t : ℕ) → w'.timer t ≡ (if t == x then after_firing now (w.timer x) else w.timer t)
  placed :
      (s t : ℕ)
      → has t (w'.slots s) ≡ (
          if t == x
          then ltb 0 (w.timer x).interval && s == slot_of ((now + (w.timer x).interval) % 2 ^ 64)
          else has t (w.slots s))

fire-Fired : (now x : ℕ) (w : Wheel) → Fired now x w (fire now x w)
unfolding fire timer_insert unlink set_inactive
fire-Fired now x w = record {
  calls = ground arith;
  timer = λ t. ground arith;
  placed =
      λ s t. ground (arith, has-without t x (w.slots s), has-append t x (without x (w.slots s)));
}

-- What a walk over `xs` has done.
pub record Ticked (now : ℕ) (xs : List ℕ) (w w' : Wheel) : Type 0 where
  pub calls : w'.fired ≡ w.fired ++ all_due now w xs
  pub timer :
      (t : ℕ)
      → w'.timer t ≡ (if has t xs && due now w t then after_firing now (w.timer t) else w.timer t)
  pub placed :
      (s t : ℕ)
      → has t (w'.slots s) ≡ (
          if has t xs && due now w t
          then ltb 0 (w.timer t).interval && s == slot_of ((now + (w.timer t).interval) % 2 ^ 64)
          else has t (w.slots s))

all_due_ext :
    (now : ℕ) (xs : List ℕ) (w w' : Wheel)
    → ((t : ℕ) → has t xs ≡ true → w'.timer t ≡ w.timer t)
    → Distinct xs
    → all_due now w' xs ≡ all_due now w xs
all_due_ext now [] w w' h d = refl
all_due_ext now (x ∷ xs) w w' h d =
    let rest = all_due_ext now xs w w' (λ t m. h t (ground arith)) d.1 in
    rw (h x (ground arith), rest) refl

tick_loop-Ticked :
    (now : ℕ) (xs : List ℕ) (w : Wheel) → Distinct xs → Ticked now xs w (tick_loop now xs w)
unfolding tick_loop
tick_loop-Ticked now [] w d = record {
  calls = sym (append-nil w.fired);
  timer = λ t. refl;
  placed = λ s t. refl;
}
tick_loop-Ticked now (x ∷ xs) w d = elim (Bool-cases (leb (w.timer x).expires now)) [
  | inl here ↦
      (let f = fire-Fired now x w in
        let r = tick_loop-Ticked now xs (fire now x w) d.1 in
        rw here (record {
          calls =
              r.calls
              ∙ ap (λ l. l ++ all_due now (fire now x w) xs) f.calls
              ∙ append_assoc w.fired (x ∷ []) (all_due now (fire now x w) xs)
              ∙ ap (λ l. w.fired ++ l)
                  (rw here (
                    ap (λ l. x ∷ l)
                      (all_due_ext now xs w (fire now x w)
                        (λ t m. f.timer t ∙ ground (arith, m, d.0)) d.1)));
          timer = λ t. ground (arith, r.timer t, f.timer t, f.timer x, d.0, here);
          placed = λ s t. ground (arith, r.placed s t, f.placed s t, f.timer t, d.0, here);
        }))
  | inr later ↦
      (let r = tick_loop-Ticked now xs w d.1 in
        rw later (record {
          calls = r.calls ∙ rw later refl;
          timer = λ t. ground (arith, r.timer t, d.0, later);
          placed = λ s t. ground (arith, r.placed s t, d.0, later);
        }))
]

-- A tick calls the callbacks of the timers in its slot that have expired, once each and in order,
-- and of no other. One that repeats is armed again, an interval from now, in the slot of its new
-- time and no other; one that does not is inactive and in no slot. All other timers stay as they
-- are and where they are.
pub ktimer_tick-Ticked :
    (now : ℕ) (w : Wheel)
    → Distinct (w.slots (slot_of now))
    → Ticked now (w.slots (slot_of now)) w (ktimer_tick now w)
unfolding ktimer_tick
ktimer_tick-Ticked now w d = tick_loop-Ticked now (w.slots (slot_of now)) w d
