-- ===== src/Kprintf/RateLimit.antt =====
-- kernel/kprintf.c: how many messages the rate limiter lets through.
use alze_os.Base.{
  ℕ, suc, ◌+◌, ◌-◌, ◌^◌, ◌≤◌, ◌<◌, min, ◌≡◌, List, [], ◌∷◌, length, leb, if◌then◌else◌, arith, All,
}
use alze_os.Kprintf.{KprintfRatelimit, kprintf_rl_allow}

-- Calls at the given times, one after the other: how many are let through, and the state after them.
unfoldable pub calls : List ℕ → KprintfRatelimit → ℕ × KprintfRatelimit
calls [] rl = (0, rl)
calls (now ∷ times) rl =
    let (next, allowed) = kprintf_rl_allow now rl in
    let (n, last) = calls times next in ((if allowed then suc n else n), last)

-- A time in the window that the limiter has opened.
abbrev pub InWindow : KprintfRatelimit → ℕ → Type 0
InWindow rl now = (rl.last_tick ≤ now) × (now < rl.last_tick + rl.interval_ticks) × (now < 2 ^ 64)

within_lem :
    (now : ℕ) (rl : KprintfRatelimit)
    → InWindow rl now
    → suc rl.count < 2 ^ 32
    → kprintf_rl_allow now rl ≡ (record rl { count = suc rl.count }, leb (suc rl.count) rl.burst)
unfolding kprintf_rl_allow
within_lem now rl w h = ground arith

-- Within a window, of any number of calls exactly the first ones pass that bring the count to `burst`,
-- as long as the count of the calls does not wrap round.
pub calls-min :
    (times : List ℕ) (rl : KprintfRatelimit)
    → All (InWindow rl) times
    → rl.count + length times < 2 ^ 32
    → (calls times rl).0 ≡ min (length times) (rl.burst - rl.count)
unfolding calls
calls-min [] rl w h = omega arith
calls-min (now ∷ times) rl (here, later) h =
    rw (within_lem now rl here (omega arith))
      (ground (arith, calls-min times (record rl { count = suc rl.count }) later (omega arith)))
