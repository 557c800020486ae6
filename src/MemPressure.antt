-- ===== src/MemPressure.antt =====
-- kernel/mempressure.c: the memory pressure monitor. A callback is known by a number; its calls are
-- listed, and what it does is not part of the monitor's state.
mod Tests
use alze_os.Base.{
  ℕ, zero, suc, ◌-◌, ◌*◌, ◌/◌, ◌%◌, ◌^◌, ◌≤◌, ◌<◌, ◌≡◌, ap, ◌∙◌, ◌==◌, ==_iff, ltb, leb, Bool, true,
  false, not, if◌then◌else◌, ◌⊎◌, Option, none, some, List, [], ◌∷◌, ◌++◌, map, length, update, ℤ,
  pos, neg, ◌↔◌,
}
use alze_os.Errno.{enospc}
use alze_os.Pmm.{Pmm, add64, pmm_free_count, pmm_used_count}

pub data MemPressureLevel : Type 0 where
  normal warning critical : MemPressureLevel

abbrev pub threshold_warning : ℕ
threshold_warning = 75

abbrev pub threshold_critical : ℕ
threshold_critical = 25

abbrev pub max_callbacks : ℕ
max_callbacks = 8

pub record MemPressure : Type 0 where
  pub callbacks : List ℕ
  pub last_level : MemPressureLevel

unfoldable pub mempressure_init : MemPressure
mempressure_init = record { callbacks = []; last_level = normal }

-- The new state, and the slot or the error.
unfoldable pub mempressure_register : ℕ → MemPressure → MemPressure × ℤ
mempressure_register fn st =
    if leb max_callbacks (length st.callbacks)
    then (st, neg enospc)
    else (record st { callbacks = st.callbacks ++ (fn ∷ []) }, pos (length st.callbacks))

abbrev pub same_level : MemPressureLevel → MemPressureLevel → Bool
same_level normal normal = true
same_level normal warning = false
same_level normal critical = false
same_level warning normal = false
same_level warning warning = true
same_level warning critical = false
same_level critical normal = false
same_level critical warning = false
same_level critical critical = true

unfoldable pub level_of : ℕ → MemPressureLevel
level_of free_pct =
    if ltb free_pct threshold_critical
    then critical
    else if ltb free_pct threshold_warning
    then warning
    else normal

-- What a check returns: the level, the state, and the calls of callbacks in their order.
pub record Checked : Type 0 where
  pub level : MemPressureLevel
  pub state : MemPressure
  pub calls : List (ℕ × MemPressureLevel)

-- The callbacks are called only when the level changes.
unfoldable pub notify : MemPressureLevel → MemPressure → Checked
notify level st =
    if same_level level st.last_level
    then record { level = level; state = st; calls = [] }
    else record {
      level = level;
      state = record st { last_level = level };
      calls = map (λ fn. (fn, level)) st.callbacks;
    }

unfoldable pub mempressure_check : Pmm → MemPressure → Checked
unfolding pmm_free_count pmm_used_count level_of notify
mempressure_check pmm st =
    let total = add64 (pmm_free_count pmm) (pmm_used_count pmm) in
    if total == 0
    then record { level = normal; state = st; calls = [] }
    else notify (level_of (pmm_free_count pmm * 100 % 2 ^ 64 / total)) st

-- The level that the shares of free frames ask for, without a division.
pub record IsLevel (free total : ℕ) (level : MemPressureLevel) : Type 0 where
  pub low : (level ≡ critical) ↔ (4 * free < total)
  pub high : (level ≡ normal) ↔ (3 * total ≤ 4 * free)

-- What a notification does.
pub record Notified (level : MemPressureLevel) (st : MemPressure) (r : Checked) : Type 0 where
  pub same : r.level ≡ level
  pub kept : r.state.last_level ≡ level
  pub registered : r.state.callbacks ≡ st.callbacks
  pub told :
      r.calls
      ≡ (if same_level level st.last_level then [] else map (λ fn. (fn, level)) st.callbacks)
