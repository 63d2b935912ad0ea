-- ===== src/Strategy.antt =====
-- The fields of a task that the system sets: `build_auto_delay_profile` of
-- backend/h5_backend/services/task/helpers.py, and from payload.py there `apply_system_strategy_fields`
-- and the next run of a task that is switched on. They are shown on the row, where the payload goes.
pub mod Profile
use tg_auto_msg.Prelude.{
  ℕ, ◌+◌, min, max, Bool, true, false, ◌&&◌, ◌||◌, not, Option, none, some, String, if◌then◌else◌,
  ltb, or_else, is_some,
}
use tg_auto_msg.Prelude.Int.{ℤ, pos, ltb_ℤ, leb_ℤ, eqb_ℤ}
use tg_auto_msg.Schema.{Task, TriggerMode, Account}
use tg_auto_msg.Scheduler.Queue.{is_scheduled}

pub record DelayProfile : Type 0 where
  pub delay_min_seconds : ℕ
  pub delay_max_seconds : ℕ
  pub jitter_seconds : ℕ

-- `int(getattr(account, "weight", 100) or 100)`
abbrev weight_of : Option Account → ℤ
weight_of none = pos 100
weight_of (some a) = if eqb_ℤ a.weight (pos 0) then pos 100 else a.weight

-- The bounds of the smallest delay, and the least bound of the greatest.
abbrev pub min_range : ℤ → Option Account → ℕ × ℕ
min_range priority account =
    if leb_ℤ (pos 100) priority
    then (30, 60)
    else if ltb_ℤ (weight_of account) (pos 50)
    then (90, 150)
    else if ltb_ℤ (weight_of account) (pos 100)
    then (60, 120)
    else (30, 90)

abbrev pub max_low : ℤ → Option Account → ℕ
max_low priority account =
    if leb_ℤ (pos 100) priority
    then 180
    else if ltb_ℤ (weight_of account) (pos 50)
    then 240
    else if ltb_ℤ (weight_of account) (pos 100)
    then 210
    else 180

-- `randint k a b` is the k-th call of `random.randint(a, b)`.
module _ (randint : ℕ → ℕ → ℕ → ℕ) where
  abbrev pub drawn_min : ℤ → Option Account → ℕ
  drawn_min priority account = let (low, high) = min_range priority account in randint 0 low high

  abbrev pub drawn_max : ℤ → Option Account → ℕ
  drawn_max priority account =
      randint 1 (max (drawn_min priority account + 1) (max_low priority account)) 300

  pub build_auto_delay_profile : ℤ → Option Account → DelayProfile
  build_auto_delay_profile priority account = record {
    delay_min_seconds = drawn_min priority account;
    delay_max_seconds = drawn_max priority account;
    jitter_seconds = randint 2 30 (min (drawn_max priority account) 300);
  }

  pub apply_system_strategy_fields : Option Account → Task → Task
  apply_system_strategy_fields account t =
      let profile = build_auto_delay_profile t.priority account in
      record t {
        pin_message = false;
        day_start_hour = none;
        day_end_hour = none;
        delay_min_seconds = pos profile.delay_min_seconds;
        delay_max_seconds = pos profile.delay_max_seconds;
        jitter_seconds = pos profile.jitter_seconds;
      }

-- `ensure_initial_next_run` of a task that is there, its new fields set: `was_enabled` is its switch
-- before.
pub ensure_initial_next_run : ℕ → Bool → Task → Task
ensure_initial_next_run now was_enabled t =
    let start = or_else t.start_at 0 in
    if not (is_scheduled t.trigger_mode)
    then record t { next_run_at = none }
    else if t.enabled && (not was_enabled || not (is_some t.next_run_at))
    then record t {
      next_run_at = some (if ltb 0 start then max now start else now);
      failure_count = if was_enabled then t.failure_count else 0;
    }
    else t
