-- ===== src/Scheduler/Runner/Constraints.antt =====
-- The constraints on a run, before its targets are served.
use tg_auto_msg.Prelude.{
  ℕ, ◌<◌, ◌≡◌, refl, ◌⊎◌, inl, inr, Bool, true, false, ◌&&◌, not, Option, none, some, arith,
  Bool-cases, Option-cases, or_else, is_some,
}
use tg_auto_msg.Schema.{Task, TriggerSource}
use tg_auto_msg.Scheduler.Lifecycle.{Store, check_time_limit}
use tg_auto_msg.Scheduler.Lifecycle.Window.{check_time_limit-later}
use tg_auto_msg.Scheduler.Runner.{
  check_schedule_constraints, end_checked, window_checked, not_started, has_ended,
  TaskExecutionSummary,
}

-- The run's second is not before the task's start and not after its end, and the hour is in its
-- daily window.
abbrev pub is_allowed : Task → ℕ → ℕ → Bool
is_allowed task now hour =
    not (is_some (not_started now task.start_at))
    && not (has_ended now task.end_at)
    && (check_time_limit task hour now).0

-- The run goes on and nothing has changed, or it is reported as put off, and the task is disabled or
-- planned for a later time.
abbrev pub IsDecided : Bool → ℕ → Store → Option TaskExecutionSummary × Store → Type 0
IsDecided allowed now s (summary, after) =
    ((allowed ≡ true) × (summary ≡ none) × (after ≡ s))
    ⊎ ((allowed ≡ false)
        × (is_some summary ≡ true)
        × ((after.task.enabled ≡ false) ⊎ (now < or_else after.task.next_run_at 0)))

not_started-later :
    (now : ℕ) (start : Option ℕ) (later : ℕ) → not_started now start ≡ some later → now < later
not_started-later now none later e = ground arith
not_started-later now (some t) later e = ground arith

end_checked-IsDecided :
    (now hour : ℕ) (source : TriggerSource) (count : ℕ) (s : Store)
    → 0 < s.task.repeat_interval_min
    → IsDecided
        (not (has_ended now s.task.end_at) && (check_time_limit s.task hour now).0)
        now
        s
        (end_checked now hour true source count s)
end_checked-IsDecided now hour source count s h = elim (Bool-cases (has_ended now s.task.end_at)) [
  | inl over ↦ rw over (inr (refl, refl, inl refl))
  | inr not_over ↦ elim (check_time_limit-later s.task hour now h) [
    | inl inside ↦ rw (not_over, inside) (inl (refl, refl, refl))
    | inr (next, outside, later) ↦ rw (not_over, outside) (inr (refl, refl, inr (omega arith)))
  ]
]

-- A scheduled run of a task with a positive interval goes on exactly if the constraints allow it, and
-- then nothing has changed. Otherwise it is reported as put off, and the task is disabled or planned
-- for a later time than the run's, so that the same run is not due again at once.
pub constraints_decide :
    (now hour : ℕ) (source : TriggerSource) (count : ℕ) (s : Store)
    → 0 < s.task.repeat_interval_min
    → IsDecided
        (is_allowed s.task now hour)
        now
        s
        (check_schedule_constraints now hour true true source count s)
unfolding check_schedule_constraints
constraints_decide now hour source count s h =
    elim (Option-cases (not_started now s.task.start_at)) [
      | inl started ↦ rw started (end_checked-IsDecided now hour source count s h)
      | inr (start, early) ↦ rw early (
          inr (refl, refl, inr (ground (arith, not_started-later now s.task.start_at start early))))
    ]

window_unchanged :
    (r : Bool × Option ℕ) (source : TriggerSource) (count : ℕ) (s : Store)
    → (window_checked r false source count s).1 ≡ s
window_unchanged (true, next) source count s = refl
window_unchanged (false, next) source count s = refl

-- A run by hand writes nothing here, whether it goes on or not.
pub manual_run_unchanged :
    (now hour : ℕ) (respect : Bool) (source : TriggerSource) (count : ℕ) (s : Store)
    → (check_schedule_constraints now hour false respect source count s).1 ≡ s
unfolding check_schedule_constraints
manual_run_unchanged now hour respect source count s = elim (Bool-cases respect) [
  | inr ignored ↦ rw ignored refl
  | inl respected ↦ elim (Option-cases (not_started now s.task.start_at)) [
    | inr (start, early) ↦ rw (respected, early) refl
    | inl started ↦ elim (Bool-cases (has_ended now s.task.end_at)) [
      | inl over ↦ rw (respected, started, over) refl
      | inr not_over ↦
          rw (respected, started, not_over)
            (window_unchanged (check_time_limit s.task hour now) source count s)
    ]
  ]
]
