-- ===== src/Scheduler/Lifecycle/Window.antt =====
-- The daily window.
use tg_auto_msg.Prelude.{
  ℕ, ◌+◌, ◌*◌, ◌<◌, ◌≡◌, ◌≢◌, refl, true, false, not, Option, inl, inr, ◌⊎◌, Bool-cases, none, some,
  arith, if◌then◌else◌,
}
use tg_auto_msg.Schema.{Task}
use tg_auto_msg.Scheduler.Lifecycle.{in_time_range, check_time_limit, calculate_next_run, limited}

-- Two hours cut the day in two: every hour lies in exactly one of the windows [a, b) and [b, a).
range_partition : (a b hour : ℕ) → a ≢ b → in_time_range a b hour ≡ not (in_time_range b a hour)
unfolding in_time_range
range_partition a b hour ne = ground arith

-- For a task with two different hours, at any hour of the day, exactly one of the task and the same
-- task with its hours swapped may run; the one that may not is put off by one interval.
pub check_time_limit_swap :
    (task : Task) (start end hour now : ℕ)
    → task.day_start_hour ≡ some start
    → task.day_end_hour ≡ some end
    → start ≢ end
    → let swapped = record task { day_start_hour = some end; day_end_hour = some start } in
      let late = some (now + task.repeat_interval_min * 60) in
      (check_time_limit task hour now
        ≡ (if in_time_range start end hour then (true, none) else (false, late)))
      × (check_time_limit swapped hour now
          ≡ (if in_time_range start end hour then (false, late) else (true, none)))
unfolding check_time_limit calculate_next_run
check_time_limit_swap task start end hour now from to ne =
    (ground (arith, from, to), ground (arith, range_partition start end hour ne))

-- A task whose two hours are equal may run at no hour.
pub check_time_limit_same :
    (task : Task) (h hour now : ℕ)
    → task.day_start_hour ≡ some h
    → task.day_end_hour ≡ some h
    → (check_time_limit task hour now).0 ≡ false
unfolding check_time_limit in_time_range
check_time_limit_same task h hour now from to = rw (from, to) (ground arith)

limited-later :
    (start end : Option ℕ) (interval hour now : ℕ)
    → 0 < interval
    → (limited start end interval hour now ≡ (true, none))
      ⊎ ((next : ℕ) × (limited start end interval hour now ≡ (false, some next)) × (now < next))
unfolding calculate_next_run
limited-later none end interval hour now h = inl refl
limited-later (some a) none interval hour now h = inl refl
limited-later (some a) (some b) interval hour now h = elim (Bool-cases (in_time_range a b hour)) [
  | inl inside ↦ inl (rw inside refl)
  | inr outside ↦ inr (now + interval * 60, rw outside refl, omega arith)
]

-- The window lets a run go on, or names a later time.
pub check_time_limit-later :
    (task : Task) (hour now : ℕ)
    → 0 < task.repeat_interval_min
    → (check_time_limit task hour now ≡ (true, none))
      ⊎ ((next : ℕ) × (check_time_limit task hour now ≡ (false, some next)) × (now < next))
unfolding check_time_limit
check_time_limit-later task hour now h =
    limited-later task.day_start_hour task.day_end_hour task.repeat_interval_min hour now h
