-- ===== src/Scheduler/Lifecycle/Outcomes.antt =====
-- What successes, failures and a suspension do to the rows.
use tg_auto_msg.Prelude.{
  ℕ, ◌+◌, ◌≤◌, ◌≡◌, refl, ◌∙◌, ◌⊎◌, true, false, not, List, [], ◌∷◌, map, String, arith,
  if◌then◌else◌, leb, length, or_else, Bool-cases, inl, inr,
}
use tg_auto_msg.Schema.{Task, TriggerSource}
use tg_auto_msg.Scheduler.Lifecycle.{
  Store, handle_task_failure, failed_task, suspend_account_tasks, suspended_until, is_enabled_for,
}

-- Failures one after the other, at these instants, of scheduled runs.
abbrev pub failures : String → ℕ → TriggerSource → List ℕ → Store → Store
failures message limit source [] s = s
failures message limit source (wall ∷ walls) s =
    failures message limit source walls (handle_task_failure message limit wall source true true s)

failure-count :
    (message : String) (limit wall : ℕ) (source : TriggerSource) (s : Store)
    → (handle_task_failure message limit wall source true true s).task.failure_count
      ≡ s.task.failure_count + 1
unfolding handle_task_failure failed_task
failure-count message limit wall source s = refl

failure-enabled :
    (message : String) (limit wall : ℕ) (source : TriggerSource) (s : Store)
    → (handle_task_failure message limit wall source true true s).task.enabled
      ≡ (if leb limit (s.task.failure_count + 1) then false else s.task.enabled)
unfolding handle_task_failure failed_task
failure-enabled message limit wall source s = refl

failures-count :
    (message : String) (limit : ℕ) (source : TriggerSource) (walls : List ℕ) (s : Store)
    → (failures message limit source walls s).task.failure_count
      ≡ s.task.failure_count + length walls
failures-count message limit source [] s = omega arith
failures-count message limit source (wall ∷ walls) s = omega (
  arith,
  failures-count message limit source walls
      (handle_task_failure message limit wall source true true s),
  failure-count message limit wall source s,
)

failures-stay_disabled :
    (message : String) (limit : ℕ) (source : TriggerSource) (walls : List ℕ) (s : Store)
    → s.task.enabled ≡ false
    → (failures message limit source walls s).task.enabled ≡ false
failures-stay_disabled message limit source [] s off = off
failures-stay_disabled message limit source (wall ∷ walls) s off =
    failures-stay_disabled message limit source walls
      (handle_task_failure message limit wall source true true s)
      (ground (arith, failure-enabled message limit wall source s))

-- Failures in a row of an enabled task whose count is still below the limit disable it exactly when
-- they bring the count to the limit.
pub failures_disable :
    (message : String) (limit : ℕ) (source : TriggerSource) (walls : List ℕ) (s : Store)
    → s.task.enabled ≡ true
    → leb limit s.task.failure_count ≡ false
    → (failures message limit source walls s).task.enabled
      ≡ not (leb limit (s.task.failure_count + length walls))
failures_disable message limit source [] s on below = ground arith
failures_disable message limit source (wall ∷ walls) s on below =
    elim (Bool-cases (leb limit (s.task.failure_count + 1))) [
      | inl reached ↦
          let off =
            failures-stay_disabled message limit source walls
              (handle_task_failure message limit wall source true true s)
              (ground (arith, failure-enabled message limit wall source s)) in
          off ∙ ground arith
      | inr still_below ↦
          let rest =
            failures_disable message limit source walls
              (handle_task_failure message limit wall source true true s)
              (ground (arith, failure-enabled message limit wall source s))
              (ground (arith, failure-count message limit wall source s)) in
          rest ∙ ground (arith, failure-count message limit wall source s)
    ]

-- The other rows, and the task itself, as one list.
abbrev pub rows : Store → List Task
rows s = s.task ∷ s.others

-- The account's enabled tasks do not run before the given time, none runs earlier than planned, and
-- the tasks that are disabled or belong to others stay as they are.
abbrev pub IsPutOff : String → ℕ → Task → Task → Type 0
IsPutOff account_id until before after =
    ((is_enabled_for account_id before ≡ true)
      × (until ≤ or_else after.next_run_at 0)
      × (or_else before.next_run_at 0 ≤ or_else after.next_run_at 0)
      × (after ≡ record before { next_run_at = after.next_run_at }))
    ⊎ ((is_enabled_for account_id before ≡ false) × (after ≡ before))

-- Row by row.
abbrev pub IsPutOffAll : String → ℕ → List Task → List Task → Type 0
IsPutOffAll account_id until [] [] = Unit
IsPutOffAll account_id until (a ∷ before) (b ∷ after) =
    IsPutOff account_id until a b × IsPutOffAll account_id until before after
IsPutOffAll account_id until _ _ = ⊥

suspended-IsPutOff :
    (account_id : String) (until : ℕ) (task : Task)
    → IsPutOff account_id until task (suspended_until account_id until task)
unfolding suspended_until
suspended-IsPutOff account_id until task = elim (Bool-cases (is_enabled_for account_id task)) [
  | inl enabled ↦ rw enabled (inl (refl, omega arith, omega arith, refl))
  | inr disabled ↦ rw disabled (inr (refl, refl))
]

rows-IsPutOff :
    (account_id : String) (until : ℕ) (tasks : List Task)
    → IsPutOffAll account_id until tasks (map (suspended_until account_id until) tasks)
rows-IsPutOff account_id until [] = tt
rows-IsPutOff account_id until (task ∷ tasks) =
    (suspended-IsPutOff account_id until task, rows-IsPutOff account_id until tasks)

-- Suspending an account's tasks until some time: each of its enabled tasks is put off to that time
-- or later, none to an earlier time than before, and only its next run changes; every other row
-- stays as it is.
pub suspend_account_tasks-IsPutOff :
    (account_id : String) (until : ℕ) (s : Store)
    → IsPutOffAll account_id until (rows s) (rows (suspend_account_tasks account_id until s))
unfolding suspend_account_tasks
suspend_account_tasks-IsPutOff account_id until s = rows-IsPutOff account_id until (rows s)
