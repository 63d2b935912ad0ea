-- ===== src/Scheduler/Runner/NoTargets.antt =====
-- What a run does that has no target to send to (`_handle_no_targets`).
use tg_auto_msg.Prelude.{
  ℕ, ◌+◌, ◌*◌, ◌<◌, ◌≡◌, refl, Bool, true, false, some, List, [], String, arith, ltb, any,
}
use tg_auto_msg.Prelude.Int.{ℤ}
use tg_auto_msg.Schema.{Item, TriggerSource}
use tg_auto_msg.Scheduler.Lifecycle.{Store, handle_task_failure}
use tg_auto_msg.Scheduler.Targets.{collect_task_targets, count_configured_task_targets}
use tg_auto_msg.Scheduler.Targets.Collected.{is_configured, is_active_for, no_targets_configured}
use tg_auto_msg.Scheduler.Runner.{
  TaskExecutionSummary, skipped, failed, build_summary, with_next_run, handle_no_targets,
}

-- The report and the rows, by whether some element of the list names a target and whether the run
-- advances the schedule.
abbrev pub IsReported : Bool → Bool → ℕ → Store → TaskExecutionSummary × Store → Type 0
IsReported true true now s (summary, after) =
    (summary.status ≡ skipped)
    × (0 < summary.total_targets)
    × (summary.failed_count ≡ summary.total_targets)
    × (after ≡ with_next_run (some (now + s.task.repeat_interval_min * 60)) s)
IsReported true false now s (summary, after) =
    (summary.status ≡ failed)
    × (0 < summary.total_targets)
    × (summary.failed_count ≡ summary.total_targets)
    × (after.task.failure_count ≡ s.task.failure_count + 1)
    × (after.task.enabled ≡ s.task.enabled)
    × (after.task.next_run_at ≡ s.task.next_run_at)
IsReported false advance now s (summary, after) =
    (summary.status ≡ failed)
    × (summary.total_targets ≡ 0)
    × (summary.failed_count ≡ 0)
    × (after.task.failure_count ≡ s.task.failure_count + 1)

handle_no_targets-IsReported :
    (named advance : Bool) (now wall max_failures : ℕ) (source : TriggerSource) (s : Store)
    → ltb 0 (count_configured_task_targets s.task) ≡ named
    → IsReported named advance now s (handle_no_targets now wall max_failures advance source s)
unfolding build_summary handle_task_failure
handle_no_targets-IsReported true true now wall max_failures source s e =
    rw e (refl, ground (arith, e), refl, refl)
handle_no_targets-IsReported true false now wall max_failures source s e =
    rw e (refl, ground (arith, e), refl, refl, refl, refl)
handle_no_targets-IsReported false advance now wall max_failures source s e =
    rw e (refl, refl, refl, refl)

-- A task with a list of targets, of which the run has none to send to. If some element of the list is
-- a target, then a run that advances the schedule is skipped and puts the next run one interval
-- later, and another fails and leaves the plan and the switch; all targets count as failed. If no
-- element is one, the run fails with no target counted. In both cases no element names a target that
-- is not suspended.
pub no_targets-IsReported :
    (now wall max_failures : ℕ) (advance : Bool) (source : TriggerSource) (s : Store)
    (items : List Item)
    → s.task.target_peers ≡ some items
    → collect_task_targets s.task ≡ []
    → IsReported
        (any is_configured items)
        advance
        now
        s
        (handle_no_targets now wall max_failures advance source s)
      × ((kind : String) (id : ℤ) → any (is_active_for kind id) items ≡ false)
no_targets-IsReported now wall max_failures advance source s items listed empty =
    let (count, suspended) = no_targets_configured s.task items listed empty in
    (
      handle_no_targets-IsReported (any is_configured items) advance now wall max_failures source s
          count,
      suspended,
    )
