-- ===== src/Scheduler/Runner/Once.antt =====
-- `execute_task_once` of backend/scheduler/core/task_runner.py: the phases of a run, one after the
-- other. The clock is read once for a run.
use tg_auto_msg.Prelude.{ℕ, Bool, Option, none, some, List, String, length}
use tg_auto_msg.Http.{Result, ok, refused}
use tg_auto_msg.Circuit.{Probe}
use tg_auto_msg.Scheduler.Targets.{Target}
use tg_auto_msg.Scheduler.Lifecycle.{Store}
use tg_auto_msg.Scheduler.Runner.{
  TaskExecutionSummary, check_schedule_constraints, lock_and_recheck_observation_budget,
}
use tg_auto_msg.Scheduler.Runner.Send.{World, Outside}
use tg_auto_msg.Scheduler.Runner.Finish.{Run, send_phase}
use tg_auto_msg.Scheduler.Runner.Session.{
  Session, Validated, raised, over, valid, ValidationResult, on_store,
}
use tg_auto_msg.Scheduler.Runner.Validate.{Call, validate_and_resolve}

abbrev pub run_of : Call → ValidationResult → List Target → Run
run_of c v targets = record {
  now = c.now;
  wall = c.wall;
  advance = c.advance;
  source = c.source;
  max_failures = c.max_failures;
  account_id = v.account_id_str;
  account_display = v.account_display;
  targets = targets;
}

abbrev with_store : Store → Session → Session
with_store store s = on_store (λ t. store) s

abbrev with_world : TaskExecutionSummary × World → Session → Result TaskExecutionSummary × Session
with_world (summary, w) s = (ok summary, record s { world = w })

-- Phase 3, unless the observation's budget is gone.
abbrev pub after_recheck :
    Outside
    → Call
    → ValidationResult
    → Option TaskExecutionSummary × List Target × Store
    → Session
    → Result TaskExecutionSummary × Session
after_recheck outside c v (some summary, targets, store) s = (ok summary, with_store store s)
after_recheck outside c v (none, targets, store) s =
    with_world (send_phase outside (run_of c v targets) (record s.world { store = store })) s

-- Phase 2, unless the schedule forbids it.
abbrev pub after_constraints :
    Outside
    → Call
    → ValidationResult
    → Option TaskExecutionSummary × Store
    → Session
    → Result TaskExecutionSummary × Session
after_constraints outside c v (some summary, store) s = (ok summary, with_store store s)
after_constraints outside c v (none, store) s =
    after_recheck outside c v
      (lock_and_recheck_observation_budget c.now c.wall v.target_specs c.advance c.source
        v.account_display store)
      (with_store store s)

abbrev pub after_validation :
    Outside → Call → ℕ → Bool → Validated × Session → Result TaskExecutionSummary × Session
after_validation outside c hour respect (raised e, s) = (refused e, s)
after_validation outside c hour respect (over summary, s) = (ok summary, s)
after_validation outside c hour respect (valid v, s) =
    after_constraints outside c v
      (check_schedule_constraints c.now hour c.advance respect c.source (length v.target_specs)
        s.world.store)
      s

-- A run of the session's task; `none` is a task that is not there.
pub execute_task_once :
    (String → Bool)
    → Probe
    → (ℕ → String)
    → Outside
    → Call
    → ℕ
    → Bool
    → Option Session
    → Result TaskExecutionSummary × Option Session
execute_task_once client probe uuid outside c hour respect none =
    (refused (record { status_code = 404; detail = "任务不存在" }), none)
execute_task_once client probe uuid outside c hour respect (some s) =
    let (result, after) =
      after_validation outside c hour respect (validate_and_resolve client c probe uuid s) in
    (result, some after)
