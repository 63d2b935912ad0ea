-- ===== src/Scheduler/Runner/Send.antt =====
-- The loop over the targets of a run: `_send_to_targets` of backend/scheduler/core/task_runner.py and
-- `send_with_protections` of task_execution.py.
pub mod Attribution
pub mod Counts
use Prim.Native.String.{◌++◌}
use tg_auto_msg.Prelude.{
  ℕ, ◌-◌, Bool, true, false, not, Option, none, some, List, [], ◌∷◌, String, if◌then◌else◌, ltb,
  or_else, is_empty, length, map,
}
use mathlib.Core.List.{◌++◌ as ◌⧺◌}
use tg_auto_msg.Prelude.Int.{ℤ, pos, nonzero}
use tg_auto_msg.Prelude.Text.{str_eq, is_blank, strip, lower, show_ℕ, show_ℤ}
use tg_auto_msg.Prelude.Dict.{Dict}
use tg_auto_msg.Schema.{Task, TriggerSource, TaskTargetSendIssue}
use tg_auto_msg.Circuit.{
  Breaker, Probe, Outcome, Raised, HealthStatus, Notice, returned, raised, flood_wait, peer_flood,
  exception, execute_with_circuit_breaker,
}
use tg_auto_msg.Scheduler.Classifier.{SendError, TaskIssueClassification, classify_task_send_error}
use tg_auto_msg.Scheduler.Targets.{Target, is_set}
use tg_auto_msg.Scheduler.SentIds.{MessageIds, put_sent, get_target_last_message_id}
use tg_auto_msg.Scheduler.Metadata.{
  Failure, update_task_target_failure_metadata, update_task_target_success_metadata,
}
use tg_auto_msg.Scheduler.Issues.{record_task_target_send_issue, resolve_task_target_send_issue}
use tg_auto_msg.Scheduler.Lifecycle.{Store, handle_task_success, handle_task_failure}
use tg_auto_msg.Scheduler.Runner.{
  TaskExecutionSummary, success, failed, partial_success, build_summary,
}

-- The tables, and what the circuit breaker keeps beside them.
pub record World : Type 0 where
  pub store : Store
  pub recovery_tasks : Dict ℕ
  pub health_cache : Dict HealthStatus
  pub notices : List (ℕ × Notice)

abbrev pub breaker_of : World → Breaker
breaker_of w = record {
  accounts = w.store.accounts;
  recovery_tasks = w.recovery_tasks;
  health_cache = w.health_cache;
  notices = w.notices;
}

abbrev pub with_breaker : World → Breaker → World
with_breaker w b = record w {
  store = record w.store { accounts = b.accounts };
  recovery_tasks = b.recovery_tasks;
  health_cache = b.health_cache;
  notices = b.notices;
}

-- What the outside does while one target is served: an exception of the rate limiter instead of a
-- slot, the two attempts at the message, the breaker's probe and clock, and the clock for the rows.
pub record Replies : Type 0 where
  pub slot : Option Raised
  pub probe : Probe
  pub clock : ℕ → ℕ
  pub first_attempt : Outcome (Option ℤ)
  pub second_attempt : Outcome (Option ℤ)
  pub wall : ℕ
  pub now_iso : String

-- The replies depend on the target and on the message that may be deleted first.
abbrev pub Outside : Type 0
Outside = Target → Option ℤ → Replies

unfoldable pub send_with_protections : Replies → String → Breaker → Outcome (Option ℤ) × Breaker
send_with_protections r id b = elim r.slot [
  | some e ↦ (raised e, b)
  | none ↦
      if str_eq id "default"
      then (r.first_attempt, b)
      else execute_with_circuit_breaker r.probe id r.clock r.first_attempt r.second_attempt b
]

-- `_target_label`
abbrev pub target_label : Target → String
target_label t =
    if is_blank (or_else t.title "")
    then (if is_blank t.peer_type then "user" else t.peer_type) ++ ":" ++ show_ℤ t.peer_id
    else or_else t.title ""

-- `str(target_peer_type or task.target_peer_type or "user").strip().lower()`
abbrev pub type_of : Task → Target → String
type_of task t =
    let column = or_else task.target_peer_type "" in
    let asked = if is_blank t.peer_type then column else t.peer_type in
    lower (strip (if is_blank asked then "user" else asked))

-- The lists of the loop, the last element appended.
pub record Progress : Type 0 where
  pub world : World
  pub send_errors : List String
  pub failure_summaries : List String
  pub ids : MessageIds
  pub success_labels : List String
  pub failed_labels : List String
  pub last_message_id : Option ℤ

abbrev pub start : World → Progress
start w = record {
  world = w;
  send_errors = [];
  failure_summaries = [];
  ids = [];
  success_labels = [];
  failed_labels = [];
  last_message_id = none;
}

-- A target that was not sent to: its issue, its markers, its lines in the report.
pub failed_target : Target → Replies → String → SendError → Progress → Progress
failed_target t r error_line e p =
    let task = p.world.store.task in
    let kind = type_of task t in
    let c = classify_task_send_error e in
    let title = if is_blank (or_else t.title "") then none else some (strip (or_else t.title "")) in
    let (issue, issues) =
      record_task_target_send_issue task t.peer_id kind title c r.wall p.world.store.issues in
    let failure : Failure = record {
      peer_title = title;
      error_type = c.error_type;
      error_message = c.user_message;
      suspension_reason = if issue.auto_suspended then c.suspension_reason else none;
      now_iso = r.now_iso;
    } in
    record p {
      world = record p.world {
        store = record p.world.store {
          issues = issues;
          task = update_task_target_failure_metadata task t.peer_id kind failure;
        };
      };
      send_errors = p.send_errors ⧺ (error_line ∷ []);
      failure_summaries = p.failure_summaries ⧺ ((target_label t ++ ": " ++ c.user_message) ∷ []);
      failed_labels = p.failed_labels ⧺ (target_label t ∷ []);
    }

-- A target that was sent to.
unfoldable pub sent_target : Target → Replies → ℤ → Progress → Progress
sent_target t r message_id p =
    let task = p.world.store.task in
    let kind = type_of task t in
    let (closed, issues) =
      resolve_task_target_send_issue task t.peer_id kind r.wall p.world.store.issues in
    record p {
      world = record p.world {
        store = record p.world.store {
          issues = issues;
          task = update_task_target_success_metadata task t.peer_id kind;
        };
      };
      ids = put_sent kind t.peer_id message_id p.ids;
      success_labels = p.success_labels ⧺ (target_label t ∷ []);
      last_message_id = some message_id;
    }

-- The loop ends after the last target, or with a flood error of one of them.
pub data LoopEnd : Type 0 where
  finished : Progress → LoopEnd
  interrupted : Raised → Progress → LoopEnd

abbrev peer_line : Target → String → String
peer_line t s = "peer=" ++ show_ℤ t.peer_id ++ ": " ++ s

abbrev empty_line : Target → String
empty_line t = peer_line t "send_message returned empty"

abbrev empty_error : SendError
empty_error = record {
  type_name = "RuntimeError";
  message = "send_message returned empty";
  code = "";
}

unfoldable pub served : Target → Replies → Outcome (Option ℤ) → Progress → LoopEnd
unfolding failed_target sent_target
served t r (returned id) p =
    if is_set id
    then finished (sent_target t r (or_else id (pos 0)) p)
    else finished (failed_target t r (empty_line t) empty_error p)
served t r (raised (exception e)) p =
    finished (failed_target t r (peer_line t (e.type_name ++ ": " ++ e.message)) e p)
served t r (raised (flood_wait seconds)) p = interrupted (flood_wait seconds) p
served t r (raised (peer_flood message)) p = interrupted (peer_flood message) p

-- One target: its previous message is looked up in the task as it is now.
unfoldable pub serve : Outside → String → Target → Progress → LoopEnd
unfolding served
serve outside account_id t p =
    let previous = get_target_last_message_id p.world.store.task t.peer_id (some t.peer_type) in
    let r = outside t previous in
    let (outcome, breaker) = send_with_protections r account_id (breaker_of p.world) in
    served t r outcome (record p { world = with_breaker p.world breaker })

abbrev pub and_then : LoopEnd → (Progress → LoopEnd) → LoopEnd
and_then (finished p) next = next p
and_then (interrupted e p) next = interrupted e p

unfoldable pub send_loop : Outside → String → List Target → Progress → LoopEnd
unfolding serve
send_loop outside account_id [] p = finished p
send_loop outside account_id (t ∷ targets) p =
    and_then (serve outside account_id t p) (λ q. send_loop outside account_id targets q)
