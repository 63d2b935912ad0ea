-- ===== src/Scheduler/Runner/Finish.antt =====
-- The end of a run: what `_send_to_targets` reports after its loop, and what `execute_task_once` does
-- with a flood error of it (backend/scheduler/core/task_runner.py).
pub mod Floods
pub mod Report
use Prim.Native.String.{◌++◌}
use tg_auto_msg.Prelude.{
  ℕ, ◌+◌, ◌-◌, ◌*◌, max, Bool, true, false, not, Option, none, some, List, [], ◌∷◌, String,
  if◌then◌else◌, ltb, or_else, is_empty, length, map,
}
use tg_auto_msg.Prelude.Int.{ℤ}
use tg_auto_msg.Prelude.Text.{str_eq, show_ℕ}
use tg_auto_msg.Schema.{Task, TriggerSource, Account, timestamp}
use tg_auto_msg.Account.Rows.{get_account}
use tg_auto_msg.Circuit.{
  Breaker, FloodWaitAction, retry, skip, ban, Raised, flood_wait, peer_flood, exception,
  handle_flood_wait, handle_peer_flood,
}
use tg_auto_msg.Scheduler.Targets.{Target}
use tg_auto_msg.Scheduler.Lifecycle.{
  Store, handle_task_success, handle_task_failure, suspend_account_tasks,
}
use tg_auto_msg.Scheduler.Runner.{
  TaskExecutionSummary, success, failed, partial_success, build_summary,
}
use tg_auto_msg.Scheduler.Runner.Send.{
  World, Progress, LoopEnd, Outside, finished, interrupted, send_loop, target_label, breaker_of,
  with_breaker, start,
}

-- What a run was started with; `wall` is the clock's reading at its end.
pub record Run : Type 0 where
  pub now : ℕ
  pub wall : ℕ
  pub advance : Bool
  pub source : TriggerSource
  pub max_failures : ℕ
  pub account_id : String
  pub account_display : String
  pub targets : List Target

abbrev pub in_store : (Store → Store) → World → World
in_store f w = record w { store = f w.store }

abbrev pub count_failure : Run → String → World → World
count_failure run message =
    in_store
      (handle_task_failure message run.max_failures run.wall run.source run.advance run.advance)

-- The report on the targets that failed beside others that did not.
abbrev pub partial_report : Progress → Option String
partial_report p = elim p.failure_summaries [
  | [] ↦ none
  | first ∷ rest ↦ some ("部分目标发送失败，共 " ++ show_ℕ (length p.send_errors) ++ " 个；" ++ "示例：" ++ first)
]

-- The reason of a run in which every target failed.
abbrev pub failure_reason : Progress → String
failure_reason p = elim p.failure_summaries [
  | [] ↦ elim p.send_errors [ [] ↦ "发送失败" | line ∷ lines ↦ line ]
  | first ∷ rest ↦ "目标发送全部失败，共 " ++ show_ℕ (length p.send_errors) ++ " 个；示例：" ++ first
]

abbrev pub finish : Run → Progress → Option ℤ → TaskExecutionSummary × World
finish run p (some message_id) =
    let sent = length p.ids in
    let unsent = length run.targets - length p.ids in
    let after =
      in_store
        (handle_task_success message_id p.ids (partial_report p) run.now run.wall run.source
          run.advance)
        p.world in
    (
      build_summary after.store.task run.source (if ltb 0 unsent then partial_success else success)
          (length run.targets) sent unsent (partial_report p) (some run.account_display)
          p.success_labels p.failed_labels,
      after,
    )
finish run p none =
    let after = count_failure run (failure_reason p) p.world in
    let labels =
      if is_empty p.failed_labels then map target_label run.targets else p.failed_labels in
    (
      build_summary after.store.task run.source failed (length run.targets) 0 (length run.targets)
          (some (failure_reason p)) (some run.account_display) p.success_labels labels,
      after,
    )

abbrev all_failed : Run → String → World → TaskExecutionSummary
all_failed run message w =
    build_summary w.store.task run.source failed (length run.targets) 0 (length run.targets)
      (some message) none [] []

-- A ban lasts 24 hours, or as long as the account's row says.
abbrev banned_until : ℕ → Option Account → ℕ
banned_until now none = now + 24 * 3600
banned_until now (some a) = max (now + 24 * 3600) (timestamp (or_else a.flood_until 0))

abbrev after_action : Run → FloodWaitAction × Breaker → World → World
after_action run (ban, b) w =
    in_store
      (suspend_account_tasks run.account_id
        (banned_until run.now (get_account run.account_id b.accounts)))
      (with_breaker w b)
after_action run (retry, b) w = with_breaker w b
after_action run (skip, b) w = with_breaker w b

-- `except FloodWaitError`
pub on_flood_wait : Run → ℕ → World → TaskExecutionSummary × World
on_flood_wait run seconds w =
    let message = "FloodWait: " ++ show_ℕ seconds ++ "秒" in
    let counted = count_failure run message w in
    let after =
      if str_eq run.account_id "default"
      then counted
      else after_action run (handle_flood_wait run.account_id seconds run.wall (breaker_of counted))
          counted in
    (all_failed run message after, after)

-- `except PeerFloodError`
pub on_peer_flood : Run → World → TaskExecutionSummary × World
on_peer_flood run w =
    let counted = count_failure run "PeerFloodError" w in
    let (until, b) = handle_peer_flood run.account_id run.wall (breaker_of counted) in
    let after =
      if str_eq run.account_id "default"
      then counted
      else in_store (suspend_account_tasks run.account_id (timestamp until))
          (with_breaker counted b) in
    (all_failed run "PeerFloodError" after, after)

-- `except Exception`
pub on_exception : Run → String → World → TaskExecutionSummary × World
on_exception run message w =
    let after = count_failure run message w in (all_failed run message after, after)

abbrev pub ended : Run → LoopEnd → TaskExecutionSummary × World
ended run (finished p) = finish run p p.last_message_id
ended run (interrupted (flood_wait seconds) p) = on_flood_wait run seconds p.world
ended run (interrupted (peer_flood message) p) = on_peer_flood run p.world
ended run (interrupted (exception e) p) = on_exception run e.message p.world

-- Phase 3 of `execute_task_once`.
pub send_phase : Outside → Run → World → TaskExecutionSummary × World
send_phase outside run w = ended run (send_loop outside run.account_id run.targets (start w))
