-- ===== src/Scheduler/Runner.antt =====
-- The steps of one run of a task, before and around the sends:
-- backend/scheduler/core/task_runner.py. `now` is the run's second and `wall` a reading of the
-- clock in microseconds; `max_failures` is `settings.max_failure_count`.
pub mod Constraints
pub mod Send
pub mod Finish
pub mod Session
pub mod Validate
pub mod NoTargets
pub mod Once
use tg_auto_msg.Prelude.{
  ℕ, ◌+◌, ◌*◌, max, Bool, true, false, ◌&&◌, not, Option, none, some, List, [], ◌∷◌, String,
  if◌then◌else◌, ltb, leb, or_else, take, is_some, is_empty, length,
}
use tg_auto_msg.Prelude.Text.{is_blank, strip}
use tg_auto_msg.Schema.{Task, TriggerSource, Account, timestamp}
use tg_auto_msg.Account.Rows.{get_account}
use tg_auto_msg.Account.Observation.{
  is_proxy_observation_active, proxy_observation_has_send_budget,
  claim_proxy_observation_send_budget,
}
use tg_auto_msg.Scheduler.Targets.{Target, count_configured_task_targets}
use tg_auto_msg.Scheduler.Lifecycle.{
  Store, check_time_limit, account_of, has_account, handle_task_failure,
}

pub data Status : Type 0 where
  skipped failed partial_success success : Status

-- The summary less the time of the run and the preview of the message.
pub record TaskExecutionSummary : Type 0 where
  pub task_id : String
  pub title : String
  pub account_id : Option String
  pub trigger_source : TriggerSource
  pub status : Status
  pub total_targets : ℕ
  pub success_count : ℕ
  pub failed_count : ℕ
  pub error_summary : Option String
  pub account_display : Option String
  pub success_targets : List String
  pub failed_targets : List String

abbrev stripped : Option String → Option String
stripped none = none
stripped (some s) = if is_blank s then none else some (strip s)

-- `_build_summary`; the lists of labels are empty where the caller gives none.
pub build_summary :
    Task
    → TriggerSource
    → Status
    → ℕ
    → ℕ
    → ℕ
    → Option String
    → Option String
    → List String
    → List String
    → TaskExecutionSummary
build_summary task source status total successes failures error display sent unsent = record {
  task_id = task.task_id;
  title = task.title;
  account_id = if has_account task then task.account_id else none;
  trigger_source = source;
  status = status;
  total_targets = total;
  success_count = successes;
  failed_count = failures;
  error_summary = stripped error;
  account_display = display;
  success_targets = sent;
  failed_targets = unsent;
}

-- A run that is put off.
abbrev skip_summary : Task → TriggerSource → ℕ → ℕ → String → Option String → TaskExecutionSummary
skip_summary task source total failures reason display =
    build_summary task source skipped total 0 failures (some reason) display [] []

abbrev pub with_next_run : Option ℕ → Store → Store
with_next_run next s = record s { task = record s.task { next_run_at = next } }

-- `if task.start_at and now < task.start_at:`, 0 counting as unset.
abbrev pub not_started : ℕ → Option ℕ → Option ℕ
not_started now none = none
not_started now (some start) = if ltb now start then some start else none

-- `if task.end_at and now > task.end_at:`
abbrev pub has_ended : ℕ → Option ℕ → Bool
has_ended now none = false
has_ended now (some end) = ltb 0 end && ltb end now

-- The daily window, the last of the constraints.
abbrev window_checked :
    Bool × Option ℕ → Bool → TriggerSource → ℕ → Store → Option TaskExecutionSummary × Store
window_checked (true, next) advance source count s = (none, s)
window_checked (false, next) advance source count s =
    let after = if advance && is_some next then with_next_run next s else s in
    (some (skip_summary after.task source count 0 "当前不在任务允许的执行时段内" none), after)

abbrev end_checked : ℕ → ℕ → Bool → TriggerSource → ℕ → Store → Option TaskExecutionSummary × Store
end_checked now hour advance source count s =
    if has_ended now s.task.end_at
    then (let after =
          if advance then record s { task = record s.task { enabled = false } } else s in
        (some (skip_summary after.task source count 0 "任务已超过结束时间" none), after))
    else window_checked (check_time_limit s.task hour now) advance source count s

abbrev start_checked :
    Option ℕ → ℕ → ℕ → Bool → TriggerSource → ℕ → Store → Option TaskExecutionSummary × Store
start_checked (some start) now hour advance source count s =
    let after =
      if advance then with_next_run (some (max (or_else s.task.next_run_at 0) start)) s else s in
    (some (skip_summary after.task source count 0 "任务未到开始时间" none), after)
start_checked none now hour advance source count s = end_checked now hour advance source count s

-- `_check_schedule_constraints`: the summary of a run that may not go on.
pub check_schedule_constraints :
    ℕ → ℕ → Bool → Bool → TriggerSource → ℕ → Store → Option TaskExecutionSummary × Store
check_schedule_constraints now hour advance respect source count s =
    if not respect
    then (none, s)
    else start_checked (not_started now s.task.start_at) now hour advance source count s

abbrev observation_end : ℕ → Option ℕ → ℕ
observation_end now none = now + 60
observation_end now (some until) = max (now + 60) (timestamp until)

-- `_defer_task_until_observation_end`
abbrev pub defer_task_until_observation_end : ℕ → Account → Store → Store
defer_task_until_observation_end now account s =
    with_next_run (some (observation_end now account.proxy_observation_until)) s

abbrev deferred_summary :
    String → ℕ → Account → Bool → TriggerSource → String → Store → TaskExecutionSummary × Store
deferred_summary reason now account advance source display s =
    let after = if advance then defer_task_until_observation_end now account s else s in
    (skip_summary after.task source 0 0 reason (some display), after)

abbrev after_claim :
    Bool × List Account
    → ℕ
    → Account
    → List Target
    → Bool
    → TriggerSource
    → String
    → Store
    → Option TaskExecutionSummary × List Target × Store
after_claim (true, accounts) now account targets advance source display s =
    (none, take 1 targets, record s { accounts = accounts })
after_claim (false, accounts) now account targets advance source display s =
    let (summary, after) =
      deferred_summary "账号正在代理观察期内，发送预算已被其他任务占用" now account advance source display s in
    (some summary, [], after)

abbrev recheck_account :
    Option Account
    → String
    → ℕ
    → ℕ
    → List Target
    → Bool
    → TriggerSource
    → String
    → Store
    → Option TaskExecutionSummary × List Target × Store
recheck_account none id now wall targets advance source display s = (none, targets, s)
recheck_account (some account) id now wall targets advance source display s =
    if not (is_proxy_observation_active account wall)
    then (none, targets, s)
    else if not (proxy_observation_has_send_budget account wall)
    then (let (summary, after) =
          deferred_summary "账号正在代理观察期内，已达到 24 小时观察期发送上限" now account advance source display s in
        (some summary, [], after))
    else after_claim (claim_proxy_observation_send_budget id wall s.accounts) now account targets
        advance source display s

-- `_lock_and_recheck_observation_budget`, under the account's advisory lock: the summary of a run
-- that is put off, else the targets that are left. All readings of the clock are one.
abbrev pub lock_and_recheck_observation_budget :
    ℕ
    → ℕ
    → List Target
    → Bool
    → TriggerSource
    → String
    → Store
    → Option TaskExecutionSummary × List Target × Store
lock_and_recheck_observation_budget now wall targets advance source display s =
    let id = strip (account_of s.task) in
    if is_blank id
    then (none, targets, s)
    else recheck_account (get_account id s.accounts) id now wall targets advance source display s

abbrev no_target_message : String
no_target_message = "当前没有可发送目标（目标可能已被系统暂停）"

-- `_handle_no_targets`
abbrev pub handle_no_targets :
    ℕ → ℕ → ℕ → Bool → TriggerSource → Store → TaskExecutionSummary × Store
handle_no_targets now wall max_failures advance source s =
    let configured = count_configured_task_targets s.task in
    if ltb 0 configured
    then if advance
      then (let after = with_next_run (some (now + s.task.repeat_interval_min * 60)) s in
          (skip_summary after.task source configured configured no_target_message none, after))
      else (let after =
            handle_task_failure no_target_message max_failures wall source false false s in
          (
            build_summary after.task source failed configured 0 configured (some no_target_message)
                none [] [],
            after,
          ))
    else (let after =
          handle_task_failure "缺少目标 Peer ID" max_failures wall source advance advance s in
        (build_summary after.task source failed 0 0 0 (some "缺少目标 Peer ID") none [] [], after))
