-- ===== src/Scheduler/Lifecycle.antt =====
-- What a run leaves behind: backend/scheduler/core/task_lifecycle.py.
pub mod Window
pub mod Outcomes
use tg_auto_msg.Prelude.{
  ℕ, ◌+◌, ◌*◌, max, Bool, true, false, ◌&&◌, ◌||◌, not, Option, none, some, List, [], ◌∷◌, map,
  String, if◌then◌else◌, ltb, leb, or_else, is_empty,
}
use tg_auto_msg.Prelude.Int.{ℤ}
use tg_auto_msg.Prelude.Text.{str_eq, is_blank}
use tg_auto_msg.Schema.{Task, TaskLog, Account, TriggerSource, success, failed, timestamp}
use tg_auto_msg.Account.Rows.{Accounts, update_account}
use tg_auto_msg.Account.Observation.{mark_proxy_observation_success}
use tg_auto_msg.Scheduler.Issues.{Issues}
use tg_auto_msg.Scheduler.SentIds.{MessageIds, update_task_target_last_message_ids}

-- The tables as a session sees them: the row of the task at hand, and the other rows.
pub record Store : Type 0 where
  pub task : Task
  pub others : List Task
  pub logs : List TaskLog
  pub issues : Issues
  pub accounts : Accounts

pub calculate_next_run : ℕ → ℕ → ℕ
calculate_next_run now interval_min = now + interval_min * 60

-- The hours [start, end), past midnight where the start is the later one.
pub in_time_range : ℕ → ℕ → ℕ → Bool
in_time_range start end hour =
    if leb start end then leb start hour && ltb hour end else leb start hour || ltb hour end

-- Allowed, and else the suggested next run.
abbrev limited : Option ℕ → Option ℕ → ℕ → ℕ → ℕ → Bool × Option ℕ
limited (some start) (some end) interval hour now =
    if in_time_range start end hour
    then (true, none)
    else (false, some (calculate_next_run now interval))
limited _ _ interval hour now = (true, none)

pub check_time_limit : Task → ℕ → ℕ → Bool × Option ℕ
check_time_limit task current_hour now =
    limited task.day_start_hour task.day_end_hour task.repeat_interval_min current_hour now

-- `if task.account_id:`
abbrev pub has_account : Task → Bool
has_account task = not (is_blank (or_else task.account_id ""))

abbrev pub account_of : Task → String
account_of task = or_else task.account_id ""

-- The UPDATE of `increment_messages_sent` (backend/bot/account/health_selection.py).
abbrev pub increment_messages_sent : String → ℕ → Accounts → Accounts
increment_messages_sent id wall accounts =
    update_account id
      (λ a. record a { messages_sent = a.messages_sent + 1; last_used_at = some wall }) accounts

-- The task after a success. The dict of ids is used where it is not empty.
pub succeeded : Task → ℤ → MessageIds → ℕ → Bool → Task
succeeded task message_id ids now advance =
    let sent =
      if is_empty ids
      then record task { last_sent_message_id = some message_id }
      else update_task_target_last_message_ids task ids in
    record sent {
      failure_count = 0;
      next_run_at =
          if advance then some (now + task.repeat_interval_min * 60) else task.next_run_at;
    }

-- `now` is the run's second, `wall` the clock's microsecond.
pub handle_task_success :
    ℤ → MessageIds → Option String → ℕ → ℕ → TriggerSource → Bool → Store → Store
unfolding succeeded
handle_task_success message_id ids error_message now wall source advance s = record s {
  logs =
      record {
        task_id = s.task.task_id;
        result = success;
        trigger_source = source;
        error_message = error_message;
        message_id = some message_id;
      }
      ∷ s.logs;
  task = succeeded s.task message_id ids now advance;
  accounts =
      if has_account s.task
      then mark_proxy_observation_success (account_of s.task) wall
          (increment_messages_sent (account_of s.task) wall s.accounts)
      else s.accounts;
}

-- The task after a failure; the clock is read again for the retry.
pub failed_task : Task → ℕ → ℕ → Bool → Bool → Task
failed_task task max_failure_count wall advance apply_disable_policy =
    let failures = task.failure_count + 1 in
    record task {
      failure_count = failures;
      next_run_at =
          if advance
          then some (timestamp wall + max 30 (task.repeat_interval_min * 60))
          else task.next_run_at;
      enabled =
          if apply_disable_policy && leb max_failure_count failures then false else task.enabled;
    }

unfoldable pub handle_task_failure : String → ℕ → ℕ → TriggerSource → Bool → Bool → Store → Store
unfolding failed_task
handle_task_failure error_message max_failure_count wall source advance apply_disable_policy s =
    record s {
      logs =
          record {
            task_id = s.task.task_id;
            result = failed;
            trigger_source = source;
            error_message = some error_message;
            message_id = none;
          }
          ∷ s.logs;
      task = failed_task s.task max_failure_count wall advance apply_disable_policy;
    }

abbrev pub is_account : String → Option String → Bool
is_account account_id none = false
is_account account_id (some id) = str_eq id account_id

-- The rows of the query: the account's enabled tasks.
abbrev pub is_enabled_for : String → Task → Bool
is_enabled_for account_id task = is_account account_id task.account_id && task.enabled

pub suspended_until : String → ℕ → Task → Task
suspended_until account_id until task =
    if is_enabled_for account_id task
    then record task { next_run_at = some (max (or_else task.next_run_at 0) until) }
    else task

-- The task at hand is one of the session's rows.
unfoldable pub suspend_account_tasks : String → ℕ → Store → Store
unfolding suspended_until
suspend_account_tasks account_id until s = record s {
  task = suspended_until account_id until s.task;
  others = map (suspended_until account_id until) s.others;
}
