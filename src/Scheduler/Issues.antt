-- ===== src/Scheduler/Issues.antt =====
-- The issue rows of a task's targets: `record_task_target_send_issue` and
-- `resolve_task_target_send_issue` of backend/scheduler/core/task_issue_state.py. The table is a list
-- of rows with at most one for each (task, type, id), its unique constraint.
pub mod Rows
pub mod Streak
use tg_auto_msg.Prelude.{
  ℕ, suc, ◌+◌, Bool, true, false, ◌&&◌, ◌||◌, not, Option, none, some, List, [], ◌∷◌, String,
  if◌then◌else◌, leb, or_else,
}
use tg_auto_msg.Prelude.Int.{ℤ, eqb_ℤ}
use tg_auto_msg.Prelude.Text.{str_eq, is_blank, strip}
use tg_auto_msg.Schema.{Task, TaskTargetSendIssue, IssueStatus, active, resolved}
use tg_auto_msg.Scheduler.Classifier.{TaskIssueClassification}
use tg_auto_msg.Scheduler.Targets.{some_text}

abbrev pub Issues : Type 0
Issues = List TaskTargetSendIssue

-- The row of a target, in the where clause of both queries.
abbrev pub is_row : String → String → ℤ → TaskTargetSendIssue → Bool
is_row task_id peer_type peer_id issue =
    str_eq issue.task_id task_id && eqb_ℤ issue.peer_id peer_id && str_eq issue.peer_type peer_type

unfoldable pub find_issue : String → String → ℤ → Issues → Option TaskTargetSendIssue
find_issue task_id peer_type peer_id [] = none
find_issue task_id peer_type peer_id (issue ∷ issues) =
    if is_row task_id peer_type peer_id issue
    then some issue
    else find_issue task_id peer_type peer_id issues

-- The fields of a found row are assigned in place.
pub replace_issue : String → String → ℤ → TaskTargetSendIssue → Issues → Issues
replace_issue task_id peer_type peer_id new [] = []
replace_issue task_id peer_type peer_id new (issue ∷ issues) =
    if is_row task_id peer_type peer_id issue
    then new ∷ issues
    else issue ∷ replace_issue task_id peer_type peer_id new issues

abbrev pub is_active : IssueStatus → Bool
is_active active = true
is_active resolved = false

abbrev pub by_threshold : Bool → ℕ → Option ℕ → Bool
by_threshold default failures none = default
by_threshold default failures (some threshold) = leb threshold failures

-- `auto_suspended`: the threshold decides where there is one.
abbrev pub suspends : TaskIssueClassification → ℕ → Bool
suspends c failures =
    by_threshold c.should_auto_suspend_target failures c.auto_suspend_after_failures

-- `str(peer_title).strip() or None` of a title that is given.
abbrev title_or : Option String → Option String → Option String
title_or title old =
    if is_blank (or_else title "") then old else some_text (strip (or_else title ""))

abbrev account_or_none : Option String → Option String
account_or_none a = if is_blank (or_else a "") then none else a

pub new_issue :
    Task → ℤ → String → Option String → TaskIssueClassification → ℕ → TaskTargetSendIssue
new_issue task peer_id peer_type peer_title c now = record {
  task_id = task.task_id;
  user_id = task.user_id;
  account_id = account_or_none task.account_id;
  peer_id = peer_id;
  peer_type = peer_type;
  peer_title = title_or peer_title none;
  current_error_type = c.error_type;
  current_error_message = c.user_message;
  issue_category = c.issue_category;
  status = active;
  first_seen_at = now;
  last_seen_at = now;
  last_notified_at = none;
  muted_until = none;
  consecutive_failures = 1;
  auto_suspended = suspends c 1;
  resolved_at = none;
  recovered_notified_at = none;
}

-- `issue_changed`: the row was resolved, or told of another error.
abbrev pub issue_changed : TaskTargetSendIssue → TaskIssueClassification → Bool
issue_changed issue c =
    not (is_active issue.status)
    || not (str_eq issue.current_error_type c.error_type)
    || not (str_eq issue.current_error_message c.user_message)
    || not (str_eq issue.issue_category c.issue_category)

abbrev pub next_failures : TaskTargetSendIssue → TaskIssueClassification → ℕ
next_failures issue c = if issue_changed issue c then 1 else issue.consecutive_failures + 1

pub refreshed :
    Task → Option String → TaskIssueClassification → ℕ → TaskTargetSendIssue → TaskTargetSendIssue
refreshed task peer_title c now issue =
    let changed = issue_changed issue c in
    record issue {
      account_id = account_or_none task.account_id;
      user_id = task.user_id;
      peer_title = title_or peer_title issue.peer_title;
      current_error_type = c.error_type;
      current_error_message = c.user_message;
      issue_category = c.issue_category;
      status = active;
      last_seen_at = now;
      consecutive_failures = next_failures issue c;
      auto_suspended = suspends c (next_failures issue c);
      resolved_at = none;
      recovered_notified_at = none;
      first_seen_at = if changed then now else issue.first_seen_at;
      last_notified_at = if changed then none else issue.last_notified_at;
      muted_until = if changed then none else issue.muted_until;
    }

-- The row of this failure: new, or the found one refreshed.
pub failed_issue :
    Task
    → ℤ
    → String
    → Option String
    → TaskIssueClassification
    → ℕ
    → Option TaskTargetSendIssue
    → TaskTargetSendIssue
failed_issue task peer_id peer_type peer_title c now none =
    new_issue task peer_id peer_type peer_title c now
failed_issue task peer_id peer_type peer_title c now (some issue) =
    refreshed task peer_title c now issue

abbrev put_issue :
    String → String → ℤ → TaskTargetSendIssue → Option TaskTargetSendIssue → Issues → Issues
put_issue task_id peer_type peer_id new none issues = new ∷ issues
put_issue task_id peer_type peer_id new (some old) issues =
    replace_issue task_id peer_type peer_id new issues

-- The row that is returned, and the table. `now` is the clock's reading.
pub record_task_target_send_issue :
    Task
    → ℤ
    → String
    → Option String
    → TaskIssueClassification
    → ℕ
    → Issues
    → TaskTargetSendIssue × Issues
unfolding new_issue refreshed failed_issue
record_task_target_send_issue task peer_id peer_type peer_title c now issues =
    let found = find_issue task.task_id peer_type peer_id issues in
    let issue = failed_issue task peer_id peer_type peer_title c now found in
    (issue, put_issue task.task_id peer_type peer_id issue found issues)

pub closed : ℕ → TaskTargetSendIssue → TaskTargetSendIssue
closed now issue = record issue {
  status = resolved;
  consecutive_failures = 0;
  auto_suspended = false;
  resolved_at = some now;
  recovered_notified_at = none;
}

-- Only an active row is resolved.
abbrev pub resolve_found :
    String
    → String
    → ℤ
    → ℕ
    → Option TaskTargetSendIssue
    → Issues
    → Option TaskTargetSendIssue × Issues
resolve_found task_id peer_type peer_id now none issues = (none, issues)
resolve_found task_id peer_type peer_id now (some issue) issues =
    if is_active issue.status
    then (
      some (closed now issue),
      replace_issue task_id peer_type peer_id (closed now issue) issues,
    )
    else (none, issues)

pub resolve_task_target_send_issue :
    Task → ℤ → String → ℕ → Issues → Option TaskTargetSendIssue × Issues
unfolding closed
resolve_task_target_send_issue task peer_id peer_type now issues =
    resolve_found task.task_id peer_type peer_id now
      (find_issue task.task_id peer_type peer_id issues) issues
