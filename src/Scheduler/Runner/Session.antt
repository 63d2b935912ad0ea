-- ===== src/Scheduler/Runner/Session.antt =====
-- The session of a run, and what its checks read from the rows: backend/scheduler/core/task_runner.py,
-- and `mark_account_reauth_required` of backend/bot/account/reauth_notifier.py.
use Prim.Native.String.{◌++◌}
use tg_auto_msg.Prelude.{
  ℕ, Bool, true, ◌&&◌, not, Option, none, some, List, [], ◌∷◌, String, if◌then◌else◌, or_else,
}
use tg_auto_msg.Prelude.Text.{str_eq, starts_with, is_blank, strip, lower, str_take}
use tg_auto_msg.Http.{HttpException}
use tg_auto_msg.Schema.{Task, Account}
use tg_auto_msg.Account.Rows.{Accounts, update_account}
use tg_auto_msg.Licensing.Rows.{LicenseDb}
use tg_auto_msg.Scheduler.Targets.{Target}
use tg_auto_msg.Scheduler.Lifecycle.{Store}
use tg_auto_msg.Scheduler.Runner.{TaskExecutionSummary}
use tg_auto_msg.Scheduler.Runner.Send.{World}

-- What a run's session sees: the rows of the scheduler and those of the licences, which share the
-- accounts and the tasks.
pub record Session : Type 0 where
  pub world : World
  pub licences : LicenseDb

abbrev pub licence_rows : Session → LicenseDb
licence_rows s = record s.licences {
  accounts = s.world.store.accounts;
  tasks = s.world.store.task ∷ s.world.store.others;
}

abbrev with_tasks : List Task → Store → Store
with_tasks [] s = s
with_tasks (t ∷ ts) s = record s { task = t; others = ts }

abbrev pub after_licences : LicenseDb → Session → Session
after_licences db s = record s {
  licences = db;
  world = record s.world {
    store = with_tasks db.tasks (record s.world.store { accounts = db.accounts });
  };
}

abbrev pub on_store : (Store → Store) → Session → Session
on_store f s = record s { world = record s.world { store = f s.world.store } }

abbrev pub task_in : Session → Task
task_in s = s.world.store.task

-- `_ValidationResult`
pub record ValidationResult : Type 0 where
  pub account_display : String
  pub target_specs : List Target
  pub account_id_str : String

-- How phase 1 ends: an HTTPException, the summary of a run that is over, or a run that goes on.
pub data Validated : Type 0 where
  raised : HttpException → Validated
  over : TaskExecutionSummary → Validated
  valid : ValidationResult → Validated

-- `_account_display_name`
abbrev or_id : Option String → String
or_id none = "默认账号"
or_id (some id) = if is_blank id then "默认账号" else str_take 8 id

abbrev trimmed : Option String → String
trimmed text = strip (or_else text "")

abbrev pub account_display_name : Option Account → Option String → String
account_display_name none id = or_id id
account_display_name (some a) id =
    if not (is_blank (trimmed a.username))
    then (if starts_with (trimmed a.username) "@"
        then trimmed a.username
        else "@" ++ trimmed a.username)
    else if not (is_blank (trimmed a.first_name))
    then trimmed a.first_name
    else if not (is_blank (trimmed a.phone))
    then trimmed a.phone
    else or_id id

-- `_account_health_value`, `_is_account_unavailable`, `_is_recoverable_developer_app_outage_account`
abbrev pub account_health_value : Account → String
account_health_value a = lower (strip a.health_status)

abbrev pub is_account_unavailable : Account → Bool
is_account_unavailable a =
    not (is_blank (account_health_value a)) && not (str_eq (account_health_value a) "online")

abbrev pub is_recoverable_developer_app_outage_account : Account → Bool
is_recoverable_developer_app_outage_account a =
    str_eq (account_health_value a) "offline"
    && not a.reauth_required
    && str_eq (lower (strip (or_else a.reauth_reason ""))) "developer_app_unhealthy"

-- `mark_account_reauth_required` (backend/bot/account/reauth_notifier.py)
abbrev pub non_blank_or : String → String → String
non_blank_or s default = if is_blank s then default else s

abbrev pub reauth_required_now : String → ℕ → Account → Account
reauth_required_now reason wall a = record a {
  health_status = "offline";
  reauth_required = true;
  reauth_reason = some (non_blank_or (strip reason) "unknown");
  reauth_required_at = some (or_else a.reauth_required_at wall);
}

abbrev pub mark_account_reauth_required : String → String → ℕ → Accounts → Accounts
mark_account_reauth_required id reason wall accounts =
    update_account id (reauth_required_now reason wall) accounts
