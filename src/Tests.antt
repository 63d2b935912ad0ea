-- ===== src/Tests.antt =====
-- A task, an account and a failure on which the modules below run the model.
mod Delivery
mod Rows
mod Runs
mod Talks
pub mod Servers
mod Queues
mod Licences
mod Sends
mod Agency
use tg_auto_msg.Prelude.{ℕ, true, false, Option, none, some, List, [], ◌∷◌, String}
use tg_auto_msg.Prelude.Int.{ℤ, pos, negsuc}
use tg_auto_msg.Json.{num, text}
use tg_auto_msg.Schema.{Item, entry, Task, Account, scheduled, no_media}
use tg_auto_msg.Scheduler.Lifecycle.{Store}
use tg_auto_msg.Scheduler.Metadata.{Failure}
use tg_auto_msg.Scheduler.Classifier.{TaskIssueClassification}
use tg_auto_msg.Circuit.{Breaker}
use tg_auto_msg.Scheduler.Runner.Send.{World}

-- A channel that is sent to, and a user that is suspended.
abbrev pub two_items : List Item
two_items =
    entry (("peer_id", num (pos 7)) ∷ ("peer_type", text "channel") ∷ [])
    ∷ entry (
        ("peer_id", num (pos 9))
        ∷ ("peer_type", text "user")
        ∷ ("delivery_status", text "suspended")
        ∷ [])
    ∷ []

abbrev pub task_with : Option (List Item) → Task
task_with items = record {
  task_id = "t1";
  user_id = 1;
  account_id = some "a1";
  chat_id = none;
  title = "news";
  target_peer_id = some (pos 5);
  target_peer_type = some "chat";
  target_access_hash = none;
  target_peers = items;
  enabled = true;
  trigger_mode = scheduled;
  priority = pos 0;
  repeat_interval_min = 10;
  jitter_seconds = pos 0;
  delay_min_seconds = pos 0;
  delay_max_seconds = pos 0;
  day_start_hour = some 22;
  day_end_hour = some 6;
  start_at = none;
  end_at = none;
  text = some "hello";
  media_type = no_media;
  has_buttons = false;
  delete_previous = true;
  pin_message = false;
  last_sent_message_id = some (pos 100);
  next_run_at = some 1000;
  failure_count = 0;
}

abbrev pub sample_task : Task
sample_task = task_with (some two_items)

abbrev pub sample_account : Account
sample_account = record {
  account_id = "a1";
  user_id = 1;
  tg_user_id = some 42;
  username = some "owner";
  first_name = none;
  phone = none;
  proxy_id = some 3;
  is_active = true;
  is_banned = false;
  health_status = "online";
  is_flooding = false;
  flood_until = none;
  reauth_required = false;
  reauth_reason = none;
  reauth_required_at = none;
  proxy_observation_started_at = none;
  proxy_observation_until = none;
  proxy_observation_success_count = 0;
  weight = pos 1;
  messages_sent = 0;
  last_used_at = none;
  created_at = 5;
}

abbrev pub sample_failure : Failure
sample_failure = record {
  peer_title = some "News";
  error_type = "CHAT_WRITE_FORBIDDEN";
  error_message = "no permission";
  suspension_reason = some "write_forbidden";
  now_iso = "2026-01-01T00:00:00";
}

abbrev pub sample_classification : TaskIssueClassification
sample_classification = record {
  error_type = "EmptyMessageResultError";
  issue_category = "empty_result";
  user_message = "no receipt";
  should_auto_suspend_target = false;
  suspension_reason = some "empty_result";
  auto_suspend_after_failures = some 3;
}

abbrev pub sample_store : Store
sample_store = record {
  task = sample_task;
  others = [];
  logs = [];
  issues = [];
  accounts = sample_account ∷ [];
}

abbrev pub sample_breaker : Breaker
sample_breaker = record {
  accounts = sample_account ∷ [];
  recovery_tasks = [];
  health_cache = [];
  notices = [];
}

abbrev pub sample_world : World
sample_world = record { store = sample_store; recovery_tasks = []; health_cache = []; notices = [] }
