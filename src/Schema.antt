-- ===== src/Schema.antt =====
-- The rows of backend/database/schema/models.py, by the columns that the modelled code reads or
-- writes. A datetime is the number of microseconds since the epoch, a `*_at` of a task the number of
-- seconds; intervals, hours and counters are natural numbers, as the payload validation has them.
use tg_auto_msg.Prelude.{ℕ, ◌/◌, Bool, Option, List, String}
use tg_auto_msg.Prelude.Int.{ℤ}
use tg_auto_msg.Prelude.Dict.{Dict}
use tg_auto_msg.Json.{Value}

pub data MediaType : Type 0 where
  no_media photo video sticker animation : MediaType

pub data TriggerMode : Type 0 where
  scheduled manual_shortcut : TriggerMode

pub data TriggerSource : Type 0 where
  scheduler bot_shortcut api_manual : TriggerSource

-- An element of the JSON list `target_peers`: an object, or any other value.
pub data Item : Type 0 where
  entry : Dict Value → Item
  other : Value → Item

pub record Task : Type 0 where
  pub task_id : String
  pub user_id : ℕ
  pub account_id : Option String
  pub chat_id : Option ℤ
  pub title : String
  pub target_peer_id : Option ℤ
  pub target_peer_type : Option String
  pub target_access_hash : Option ℤ
  -- `none` stands for a column that holds no list.
  pub target_peers : Option (List Item)
  pub enabled : Bool
  pub trigger_mode : TriggerMode
  pub priority : ℤ
  pub repeat_interval_min : ℕ
  pub jitter_seconds : ℤ
  pub delay_min_seconds : ℤ
  pub delay_max_seconds : ℤ
  pub day_start_hour : Option ℕ
  pub day_end_hour : Option ℕ
  pub start_at : Option ℕ
  pub end_at : Option ℕ
  pub text : Option String
  pub media_type : MediaType
  pub has_buttons : Bool
  pub delete_previous : Bool
  pub pin_message : Bool
  pub last_sent_message_id : Option ℤ
  pub next_run_at : Option ℕ
  pub failure_count : ℕ

pub data LogResult : Type 0 where
  success failed : LogResult

pub record TaskLog : Type 0 where
  pub task_id : String
  pub result : LogResult
  pub trigger_source : TriggerSource
  pub error_message : Option String
  pub message_id : Option ℤ

pub data IssueStatus : Type 0 where
  active resolved : IssueStatus

pub record TaskTargetSendIssue : Type 0 where
  pub task_id : String
  pub user_id : ℕ
  pub account_id : Option String
  pub peer_id : ℤ
  pub peer_type : String
  pub peer_title : Option String
  pub current_error_type : String
  pub current_error_message : String
  pub issue_category : String
  pub status : IssueStatus
  pub first_seen_at : ℕ
  pub last_seen_at : ℕ
  pub last_notified_at : Option ℕ
  pub muted_until : Option ℕ
  pub consecutive_failures : ℕ
  pub auto_suspended : Bool
  pub resolved_at : Option ℕ
  pub recovered_notified_at : Option ℕ

pub record Account : Type 0 where
  pub account_id : String
  pub user_id : ℕ
  pub tg_user_id : Option ℕ
  pub username : Option String
  pub first_name : Option String
  pub phone : Option String
  pub proxy_id : Option ℕ
  pub is_active : Bool
  pub is_banned : Bool
  pub health_status : String
  pub is_flooding : Bool
  pub flood_until : Option ℕ
  pub reauth_required : Bool
  pub reauth_reason : Option String
  pub reauth_required_at : Option ℕ
  pub proxy_observation_started_at : Option ℕ
  pub proxy_observation_until : Option ℕ
  pub proxy_observation_success_count : ℕ
  pub weight : ℤ
  pub messages_sent : ℕ
  pub last_used_at : Option ℕ
  pub created_at : ℕ

-- `int(dt.timestamp())`
abbrev pub timestamp : ℕ → ℕ
timestamp t = t / 1000000
