-- ===== src/Scheduler/Classifier.antt =====
-- backend/scheduler/core/task_issue_classifier.py: an exception of a send, read by its class name,
-- its text and its `code`, becomes a category and a suspension policy.
pub mod Policy
use Prim.Native.String.{◌++◌}
use tg_auto_msg.Prelude.{
  ℕ, Bool, true, false, Option, none, some, List, [], ◌∷◌, String, if◌then◌else◌, ltb, not, or_else,
}
use tg_auto_msg.Prelude.Text.{str_eq, is_blank, strip, str_len, str_take, replace_newlines}
use tg_auto_msg.Prelude.Dict.{Dict, lookup}

pub record TaskIssueClassification : Type 0 where
  pub error_type : String
  pub issue_category : String
  pub user_message : String
  pub should_auto_suspend_target : Bool
  pub suspension_reason : Option String
  pub auto_suspend_after_failures : Option ℕ

-- `type(exc).__name__`, `str(exc)` and `str(getattr(exc, "code", "") or "")`.
pub record SendError : Type 0 where
  pub type_name : String
  pub message : String
  pub code : String

-- A row whose first failure suspends the target.
abbrev suspending : String → String → String → String → TaskIssueClassification
suspending error_type category message reason = record {
  error_type = error_type;
  issue_category = category;
  user_message = message;
  should_auto_suspend_target = true;
  suspension_reason = some reason;
  auto_suspend_after_failures = some 1;
}

-- A row that leaves the target in place.
abbrev retrying : String → String → String → TaskIssueClassification
retrying error_type category message = record {
  error_type = error_type;
  issue_category = category;
  user_message = message;
  should_auto_suspend_target = false;
  suspension_reason = none;
  auto_suspend_after_failures = none;
}

-- `_SPECIALIZED_ERROR_CLASSIFICATIONS`
unfoldable pub specialized : Dict TaskIssueClassification
specialized =
    (
      "ChatSendPhotosForbiddenError",
      suspending "TARGET_PHOTO_FORBIDDEN" "media_permission_denied" "目标聊天不允许发送图片，已暂停这个目标。"
          "target_photo_forbidden",
    )
    ∷ (
      "ChatSendVideosForbiddenError",
      suspending "TARGET_VIDEO_FORBIDDEN" "media_permission_denied" "目标聊天不允许发送视频，已暂停这个目标。"
          "target_video_forbidden",
    )
    ∷ (
      "ChatSendGifsForbiddenError",
      suspending "TARGET_ANIMATION_FORBIDDEN" "media_permission_denied" "目标聊天不允许发送动图，已暂停这个目标。"
          "target_animation_forbidden",
    )
    ∷ (
      "ChatSendMediaForbiddenError",
      suspending "TARGET_MEDIA_FORBIDDEN" "media_permission_denied" "目标聊天不允许发送媒体，已暂停这个目标。"
          "target_media_forbidden",
    )
    ∷ (
      "UserBannedInChannelError",
      suspending "UserBannedInChannelError" "permission_denied"
          "当前账号在这个群聊或频道里没有发送权限，可能被禁言、被移出，或被管理员限制发言。" "user_banned_in_channel",
    )
    ∷ (
      "ChatWriteForbiddenError",
      suspending "ChatWriteForbiddenError" "permission_denied" "当前账号无法在这个群聊发送消息，可能被禁言、被移出，或群组已限制发言。"
          "chat_write_forbidden",
    )
    ∷ (
      "ChatSendPlainForbiddenError",
      suspending "ChatSendPlainForbiddenError" "permission_denied" "当前群聊不允许此任务发送纯文本消息，已暂停这个目标。"
          "chat_send_plain_forbidden",
    )
    ∷ (
      "ChatRestrictedError",
      suspending "ChatRestrictedError" "permission_denied" "当前账号无法在这个群聊或频道执行发送操作，可能权限受限或群组已限制发言。"
          "chat_restricted",
    )
    ∷ (
      "ChannelPrivateError",
      suspending "ChannelPrivateError" "target_inaccessible"
          "当前账号无法访问这个群聊或频道，可能频道已设为私有、账号未加入，或已被移出。" "channel_private",
    )
    ∷ (
      "RateLimiterTimeoutError",
      retrying "RateLimiterTimeoutError" "rate_limit_timeout" "当前目标暂时未拿到发送时间槽，系统会稍后重试。",
    )
    ∷ (
      "RateLimiterBackendUnavailableError",
      retrying "RateLimiterBackendUnavailableError" "rate_limit_backend_unavailable"
          "发送限流服务暂时不可用，当前目标已跳过，系统会稍后重试。",
    )
    ∷ []

-- The text shown for an error of no known class: one line, 120 characters of the error at most.
abbrev shorten : String → String
shorten detail = if ltb 120 (str_len detail) then str_take 117 detail ++ "..." else detail

pub generic_message : String → String
unfolding strip replace_newlines
generic_message detail =
    if is_blank detail
    then "发送失败，系统会稍后再试。"
    else "发送失败，系统会稍后再试。原因：" ++ shorten (strip (replace_newlines detail))

abbrev pub empty_result : TaskIssueClassification
empty_result = record {
  error_type = "EmptyMessageResultError";
  issue_category = "empty_result";
  user_message = "消息发送后未拿到回执，若连续多次出现，系统会自动暂停该目标。";
  should_auto_suspend_target = false;
  suspension_reason = some "empty_result";
  auto_suspend_after_failures = some 3;
}

-- The branches below the table.
classify_other : String → String → String → TaskIssueClassification
classify_other error_type detail domain_code =
    if not (is_blank domain_code)
    then retrying domain_code "task_media_contract"
        (if is_blank detail then "任务媒体配置无效。" else detail)
    else if str_eq detail "send_message returned empty"
    then empty_result
    else retrying error_type "send_error" (generic_message detail)

pub classify_task_send_error : SendError → TaskIssueClassification
unfolding classify_other
classify_task_send_error exc =
    or_else (lookup exc.type_name specialized)
      (classify_other exc.type_name (strip exc.message) (strip exc.code))
