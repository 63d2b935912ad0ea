-- ===== src/Scheduler/Classifier/Policy.antt =====
-- What the suspension policies of the classifier have in common.
use tg_auto_msg.Prelude.{
  ◌≡◌, ◌≤◌, ◌⊎◌, inl, inr, Bool, true, false, ◌||◌, none, some, String, All, arith, Bool-cases,
  Option-cases, is_some,
}
use tg_auto_msg.Prelude.Text.{
  str_eq, is_blank, strip, str_len, str_len-append, str_len-str_take-le, str_take, replace_newlines,
}
use tg_auto_msg.Prelude.Dict.{lookup, lookup-All}
use tg_auto_msg.Scheduler.Classifier.{
  TaskIssueClassification, SendError, specialized, generic_message, shorten, classify_other,
  classify_task_send_error,
}

-- The categories of a refused permission and of a lost chat.
abbrev pub is_lasting : String → Bool
is_lasting category =
    str_eq category "media_permission_denied"
    || str_eq category "permission_denied"
    || str_eq category "target_inaccessible"

-- A threshold comes with the reason that will be stored; a target that is suspended at once has the
-- threshold one, and the category of a refused permission or of a lost chat.
pub record IsCoherent (c : TaskIssueClassification) : Type 0 where
  pub reasoned : is_some c.auto_suspend_after_failures ≡ is_some c.suspension_reason
  pub at_once :
      (c.should_auto_suspend_target ≡ false)
      ⊎ ((c.auto_suspend_after_failures ≡ some 1) × (is_lasting c.issue_category ≡ true))

specialized-IsCoherent : All (λ e. IsCoherent e.1) specialized
unfolding specialized
specialized-IsCoherent = ground arith

classify_other-IsCoherent :
    (error_type detail code : String) → IsCoherent (classify_other error_type detail code)
unfolding classify_other
classify_other-IsCoherent error_type detail code = ground arith

-- Every exception of a send, known or unknown, gets a coherent policy.
pub classify_task_send_error-IsCoherent :
    (exc : SendError) → IsCoherent (classify_task_send_error exc)
unfolding classify_task_send_error
classify_task_send_error-IsCoherent exc = elim (Option-cases (lookup exc.type_name specialized)) [
  | inl unknown ↦
      rw unknown (classify_other-IsCoherent exc.type_name (strip exc.message) (strip exc.code))
  | inr (c, known) ↦
      rw known (lookup-All IsCoherent exc.type_name c specialized specialized-IsCoherent known)
]

shorten-le : (s : String) → str_len (shorten s) ≤ 120
shorten-le s = ground (arith, str_len-append (str_take 117 s) "...", str_len-str_take-le 117 s)

generic_message-le : (detail : String) → str_len (generic_message detail) ≤ 136
unfolding generic_message
generic_message-le detail =
    let shown = shorten (strip (replace_newlines detail)) in
    elim (Bool-cases (is_blank detail)) [
      | inl blank ↦ rw blank (omega arith)
      | inr more ↦ rw more (
          omega (
            arith,
            str_len-append "发送失败，系统会稍后再试。原因：" shown,
            shorten-le (strip (replace_newlines detail)),
          ))
    ]

classify_other_bounded :
    (error_type detail code : String)
    → is_blank code ≡ true
    → str_len (classify_other error_type detail code).user_message ≤ 136
unfolding classify_other
classify_other_bounded error_type detail code plain =
    elim (Bool-cases (str_eq detail "send_message returned empty")) [
      | inl empty ↦ rw (plain, empty) (omega arith)
      | inr other ↦ rw (plain, other) (generic_message-le detail)
    ]

-- The text shown for an exception of no known class and with no code of its own has at most 136
-- characters, however long the exception's text is.
pub unknown_message_bounded :
    (exc : SendError)
    → lookup exc.type_name specialized ≡ none
    → is_blank (strip exc.code) ≡ true
    → str_len (classify_task_send_error exc).user_message ≤ 136
unfolding classify_task_send_error
unknown_message_bounded exc unknown plain =
    rw unknown (classify_other_bounded exc.type_name (strip exc.message) (strip exc.code) plain)
