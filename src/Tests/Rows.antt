-- ===== src/Tests/Rows.antt =====
-- Issue rows, accounts and the task's row, on the sample task and account.
use tg_auto_msg.Prelude.{ℕ, ◌+◌, ◌≤◌, ◌≡◌, refl, true, not, none, some, [], ◌∷◌, length, leb, arith}
use tg_auto_msg.Prelude.Int.{pos}
use tg_auto_msg.Prelude.Text.{is_blank, strip}
use tg_auto_msg.Prelude.Dict.{lookup}
use tg_auto_msg.Schema.{TaskTargetSendIssue, scheduler}
use tg_auto_msg.Account.Rows.{get_account}
use tg_auto_msg.Account.Observation.Budget.{successes, claim_once}
use tg_auto_msg.Scheduler.Classifier.{SendError, specialized}
use tg_auto_msg.Scheduler.Issues.{find_issue, resolve_task_target_send_issue}
use tg_auto_msg.Scheduler.Issues.Streak.{
  fail_all, Tells, IsClosed, failure_streak, success_ends_streak,
}
use tg_auto_msg.Scheduler.Lifecycle.Outcomes.{failures, failures_disable}
use tg_auto_msg.Tests.{sample_task, sample_account, sample_classification, sample_store}

no_row : IsClosed (find_issue "t1" "channel" (pos 7) [])
unfolding find_issue
no_row = tt

failure_streak_example :
    (row : TaskTargetSendIssue) × (find_issue "t1" "channel" (pos 7) (
        fail_all sample_task
          (pos 7)
          "channel"
          (some "News")
          sample_classification
          (10 ∷ 20 ∷ 30 ∷ [])
          [])
      ≡ some row)
    × Tells sample_classification (1 + length {A = ℕ} (20 ∷ 30 ∷ [])) row
failure_streak_example =
    failure_streak sample_task (pos 7) "channel" (some "News") sample_classification 10
      (20 ∷ 30 ∷ []) [] no_row

success_ends_streak_example :
    let cleared = (resolve_task_target_send_issue sample_task (pos 7) "channel" 40 []).1 in
    (row : TaskTargetSendIssue) × (find_issue "t1" "channel"
        (pos 7)
        (fail_all sample_task (pos 7) "channel" none sample_classification (50 ∷ 60 ∷ []) cleared)
      ≡ some row)
    × Tells sample_classification (1 + length {A = ℕ} (60 ∷ [])) row
success_ends_streak_example =
    success_ends_streak sample_task (pos 7) "channel" none sample_classification 40 50 (60 ∷ []) []

claim_once_example : successes "a1" (10 ∷ 10 ∷ 20 ∷ []) (sample_account ∷ []) ≤ 1
claim_once_example =
    claim_once "a1" (10 ∷ 10 ∷ 20 ∷ []) (sample_account ∷ [])
      (omega arith, (omega arith, (omega arith, tt)))

sample_found : get_account "a1" (sample_account ∷ []) ≡ some sample_account
unfolding get_account
sample_found = refl

failures_disable_example :
    (failures "down" 3 scheduler (1000000 ∷ 2000000 ∷ 3000000 ∷ []) sample_store).task.enabled
    ≡ not (leb 3 (0 + length {A = ℕ} (1000000 ∷ 2000000 ∷ 3000000 ∷ [])))
failures_disable_example =
    failures_disable "down" 3 scheduler (1000000 ∷ 2000000 ∷ 3000000 ∷ []) sample_store refl refl

abbrev unknown_error : SendError
unknown_error = record { type_name = "OddError"; message = "odd"; code = "" }

not_in_table : lookup "OddError" specialized ≡ none
unfolding lookup specialized
not_in_table = refl

no_code : is_blank (strip "") ≡ true
unfolding strip
no_code = refl
