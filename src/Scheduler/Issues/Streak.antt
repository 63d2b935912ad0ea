-- ===== src/Scheduler/Issues/Streak.antt =====
-- Failures in a row, and the end of a row by a success.
use tg_auto_msg.Prelude.{
  ℕ, ◌+◌, ◌≡◌, refl, sym, ap, ◌∙◌, ◌⊎◌, inl, inr, Bool, true, false, ◌&&◌, Option, none, some, List,
  [], ◌∷◌, String, arith, length, if◌then◌else◌,
}
use mathlib.Core.Path.{subst}
use tg_auto_msg.Prelude.Int.{ℤ}
use tg_auto_msg.Prelude.Text.{eq_iff}
use tg_auto_msg.Schema.{Task, TaskTargetSendIssue, IssueStatus, active, resolved}
use tg_auto_msg.Scheduler.Classifier.{TaskIssueClassification}
use tg_auto_msg.Scheduler.Issues.{
  Issues, find_issue, suspends, issue_changed, next_failures, failed_issue, new_issue, refreshed,
  closed, record_task_target_send_issue, resolve_task_target_send_issue, resolve_found,
}
use tg_auto_msg.Scheduler.Issues.Rows.{
  find-record_self, record_row, found_row, found_any, find-replace,
}

-- The row tells of this error, n times in a row.
pub record Tells (c : TaskIssueClassification) (n : ℕ) (issue : TaskTargetSendIssue) : Type 0 where
  pub status : issue.status ≡ active
  pub error_type : issue.current_error_type ≡ c.error_type
  pub error_message : issue.current_error_message ≡ c.user_message
  pub category : issue.issue_category ≡ c.issue_category
  pub failures : issue.consecutive_failures ≡ n
  pub suspended : issue.auto_suspended ≡ suspends c n

unchanged :
    (c : TaskIssueClassification) (n : ℕ) (issue : TaskTargetSendIssue)
    → Tells c n issue
    → issue_changed issue c ≡ false
unchanged c n issue h =
    rw (h.status, h.error_type, h.error_message, h.category)
      (ground (
        arith,
        eq_iff c.error_type c.error_type,
        eq_iff c.user_message c.user_message,
        eq_iff c.issue_category c.issue_category,
      ))

-- No row, or a resolved one.
abbrev pub IsClosed : Option TaskTargetSendIssue → Type 0
IsClosed none = Unit
IsClosed (some issue) = issue.status ≡ resolved

module _ (task : Task) (peer_id : ℤ) (peer_type : String) (title : Option String)
    (c : TaskIssueClassification) where
  new-Tells : (now : ℕ) → Tells c 1 (new_issue task peer_id peer_type title c now)
  unfolding new_issue
  new-Tells now = record {
    status = refl;
    error_type = refl;
    error_message = refl;
    category = refl;
    failures = refl;
    suspended = refl;
  }

  refreshed-Tells :
      (now n : ℕ) (issue : TaskTargetSendIssue)
      → Tells c n issue
      → Tells c (n + 1) (refreshed task title c now issue)
  unfolding refreshed
  refreshed-Tells now n issue h =
      let count : next_failures issue c ≡ n + 1 =
        rw (unchanged c n issue h) (ap (λ m. m + 1) h.failures) in
      record {
        status = refl;
        error_type = refl;
        error_message = refl;
        category = refl;
        failures = count;
        suspended = ap (suspends c) count;
      }

  -- The row that was found tells of n failures of this kind.
  abbrev Before : ℕ → Option TaskTargetSendIssue → Type 0
  Before n none = ⊥
  Before n (some issue) = Tells c n issue

  -- A first failure starts to count at one.
  reopened-Tells :
      (now : ℕ) (issue : TaskTargetSendIssue)
      → issue.status ≡ resolved
      → Tells c 1 (refreshed task title c now issue)
  unfolding refreshed
  reopened-Tells now issue done =
      let count : next_failures issue c ≡ 1 = rw done refl in
      record {
        status = refl;
        error_type = refl;
        error_message = refl;
        category = refl;
        failures = count;
        suspended = ap (suspends c) count;
      }

  next-Tells :
      (now n : ℕ) (found : Option TaskTargetSendIssue)
      → Before n found
      → Tells c (n + 1) (failed_issue task peer_id peer_type title c now found)
  unfolding failed_issue
  next-Tells now n none before = absurd before
  next-Tells now n (some issue) before = refreshed-Tells now n issue before

  first-Tells :
      (now : ℕ) (found : Option TaskTargetSendIssue)
      → IsClosed found
      → Tells c 1 (failed_issue task peer_id peer_type title c now found)
  unfolding failed_issue
  first-Tells now none fresh = new-Tells now
  first-Tells now (some issue) fresh = reopened-Tells now issue fresh

  -- The row that a failure writes is the one found next.
  own_found :
      (now : ℕ) (issues : Issues)
      → find_issue task.task_id peer_type peer_id
          (record_task_target_send_issue task peer_id peer_type title c now issues).1
        ≡ some (
            failed_issue task peer_id peer_type title c now
              (find_issue task.task_id peer_type peer_id issues))
  own_found now issues =
      find-record_self task peer_id peer_type title c now issues
      ∙ ap some (record_row task peer_id peer_type title c now issues)

  -- The same failure at each of these times.
  abbrev pub fail_all : List ℕ → Issues → Issues
  fail_all [] issues = issues
  fail_all (now ∷ times) issues =
      fail_all times (record_task_target_send_issue task peer_id peer_type title c now issues).1

  pub streak :
      (times : List ℕ) (n : ℕ) (issues : Issues) (row : TaskTargetSendIssue)
      → find_issue task.task_id peer_type peer_id issues ≡ some row
      → Tells c n row
      → (last : TaskTargetSendIssue) × (find_issue task.task_id peer_type peer_id
            (fail_all times issues)
          ≡ some last)
        × Tells c (n + length times) last
  streak [] n issues row found h = (row, found, subst (λ m. Tells c m row) (omega arith) h)
  streak (now ∷ times) n issues row found h =
      let h' = next-Tells now n _ (subst (Before n) (sym found) h) in
      let (last, e, t) = streak times (n + 1) _ _ (own_found now issues) h' in
      (last, e, subst (λ m. Tells c m last) (omega arith) t)

-- The same failure of one target, at n ≥ 1 times in a row, where no row of the target was there or
-- the row was resolved: the row is active, tells of this error, counts n failures, and suspends the
-- target exactly as the policy says for n.
pub failure_streak :
    (task : Task) (peer_id : ℤ) (peer_type : String) (title : Option String)
    (c : TaskIssueClassification) (first : ℕ) (times : List ℕ) (issues : Issues)
    → IsClosed (find_issue task.task_id peer_type peer_id issues)
    → (row : TaskTargetSendIssue) × (find_issue task.task_id peer_type peer_id
          (fail_all task peer_id peer_type title c (first ∷ times) issues)
        ≡ some row)
      × Tells c (1 + length times) row
failure_streak task peer_id peer_type title c first times issues fresh =
    streak task peer_id peer_type title c times 1 _ _
      (own_found task peer_id peer_type title c first issues)
      (first-Tells task peer_id peer_type title c first _ fresh)

status_cases : (s : IssueStatus) → (s ≡ active) ⊎ (s ≡ resolved)
status_cases active = inl refl
status_cases resolved = inr refl

-- After a success of the target its row is closed, or there is none.
pub resolve-IsClosed :
    (task : Task) (peer_id : ℤ) (peer_type : String) (now : ℕ) (issues : Issues)
    → IsClosed (
        find_issue task.task_id peer_type peer_id
          (resolve_task_target_send_issue task peer_id peer_type now issues).1)
unfolding resolve_task_target_send_issue
resolve-IsClosed task peer_id peer_type now issues =
    go (find_issue task.task_id peer_type peer_id issues) refl
  where
    chosen :
        {a b : Bool} (x y : Option TaskTargetSendIssue)
        → a ≡ true
        → b ≡ true
        → (if a && b then x else y) ≡ x
    chosen x y p q = rw (p, q)

    key : Issues → Option TaskTargetSendIssue
    key rows = find_issue task.task_id peer_type peer_id rows

    go :
        (found : Option TaskTargetSendIssue)
        → key issues ≡ found
        → IsClosed (key (resolve_found task.task_id peer_type peer_id now found issues).1)
    go none e = subst IsClosed (sym e) tt
    go (some issue) e = elim (status_cases issue.status) [
      | inr done ↦ rw done (subst IsClosed (sym e) done)
      | inl open_row ↦
          let own = found_row task.task_id peer_type peer_id issues issue e in
          let present = found_any task.task_id peer_type peer_id issues issue e in
          let written =
            find-replace task.task_id peer_type peer_id task.task_id peer_type peer_id
              (closed now issue) issues own in
          rw open_row (subst IsClosed (sym (written ∙ chosen _ _ own present)) refl)
    ]

-- A success ends a streak: after it the same failure, at n ≥ 1 times in a row, is counted from one,
-- and suspends the target exactly as the policy says for n.
pub success_ends_streak :
    (task : Task) (peer_id : ℤ) (peer_type : String) (title : Option String)
    (c : TaskIssueClassification) (now first : ℕ) (times : List ℕ) (issues : Issues)
    → let cleared = (resolve_task_target_send_issue task peer_id peer_type now issues).1 in
      (row : TaskTargetSendIssue) × (find_issue task.task_id peer_type peer_id
          (fail_all task peer_id peer_type title c (first ∷ times) cleared)
        ≡ some row)
      × Tells c (1 + length times) row
success_ends_streak task peer_id peer_type title c now first times issues =
    failure_streak task peer_id peer_type title c first times _
      (resolve-IsClosed task peer_id peer_type now issues)
