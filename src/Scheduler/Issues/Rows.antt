-- ===== src/Scheduler/Issues/Rows.antt =====
-- The table of issues under the writes of a run: which row is found after which write.
use tg_auto_msg.Prelude.{
  ℕ, ◌≡◌, refl, ap, ◌∙◌, inl, inr, Bool, true, false, ◌&&◌, Option, none, some, [], ◌∷◌, String,
  arith, any, Bool-cases, if◌then◌else◌,
}
use mathlib.Core.Path.{subst}
use tg_auto_msg.Prelude.Int.{ℤ, eqb_ℤ_iff}
use tg_auto_msg.Prelude.Text.{eq_iff}
use tg_auto_msg.Schema.{Task, TaskTargetSendIssue}
use tg_auto_msg.Scheduler.Classifier.{TaskIssueClassification}
use tg_auto_msg.Scheduler.Issues.{
  Issues, is_row, find_issue, replace_issue, put_issue, failed_issue, new_issue, refreshed,
  record_task_target_send_issue,
}

-- Two rows of one target answer to the same lookups.
rows_agree :
    (task_id peer_type t k : String) (peer_id i : ℤ) (a b : TaskTargetSendIssue)
    → is_row task_id peer_type peer_id a ≡ true
    → is_row task_id peer_type peer_id b ≡ true
    → is_row t k i a ≡ is_row t k i b
rows_agree task_id peer_type t k peer_id i a b ha hb =
    let same_task : a.task_id ≡ b.task_id =
      ground (arith, eq_iff a.task_id task_id, eq_iff b.task_id task_id) in
    let same_id : a.peer_id ≡ b.peer_id =
      ground (arith, eqb_ℤ_iff a.peer_id peer_id, eqb_ℤ_iff b.peer_id peer_id) in
    let same_type : a.peer_type ≡ b.peer_type =
      ground (arith, eq_iff a.peer_type peer_type, eq_iff b.peer_type peer_type) in
    rw (same_task, same_id, same_type)

module _ (task_id peer_type : String) (peer_id : ℤ) where
  pub found_row :
      (issues : Issues) (found : TaskTargetSendIssue)
      → find_issue task_id peer_type peer_id issues ≡ some found
      → is_row task_id peer_type peer_id found ≡ true
  unfolding find_issue
  found_row [] found e = cc
  found_row (issue ∷ issues) found e = elim (Bool-cases (is_row task_id peer_type peer_id issue)) [
    | inl here ↦
        let hit : some issue ≡ some found = rw here at e in
        let same : issue ≡ found = cc in
        subst (λ r. is_row task_id peer_type peer_id r ≡ true) same here
    | inr not_here ↦ found_row issues found (rw not_here at e)
  ]

  pub found_any :
      (issues : Issues) (found : TaskTargetSendIssue)
      → find_issue task_id peer_type peer_id issues ≡ some found
      → any (is_row task_id peer_type peer_id) issues ≡ true
  unfolding find_issue
  found_any [] found e = cc
  found_any (issue ∷ issues) found e = elim (Bool-cases (is_row task_id peer_type peer_id issue)) [
    | inl here ↦ rw here refl
    | inr not_here ↦ rw not_here (found_any issues found (rw not_here at e))
  ]

  -- A row of this target is written, then any row is looked up.
  pub find-replace :
      (t k : String) (i : ℤ) (new : TaskTargetSendIssue) (issues : Issues)
      → is_row task_id peer_type peer_id new ≡ true
      → find_issue t k i (replace_issue task_id peer_type peer_id new issues) ≡ (
          if is_row t k i new && any (is_row task_id peer_type peer_id) issues
          then some new
          else find_issue t k i issues)
  unfolding find_issue replace_issue
  find-replace t k i new [] own = ground arith
  find-replace t k i new (issue ∷ issues) own =
      elim (Bool-cases (is_row task_id peer_type peer_id issue)) [
        | inl here ↦
            let agree = rows_agree task_id peer_type t k peer_id i issue new here own in
            rw (here, agree) (elim (Bool-cases (is_row t k i new)) [ inl e ↦ rw e | inr e ↦ rw e ])
        | inr not_here ↦
            rw (not_here, find-replace t k i new issues own)
              (elim (Bool-cases (is_row t k i issue)) [
                | inl it ↦ elim (Bool-cases (is_row t k i new)) [
                  | inl n ↦
                      let agree : is_row task_id peer_type peer_id issue
                          ≡ is_row task_id peer_type peer_id new =
                        rows_agree t k task_id peer_type i peer_id issue new it n in
                      cc
                  | inr n ↦ rw (it, n)
                ]
                | inr e ↦ rw e
              ])
      ]

-- The row that a failure leaves is the target's own.
failed_own :
    (task : Task) (peer_id : ℤ) (peer_type : String) (title : Option String)
    (c : TaskIssueClassification) (now : ℕ) (found : Option TaskTargetSendIssue)
    → ((old : TaskTargetSendIssue)
        → found ≡ some old
        → is_row task.task_id peer_type peer_id old ≡ true)
    → is_row task.task_id peer_type peer_id (failed_issue task peer_id peer_type title c now found)
      ≡ true
unfolding failed_issue new_issue refreshed
failed_own task peer_id peer_type title c now none h =
    ground (
      arith,
      eq_iff task.task_id task.task_id,
      eq_iff peer_type peer_type,
      eqb_ℤ_iff peer_id peer_id,
    )
failed_own task peer_id peer_type title c now (some old) h = h old refl

and_true : {A : Type 0} (b : Bool) (x y : A) → (if b && true then x else y) ≡ (if b then x else y)
and_true true x y = refl
and_true false x y = refl

-- Recording a failure writes the row of this target and of no other: a lookup of any (task, type,
-- id) then finds the returned row if it is this target's, and else what it found before.
pub find-record :
    (task : Task) (peer_id : ℤ) (peer_type : String) (title : Option String)
    (c : TaskIssueClassification) (now : ℕ) (issues : Issues) (t k : String) (i : ℤ)
    → let (issue, after) =
        record_task_target_send_issue task peer_id peer_type title c now issues in
      find_issue t k i after ≡ (if is_row t k i issue then some issue else find_issue t k i issues)
unfolding record_task_target_send_issue find_issue
find-record task peer_id peer_type title c now issues t k i =
    go (find_issue task.task_id peer_type peer_id issues) refl
  where
    go :
        (found : Option TaskTargetSendIssue)
        → find_issue task.task_id peer_type peer_id issues ≡ found
        → let issue = failed_issue task peer_id peer_type title c now found in
          find_issue t k i (put_issue task.task_id peer_type peer_id issue found issues)
          ≡ (if is_row t k i issue then some issue else find_issue t k i issues)
    go none e = refl
    go (some old) e =
        let own =
          failed_own task peer_id peer_type title c now (some old)
            λ r same. found_row task.task_id peer_type peer_id issues r (e ∙ same) in
        let present = found_any task.task_id peer_type peer_id issues old e in
        let new = failed_issue task peer_id peer_type title c now (some old) in
        find-replace task.task_id peer_type peer_id t k i new issues own
        ∙ ap (λ b. if is_row t k i new && b then some new else find_issue t k i issues) present
        ∙ and_true (is_row t k i new) (some new) (find_issue t k i issues)

-- The row of a failure is found as the target's.
pub find-record_self :
    (task : Task) (peer_id : ℤ) (peer_type : String) (title : Option String)
    (c : TaskIssueClassification) (now : ℕ) (issues : Issues)
    → let (issue, after) =
        record_task_target_send_issue task peer_id peer_type title c now issues in
      find_issue task.task_id peer_type peer_id after ≡ some issue
unfolding record_task_target_send_issue
find-record_self task peer_id peer_type title c now issues =
    let own =
      failed_own task peer_id peer_type title c now
        (find_issue task.task_id peer_type peer_id issues)
        (λ r found. found_row task.task_id peer_type peer_id issues r found) in
    find-record task peer_id peer_type title c now issues task.task_id peer_type peer_id ∙ rw own

pub record_row :
    (task : Task) (peer_id : ℤ) (peer_type : String) (title : Option String)
    (c : TaskIssueClassification) (now : ℕ) (issues : Issues)
    → (record_task_target_send_issue task peer_id peer_type title c now issues).0
      ≡ failed_issue task peer_id peer_type title c now
          (find_issue task.task_id peer_type peer_id issues)
unfolding record_task_target_send_issue
record_row task peer_id peer_type title c now issues = refl
