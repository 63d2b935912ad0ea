-- ===== src/Scheduler/Queue/Claims.antt =====
-- Who takes a task out of the queue.
use tg_auto_msg.Prelude.{
  ℕ, ◌≡◌, refl, inl, inr, true, false, ◌&&◌, none, List, [], ◌∷◌, String, arith, keep, any,
  is_empty, Bool-cases, All,
}
use mathlib.Core.Path.{subst}
use tg_auto_msg.Prelude.Text.{str_eq, eq_iff}
use tg_auto_msg.Prelude.Keyed.{Memᴰ, Mem-keep}
use tg_auto_msg.Redis.{SortedSet, IsSortedSet, scores_at_most}
use tg_auto_msg.Schema.{Task}
use tg_auto_msg.Scheduler.Queue.{claim_due_tasks, get_pending_tasks, is_claimed, is_scheduled}

module _ {S : Type 0} (r : SortedSet S) (law : IsSortedSet r) where
  listed-due :
      (max : ℕ) (st : S) (ids : List String) (k : String)
      → All (λ id. scores_at_most max (r.zscore id st) ≡ true) ids
      → any (λ id. str_eq id k) ids ≡ true
      → scores_at_most max (r.zscore k st) ≡ true
  listed-due max st [] k due h = cc
  listed-due max st (id ∷ ids) k due h = elim (Bool-cases (str_eq id k)) [
    | inl same ↦ subst (λ x. scores_at_most max (r.zscore x st) ≡ true) ((eq_iff id k).0 same) due.0
    | inr other ↦ listed-due max st ids k due.1 (rw other at h)
  ]

  not_empty :
      (ids : List String) (k : String)
      → is_empty ids ≡ true
      → any (λ id. str_eq id k) ids ≡ true
      → false ≡ true
  not_empty [] k e h = h
  not_empty (id ∷ ids) k e h = e

  -- The script removes what it returns.
  claim-removes :
      (now batch_size : ℕ) (st : S) (k : String)
      → any (λ id. str_eq id k) (claim_due_tasks r now batch_size st).0 ≡ true
      → (scores_at_most now (r.zscore k st) ≡ true)
        × (r.zscore k (claim_due_tasks r now batch_size st).1 ≡ none)
  unfolding claim_due_tasks
  claim-removes now batch_size st k h =
      let ids = r.zrangebyscore now batch_size st in
      elim (Bool-cases (is_empty ids)) [
        | inl empty ↦
            let there : any (λ id. str_eq id k) ids ≡ true = rw empty at h in
            absurd (cc (not_empty ids k empty there))
        | inr full ↦
            let there : any (λ id. str_eq id k) ids ≡ true = rw full at h in
            (
              listed-due now st ids k (law.range_due now batch_size st) there,
              rw (full, law.score_remove ids st k, there) refl,
            )
      ]

  none_listed :
      (ids : List String) (k : String) (tasks : List Task)
      → any (λ id. str_eq id k) ids ≡ false
      → any (λ (t : Task). str_eq t.task_id k) (keep (is_claimed ids) tasks) ≡ false
  none_listed ids k [] h = refl
  none_listed ids k (t ∷ tasks) h = elim (Bool-cases (is_claimed ids t)) [
    | inr left ↦ rw left (none_listed ids k tasks h)
    | inl claimed ↦ elim (Bool-cases (str_eq t.task_id k)) [
      | inr other ↦ rw (claimed, other) (none_listed ids k tasks h)
      | inl same ↦
          let there : any (λ id. str_eq id t.task_id) ids ≡ true = ground arith in
          let clash : any (λ id. str_eq id k) ids ≡ true =
            subst (λ x. any (λ id. str_eq id x) ids ≡ true) ((eq_iff t.task_id k).0 same) there in
          absurd (cc)
    ]
  ]

  -- A task that a worker gets from the queue is enabled, is scheduled and was due; it has left
  -- the queue, and no claim from the queue as it is left, by any worker and over any rows, gets
  -- it again.
  pub claimed_once :
      (now batch_size : ℕ) (tasks : List Task) (st : S) (t : Task) (later size : ℕ)
      (rows : List Task)
      → Memᴰ t (get_pending_tasks r now batch_size tasks st).0
      → let after = (get_pending_tasks r now batch_size tasks st).1 in
        (t.enabled && is_scheduled t.trigger_mode ≡ true)
        × (scores_at_most now (r.zscore t.task_id st) ≡ true)
        × (r.zscore t.task_id after ≡ none)
        × (any
              (λ (x : Task). str_eq x.task_id t.task_id)
              (get_pending_tasks r later size rows after).0
            ≡ false)
  unfolding get_pending_tasks
  claimed_once now batch_size tasks st t later size rows m =
      let (ids, after) = claim_due_tasks r now batch_size st in
      let (listed, claimed) = Mem-keep (is_claimed ids) t tasks m in
      let there : any (λ id. str_eq id t.task_id) ids ≡ true = ground (arith, claimed) in
      let (due, gone) = claim-removes now batch_size st t.task_id there in
      let next = (claim_due_tasks r later size after).0 in
      (
        ground (arith, claimed),
        due,
        gone,
        none_listed next t.task_id rows (elim (Bool-cases (any (λ id. str_eq id t.task_id) next)) [
          | inr free ↦ free
          | inl again ↦
              let (scored, left) = claim-removes later size after t.task_id again in
              let no : scores_at_most later none ≡ true = rw gone at scored in absurd (cc)
        ]),
      )
