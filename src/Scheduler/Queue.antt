-- ===== src/Scheduler/Queue.antt =====
-- backend/scheduler/core/queue_ops.py: due tasks enter the queue, a sorted set by the time of their run, and
-- leave it when they are claimed.
pub mod Earlier
pub mod Claims
use tg_auto_msg.Prelude.{
  ℕ, suc, ◌+◌, ◌-◌, ◌*◌, min, max, Bool, true, false, ◌&&◌, not, Option, none, some, List, [], ◌∷◌,
  String, map, if◌then◌else◌, ltb, leb, ◌==◌, keep, take, any, is_empty, or_else,
}
use tg_auto_msg.Prelude.Int.{ℤ, pos, pos_part, neg_part, ltb_ℤ, leb_ℤ}
use tg_auto_msg.Prelude.Text.{str_eq}
use tg_auto_msg.Redis.{SortedSet}
use tg_auto_msg.Schema.{Task, TriggerMode, Account}
use tg_auto_msg.Account.Rows.{Accounts, get_account}
use tg_auto_msg.Scheduler.Lifecycle.{has_account, account_of}

abbrev pub jitter_range : ℕ
jitter_range = 300

abbrev pub urgent_priority_threshold : ℕ
urgent_priority_threshold = 100

abbrev pub is_scheduled : TriggerMode → Bool
is_scheduled TriggerMode.scheduled = true
is_scheduled TriggerMode.manual_shortcut = false

abbrev runs_by : ℕ → Option ℕ → Bool
runs_by now none = false
runs_by now (some at) = leb at now

-- The rows of the query: `priority desc, next_run_at asc`, 100 at most.
abbrev pub is_due : ℕ → Task → Bool
is_due now t = t.enabled && is_scheduled t.trigger_mode && runs_by now t.next_run_at

abbrev goes_before : Task → Task → Bool
goes_before s t =
    if ltb_ℤ t.priority s.priority
    then true
    else if ltb_ℤ s.priority t.priority
    then false
    else leb (or_else s.next_run_at 0) (or_else t.next_run_at 0)

abbrev insert_task : Task → List Task → List Task
insert_task t [] = t ∷ []
insert_task t (s ∷ ts) = if goes_before t s then t ∷ s ∷ ts else s ∷ insert_task t ts

abbrev in_order : List Task → List Task
in_order [] = []
in_order (t ∷ ts) = insert_task t (in_order ts)

abbrev pub due_tasks : ℕ → List Task → List Task
due_tasks now tasks = take 100 (in_order (keep (is_due now) tasks))

abbrev pub delay_min : Task → ℕ
delay_min t = pos_part t.delay_min_seconds

abbrev pub delay_max : Task → ℕ
delay_max t = max (delay_min t) (pos_part t.delay_max_seconds)

-- `(100 - weight) * 2` of a weight below 100.
abbrev pub extra_max : ℤ → ℕ
extra_max weight = min 120 ((100 + neg_part weight - pos_part weight) * 2)

-- The member's score, where it has none or a later one.
abbrev pub scored : {S : Type 0} → SortedSet S → String → ℕ → Option ℕ → S → S
scored r task_id at none st = r.zadd task_id at st
scored r task_id at (some old) st = if ltb at old then r.zadd task_id at st else st

-- `randint k a b` is the k-th call of `random.randint(a, b)`.
module _ (randint : ℕ → ℕ → ℕ → ℕ) where
  abbrev pub base_jitter : ℕ → Task → ℕ
  base_jitter k t =
      if ltb 0 (delay_max t)
      then (let upper = min (delay_max t) jitter_range in randint k (min (delay_min t) upper) upper)
      else randint k 0 (min (pos_part t.jitter_seconds) jitter_range)

  abbrev pub urgent_jitter : Task → ℕ → ℕ
  urgent_jitter t jitter =
      if leb_ℤ (pos urgent_priority_threshold) t.priority then min jitter 3 else jitter

  abbrev pub extra_jitter : ℕ → Option Account → ℕ
  extra_jitter k none = 0
  extra_jitter k (some a) = if ltb_ℤ a.weight (pos 100) then randint k 0 (extra_max a.weight) else 0

  -- The account's draw is the one after the task's.
  pub jitter_of : ℕ → Accounts → Task → ℕ
  jitter_of k accounts t =
      urgent_jitter t (base_jitter k t)
      + (if has_account t then extra_jitter (suc k) (get_account (account_of t) accounts) else 0)

  abbrev pub enqueue_one : {S : Type 0} → SortedSet S → ℕ → ℕ → Accounts → Task → S → S
  enqueue_one r now k accounts t st =
      scored r t.task_id (now + jitter_of k accounts t) (r.zscore t.task_id st) st

  pub enqueue_all : {S : Type 0} → SortedSet S → ℕ → ℕ → Accounts → List Task → S → S
  enqueue_all r now k accounts [] st = st
  enqueue_all r now k accounts (t ∷ ts) st =
      enqueue_all r now (suc (suc k)) accounts ts (enqueue_one r now k accounts t st)

  pub enqueue_due_tasks : {S : Type 0} → SortedSet S → ℕ → Accounts → List Task → S → S
  enqueue_due_tasks r now accounts tasks st = enqueue_all r now 0 accounts (due_tasks now tasks) st

-- CLAIM_DUE_TASKS_SCRIPT
unfoldable pub claim_due_tasks : {S : Type 0} → SortedSet S → ℕ → ℕ → S → List String × S
claim_due_tasks r now batch_size st =
    let ids = r.zrangebyscore now batch_size st in
    if is_empty ids then (ids, st) else (ids, r.zrem ids st)

abbrev pub is_claimed : List String → Task → Bool
is_claimed ids t = any (λ id. str_eq id t.task_id) ids && t.enabled && is_scheduled t.trigger_mode

unfoldable pub get_pending_tasks :
    {S : Type 0} → SortedSet S → ℕ → ℕ → List Task → S → List Task × S
get_pending_tasks r now batch_size tasks st =
    let (ids, after) = claim_due_tasks r now batch_size st in (keep (is_claimed ids) tasks, after)
