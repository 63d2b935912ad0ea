-- ===== src/Scheduler/Worker/Tick.antt =====
-- `tick` of backend/scheduler/core/worker.py: one scan, by a worker that fills the queue, empties it or
-- does both. Which tasks are run at once is for Worker.Exclusion; here a tick ends with the tasks that it
-- hands to `_execute_task_from_queue`.
use tg_auto_msg.Prelude.{ℕ, max, Bool, ◌||◌, not, List, [], String, if◌then◌else◌}
use tg_auto_msg.Prelude.Int.{ℤ, pos, pos_part, eqb_ℤ}
use tg_auto_msg.Prelude.Text.{str_eq}
use tg_auto_msg.Redis.{SortedSet}
use tg_auto_msg.Schema.{Task}
use tg_auto_msg.Account.Rows.{Accounts}
use tg_auto_msg.Scheduler.Queue.{enqueue_due_tasks, get_pending_tasks}

-- `max(1, int(value or 3))`
abbrev pub task_concurrency : ℤ → ℕ
task_concurrency n = if eqb_ℤ n (pos 0) then 3 else max 1 (pos_part n)

abbrev pub produces : String → Bool
produces mode = str_eq mode "all" || str_eq mode "producer"

abbrev pub consumes : String → Bool
consumes mode = str_eq mode "all" || str_eq mode "consumer"

module _ (randint : ℕ → ℕ → ℕ → ℕ) {S : Type 0} (r : SortedSet S) where
  abbrev pub enqueued : String → ℕ → Accounts → List Task → S → S
  enqueued mode now accounts tasks st =
      if produces mode then enqueue_due_tasks randint r now accounts tasks st else st

  pub tick : String → ℤ → ℕ → Accounts → List Task → S → List Task × S
  tick mode setting now accounts tasks st =
      if not (consumes mode)
      then ([], enqueued mode now accounts tasks st)
      else get_pending_tasks r now (task_concurrency setting) tasks
          (enqueued mode now accounts tasks st)
