-- ===== src/Scheduler/Worker.antt =====
-- backend/scheduler/core/worker.py: the lock under which a worker runs a task from the queue, the
-- task's timeout, and the repair of the rows at the start.
pub mod Exclusion
pub mod Release
pub mod Recovery
pub mod Tick
use Prim.Native.String.{◌++◌}
use tg_auto_msg.Prelude.{
  ℕ, ◌+◌, ◌*◌, max, Bool, true, false, ◌&&◌, not, Option, none, some, List, String, if◌then◌else◌,
  ltb, ◌==◌, or_else, is_some, map,
}
use tg_auto_msg.Prelude.Text.{str_eq, show_ℕ}
use tg_auto_msg.Prelude.Int.{ℤ, pos, eqb_ℤ, pos_part}
use tg_auto_msg.Redis.{Keys}
use tg_auto_msg.Schema.{Task, TriggerSource}
use tg_auto_msg.Scheduler.Lifecycle.{Store, handle_task_failure}

abbrev pub processing_lock_buffer_seconds : ℕ
processing_lock_buffer_seconds = 60

unfoldable pub processing_key : String → String
processing_key task_id = "queue:tasks:processing" ++ (":" ++ task_id)

-- `max(1, int(value or default))`
abbrev pub task_timeout_seconds : ℤ → ℕ
task_timeout_seconds n = if eqb_ℤ n (pos 0) then 360 else max 1 (pos_part n)

abbrev pub processing_ttl : ℕ → ℕ
processing_ttl timeout = (timeout + processing_lock_buffer_seconds) * 1000000

abbrev pub is_value : String → Option String → Bool
is_value v none = false
is_value v (some w) = str_eq w v

module _ {S : Type 0} (r : Keys S) where
  unfoldable pub take_processing_lock : String → String → ℕ → ℕ → S → Bool × S
  take_processing_lock task_id token timeout now st =
      r.set_nx (processing_key task_id) token (processing_ttl timeout) now st

  -- RELEASE_PROCESSING_LOCK_SCRIPT
  pub release_processing_lock : String → String → ℕ → S → S
  release_processing_lock task_id token now st =
      if is_value token (r.get (processing_key task_id) now st)
      then r.delete (processing_key task_id) st
      else st

-- How `_execute_task_once` under `asyncio.wait_for` comes to its end; `raised` is any other exception,
-- which the caller of the worker gets once the lock is released.
pub data Ending : Type 0 where
  summary timed_out http_refused raised : Ending

-- `_record_task_timeout`
pub record_task_timeout : ℕ → ℕ → ℕ → Option Store → Option Store
record_task_timeout timeout max_failures wall none = none
record_task_timeout timeout max_failures wall (some s) = some (
    if s.task.enabled
    then handle_task_failure ("任务执行超过 " ++ (show_ℕ timeout ++ " 秒")) max_failures wall
        TriggerSource.scheduler true true s
    else s)

abbrev pub is_runnable : Option Store → Bool
is_runnable none = false
is_runnable (some s) = s.task.enabled

abbrev after_run : ℕ → ℕ → ℕ → Ending × Option Store → Option Store
after_run timeout max_failures wall (timed_out, rows) =
    record_task_timeout timeout max_failures wall rows
after_run timeout max_failures wall (summary, rows) = rows
after_run timeout max_failures wall (http_refused, rows) = rows
after_run timeout max_failures wall (raised, rows) = rows

-- `_execute_task_from_queue` of a task and its rows, `none` where the task is gone. `run` is one run of
-- the task; until the lock is released, others write to Redis (`meanwhile`) and the clock comes to `later`.
module _ {S : Type 0} (r : Keys S) (run : Option Store → Ending × Option Store)
    (meanwhile : S → S) where
  pub execute_task_from_queue :
      String → String → ℕ → ℕ → ℕ → ℕ → S × Option Store → S × Option Store
  execute_task_from_queue task_id token timeout max_failures now later (st, rows) =
      let (lock_acquired, locked) = take_processing_lock r task_id token timeout now st in
      if not lock_acquired
      then (locked, rows)
      else if not (is_runnable rows)
      then (release_processing_lock r task_id token later (meanwhile locked), rows)
      else (
        release_processing_lock r task_id token later (meanwhile locked),
        after_run timeout max_failures later (run rows),
      )

-- `_recover_runtime_state`: an enabled task that has ended is switched off, and one with no next run
-- gets one.
abbrev pub past_end : ℕ → Option ℕ → Bool
past_end now none = false
past_end now (some end) = ltb 0 end && ltb end now

pub recovered_task : ℕ → Task → Task
recovered_task now task =
    if not task.enabled
    then task
    else if past_end now task.end_at
    then record task { enabled = false }
    else if is_some task.next_run_at
    then task
    else record task {
      next_run_at =
          some (if ltb 0 (or_else task.start_at 0) then max now (or_else task.start_at 0) else now);
    }

pub recover_runtime_state : ℕ → List Task → List Task
recover_runtime_state now tasks = map (recovered_task now) tasks
