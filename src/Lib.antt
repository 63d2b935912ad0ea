-- ===== src/Lib.antt =====
-- The core of tg-auto-msg: sending scheduled messages from Telegram accounts that hold a licence.
--
-- A task has a list of targets (a JSON column), an interval and an account. A run of a task checks
-- its schedule, claims the account's budget if a proxy is under observation, and sends to one target
-- after the other through the account's circuit breaker. Each failure is classified, recorded in the
-- target's issue row and marked in the JSON list; a target that fails too often is suspended there
-- and left out of the next run. A flood error ends the run and stops the account for a time. Before
-- all this the account's licence is checked. Runs by schedule come from a queue in Redis, which workers
-- fill and empty; a worker runs a task under a lock of its own, and sends wait for a rate limiter.
--
-- - Prelude: Boolean tests, lists, integers, Python's str methods, and dicts in insertion order.
-- - Json: the values in a JSON column, their truth, their `str` and their `int`.
-- - Schema: the rows of backend/database/schema/models.py.
-- - Http: what a service of backend/h5_backend answers.
-- - Redis: the commands of the Redis server that are used, as two interfaces with their laws.
-- - Licensing: backend/h5_backend/services/licensing/service.py. Its Rows are the tables; Normalize
--   brings a user to one slot and one account; Cards, Trial, Permission and Bindings are the
--   operations, each of which starts with that normalization.
-- - Agents: the agents of the panel, backend/h5_backend/services/admin_panel/ (batch_service.py,
--   ledger_service.py, agent_service.py, shared_helpers.py) and the permissions of
--   backend/h5_backend/services/admin_rbac/service.py. Rows has the tables; Rbac and Visibility say who
--   may do what; Hierarchy and Settings make agents and set their limits; Quote, Credit, Funding, Codes
--   and Batches generate a batch of cards, whose cards Licensing activates; Settlement and Recharge pay
--   for it. Books has what an account owes, and the proofs.
-- - Limiter: backend/bot/safety/rate_limiter.py, the locks and the wait in Limiter, the variation of a
--   text in Limiter.Variation.
-- - Scheduler.Queue: backend/scheduler/core/queue_ops.py.
-- - Scheduler.Worker: backend/scheduler/core/worker.py; Worker.Exclusion has the steps of several
--   workers on one Redis, the starts of processes among them.
-- - Account: the accounts table (backend/bot/account/manager.py), what requires a new binding
--   (reauth.py), and the observation window with its budget of one send (proxy_observation.py).
-- - Circuit: backend/bot/circuit/ (breaker.py, recovery.py, notify.py) and the health check.
-- - Fsm: the conversation states of the bot's users, backend/bot/state/fsm.py.
-- - Scheduler.Classifier: backend/scheduler/core/task_issue_classifier.py.
-- - Scheduler.Targets and Scheduler.SentIds: the targets of a task and the message ids kept for them,
--   backend/scheduler/core/task_execution.py.
-- - Scheduler.Metadata and Scheduler.Issues: the delivery state in the JSON list and the issue rows,
--   backend/scheduler/core/task_issue_state.py.
-- - Scheduler.Lifecycle: backend/scheduler/core/task_lifecycle.py.
-- - Scheduler.Runner: backend/scheduler/core/task_runner.py, with phase 1 in Runner.Session and
--   Runner.Validate, the constraints and the budget in Runner, the loop in Runner.Send, and the report
--   and the error branches in Runner.Finish; Runner.Once is the composition, execute_task_once.
-- - Strategy: the delays and fields that the system sets on a task, backend/h5_backend/services/task/
--   (helpers.py and payload.py).
-- - Tests: one task, one account, one user's licences, one agency, two Redis servers and one
--   conversation on which all of this is run.
--
-- A function that changes rows takes the tables and returns them: Store is what the run's session
-- sees, World adds what the breaker keeps. Reading the clock is an argument. Datetimes are
-- microseconds and the task's own times are seconds, as natural numbers; Python's integers do not
-- overflow, and neither do these. The replies of Telegram, the rate limiter's slot and the health
-- probe are arguments (Replies, Probe), given for every target before the run.
--
-- Most loops are structural recursion on a list or a text. On fuel are the printing of a number, n + 1
-- for n, which is more than its digits; the wait for a slot, 101 rounds, since each round sleeps for a
-- tenth of a second of the ten seconds that it waits at most; the walk up the chain of credit and the
-- search for descendants, a turn for each account and one more, since each turn meets a new account; and
-- the drawing of card codes, 20 turns for a code as in the source, then as many draws as codes and a turn
-- for each card and one more; there the source draws on for as long as it meets codes that are taken, and
-- the result is `none` where the turns do not suffice.
--
-- Redis, the draws of the module random, the matches of the module re and the new uuids are
-- parameters; what is assumed of them stands as a hypothesis of the theorems that need it.
--
-- Not modelled: the notices of a run, the endless loop around a worker's tick and its semaphore, the
-- reconnection to Redis, the building of messages and media, the texts of notices, the lists of
-- licences and of batches for display, the copies and exports of cards, the editing of roles, the web
-- and bot front ends, and the services around them. The details of audit entries and the remarks of
-- recharges are left out. The database is taken to run one statement at a time; row locks between
-- sessions are not modelled.
pub mod Prelude
pub mod Json
pub mod Schema
pub mod Http
pub mod Redis
pub mod Account
pub mod Licensing
pub mod Agents
pub mod Circuit
pub mod Fsm
pub mod Limiter
pub mod Scheduler
pub mod Strategy
pub mod Tests
