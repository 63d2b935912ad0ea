-- ===== src/Tests/Runs.antt =====
-- Runs of the sample task, with a flood wait and with a send that succeeds.
use tg_auto_msg.Prelude.{
  ℕ, ◌+◌, ◌-◌, ◌*◌, ◌/◌, ◌≡◌, refl, Bool, true, false, Option, none, some, List, [], ◌∷◌, length,
  String, arith,
}
use tg_auto_msg.Prelude.Int.{ℤ, pos}
use tg_auto_msg.Schema.{scheduler}
use tg_auto_msg.Account.Rows.{get_account}
use tg_auto_msg.Circuit.{
  me, Outcome, returned, raised, flood_wait, handle_flood_wait, execute_with_circuit_breaker,
  guarded, update, cleared,
}
use tg_auto_msg.Circuit.Windows.{flood_wait_blocks, flood_wait_ends}
use tg_auto_msg.Scheduler.Targets.{
  collect_task_targets, dedupe, candidates, scan_items, scan_item, scan_entry,
}
use tg_auto_msg.Scheduler.Lifecycle.Outcomes.{IsPutOffAll, rows}
use tg_auto_msg.Scheduler.Runner.{check_schedule_constraints}
use tg_auto_msg.Scheduler.Runner.Constraints.{is_allowed, IsDecided, constraints_decide}
use tg_auto_msg.Scheduler.Runner.Send.{
  Outside, Replies, Progress, send_loop, serve, served, sent_target, start, finished, breaker_of,
}
use tg_auto_msg.Scheduler.Runner.Send.Attribution.{IsAttributed, targets-IsAttributed}
use tg_auto_msg.Scheduler.Runner.Finish.{Run, on_peer_flood, count_failure, send_phase}
use tg_auto_msg.Scheduler.Runner.Finish.Floods.{peer_flood_stops_account}
use tg_auto_msg.Scheduler.Runner.Finish.Report.{IsExact, send_phase-IsExact}
use tg_auto_msg.Tests.{sample_task, sample_account, sample_breaker, sample_world, sample_store}

sample_found : get_account "a1" (sample_account ∷ []) ≡ some sample_account
unfolding get_account
sample_found = refl

abbrev sent : Outcome (Option ℤ)
sent = returned (some (pos 321))

flood_wait_blocks_example :
    execute_with_circuit_breaker me "a1"
      (λ i. 2000000)
      sent
      sent
      (handle_flood_wait "a1" 60 1000000 sample_breaker).1
    ≡ (
      raised (flood_wait ((1000000 + 60 * 1000000 - 2000000) / 1000000)),
      (handle_flood_wait "a1" 60 1000000 sample_breaker).1,
    )
flood_wait_blocks_example =
    flood_wait_blocks me "a1" (λ i. 2000000) sent sent 60 1000000 sample_breaker sample_account
      sample_found (omega arith) (omega arith)

flood_wait_ends_example :
    execute_with_circuit_breaker me "a1"
      (λ i. 99000000)
      sent
      sent
      (handle_flood_wait "a1" 60 1000000 sample_breaker).1
    ≡ guarded "a1" 99000000 sent sent
        (update "a1" cleared (handle_flood_wait "a1" 60 1000000 sample_breaker).1)
flood_wait_ends_example =
    flood_wait_ends me "a1" (λ i. 99000000) sent sent 60 1000000 sample_breaker sample_account
      sample_found (omega arith)

abbrev sample_run : Run
sample_run = record {
  now = 7000;
  wall = 7000000000;
  advance = true;
  source = scheduler;
  max_failures = 3;
  account_id = "a1";
  account_display = "@owner";
  targets = collect_task_targets sample_task;
}

peer_flood_stops_account_example :
    let after = (on_peer_flood sample_run sample_world).1 in
    IsPutOffAll "a1"
      ((7000000000 + 24 * 3600 * 1000000) / 1000000)
      (rows (count_failure sample_run "PeerFloodError" sample_world).store)
      (rows after.store)
    × ((execute_with_circuit_breaker me "a1" (λ i. 7001000000) sent sent (breaker_of after)).0
        ≡ raised (flood_wait ((7000000000 + 24 * 3600 * 1000000 - 7001000000) / 1000000)))
peer_flood_stops_account_example =
    peer_flood_stops_account sample_run sample_world sample_account me (λ i. 7001000000) sent sent
      refl sample_found (omega arith) (omega arith)

-- Every target is sent to.
abbrev all_well : Outside
all_well t previous = record {
  slot = none;
  probe = me;
  clock = λ i. 7000000000;
  first_attempt = sent;
  second_attempt = sent;
  wall = 7000000000;
  now_iso = "1970-01-01T01:56:40";
}

send_phase-IsExact_example :
    IsExact
      (collect_task_targets sample_task)
      (send_loop all_well "a1" (collect_task_targets sample_task) (start sample_world))
      (send_phase all_well sample_run sample_world).0
send_phase-IsExact_example = send_phase-IsExact all_well sample_run sample_world sample_task refl

-- The loop after the task's one target that is not suspended.
abbrev after_loop : Progress
after_loop =
    elim (send_loop all_well "a1" (collect_task_targets sample_task) (start sample_world)) [
      | finished p ↦ p
      | _ ↦ start sample_world
    ]

loop_finishes :
    send_loop all_well "a1" (collect_task_targets sample_task) (start sample_world)
    ≡ finished after_loop
unfolding send_loop serve served sent_target collect_task_targets dedupe candidates scan_items
    scan_item scan_entry tg_auto_msg.Json.py_int tg_auto_msg.Json.get
    tg_auto_msg.Prelude.Dict.lookup tg_auto_msg.Scheduler.Targets.is_peer_type
    tg_auto_msg.Prelude.Text.lower tg_auto_msg.Json.str_or_empty
    tg_auto_msg.Scheduler.Runner.Send.send_with_protections execute_with_circuit_breaker
    tg_auto_msg.Circuit.reconcile_account_flood_state get_account guarded
loop_finishes = refl

targets-IsAttributed_example : IsAttributed (collect_task_targets sample_task) after_loop
targets-IsAttributed_example =
    targets-IsAttributed all_well "a1" sample_task sample_world after_loop loop_finishes

constraints_decide_example :
    IsDecided
      (is_allowed sample_task 7000 12)
      7000
      sample_store
      (check_schedule_constraints 7000 12 true true scheduler 1 sample_store)
constraints_decide_example = constraints_decide 7000 12 scheduler 1 sample_store (omega arith)
