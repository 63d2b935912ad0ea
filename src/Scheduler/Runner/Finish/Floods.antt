-- ===== src/Scheduler/Runner/Finish/Floods.antt =====
-- A peer flood stops the account that met it.
use tg_auto_msg.Prelude.{ℕ, ◌+◌, ◌-◌, ◌*◌, ◌/◌, ◌<◌, ◌≡◌, ap, false, Option, some}
use tg_auto_msg.Prelude.Int.{ℤ}
use tg_auto_msg.Prelude.Text.{str_eq}
use tg_auto_msg.Schema.{Account}
use tg_auto_msg.Account.Rows.{get_account}
use tg_auto_msg.Circuit.{
  Probe, Outcome, raised, flood_wait, handle_peer_flood, execute_with_circuit_breaker,
}
use tg_auto_msg.Circuit.Windows.{peer_flood_blocks}
use tg_auto_msg.Scheduler.Lifecycle.{suspend_account_tasks, handle_task_failure}
use tg_auto_msg.Scheduler.Lifecycle.Outcomes.{IsPutOffAll, rows, suspend_account_tasks-IsPutOff}
use tg_auto_msg.Scheduler.Runner.Send.{World, breaker_of, with_breaker}
use tg_auto_msg.Scheduler.Runner.Finish.{Run, on_peer_flood, count_failure}

-- After a peer flood of a listed account: every enabled task of the account, the one at hand
-- included, is put off by 24 hours or more, the other tasks stay, and for 24 hours no message goes
-- through the account's breaker, whatever the attempts would return.
pub peer_flood_stops_account :
    (run : Run) (w : World) (a : Account) (probe : Probe) (clock : ℕ → ℕ)
    (first second : Outcome (Option ℤ))
    → str_eq run.account_id "default" ≡ false
    → get_account run.account_id w.store.accounts ≡ some a
    → clock 0 < run.wall + 24 * 3600 * 1000000
    → clock 1 < run.wall + 24 * 3600 * 1000000
    → let after = (on_peer_flood run w).1 in
      IsPutOffAll run.account_id
        ((run.wall + 24 * 3600 * 1000000) / 1000000)
        (rows (count_failure run "PeerFloodError" w).store)
        (rows after.store)
      × ((execute_with_circuit_breaker probe run.account_id clock first second (breaker_of after)).0
          ≡ raised (flood_wait ((run.wall + 24 * 3600 * 1000000 - clock 1) / 1000000)))
unfolding on_peer_flood handle_peer_flood handle_task_failure suspend_account_tasks
peer_flood_stops_account run w a probe clock first second linked found before_0 before_1 =
    let until : ℕ = run.wall + 24 * 3600 * 1000000 in
    let counted = count_failure run "PeerFloodError" w in
    let stopped = handle_peer_flood run.account_id run.wall (breaker_of counted) in
    rw linked (
      suspend_account_tasks-IsPutOff run.account_id (until / 1000000)
          (with_breaker counted stopped.1).store,
      ap (λ r. r.0)
          (peer_flood_blocks probe run.account_id clock first second run.wall (breaker_of counted) a
            found before_0 before_1),
    )
