-- ===== src/Scheduler/Runner/Validate.antt =====
-- Phase 1 of a run (`_validate_and_resolve` of backend/scheduler/core/task_runner.py), and
-- `execute_task_once`, which composes the phases. `probe` is Telegram's answer to a health check, and
-- `client` tells for which account there is a client. The notices to the owner are left out.
pub mod Gate
use Prim.Native.String.{◌++◌}
use tg_auto_msg.Prelude.{
  ℕ, ◌+◌, ◌*◌, max, Bool, true, false, ◌&&◌, ◌||◌, not, Option, none, some, List, [], ◌∷◌, String,
  if◌then◌else◌, ltb, or_else, is_some, is_empty, take, length,
}
use tg_auto_msg.Prelude.Text.{str_eq, starts_with, is_blank, strip, lower, show_ℕ, str_take}
use tg_auto_msg.Http.{HttpException}
use tg_auto_msg.Schema.{Task, TriggerSource, Account}
use tg_auto_msg.Account.Rows.{Accounts, get_account, update_account}
use tg_auto_msg.Account.Reauth.{is_reauth_required_account}
use tg_auto_msg.Account.Observation.{is_proxy_observation_active, proxy_observation_has_send_budget}
use tg_auto_msg.Circuit.{Probe, HealthStatus, health_check, status_value, Breaker}
use tg_auto_msg.Licensing.Rows.{LicenseDb}
use tg_auto_msg.Licensing.Permission.{
  AccountAuthorizationSummary, get_account_authorization_summary,
  disable_tasks_for_account_if_unlicensed,
}
use tg_auto_msg.Scheduler.Targets.{Target, collect_task_targets}
use tg_auto_msg.Scheduler.Lifecycle.{Store, account_of, has_account, handle_task_failure}
use tg_auto_msg.Scheduler.Runner.{
  Status, TaskExecutionSummary, build_summary, with_next_run, handle_no_targets,
  defer_task_until_observation_end, check_schedule_constraints, lock_and_recheck_observation_budget,
}
use tg_auto_msg.Scheduler.Runner.Send.{World, Outside, breaker_of, with_breaker}
use tg_auto_msg.Scheduler.Runner.Finish.{Run, send_phase}
use tg_auto_msg.Scheduler.Runner.Session.{
  Session, Validated, ValidationResult, account_display_name, account_health_value, after_licences,
  is_account_unavailable, is_recoverable_developer_app_outage_account, licence_rows,
  mark_account_reauth_required, non_blank_or, on_store, over, raised, reauth_required_now, task_in,
  valid,
}

-- A summary of no targets.
abbrev skipped_summary : TriggerSource → String → Option String → Session → TaskExecutionSummary
skipped_summary source reason display s =
    build_summary (task_in s) source Status.skipped 0 0 0 (some reason) display [] []

abbrev put_off : Bool → ℕ → Session → Session
put_off advance now s =
    if advance
    then on_store (with_next_run (some (now + max 1 (task_in s).repeat_interval_min * 60))) s
    else s

-- The readings of the clock, and how the run was called.
pub record Call : Type 0 where
  pub now : ℕ
  pub wall : ℕ
  pub max_failures : ℕ
  pub advance : Bool
  pub source : TriggerSource

module _ (client : String → Bool) (c : Call) where
  -- `_resolve_client` and `_handle_client_failure`
  abbrev pub resolve_client : Session → String
  resolve_client s = if has_account (task_in s) then account_of (task_in s) else "default"

  abbrev pub handle_client_failure : ℕ → Session → TaskExecutionSummary × Session
  handle_client_failure count s =
      let after =
        on_store
          (handle_task_failure "无法获取账号客户端" c.max_failures c.wall c.source c.advance c.advance) s in
      (
        build_summary (task_in after) c.source Status.failed count 0 count (some "无法获取账号客户端") none
            [] [],
        after,
      )

  abbrev ending : TaskExecutionSummary × Session → Validated × Session
  ending (summary, s) = (over summary, s)

  abbrev no_targets : TaskExecutionSummary × Store → Session → Validated × Session
  no_targets (summary, store) s =
      (over summary, record s { world = record s.world { store = store } })

  abbrev is_watched : Option Account → Bool
  is_watched none = false
  is_watched (some a) = is_proxy_observation_active a c.wall

  abbrev pub specs_for : Option Account → Session → List Target
  specs_for account s =
      if is_watched account
      then take 1 (collect_task_targets (task_in s))
      else collect_task_targets (task_in s)

  abbrev pub resolved : Option Account → String → Session → Validated × Session
  resolved account display s =
      if is_empty (specs_for account s)
      then no_targets
          (handle_no_targets c.now c.wall c.max_failures c.advance c.source s.world.store) s
      else if not (client (resolve_client s))
      then ending (handle_client_failure (length (specs_for account s)) s)
      else (
        valid (record {
          account_display = display;
          target_specs = specs_for account s;
          account_id_str = resolve_client s;
        }),
        s,
      )

  abbrev is_later : Option ℕ → Bool
  is_later none = false
  is_later (some at) = ltb 0 at && ltb c.now at

  abbrev first_run : Session → Option ℕ
  first_run s =
      let start = or_else (task_in s).start_at 0 in
      some (if ltb 0 start then max c.now start else c.now)

  abbrev pub with_first_run : Session → Session
  with_first_run s =
      if c.advance && not (is_some (task_in s).next_run_at)
      then on_store (with_next_run (first_run s)) s
      else s

  abbrev pub is_early : Session → Bool
  is_early s = c.advance && is_later (task_in s).next_run_at

  abbrev pub scheduled : Option Account → String → Session → Validated × Session
  scheduled account display s =
      let after = with_first_run s in
      if is_early after
      then (over (skipped_summary c.source "任务尚未到执行时间" none after), after)
      else resolved account display after

-- The checks of the account, in their order.
module _ (client : String → Bool) (c : Call) (probe : Probe) where
  -- `_try_recover_developer_app_outage_account`: the account after a health check that it passes.
  abbrev refreshed : Account → HealthStatus × Breaker → Option Account
  refreshed a (status, b) =
      if str_eq (status_value status) "online"
      then some (or_else (get_account (strip a.account_id) b.accounts) a)
      else some a

  abbrev pub try_recover : Account → Session → Option Account × Session
  try_recover a s =
      if not (is_recoverable_developer_app_outage_account a) || is_blank (strip a.account_id)
      then (some a, s)
      else (
        refreshed a (health_check probe (strip a.account_id) (breaker_of s.world)),
        record s {
          world =
              with_breaker s.world (health_check probe (strip a.account_id) (breaker_of s.world)).1;
        },
      )

  abbrev pub is_exhausted : Account → Bool
  is_exhausted a =
      is_proxy_observation_active a c.wall && not (proxy_observation_has_send_budget a c.wall)

  abbrev pub available : Option Account → String → Session → Validated × Session
  available none display s = scheduled client c none display s
  available (some a) display s =
      if is_account_unavailable a
      then (
        over (
            skipped_summary c.source "当前执行账号离线，已暂缓任务发送" (some display) (put_off c.advance c.now s)),
        put_off c.advance c.now s,
      )
      else if is_exhausted a
      then (let after =
            if c.advance then on_store (defer_task_until_observation_end c.now a) s else s in
          (
            over (skipped_summary c.source "账号正在代理观察期内，已达到 24 小时观察期发送上限" (some display) after),
            after,
          ))
      else scheduled client c (some a) display s

  abbrev pub with_account : Option Account → Session → Validated × Session
  with_account none s = available none (account_display_name none (task_in s).account_id) s
  with_account (some a) s =
      if is_reauth_required_account a
      then (let marked =
            on_store
              (λ (t : Store). record t {
                accounts =
                    mark_account_reauth_required (account_of t.task)
                      (non_blank_or (or_else a.reauth_reason "") "session_unauthorized") c.wall
                      t.accounts;
              })
              s in
          let after = put_off c.advance c.now marked in
          (
            over (
                skipped_summary c.source "当前执行账号需要重新绑定后才能发送，相关任务已暂缓"
                  (some (account_display_name (some a) (task_in s).account_id)) after),
            after,
          ))
      else (let (account, checked) = try_recover a s in
          available account (account_display_name account (task_in s).account_id) checked)

  module _ (uuid : ℕ → String) where
    abbrev unlicensed : ℕ × LicenseDb → Session → Validated × Session
    unlicensed (disabled_count, db) s = (
      raised (record {
        status_code = 400;
        detail = "当前执行账号已无有效授权，已停用该账号下任务 " ++ (show_ℕ disabled_count ++ " 条");
      }),
      after_licences db s,
    )

    abbrev pub authorized : AccountAuthorizationSummary × LicenseDb → Session → Validated × Session
    authorized (summary, db) s =
        let seen = after_licences db s in
        if not summary.can_create_tasks
        then unlicensed
            (disable_tasks_for_account_if_unlicensed uuid (account_of (task_in s)) c.wall db) s
        else with_account (get_account (account_of (task_in s)) seen.world.store.accounts) seen

    -- `_validate_and_resolve` of a task that is there.
    unfoldable pub validate_and_resolve : Session → Validated × Session
    validate_and_resolve s =
        if not (task_in s).enabled
        then (raised (record { status_code = 400; detail = "任务已禁用，无法执行" }), s)
        else if has_account (task_in s)
        then authorized
            (get_account_authorization_summary uuid (account_of (task_in s)) c.wall
              (licence_rows s))
            s
        else available none (account_display_name none (task_in s).account_id) s
