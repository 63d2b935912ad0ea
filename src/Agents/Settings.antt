-- ===== src/Agents/Settings.antt =====
-- What is set on an agent: its limit, its place on the whitelist and its mode of settlement
-- (backend/h5_backend/services/admin_panel/agent_service.py).
use tg_auto_msg.Prelude.{
  ℕ, Bool, false, ◌&&◌, ◌||◌, not, Option, none, some, String, ltb, ◌==◌, or_else,
}
use tg_auto_msg.Prelude.Text.{str_eq, show_ℕ}
use tg_auto_msg.Http.{Result, ok, ◌>>=◌, refuse_if}
use tg_auto_msg.Agents.Rows.{AdminAccount, AgentDb, with_admin}
use tg_auto_msg.Agents.Rbac.{is_agent, is_staff, is_master_agent, has_permission}
use tg_auto_msg.Agents.Visibility.{ensure_visible_account, append_audit}

abbrev pub give_limit : ℕ → Option Bool → AdminAccount → AdminAccount
give_limit limit whitelisted a = record a {
  credit_limit_cents = limit;
  is_credit_whitelisted = or_else whitelisted a.is_credit_whitelisted;
}

-- `set_master_credit_limit`
abbrev pub set_master_credit_limit : AdminAccount → ℕ → ℕ → Option Bool → AgentDb → Result AgentDb
set_master_credit_limit admin target_id limit whitelisted db =
    refuse_if (not (has_permission admin "agents.credit.master.write")) 403 "只有超管可以配置总代总额度" (
      ensure_visible_account db.accounts admin target_id >>= λ target.
      refuse_if (not (is_master_agent target)) 400 "只能为总代设置总额度" (
        refuse_if (ltb limit target.allocated_credit_limit_cents) 400 "总代已分配给下级的额度超过目标总额度" (
          ok (
            append_audit admin "admin.set_master_credit_limit" "admin_account" (show_ℕ target.id)
              (with_admin target.id (give_limit limit whitelisted) db)))))

abbrev pub whitelist : Bool → AdminAccount → AdminAccount
whitelist on a = record a { is_credit_whitelisted = on }

-- `set_credit_whitelist`
abbrev pub set_credit_whitelist : AdminAccount → ℕ → Bool → AgentDb → Result AgentDb
set_credit_whitelist admin target_id on db =
    refuse_if (not (has_permission admin "agents.credit.master.write")) 403 "只有超管可以设置授信白名单" (
      ensure_visible_account db.accounts admin target_id >>= λ target. ok (
        append_audit admin "admin.set_credit_whitelist" "admin_account" (show_ℕ target.id)
          (with_admin target.id (whitelist on) db)))

abbrev is_mode : String → Bool
is_mode mode = str_eq mode "prepaid" || str_eq mode "credit" || str_eq mode "hybrid"

abbrev is_id : ℕ → Option ℕ → Bool
is_id k none = false
is_id k (some x) = x == k

abbrev pub settle_by : String → AdminAccount → AdminAccount
settle_by mode a = record a { settlement_mode = mode }

-- `set_settlement_mode`
abbrev pub set_settlement_mode : AdminAccount → ℕ → String → AgentDb → Result AgentDb
set_settlement_mode admin target_id mode db = refuse_if (not (is_mode mode)) 400 "不支持的结算模式" (
    ensure_visible_account db.accounts admin target_id >>= λ target.
    refuse_if (not (is_agent target)) 400 "只能调整代理账号的结算模式" (
      refuse_if ((target.id == admin.id) && not (is_staff admin)) 400 "不能修改自己的结算模式" (
        refuse_if
          (not (is_staff admin)
            && not (
                is_id admin.id target.parent_account_id
                || is_master_agent admin && is_id admin.id target.root_master_account_id))
          403 "只能修改直系下级或总代链路内下级的结算模式"
          (ok (
            append_audit admin "agent.set_settlement_mode" "admin_account" (show_ℕ target.id)
              (with_admin target.id (settle_by mode) db))))))
