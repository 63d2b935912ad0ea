-- ===== src/Agents/Hierarchy.antt =====
-- The agents' hierarchy: masters, their children, and what is set on them
-- (backend/h5_backend/services/admin_panel/agent_service.py).
use tg_auto_msg.Prelude.{
  ℕ, suc, ◌+◌, Bool, true, false, ◌&&◌, ◌||◌, not, Option, none, some, List, [], ◌∷◌, ◌++◌, String,
  if◌then◌else◌, ltb, or_else, any, find,
}
use tg_auto_msg.Prelude.Text.{str_eq, str_len, strip, is_blank, show_ℕ}
use tg_auto_msg.Http.{Result, ok, ◌>>=◌, found_or, refuse_if}
use tg_auto_msg.Agents.Rows.{
  AdminRole, AdminAccount, AgentCreditLimit, AgentDb, admin_of, with_admin,
}
use tg_auto_msg.Agents.Rbac.{is_agent, is_master_agent, is_sub_agent, has_permission}
use tg_auto_msg.Agents.Visibility.{append_audit}
use tg_auto_msg.Agents.Quote.{root_of}

-- What a form says of a new agent.
pub record AgentForm : Type 0 where
  pub username : String
  pub password : String
  pub display_name : String
  pub contact_name : Option String
  pub contact_phone : Option String

unfoldable pub trimmed : String → String
unfolding strip
trimmed s = strip s

-- `(value or "").strip() or None`
abbrev pub or_none : Option String → Option String
or_none none = none
or_none (some s) = if is_blank (trimmed s) then none else some (trimmed s)

-- `(display_name or "").strip() or username`
abbrev pub shown : AgentForm → String
shown f = if is_blank (trimmed f.display_name) then trimmed f.username else trimmed f.display_name

abbrev pub has_username : String → AdminAccount → Bool
has_username name a = str_eq a.username name

abbrev pub is_active_master : String → AdminAccount → Bool
is_active_master province a =
    str_eq a.account_type "agent"
    && str_eq (or_else a.business_identity "") "master_agent"
    && str_eq a.province_code province
    && str_eq a.status "active"

-- The roles with this key, of which the first is bound.
abbrev pub bound_role : String → List AdminRole → List AdminRole
bound_role key roles = elim (find (λ (r : AdminRole). str_eq r.role_key key) roles) [
  | none ↦ []
  | some r ↦ r ∷ []
]

-- `(settlement_mode or "prepaid").strip() or "prepaid"`
abbrev pub mode_of : String → String
mode_of mode = if is_blank (trimmed mode) then "prepaid" else trimmed mode

abbrev pub new_limit : AdminAccount → ℕ → ℕ → AgentCreditLimit
new_limit parent child limit = record {
  parent_account_id = parent.id;
  child_account_id = child;
  delegated_credit_limit_cents = limit;
  delegated_credit_used_cents = 0;
  is_active = true;
  last_adjusted_by = some parent.id;
}

abbrev pub allocate : ℕ → AdminAccount → AdminAccount
allocate limit a = record a {
  allocated_credit_limit_cents = a.allocated_credit_limit_cents + limit;
}

module _ (hash : String → String) where
  abbrev pub new_master : ℕ → AdminAccount → AgentForm → ℕ → Bool → List AdminRole → AdminAccount
  new_master id admin f limit whitelisted roles = record {
    id = id;
    username = trimmed f.username;
    password_hash = hash f.password;
    role_code = "master_agent";
    account_type = "agent";
    business_identity = some "master_agent";
    province_code = admin.province_code;
    parent_account_id = none;
    root_master_account_id = some id;
    level_depth = 0;
    status = "active";
    settlement_mode = "prepaid";
    is_credit_whitelisted = whitelisted;
    credit_limit_cents = limit;
    allocated_credit_limit_cents = 0;
    credit_used_cents = 0;
    credit_prepay_cents = 0;
    balance_cents = 0;
    force_password_change = true;
    display_name = shown f;
    contact_name = or_none f.contact_name;
    contact_phone = or_none f.contact_phone;
    created_by = some admin.id;
    role_bindings = bound_role "master_agent" roles;
  }

  -- `create_master_agent`
  abbrev pub create_master_agent :
      AdminAccount → AgentForm → ℕ → Bool → AgentDb → Result (AdminAccount × AgentDb)
  create_master_agent admin f limit whitelisted db =
      let account = new_master db.next_account admin f limit whitelisted db.roles in
      refuse_if (not (has_permission admin "agents.master.create")) 403 "只有超管可以创建总代" (
        refuse_if (ltb (str_len f.password) 6) 400 "密码至少 6 位" (
          refuse_if (any (is_active_master admin.province_code) db.accounts) 409 "当前省份已存在总代账号" (
            refuse_if (any (has_username (trimmed f.username)) db.accounts) 409 "后台用户名已存在" (
              ok (
                account,
                append_audit admin "admin.create_master_agent" "admin_account" (show_ℕ account.id)
                    (record db {
                      accounts = db.accounts ++ (account ∷ []);
                      next_account = suc db.next_account;
                    }),
              )))))

  abbrev pub new_child : ℕ → AdminAccount → AgentForm → String → ℕ → List AdminRole → AdminAccount
  new_child id parent f mode limit roles = record {
    id = id;
    username = trimmed f.username;
    password_hash = hash f.password;
    role_code = "sub_agent";
    account_type = "agent";
    business_identity = some "sub_agent";
    province_code = parent.province_code;
    parent_account_id = some parent.id;
    root_master_account_id = some (root_of parent);
    level_depth = parent.level_depth + 1;
    status = "active";
    settlement_mode = mode_of mode;
    is_credit_whitelisted = false;
    credit_limit_cents = limit;
    allocated_credit_limit_cents = 0;
    credit_used_cents = 0;
    credit_prepay_cents = 0;
    balance_cents = 0;
    force_password_change = true;
    display_name = shown f;
    contact_name = or_none f.contact_name;
    contact_phone = or_none f.contact_phone;
    created_by = some parent.id;
    role_bindings = bound_role "sub_agent" roles;
  }

  -- `create_child_agent`; a refusal rolls the new rows back.
  abbrev pub create_child_agent :
      AdminAccount → AgentForm → String → ℕ → AgentDb → Result (AdminAccount × AgentDb)
  create_child_agent admin f mode limit db =
      refuse_if (not (is_agent admin) || not (is_master_agent admin || is_sub_agent admin)) 403
        "当前角色不能创建下级代理"
        (found_or 500 "Internal Server Error" (admin_of db.accounts admin.id) >>= λ parent.
          refuse_if (any (has_username (trimmed f.username)) db.accounts) 409 "后台用户名已存在" (
            let child = new_child db.next_account parent f mode limit db.roles in
            refuse_if (ltb parent.credit_limit_cents (parent.allocated_credit_limit_cents + limit))
              400 "分配给下级的额度超过上级可分配额度"
              (ok (
                child,
                append_audit admin "agent.create_child_account" "admin_account" (show_ℕ child.id) (
                    with_admin parent.id (allocate limit) (record db {
                      accounts = db.accounts ++ (child ∷ []);
                      limits = db.limits ++ (new_limit parent child.id limit ∷ []);
                      next_account = suc db.next_account;
                    })),
              ))))
