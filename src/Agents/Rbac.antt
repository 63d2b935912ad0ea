-- ===== src/Agents/Rbac.antt =====
-- Roles and permissions of the panel's accounts (backend/h5_backend/services/admin_rbac/service.py),
-- and what the other services ask of an account (admin_panel/shared_helpers.py).
use tg_auto_msg.Prelude.{
  Bool, false, ◌||◌, not, Option, none, some, List, [], ◌∷◌, ◌++◌, String, if◌then◌else◌, or_else,
  any, is_empty,
}
use tg_auto_msg.Prelude.Text.{str_eq, strip, lower}
use tg_auto_msg.Agents.Rows.{AdminRole, AdminAccount}

abbrev permission_definitions : List String
permission_definitions =
    "dashboard.read" ∷ "system.stats.read" ∷ "security.read" ∷ "security.update" ∷ "agents.read"
    ∷ "agents.write" ∷ "agents.master.create" ∷ "agents.credit.master.write" ∷ "agents.child.create"
    ∷ "pricing.read" ∷ "pricing.write" ∷ "ledgers.read" ∷ "ledgers.scope.read"
    ∷ "operation_logs.read" ∷ "operation_logs.scope.read" ∷ "batches.read" ∷ "batches.generate"
    ∷ "batches.export" ∷ "batches.copy" ∷ "audit.system.read" ∷ "system.settings.read"
    ∷ "system.settings.update" ∷ "developer_apps.read" ∷ "developer_apps.write"
    ∷ "developer_apps.check" ∷ "system_proxies.read" ∷ "system_proxies.write"
    ∷ "system_proxies.check" ∷ "system_proxies.assign" ∷ "legacy_cards.read" ∷ "legacy_cards.write"
    ∷ "legacy_cards.export" ∷ "users.read" ∷ "users.write" ∷ "users.reset_password"
    ∷ "admin_accounts.read" ∷ "admin_accounts.write" ∷ "admin_accounts.reset_password"
    ∷ "rbac.roles.read" ∷ "rbac.roles.write" ∷ "rbac.permissions.read" ∷ []

abbrev master_agent_permissions : List String
master_agent_permissions =
    "dashboard.read" ∷ "security.read" ∷ "security.update" ∷ "agents.read" ∷ "agents.write"
    ∷ "agents.child.create" ∷ "pricing.read" ∷ "ledgers.read" ∷ "ledgers.scope.read"
    ∷ "operation_logs.read" ∷ "operation_logs.scope.read" ∷ "batches.read" ∷ "batches.generate"
    ∷ "batches.export" ∷ "batches.copy" ∷ []

abbrev sub_agent_permissions : List String
sub_agent_permissions =
    "dashboard.read" ∷ "security.read" ∷ "security.update" ∷ "agents.read" ∷ "agents.write"
    ∷ "agents.child.create" ∷ "pricing.read" ∷ "ledgers.read" ∷ "operation_logs.read"
    ∷ "operation_logs.scope.read" ∷ "batches.read" ∷ "batches.generate" ∷ "batches.export"
    ∷ "batches.copy" ∷ []

-- `ROLE_DEFAULT_PERMISSION_CODES.get(role_key, [])`
abbrev role_default_permission_codes : String → List String
role_default_permission_codes key =
    if str_eq key "super_admin"
    then permission_definitions
    else if str_eq key "master_agent"
    then master_agent_permissions
    else if str_eq key "sub_agent"
    then sub_agent_permissions
    else []

-- `str(value or "").strip().lower()`
unfoldable pub lowered : String → String
unfolding strip lower
lowered s = lower (strip s)

abbrev is_agent_role : String → Bool
is_agent_role s = str_eq s "master_agent" || str_eq s "sub_agent"

-- `_account_type(account) == "agent"`
abbrev pub is_agent : AdminAccount → Bool
is_agent a =
    let value = lowered a.account_type in
    if str_eq value "staff" || str_eq value "agent"
    then str_eq value "agent"
    else is_agent_role (lowered a.role_code)

abbrev pub is_staff : AdminAccount → Bool
is_staff a = not (is_agent a)

-- `_business_identity`, and `_resolve_business_identity` of the roles' service.
abbrev pub identity_of : AdminAccount → Option String
identity_of a =
    let value = lowered (or_else a.business_identity "") in
    let role = lowered a.role_code in
    if is_agent_role value then some value else if is_agent_role role then some role else none

abbrev is_named : Option String → String → Bool
is_named none key = false
is_named (some s) key = str_eq s key

abbrev pub is_master_agent : AdminAccount → Bool
is_master_agent a = is_named (identity_of a) "master_agent"

abbrev pub is_sub_agent : AdminAccount → Bool
is_sub_agent a = is_named (identity_of a) "sub_agent"

abbrev default_role_keys_for_account : AdminAccount → List String
default_role_keys_for_account a =
    (if str_eq (lowered a.role_code) "super_admin" then "super_admin" ∷ [] else [])
    ++ (if is_master_agent a
        then "master_agent" ∷ []
        else if is_sub_agent a
        then "sub_agent" ∷ []
        else [])

abbrev pub codes_of : List AdminRole → List String
codes_of [] = []
codes_of (r ∷ rs) =
    if str_eq r.status "active" then r.permission_codes ++ codes_of rs else codes_of rs

abbrev defaults_of : List String → List String
defaults_of [] = []
defaults_of (key ∷ keys) = role_default_permission_codes key ++ defaults_of keys

-- The codes as a set: their order is left out.
abbrev pub get_permission_codes_for_account : AdminAccount → List String
get_permission_codes_for_account a =
    let bound = codes_of a.role_bindings in
    if is_empty bound then defaults_of (default_role_keys_for_account a) else bound

abbrev pub lists : String → List String → Bool
lists code = any (λ c. str_eq c code)

-- `has_permission(account, code)`: every call asks for one code.
abbrev pub has_permission : AdminAccount → String → Bool
has_permission a code = lists code (get_permission_codes_for_account a)
