-- ===== src/Agents/Escalation.antt =====
-- Who may make a master agent, and who may set a master's limit.
use tg_auto_msg.Prelude.{
  ℕ, ◌≡◌, refl, inl, inr, Bool, true, false, ◌&&◌, not, Option, String, is_empty, Bool-cases, arith,
}
use tg_auto_msg.Prelude.Text.{str_eq}
use tg_auto_msg.Http.{refuse}
use tg_auto_msg.Agents.Rows.{AdminAccount, AgentDb}
use tg_auto_msg.Agents.Rbac.{is_master_agent, is_sub_agent, lowered, codes_of, has_permission}
use tg_auto_msg.Agents.Hierarchy.{AgentForm, create_master_agent}
use tg_auto_msg.Agents.Settings.{set_master_credit_limit, set_credit_whitelist}

-- The account lives on the default permissions, and is not the super administrator.
abbrev pub is_default : AdminAccount → Bool
is_default a =
    is_empty (codes_of a.role_bindings) && not (str_eq (lowered a.role_code) "super_admin")

default_refused :
    (a : AdminAccount)
    → is_default a ≡ true
    → (has_permission a "agents.master.create" ≡ false)
      × (has_permission a "agents.credit.master.write" ≡ false)
default_refused a h =
    let bare : is_empty (codes_of a.role_bindings) ≡ true = ground arith in
    let plain : str_eq (lowered a.role_code) "super_admin" ≡ false = ground arith in
    elim (Bool-cases (is_master_agent a)) [
      | inl master ↦ (rw (bare, plain, master) refl, rw (bare, plain, master) refl)
      | inr not_master ↦ elim (Bool-cases (is_sub_agent a)) [
        | inl sub ↦ (rw (bare, plain, not_master, sub) refl, rw (bare, plain, not_master, sub) refl)
        | inr neither ↦
            (rw (bare, plain, not_master, neither) refl, rw (bare, plain, not_master, neither) refl)
      ]
    ]

-- An account with no permission of an active role, which is not a super administrator by its role
-- code, whatever kind of agent or staff it is: it makes no master agent, sets no master's limit and
-- puts no account on the whitelist. It is refused with 403 before anything is read or written.
pub agents-escalate_nothing :
    (hash : String → String) (a : AdminAccount) (f : AgentForm) (n k : ℕ) (on : Bool)
    (listed : Option Bool) (db : AgentDb)
    → is_default a ≡ true
    → (create_master_agent hash a f n on db ≡ refuse 403 "只有超管可以创建总代")
      × (set_master_credit_limit a k n listed db ≡ refuse 403 "只有超管可以配置总代总额度")
      × (set_credit_whitelist a k on db ≡ refuse 403 "只有超管可以设置授信白名单")
agents-escalate_nothing hash a f n k on listed db h =
    let (make, write) = default_refused a h in (rw make refl, rw write refl, rw write refl)
