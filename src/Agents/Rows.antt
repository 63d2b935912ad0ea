-- ===== src/Agents/Rows.antt =====
-- The rows of the agents' accounts, their credit and their ledger (AdminAccount, AgentCreditLimit,
-- CardBatch, AgentFundLedger of backend/database/schema/models.py), and the queries on them.
--
-- Money is counted in cents, by natural numbers: the routers ask for limits of at least 0
-- (backend/h5_backend/routers/admin_panel.py), and what the services take off is guarded.
use tg_auto_msg.Prelude.{
  ℕ, Bool, true, false, ◌&&◌, not, Option, none, some, List, String, ◌==◌, find, update_where,
}
use tg_auto_msg.Licensing.Rows.{PricingPlan, ActivationCard}

-- A role that is bound to an account, with its permissions' codes.
pub record AdminRole : Type 0 where
  pub role_key : String
  pub status : String
  pub permission_codes : List String

-- `role_bindings` is what the session has loaded of them.
pub record AdminAccount : Type 0 where
  pub id : ℕ
  pub username : String
  pub password_hash : String
  pub role_code : String
  pub account_type : String
  pub business_identity : Option String
  pub province_code : String
  pub parent_account_id : Option ℕ
  pub root_master_account_id : Option ℕ
  pub level_depth : ℕ
  pub status : String
  pub settlement_mode : String
  pub is_credit_whitelisted : Bool
  pub credit_limit_cents : ℕ
  pub allocated_credit_limit_cents : ℕ
  pub credit_used_cents : ℕ
  pub credit_prepay_cents : ℕ
  pub balance_cents : ℕ
  pub force_password_change : Bool
  pub display_name : String
  pub contact_name : Option String
  pub contact_phone : Option String
  pub created_by : Option ℕ
  pub role_bindings : List AdminRole

pub record AgentCreditLimit : Type 0 where
  pub parent_account_id : ℕ
  pub child_account_id : ℕ
  pub delegated_credit_limit_cents : ℕ
  pub delegated_credit_used_cents : ℕ
  pub is_active : Bool
  pub last_adjusted_by : Option ℕ

pub data SettlementStatus : Type 0 where
  pending settled : SettlementStatus

pub data PaymentStatus : Type 0 where
  unpaid paid credit : PaymentStatus

pub record CardBatch : Type 0 where
  pub batch_id : String
  pub province_code : String
  pub creator_account_id : ℕ
  pub owner_account_id : ℕ
  pub direct_parent_account_id : Option ℕ
  pub root_master_account_id : Option ℕ
  pub current_liability_account_id : Option ℕ
  pub current_counterparty_account_id : Option ℕ
  pub plan_code : String
  pub quantity : ℕ
  pub duration_days : ℕ
  pub unit_price_cents : ℕ
  pub total_amount_cents : ℕ
  pub settlement_status : SettlementStatus
  pub payment_status : PaymentStatus
  pub remark : Option String
  pub created_at : ℕ

pub data LedgerScope : Type 0 where
  platform channel : LedgerScope

pub data BizType : Type 0 where
  credit_generate consume_balance credit_settlement recharge : BizType

pub data Direction : Type 0 where
  incoming outgoing : Direction

pub record AgentFundLedger : Type 0 where
  pub ledger_scope : LedgerScope
  pub account_id : ℕ
  pub counterparty_account_id : Option ℕ
  pub biz_type : BizType
  pub direction : Direction
  pub amount_cents : ℕ
  pub balance_after_cents : ℕ
  pub credit_used_after_cents : ℕ
  pub related_batch_id : Option String
  pub related_request_id : Option String
  pub operator_account_id : Option ℕ
  pub remark : Option String

pub record AdminAuditLog : Type 0 where
  pub actor : String
  pub action : String
  pub target_type : Option String
  pub target_id : Option String

-- The tables of a session. `ids` counts the texts that were drawn, the n-th one is `uuid n`, and
-- `draws` the codes that the random source gave;
-- the next account and the next card have the numbers `next_account` and `next_card`.
pub record AgentDb : Type 0 where
  pub accounts : List AdminAccount
  pub limits : List AgentCreditLimit
  pub batches : List CardBatch
  pub ledgers : List AgentFundLedger
  pub audits : List AdminAuditLog
  pub plans : List PricingPlan
  pub cards : List ActivationCard
  pub ids : ℕ
  pub draws : ℕ
  pub next_account : ℕ
  pub next_card : ℕ
  pub roles : List AdminRole

abbrev pub has_id : ℕ → AdminAccount → Bool
has_id k a = a.id == k

-- `session.get(AdminAccount, k)`
abbrev pub admin_of : List AdminAccount → ℕ → Option AdminAccount
admin_of accounts k = find (has_id k) accounts

-- What the row says, and `d` where there is none.
abbrev pub field {ℓ} : {B : Type ℓ} → (AdminAccount → B) → B → Option AdminAccount → B
field g d none = d
field g d (some a) = g a

-- A change of the one row of this id: every holder of the row in the session sees it.
abbrev pub with_admin : ℕ → (AdminAccount → AdminAccount) → AgentDb → AgentDb
with_admin k f db = record db { accounts = update_where (has_id k) f db.accounts }

abbrev pub is_between : ℕ → ℕ → AgentCreditLimit → Bool
is_between parent child r = (r.parent_account_id == parent) && (r.child_account_id == child)

-- The credit that the parent gives to the child.
abbrev pub limit_of : List AgentCreditLimit → ℕ → ℕ → Option AgentCreditLimit
limit_of limits parent child = find (is_between parent child) limits

abbrev pub with_limit : ℕ → ℕ → (AgentCreditLimit → AgentCreditLimit) → AgentDb → AgentDb
with_limit parent child f db = record db {
  limits = update_where (is_between parent child) f db.limits;
}

abbrev pub is_credit : PaymentStatus → Bool
is_credit unpaid = false
is_credit paid = false
is_credit credit = true

abbrev pub is_settled : SettlementStatus → Bool
is_settled pending = false
is_settled settled = true

-- The batch stands on credit and is not settled.
abbrev pub is_pending : CardBatch → Bool
is_pending b = is_credit b.payment_status && not (is_settled b.settlement_status)
