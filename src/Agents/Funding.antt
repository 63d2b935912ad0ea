-- ===== src/Agents/Funding.antt =====
-- What pays for a batch of cards, and the rows of the batch and its cards
-- (backend/h5_backend/services/admin_panel/batch_service.py).
use Prim.Native.String.{◌++◌ as str_append}
use tg_auto_msg.Prelude.{
  ℕ, suc, ◌-◌, true, false, Option, none, some, List, [], ◌∷◌, String, if◌then◌else◌, ltb,
}
use tg_auto_msg.Prelude.Int.{ℤ, pos, pos_part}
use tg_auto_msg.Prelude.Text.{str_eq, is_blank}
use tg_auto_msg.Http.{Result, ok, ◌>>=◌, refuse_if}
use tg_auto_msg.Licensing.Rows.{ActivationCard}
use tg_auto_msg.Agents.Rows.{
  AdminAccount, CardBatch, AgentFundLedger, AgentDb, LedgerScope, BizType, Direction,
  SettlementStatus, PaymentStatus, with_admin, is_credit,
}
use tg_auto_msg.Agents.Rbac.{is_staff}
use tg_auto_msg.Agents.Credit.{
  Link, used_of, balance_of, add_ledger, ensure_credit_mode_allowed, validate_credit_generation,
  apply_credit_generation,
}
use tg_auto_msg.Agents.Quote.{Quote, prepare_batch_quote}

abbrev pub take_balance : ℕ → AdminAccount → AdminAccount
take_balance amount a = record a { balance_cents = a.balance_cents - amount }

-- `_apply_balance_generation`
abbrev pub apply_balance_generation : AdminAccount → ℕ → AgentDb → Result AgentDb
apply_balance_generation operator amount db =
    refuse_if (ltb operator.balance_cents amount) 400 "余额不足，无法生成卡密"
      (ok (with_admin operator.id (take_balance amount) db))

-- What pays for a batch: the platform for its staff, credit along the chain, or the balance.
pub data Funding : Type 0 where
  by_platform by_balance : Funding
  by_credit : List Link → Funding

abbrev pub payment_of : Funding → PaymentStatus
payment_of by_platform = PaymentStatus.paid
payment_of by_balance = PaymentStatus.paid
payment_of (by_credit chain) = PaymentStatus.credit

abbrev pub settlement_of : Funding → SettlementStatus
settlement_of by_platform = SettlementStatus.settled
settlement_of by_balance = SettlementStatus.settled
settlement_of (by_credit chain) = SettlementStatus.pending

abbrev pub source_of : Funding → String
source_of by_platform = "platform"
source_of by_balance = "balance"
source_of (by_credit chain) = "credit"

-- The checks and the payment before the batch is written.
abbrev pub fund :
    AdminAccount → AdminAccount → String → Quote → AgentDb → Result (Funding × AgentDb)
fund current_admin operator funding q db =
    if is_staff current_admin
    then ok (by_platform, db)
    else if str_eq funding "credit"
    then (ensure_credit_mode_allowed operator >>= λ _.
        validate_credit_generation db operator q.root_master q.total_amount_cents >>= λ chain.
        ok (by_credit chain, db))
    else (apply_balance_generation operator q.total_amount_cents db >>= λ after.
        ok (by_balance, after))

abbrev pub new_batch : String → AdminAccount → Quote → Funding → String → ℕ → CardBatch
new_batch id operator q f province now = record {
  batch_id = id;
  province_code = if is_blank operator.province_code then province else operator.province_code;
  creator_account_id = operator.id;
  owner_account_id = operator.id;
  direct_parent_account_id = q.direct_parent_account_id;
  root_master_account_id = some q.root_master.id;
  current_liability_account_id = if is_credit (payment_of f) then some operator.id else none;
  current_counterparty_account_id =
      if is_credit (payment_of f) then q.direct_parent_account_id else none;
  plan_code = q.plan.plan_code;
  quantity = q.quantity;
  duration_days = pos_part q.plan.duration_days;
  unit_price_cents = q.unit_price_cents;
  total_amount_cents = q.total_amount_cents;
  settlement_status = settlement_of f;
  payment_status = payment_of f;
  remark = some (str_append "funding_source=" (source_of f));
  created_at = now;
}

abbrev pub new_card : CardBatch → Quote → Funding → ℕ → String → ℕ → ActivationCard
new_card b q f id code now = record {
  id = id;
  card_code = code;
  plan_code = some b.plan_code;
  duration_days = some (pos b.duration_days);
  is_active = true;
  is_used = false;
  expires_at = q.expires_at;
  used_by_user_id = none;
  used_at = none;
  created_at = some now;
  batch_id = some b.batch_id;
  creator_account_id = some b.creator_account_id;
  owner_account_id = some b.owner_account_id;
  direct_parent_account_id = b.direct_parent_account_id;
  root_master_account_id = b.root_master_account_id;
  settlement_unit_price_cents = some b.unit_price_cents;
  card_source_type = source_of f;
  copy_status = "new";
}

abbrev pub cards_for : CardBatch → Quote → Funding → ℕ → ℕ → List String → List ActivationCard
cards_for b q f id now [] = []
cards_for b q f id now (c ∷ cs) = new_card b q f id c now ∷ cards_for b q f (suc id) now cs

-- The ledger's entries that follow the batch.
abbrev pub consume_ledger : AdminAccount → ℕ → String → AgentDb → AgentFundLedger
consume_ledger operator amount batch_id db = record {
  ledger_scope = elim operator.parent_account_id [
    | none ↦ LedgerScope.platform
    | some p ↦ LedgerScope.channel
  ];
  account_id = operator.id;
  counterparty_account_id = operator.parent_account_id;
  biz_type = BizType.consume_balance;
  direction = Direction.outgoing;
  amount_cents = amount;
  balance_after_cents = balance_of db.accounts operator.id;
  credit_used_after_cents = used_of db.accounts operator.id;
  related_batch_id = some batch_id;
  related_request_id = none;
  operator_account_id = some operator.id;
  remark = some "余额生成卡密批次，直接扣减已确认余额";
}

abbrev pub charge : AdminAccount → Quote → String → Funding → AgentDb → AgentDb
charge operator q batch_id by_platform db = db
charge operator q batch_id by_balance db =
    add_ledger (consume_ledger operator q.total_amount_cents batch_id db) db
charge operator q batch_id (by_credit chain) db =
    apply_credit_generation chain q.root_master.id operator.id q.total_amount_cents batch_id db

-- What is asked and paid before the batch is written.
abbrev pub paid_for :
    AdminAccount
    → AdminAccount
    → String
    → ℤ
    → String
    → Option ℤ
    → String
    → ℕ
    → AgentDb
    → Result (Quote × Funding × AgentDb)
paid_for current_admin operator plan_code quantity prefix valid_days funding now db =
    prepare_batch_quote operator plan_code quantity prefix valid_days now db >>= λ q.
    fund current_admin operator funding q db >>= λ (f, after). ok (q, f, after)
