-- ===== src/Agents/Settlement.antt =====
-- Settling a batch that stands on credit, by one account of the chain after the other
-- (backend/h5_backend/services/admin_panel/batch_service.py).
use tg_auto_msg.Prelude.{
  ℕ, suc, ◌-◌, Bool, ◌||◌, not, Option, none, some, String, ltb, ◌==◌, or_else, update_where, find,
}
use Prim.Native.String.{◌++◌}
use tg_auto_msg.Prelude.Text.{str_eq, str_take, strip, is_blank}
use tg_auto_msg.Http.{Result, ok, ◌>>=◌, found_or, refuse_if}
use tg_auto_msg.Agents.Rows.{
  AdminAccount, AgentCreditLimit, CardBatch, AgentFundLedger, AgentDb, LedgerScope, BizType,
  Direction, SettlementStatus, PaymentStatus, admin_of, with_admin, limit_of, with_limit, is_credit,
  is_settled,
}
use tg_auto_msg.Agents.Visibility.{includes, visible_account_ids, append_audit}
use tg_auto_msg.Agents.Credit.{used_of, balance_of, add_ledger}

abbrev pub is_batch : String → CardBatch → Bool
is_batch id b = str_eq b.batch_id id

abbrev pub with_batch : String → (CardBatch → CardBatch) → AgentDb → AgentDb
with_batch id f db = record db { batches = update_where (is_batch id) f db.batches }

abbrev settlement_ledger :
    LedgerScope → ℕ → ℕ → ℕ → String → String → ℕ → String → AgentDb → AgentFundLedger
settlement_ledger scope k counterparty amount batch_id request_id operator remark db = record {
  ledger_scope = scope;
  account_id = k;
  counterparty_account_id = some counterparty;
  biz_type = BizType.credit_settlement;
  direction = Direction.incoming;
  amount_cents = amount;
  balance_after_cents = balance_of db.accounts k;
  credit_used_after_cents = used_of db.accounts k;
  related_batch_id = some batch_id;
  related_request_id = some request_id;
  operator_account_id = some operator;
  remark = some remark;
}

abbrev pub pay_off : ℕ → AdminAccount → AdminAccount
pay_off amount a = record a {
  credit_prepay_cents = a.credit_prepay_cents - amount;
  credit_used_cents = a.credit_used_cents - amount;
}

-- `max(0, used - amount)`
abbrev pub free_limit : ℕ → AgentCreditLimit → AgentCreditLimit
free_limit amount r = record r {
  delegated_credit_used_cents = r.delegated_credit_used_cents - amount;
}

-- The batch is next settled by this account.
abbrev pub owed_next : AdminAccount → CardBatch → CardBatch
owed_next next b = record b {
  current_liability_account_id = some next.id;
  current_counterparty_account_id = next.parent_account_id;
  payment_status = PaymentStatus.credit;
  settlement_status = SettlementStatus.pending;
}

abbrev pub paid_up : CardBatch → CardBatch
paid_up b = record b {
  current_liability_account_id = none;
  current_counterparty_account_id = none;
  payment_status = PaymentStatus.paid;
  settlement_status = SettlementStatus.settled;
}

-- The account has paid: the row from its parent is freed and the parent is next, and without a
-- parent the batch is settled.
abbrev pub hand_over : AdminAccount → CardBatch → ℕ → String → AgentDb → Option ℕ → Result AgentDb
hand_over subject batch operator request_id db (some p) =
    let amount = batch.total_amount_cents in
    found_or 400 "未找到该账号的直接上级授信记录" (limit_of db.limits p subject.id) >>= λ _.
    let freed = with_limit p subject.id (free_limit amount) db in
    let entered =
      add_ledger
        (settlement_ledger LedgerScope.channel subject.id p amount batch.batch_id request_id
          operator "授信批次结算完成，冲减对直接上级欠款" freed)
        freed in
    found_or 400 "下一层结算责任账号不存在" (admin_of entered.accounts p) >>= λ next.
    ok (with_batch batch.batch_id (owed_next next) entered)
hand_over subject batch operator request_id db none =
    let settled = with_batch batch.batch_id paid_up db in
    ok (
      add_ledger
        (settlement_ledger LedgerScope.platform subject.id operator batch.total_amount_cents
          batch.batch_id request_id operator "总代授信批次结算完成，冲减平台侧欠款" settled)
        settled)

-- `_apply_settlement_for_batch`
abbrev pub apply_settlement_for_batch :
    AdminAccount → CardBatch → ℕ → String → AgentDb → Result AgentDb
apply_settlement_for_batch subject batch operator request_id db =
    let amount = batch.total_amount_cents in
    refuse_if (not (is_credit batch.payment_status) || is_settled batch.settlement_status) 400
      "当前批次不是待结算的授信批次"
      (refuse_if (not (or_else batch.current_liability_account_id 0 == subject.id)) 400
        "该批次当前不由此账号负责结算"
        (refuse_if (ltb subject.credit_prepay_cents amount) 400 "当前账号授信预抵金额不足，无法结清该批次" (
          refuse_if (ltb subject.credit_used_cents amount) 400 "当前账号授信欠款不足，无法结清该批次" (
            hand_over subject batch operator request_id (with_admin subject.id (pay_off amount) db)
              subject.parent_account_id))))

-- The row as the session holds it.
abbrev pub current : AgentDb → AdminAccount → AdminAccount
current db a = or_else (admin_of db.accounts a.id) a

module _ (hex : ℕ → String) where
  abbrev pub request_of : String → AgentDb → String
  request_of prefix db = prefix ++ str_take 20 (hex db.ids)

  abbrev pub after_draw : AgentDb → AgentDb
  after_draw db = record db { ids = suc db.ids }

  -- `settle_credit_batch`
  abbrev pub settle_credit_batch : AdminAccount → String → AgentDb → Result AgentDb
  settle_credit_batch current_admin batch_id db =
      let operator = current db current_admin in
      let id = strip batch_id in
      refuse_if (is_blank id) 400 "batch_id 不能为空" (
        found_or 404 "待结算批次不存在" (find (is_batch id) db.batches) >>= λ batch.
        refuse_if (not (includes batch.owner_account_id (visible_account_ids db.accounts operator)))
          403 "无权访问该授信批次"
          (refuse_if (not (or_else batch.current_liability_account_id 0 == operator.id)) 403
            "该批次当前不由此账号负责结清"
            (apply_settlement_for_batch operator batch operator.id (request_of "direct-settle-" db)
                (after_draw db)
              >>= λ after. ok (
                  append_audit operator "agent.direct_settlement" "card_batch" batch.batch_id
                    after))))
