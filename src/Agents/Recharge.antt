-- ===== src/Agents/Recharge.antt =====
-- A recharge: it settles the batches on credit that it covers, and what it leaves is kept for those that
-- still stand, or becomes balance (backend/h5_backend/services/admin_panel/ledger_service.py, and
-- batch_service.py beside it).
use tg_auto_msg.Prelude.{
  ℕ, ◌+◌, Bool, true, false, ◌&&◌, not, none, some, List, [], ◌∷◌, String, if◌then◌else◌, ltb, ◌==◌,
  or_else, keep, any,
}
use tg_auto_msg.Prelude.Text.{str_gt, show_ℕ}
use tg_auto_msg.Http.{Result, ok, ◌>>=◌, refuse_if}
use tg_auto_msg.Agents.Rows.{
  AdminAccount, CardBatch, AgentFundLedger, AgentDb, LedgerScope, BizType, Direction, with_admin,
  is_pending,
}
use tg_auto_msg.Agents.Rbac.{is_agent, is_staff}
use tg_auto_msg.Agents.Visibility.{ensure_visible_account, append_audit}
use tg_auto_msg.Agents.Credit.{used_of, balance_of, add_ledger}
use tg_auto_msg.Agents.Settlement.{apply_settlement_for_batch, current, request_of, after_draw}

-- `order_by(created_at, batch_id)`
abbrev pub earlier : CardBatch → CardBatch → Bool
earlier a b =
    if ltb a.created_at b.created_at
    then true
    else if ltb b.created_at a.created_at
    then false
    else str_gt b.batch_id a.batch_id

abbrev pub insert_batch : CardBatch → List CardBatch → List CardBatch
insert_batch b [] = b ∷ []
insert_batch b (c ∷ cs) = if earlier c b then c ∷ insert_batch b cs else b ∷ c ∷ cs

abbrev pub oldest_first : List CardBatch → List CardBatch
oldest_first [] = []
oldest_first (b ∷ bs) = insert_batch b (oldest_first bs)

abbrev pub is_owed_by : ℕ → CardBatch → Bool
is_owed_by k b = elim b.current_liability_account_id [ none ↦ false | some l ↦ l == k ]

-- The batches that a recharge of the account settles, the oldest first.
abbrev pub own_pending : ℕ → List CardBatch → List CardBatch
own_pending k batches =
    oldest_first (keep (λ b. (b.owner_account_id == k) && is_owed_by k b && is_pending b) batches)

abbrev pub has_pending_credit_batches : ℕ → List CardBatch → Bool
has_pending_credit_batches k = any (λ b. is_owed_by k b && is_pending b)

abbrev pub prepay : ℕ → AdminAccount → AdminAccount
prepay amount a = record a { credit_prepay_cents = a.credit_prepay_cents + amount }

-- What the batches have not taken becomes balance.
abbrev pub top_up : AdminAccount → AdminAccount
top_up a = record a {
  balance_cents = a.balance_cents + a.credit_prepay_cents;
  credit_prepay_cents = 0;
}

abbrev pub topped_up : ℕ → AgentDb → AgentDb
topped_up k db = if has_pending_credit_batches k db.batches then db else with_admin k top_up db

abbrev recharge_ledger : AdminAccount → AdminAccount → ℕ → AgentDb → AgentFundLedger
recharge_ledger operator subject amount db = record {
  ledger_scope = if is_staff operator then LedgerScope.platform else LedgerScope.channel;
  account_id = subject.id;
  counterparty_account_id = if subject.id == operator.id then none else some operator.id;
  biz_type = BizType.recharge;
  direction = Direction.incoming;
  amount_cents = amount;
  balance_after_cents = balance_of db.accounts subject.id;
  credit_used_after_cents = used_of db.accounts subject.id;
  related_batch_id = none;
  related_request_id = none;
  operator_account_id = some operator.id;
  remark = none;
}

module _ (hex : ℕ → String) where
  -- The loop of `_auto_settle_credit_batches_for_recharge`: what it settled, and the tables.
  abbrev pub settle_each : AdminAccount → ℕ → List CardBatch → AgentDb → Result (ℕ × AgentDb)
  settle_each subject operator [] db = ok (0, db)
  settle_each subject operator (b ∷ bs) db =
      let amount = b.total_amount_cents in
      let rest = settle_each subject operator bs db in
      let request_id = request_of hex "direct-recharge-settle-" db in
      if amount == 0
      then rest
      else if ltb (current db subject).credit_prepay_cents amount
      then ok (0, db)
      else (apply_settlement_for_batch (current db subject) b operator request_id
            (after_draw hex db)
          >>= λ paid.
              settle_each subject operator bs paid >>= λ (more, after). ok (amount + more, after))

  abbrev pub auto_settle_credit_batches_for_recharge :
      AdminAccount → ℕ → AgentDb → Result (ℕ × AgentDb)
  auto_settle_credit_batches_for_recharge subject operator db =
      if (current db subject).credit_prepay_cents == 0
      then ok (0, db)
      else settle_each subject operator (own_pending subject.id db.batches) db

  -- The money comes in: what it settles, and the tables with the ledger's entry.
  abbrev pub enter_recharge : AdminAccount → AdminAccount → ℕ → AgentDb → Result (ℕ × AgentDb)
  enter_recharge operator subject amount db =
      auto_settle_credit_batches_for_recharge subject operator.id
        (with_admin subject.id (prepay amount) db)
      >>= λ (settled, after).
          let full = topped_up subject.id after in
          ok (settled, add_ledger (recharge_ledger operator subject amount full) full)

  -- `create_recharge_entry`: what was settled, the account and the tables. The remark of the entry is
  -- left out.
  abbrev pub create_recharge_entry :
      AdminAccount → ℕ → ℕ → AgentDb → Result (ℕ × AdminAccount × AgentDb)
  create_recharge_entry current_admin subject_id amount db =
      let operator = current db current_admin in
      refuse_if (amount == 0) 400 "充值金额必须大于 0" (
        ensure_visible_account db.accounts operator subject_id >>= λ subject.
        refuse_if (not (is_agent subject)) 400 "只能为代理账号直接充值入账" (
          refuse_if
            (not (is_staff operator) && not (or_else subject.parent_account_id 0 == operator.id))
            403 "只能为直系下级直接充值入账"
            (enter_recharge operator subject amount db >>= λ (settled, after). ok (
              settled,
              current after subject,
              append_audit operator "agent.direct_recharge" "admin_account" (show_ℕ subject.id)
                  after,
            ))))
