-- ===== src/Agents/Credit.antt =====
-- The chain of credit from an agent to its master, and what a batch on credit charges on it
-- (backend/h5_backend/services/admin_panel/batch_service.py).
use Prim.Native.String.{◌++◌ as str_append}
use tg_auto_msg.Prelude.{
  ℕ, suc, zero, ◌+◌, ◌-◌, Bool, ◌||◌, not, Option, none, some, List, [], ◌∷◌, ◌++◌, String,
  if◌then◌else◌, ltb, ◌==◌, or_else, length,
}
use tg_auto_msg.Prelude.Text.{str_eq}
use tg_auto_msg.Http.{Result, ok, refused, refuse, ◌>>=◌, found_or, refuse_if}
use tg_auto_msg.Agents.Rows.{
  AdminAccount, AgentCreditLimit, AgentFundLedger, AgentDb, LedgerScope, BizType, Direction,
  admin_of, field, with_admin, limit_of, with_limit,
}
use tg_auto_msg.Agents.Visibility.{includes}

abbrev pub used_of : List AdminAccount → ℕ → ℕ
used_of accounts k = field (λ (a : AdminAccount). a.credit_used_cents) 0 (admin_of accounts k)

abbrev pub balance_of : List AdminAccount → ℕ → ℕ
balance_of accounts k = field (λ (a : AdminAccount). a.balance_cents) 0 (admin_of accounts k)

abbrev pub remaining_credit : AdminAccount → ℕ
remaining_credit a = a.credit_limit_cents - a.credit_used_cents

abbrev pub ensure_credit_mode_allowed : AdminAccount → Result {0} Unit
ensure_credit_mode_allowed a =
    refuse_if (not (str_eq a.settlement_mode "credit" || str_eq a.settlement_mode "hybrid")) 400
      "当前账号未开启授信结算模式" (refuse_if (not a.is_credit_whitelisted) 400 "当前账号未开通授信白名单" (ok tt))

-- A step of the chain, the rows as they were read.
pub record Link : Type 0 where
  pub child : AdminAccount
  pub parent : AdminAccount
  pub limit : AgentCreditLimit

-- The row from the parent to the child, which must be active.
abbrev pub checked_limit : Option AgentCreditLimit → Result AgentCreditLimit
checked_limit none = refuse 400 "代理链路存在未配置的授信额度"
checked_limit (some row) = refuse_if (not row.is_active) 400 "代理链路存在未配置的授信额度" (ok row)

-- A turn of the loop at `current`, whose parent is named `p`.
abbrev pub link_at :
    List AdminAccount → List AgentCreditLimit → AdminAccount → ℕ → List ℕ → Result Link
link_at accounts limits current p visited =
    refuse_if (includes current.id visited) 500 "检测到异常代理层级，请检查数据" (
      found_or 400 "代理链路上级不存在" (admin_of accounts p) >>= λ parent.
      checked_limit (limit_of limits parent.id current.id) >>= λ row.
      ok (record { child = current; parent = parent; limit = row }))

abbrev pub prepend : Link → Option (Result (List Link)) → Option (Result (List Link))
prepend l none = none
prepend l (some (ok ls)) = some (ok (l ∷ ls))
prepend l (some (refused e)) = some (refused e)

-- The loop; `none` where the turns do not suffice.
abbrev pub walk :
    ℕ
    → List AdminAccount
    → List AgentCreditLimit
    → AdminAccount
    → List ℕ
    → Option (Result (List Link))
walk zero accounts limits current visited = none
walk (suc fuel) accounts limits current visited = elim current.parent_account_id [
  | none ↦ some (ok [])
  | some p ↦ elim (link_at accounts limits current p visited) [
    | refused e ↦ some (refused e)
    | ok l ↦ prepend l (walk fuel accounts limits l.parent (current.id ∷ visited))
  ]
]

-- A turn for each account, and one more, are enough, since no account is passed twice.
abbrev pub collect_credit_chain : AgentDb → AdminAccount → Result (List Link)
collect_credit_chain db operator =
    or_else (walk (suc (length db.accounts)) db.accounts db.limits operator [])
      (refuse 500 "Internal Server Error")

-- `limit - used < amount` of integers, of an amount that is at least 1.
abbrev pub has_credit : ℕ → Link → Bool
has_credit amount l =
    not (ltb (l.limit.delegated_credit_limit_cents - l.limit.delegated_credit_used_cents) amount)

-- The first link whose row has not enough left refuses.
abbrev pub ensure_links : ℕ → List Link → Result {0} Unit
ensure_links amount [] = ok tt
ensure_links amount (l ∷ ls) =
    refuse_if (not (has_credit amount l)) 400
      (str_append "代理 " (str_append l.child.display_name " 的授信额度不足")) (ensure_links amount ls)

abbrev pub validate_credit_generation :
    AgentDb → AdminAccount → AdminAccount → ℕ → Result (List Link)
validate_credit_generation db operator root_master amount = refuse_if (amount == 0) 400 "生成金额无效" (
    ensure_credit_mode_allowed operator >>= λ _. collect_credit_chain db operator >>= λ chain.
    ensure_links amount chain >>= λ _.
    refuse_if (ltb (remaining_credit root_master) amount) 400 "总代总额度不足，无法授信生成卡密" (ok chain))

abbrev pub add_ledger : AgentFundLedger → AgentDb → AgentDb
add_ledger l db = record db { ledgers = db.ledgers ++ (l ∷ []) }

abbrev pub use_credit : ℕ → AdminAccount → AdminAccount
use_credit amount a = record a { credit_used_cents = a.credit_used_cents + amount }

abbrev pub use_limit : ℕ → AgentCreditLimit → AgentCreditLimit
use_limit amount r = record r {
  delegated_credit_used_cents = r.delegated_credit_used_cents + amount;
}

abbrev credit_ledger :
    LedgerScope → ℕ → Option ℕ → ℕ → String → ℕ → String → AgentDb → AgentFundLedger
credit_ledger scope k counterparty amount batch_id operator remark db = record {
  ledger_scope = scope;
  account_id = k;
  counterparty_account_id = counterparty;
  biz_type = BizType.credit_generate;
  direction = Direction.outgoing;
  amount_cents = amount;
  balance_after_cents = balance_of db.accounts k;
  credit_used_after_cents = used_of db.accounts k;
  related_batch_id = some batch_id;
  related_request_id = none;
  operator_account_id = some operator;
  remark = some remark;
}

-- The turn of `_apply_credit_generation` for a link: the row, the child, and the ledger's entry.
abbrev pub charge_link : ℕ → String → ℕ → Link → AgentDb → AgentDb
charge_link amount batch_id operator l db =
    let charged =
      with_admin l.child.id (use_credit amount)
        (with_limit l.parent.id l.child.id (use_limit amount) db) in
    add_ledger
      (credit_ledger LedgerScope.channel l.child.id (some l.parent.id) amount batch_id operator
        "授信快速生成卡密，记入对直接上级欠款" charged)
      charged

abbrev pub charge_chain : ℕ → String → ℕ → List Link → AgentDb → AgentDb
charge_chain amount batch_id operator [] db = db
charge_chain amount batch_id operator (l ∷ ls) db =
    charge_chain amount batch_id operator ls (charge_link amount batch_id operator l db)

-- `_apply_credit_generation`
abbrev pub apply_credit_generation : List Link → ℕ → ℕ → ℕ → String → AgentDb → AgentDb
apply_credit_generation chain root_master operator amount batch_id db =
    let charged =
      with_admin root_master (use_credit amount) (charge_chain amount batch_id operator chain db) in
    add_ledger
      (credit_ledger LedgerScope.platform root_master
        (if root_master == operator then none else some operator) amount batch_id operator
        "授信快速生成卡密，占用总代总额度" charged)
      charged
