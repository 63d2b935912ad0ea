-- ===== src/Agents/Quote.antt =====
-- What a batch of cards costs: the checks of what is asked, and the plan's price
-- (backend/h5_backend/services/admin_panel/batch_service.py).
use tg_auto_msg.Prelude.{
  ℕ, ◌+◌, ◌*◌, ◌||◌, not, Option, none, some, List, String, if◌then◌else◌, ltb, ◌==◌, or_else, find,
}
use tg_auto_msg.Prelude.Int.{ℤ, pos_part}
use tg_auto_msg.Prelude.Text.{str_eq, str_len, strip, upper}
use tg_auto_msg.Http.{Result, ok, ◌>>=◌, found_or, refuse_if}
use tg_auto_msg.Licensing.Rows.{PricingPlan, days}
use tg_auto_msg.Agents.Rows.{AdminAccount, AgentDb, admin_of}

unfoldable pub normalized_prefix : String → String
unfolding strip upper
normalized_prefix prefix = upper (strip prefix)

-- The end of the cards: `valid_days` from now, where they are given.
abbrev pub expiry : Option ℤ → ℕ → Result (Option ℕ)
expiry none now = ok none
expiry (some d) now =
    refuse_if (pos_part d == 0) 400 "valid_days 必须大于 0" (ok (some (now + days (pos_part d))))

-- `_normalize_batch_inputs`
abbrev pub normalize_batch_inputs : ℤ → String → Option ℤ → ℕ → Result (ℕ × String × Option ℕ)
normalize_batch_inputs quantity prefix valid_days now =
    refuse_if ((pos_part quantity == 0) || ltb 500 (pos_part quantity)) 400 "生成数量范围为 1-500" (
      refuse_if (ltb 20 (str_len (normalized_prefix prefix))) 400 "前缀最长 20 位" (
        expiry valid_days now >>= λ expires_at.
        ok (pos_part quantity, normalized_prefix prefix, expires_at)))

pub record Quote : Type 0 where
  pub plan : PricingPlan
  pub quantity : ℕ
  pub prefix : String
  pub expires_at : Option ℕ
  pub direct_parent_account_id : Option ℕ
  pub unit_price_cents : ℕ
  pub total_amount_cents : ℕ
  pub root_master : AdminAccount

-- `int(account.root_master_account_id or account.id)`
abbrev pub root_of : AdminAccount → ℕ
root_of a = let root = or_else a.root_master_account_id 0 in if root == 0 then a.id else root

unfoldable pub find_plan : String → List PricingPlan → Option PricingPlan
unfolding strip
find_plan code = find (λ (p : PricingPlan). str_eq p.plan_code (strip code))

-- `_prepare_batch_quote`
abbrev pub prepare_batch_quote :
    AdminAccount → String → ℤ → String → Option ℤ → ℕ → AgentDb → Result Quote
prepare_batch_quote account plan_code quantity prefix valid_days now db =
    normalize_batch_inputs quantity prefix valid_days now >>= λ (count, start, expires_at).
    found_or 404 "卡密规格不存在或已停用" (find_plan plan_code db.plans) >>= λ plan.
    refuse_if (not plan.is_active) 404 "卡密规格不存在或已停用" (
      refuse_if (pos_part plan.price_cents == 0) 400 "该卡密规格尚未配置有效价格" (
        found_or 400 "总代账号不存在" (admin_of db.accounts (root_of account)) >>= λ root_master.
        ok (record {
          plan = plan;
          quantity = count;
          prefix = start;
          expires_at = expires_at;
          direct_parent_account_id = account.parent_account_id;
          unit_price_cents = pos_part plan.price_cents;
          total_amount_cents = pos_part plan.price_cents * count;
          root_master = root_master;
        })))
