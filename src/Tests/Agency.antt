-- ===== src/Tests/Agency.antt =====
-- A master, an agent below it and what they do: the witnesses and the tests of the agents' modules.
use tg_auto_msg.Prelude.{
  ℕ, zero, suc, ◌+◌, ◌≤◌, map, is_some, ◌≡◌, refl, true, false, Option, none, some, List, [], ◌∷◌,
  String, arith,
}
use tg_auto_msg.Prelude.Int.{pos}
use tg_auto_msg.Prelude.Text.{strip, lower, upper}
use tg_auto_msg.Prelude.Keyed.{Memᴰ, IsKeyedBy}
use tg_auto_msg.Http.{Result, ok, refused, refuse}
use tg_auto_msg.Licensing.Rows.{PricingPlan, ActivationCard}
use tg_auto_msg.Agents.Rows.{
  AdminAccount, AgentCreditLimit, CardBatch, AgentDb, SettlementStatus, PaymentStatus, admin_of,
  limit_of,
}
use tg_auto_msg.Agents.Rbac.{lowered}
use tg_auto_msg.Agents.Quote.{normalized_prefix, find_plan}
use tg_auto_msg.Agents.Batches.{generate_card_batch}
use tg_auto_msg.Agents.Settlement.{settle_credit_batch}
use tg_auto_msg.Agents.Recharge.{create_recharge_entry}
use tg_auto_msg.Agents.Hierarchy.{AgentForm, trimmed, create_child_agent, create_master_agent}
use tg_auto_msg.Agents.Settings.{set_master_credit_limit, set_credit_whitelist}
use tg_auto_msg.Agents.Escalation.{is_default, agents-escalate_nothing}
use tg_auto_msg.Agents.Credit.{
  Link, used_of, walk, collect_credit_chain, validate_credit_generation, apply_credit_generation,
}
use tg_auto_msg.Agents.Books.{IsBalanced, IsHierarchy}
use tg_auto_msg.Agents.Books.Generated.{generate_card_batch-IsBalanced}
use tg_auto_msg.Agents.Books.Direct.{IsSettledBy, settle_credit_batch-IsBalanced}
use tg_auto_msg.Agents.Books.Recharged.{IsRecharged, create_recharge_entry-IsRecharged}
use tg_auto_msg.Agents.Books.Accounted.{IsSound, create_recharge_entry-IsSound}
use tg_auto_msg.Agents.Books.Limits.{credit_generation-within_limits}
use tg_auto_msg.Agents.Books.Chain.{walk-Ends}
use tg_auto_msg.Agents.Books.Grown.{IsGrown, create_child_agent-IsHierarchy}

abbrev master : AdminAccount
master = record {
  id = 1;
  username = "master";
  password_hash = "";
  role_code = "master_agent";
  account_type = "agent";
  business_identity = some "master_agent";
  province_code = "gd";
  parent_account_id = none;
  root_master_account_id = some 1;
  level_depth = 0;
  status = "active";
  settlement_mode = "credit";
  is_credit_whitelisted = true;
  credit_limit_cents = 100000;
  allocated_credit_limit_cents = 40000;
  credit_used_cents = 0;
  credit_prepay_cents = 0;
  balance_cents = 0;
  force_password_change = false;
  display_name = "master";
  contact_name = none;
  contact_phone = none;
  created_by = none;
  role_bindings = [];
}

abbrev agent : AdminAccount
agent = record master {
  id = 2;
  username = "agent";
  role_code = "sub_agent";
  business_identity = some "sub_agent";
  parent_account_id = some 1;
  level_depth = 1;
  credit_limit_cents = 40000;
  allocated_credit_limit_cents = 0;
  credit_prepay_cents = 2500;
  display_name = "agent";
  created_by = some 1;
}

abbrev given : AgentCreditLimit
given = record {
  parent_account_id = 1;
  child_account_id = 2;
  delegated_credit_limit_cents = 40000;
  delegated_credit_used_cents = 0;
  is_active = true;
  last_adjusted_by = some 1;
}

abbrev monthly : PricingPlan
monthly = record {
  plan_code = "monthly";
  price_cents = pos 1000;
  duration_days = pos 30;
  is_active = true;
}

abbrev agency : AgentDb
agency = record {
  accounts = master ∷ agent ∷ [];
  limits = given ∷ [];
  batches = [];
  ledgers = [];
  audits = [];
  plans = monthly ∷ [];
  cards = [];
  ids = 0;
  draws = 0;
  next_account = 3;
  next_card = 1;
  roles = [];
}

-- A code of as many letters.
abbrev numbered : ℕ → String
numbered zero = "A"
numbered (suc n) = String.◌∷◌ "A" (numbered n)

-- Two cards on credit, by the agent.
abbrev two_cards : Option (Result (CardBatch × List ActivationCard × AgentDb))
two_cards =
    generate_card_batch numbered numbered "gd" agent "monthly" (pos 2) "" none "credit" 10 agency

abbrev no_batch : CardBatch
no_batch = record {
  batch_id = "";
  province_code = "";
  creator_account_id = 0;
  owner_account_id = 0;
  direct_parent_account_id = none;
  root_master_account_id = none;
  current_liability_account_id = none;
  current_counterparty_account_id = none;
  plan_code = "";
  quantity = 0;
  duration_days = 0;
  unit_price_cents = 0;
  total_amount_cents = 0;
  settlement_status = SettlementStatus.settled;
  payment_status = PaymentStatus.unpaid;
  remark = none;
  created_at = 0;
}

abbrev tables : Option (Result (CardBatch × List ActivationCard × AgentDb)) → AgentDb
tables none = agency
tables (some (refused x)) = agency
tables (some (ok t)) = t.2

agency_stands : IsHierarchy agency.accounts
agency_stands = refl

agency-IsBalanced : IsBalanced agency
agency-IsBalanced k = ground arith

-- What the run of a request reads of texts.
abbrev batch_of : Option (Result (CardBatch × List ActivationCard × AgentDb)) → CardBatch
batch_of none = no_batch
batch_of (some (refused x)) = no_batch
batch_of (some (ok t)) = t.0

abbrev cards_of : Option (Result (CardBatch × List ActivationCard × AgentDb)) → List ActivationCard
cards_of none = []
cards_of (some (refused x)) = []
cards_of (some (ok t)) = t.1

two_generated : two_cards ≡ some (ok (batch_of two_cards, cards_of two_cards, tables two_cards))
unfolding lowered normalized_prefix find_plan strip lower upper
two_generated = refl

two_charged :
    map (λ (a : AdminAccount). a.credit_used_cents) (tables two_cards).accounts ≡ 2000 ∷ 2000 ∷ []
unfolding lowered normalized_prefix find_plan strip lower upper
two_charged = refl

generate_card_batch-IsBalanced_example : IsBalanced (tables two_cards)
generate_card_batch-IsBalanced_example =
    generate_card_batch-IsBalanced numbered numbered "gd" agent "monthly" (pos 2) "" none "credit"
      10 agency (tables two_cards) (batch_of two_cards) (cards_of two_cards) agency_stands
      two_generated agency-IsBalanced

-- The agent settles its batch, and owes nothing; its master does.
abbrev settled_once : Result AgentDb
settled_once = settle_credit_batch numbered agent "A" (tables two_cards)

abbrev table_in : Result AgentDb → AgentDb
table_in (refused x) = agency
table_in (ok db) = db

two_settled : settled_once ≡ ok (table_in settled_once)
unfolding lowered normalized_prefix find_plan strip lower upper
two_settled = refl

agent_freed :
    map (λ (a : AdminAccount). a.credit_used_cents) (table_in settled_once).accounts ≡ 2000 ∷ 0 ∷ []
unfolding lowered normalized_prefix find_plan strip lower upper
agent_freed = refl

tables_stand : IsHierarchy (tables two_cards).accounts
unfolding lowered normalized_prefix find_plan strip lower upper
tables_stand = refl

agent_known : is_some (admin_of (tables two_cards).accounts agent.id) ≡ true
unfolding lowered normalized_prefix find_plan strip lower upper
agent_known = refl

one_batch : IsKeyedBy (λ (b : CardBatch). b.batch_id) (tables two_cards).batches
unfolding lowered normalized_prefix find_plan strip lower upper
one_batch = (refl, tt)

settle_credit_batch-IsBalanced_example :
    IsSettledBy 2 (strip "A") (tables two_cards) (table_in settled_once)
settle_credit_batch-IsBalanced_example =
    settle_credit_batch-IsBalanced numbered agent "A" (tables two_cards) (table_in settled_once)
      tables_stand agent_known one_batch two_settled generate_card_batch-IsBalanced_example

-- The master pays in 3000 for the agent: 2000 settle the batch and the rest is balance.
abbrev paid_in : Result (ℕ × AdminAccount × AgentDb)
paid_in = create_recharge_entry numbered master 2 3000 (tables two_cards)

abbrev paid_account : Result (ℕ × AdminAccount × AgentDb) → AdminAccount
paid_account (refused x) = agent
paid_account (ok t) = t.1

abbrev paid_tables : Result (ℕ × AdminAccount × AgentDb) → AgentDb
paid_tables (refused x) = agency
paid_tables (ok t) = t.2

recharged : paid_in ≡ ok (2000, paid_account paid_in, paid_tables paid_in)
unfolding lowered normalized_prefix find_plan strip lower upper
recharged = refl

topped_up_to : (paid_account paid_in).balance_cents ≡ 3500
unfolding lowered normalized_prefix find_plan strip lower upper
topped_up_to = refl

create_recharge_entry-IsRecharged_example :
    IsRecharged 2 3000 2000 (tables two_cards).accounts (paid_tables paid_in).accounts
create_recharge_entry-IsRecharged_example =
    create_recharge_entry-IsRecharged numbered master (paid_account paid_in) 2 3000 2000
      (tables two_cards) (paid_tables paid_in) recharged

paid_in-IsSound : IsSound (tables two_cards)
paid_in-IsSound = (tables_stand, one_batch, generate_card_batch-IsBalanced_example)

create_recharge_entry-IsSound_example : IsSound (paid_tables paid_in)
create_recharge_entry-IsSound_example =
    create_recharge_entry-IsSound numbered master (paid_account paid_in) 2 3000 2000
      (tables two_cards) (paid_tables paid_in) paid_in-IsSound recharged

-- The chain of the agent: one link, to its master.
abbrev one_link : List Link
one_link = record { child = agent; parent = master; limit = given } ∷ []

validated_link : validate_credit_generation agency agent master 2000 ≡ ok one_link
validated_link = refl

credit_generation-within_limits_example :
    (used_of (apply_credit_generation one_link 1 2 2000 "A" agency).accounts 1 ≤ 100000)
    × ((k : ℕ)
        → used_of (apply_credit_generation one_link 1 2 2000 "A" agency).accounts k
          ≤ used_of agency.accounts k + 2000)
    × (s : AgentCreditLimit) × (limit_of
          (apply_credit_generation one_link 1 2 2000 "A" agency).limits
          1
          2
        ≡ some s)
    × (s.delegated_credit_used_cents ≤ s.delegated_credit_limit_cents)
    × (s.delegated_credit_limit_cents ≡ 40000)
credit_generation-within_limits_example =
    credit_generation-within_limits agency agent master 2000 "A" one_link 1 2 given agency_stands
      refl refl (omega arith) refl (omega arith) validated_link

walk-Ends_example :
    (r : Result (List Link)) × (walk 3 agency.accounts agency.limits agent [] ≡ some r)
    × (collect_credit_chain agency agent ≡ r)
walk-Ends_example = walk-Ends agency agent (Memᴰ.tail (Memᴰ.head refl))

abbrev form : AgentForm
form = record {
  username = "new";
  password = "secret";
  display_name = "";
  contact_name = none;
  contact_phone = none;
}

abbrev hashed : String → String
hashed s = s

abbrev made : Result (AdminAccount × AgentDb)
made = create_child_agent hashed agent form "credit" 1000 agency

abbrev made_child : Result (AdminAccount × AgentDb) → AdminAccount
made_child (refused x) = agent
made_child (ok t) = t.0

abbrev made_tables : Result (AdminAccount × AgentDb) → AgentDb
made_tables (refused x) = agency
made_tables (ok t) = t.1

child_made : made ≡ ok (made_child made, made_tables made)
unfolding trimmed strip lower lowered
child_made = refl

create_child_agent-IsHierarchy_example : IsGrown 2 (made_child made) 1000 agency (made_tables made)
create_child_agent-IsHierarchy_example =
    create_child_agent-IsHierarchy hashed agent (made_child made) form "credit" 1000 agency
      (made_tables made) refl refl child_made agency_stands

default_agent : is_default agent ≡ true
unfolding lowered strip lower
default_agent = refl

agents-escalate_nothing_example :
    (create_master_agent hashed agent form 500 true agency ≡ refuse 403 "只有超管可以创建总代")
    × (set_master_credit_limit agent 1 500 none agency ≡ refuse 403 "只有超管可以配置总代总额度")
    × (set_credit_whitelist agent 1 true agency ≡ refuse 403 "只有超管可以设置授信白名单")
agents-escalate_nothing_example =
    agents-escalate_nothing hashed agent form 500 1 true none agency default_agent
