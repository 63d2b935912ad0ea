-- ===== src/Account/Observation.antt =====
-- The observation window after a new login through a proxy: one send in 24 hours
-- (backend/bot/account/proxy_observation.py). Instants are microseconds.
pub mod Budget
use tg_auto_msg.Prelude.{
  ℕ, ◌+◌, ◌-◌, ◌*◌, ◌/◌, Bool, true, false, ◌&&◌, not, Option, none, some, List, [], ◌∷◌, String,
  if◌then◌else◌, ltb, is_some,
}
use tg_auto_msg.Prelude.Text.{str_eq}
use tg_auto_msg.Schema.{Account}
use tg_auto_msg.Account.Rows.{Accounts}

abbrev pub observation_hours : ℕ
observation_hours = 24

abbrev pub observation_success_limit : ℕ
observation_success_limit = 1

abbrev pub is_before : ℕ → Option ℕ → Bool
is_before now none = false
is_before now (some until) = ltb now until

abbrev pub is_proxy_observation_active : Account → ℕ → Bool
is_proxy_observation_active account now = is_before now account.proxy_observation_until

-- `max(0, int((until - now).total_seconds()))`
abbrev remaining : ℕ → Option ℕ → ℕ
remaining now none = 0
remaining now (some until) = (until - now) / 1000000

abbrev pub proxy_observation_remaining_seconds : Account → ℕ → ℕ
proxy_observation_remaining_seconds account now = remaining now account.proxy_observation_until

abbrev pub proxy_observation_has_send_budget : Account → ℕ → Bool
proxy_observation_has_send_budget account now =
    if not (is_before now account.proxy_observation_until)
    then true
    else ltb account.proxy_observation_success_count observation_success_limit

pub start_proxy_observation : ℕ → Account → Account
start_proxy_observation now account = record account {
  proxy_observation_started_at = some now;
  proxy_observation_until = some (now + observation_hours * 3600 * 1000000);
  proxy_observation_success_count = 0;
}

abbrev pub reset_proxy_observation : Account → Account
reset_proxy_observation account = record account {
  proxy_observation_started_at = none;
  proxy_observation_until = none;
  proxy_observation_success_count = 0;
}

-- The where clause of the claiming UPDATE.
abbrev pub is_claimable : String → ℕ → Account → Bool
is_claimable id now a =
    str_eq a.account_id id
    && is_before now a.proxy_observation_until
    && ltb a.proxy_observation_success_count observation_success_limit

abbrev pub claimed : Account → Account
claimed a = record a { proxy_observation_success_count = observation_success_limit }

-- `rowcount > 0`, and the table: one atomic UPDATE.
pub claim_proxy_observation_send_budget : String → ℕ → Accounts → Bool × Accounts
claim_proxy_observation_send_budget id now [] = (false, [])
claim_proxy_observation_send_budget id now (a ∷ accounts) =
    let (hit, rest) = claim_proxy_observation_send_budget id now accounts in
    if is_claimable id now a then (true, claimed a ∷ rest) else (hit, a ∷ rest)

-- `mark_proxy_observation_success` is the same claim, its result unused.
abbrev pub mark_proxy_observation_success : String → ℕ → Accounts → Accounts
mark_proxy_observation_success id now accounts =
    (claim_proxy_observation_send_budget id now accounts).1
