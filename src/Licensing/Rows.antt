-- ===== src/Licensing/Rows.antt =====
-- The rows of the licensing tables (backend/database/schema/models.py), and the queries on them.
use tg_auto_msg.Prelude.{
  ℕ, ◌*◌, Bool, true, false, ◌&&◌, not, Option, none, some, List, String, if◌then◌else◌, ltb, ◌==◌,
  or_else, find,
}
use tg_auto_msg.Prelude.Int.{ℤ, pos, pos_part}
use tg_auto_msg.Prelude.Text.{str_eq, str_gt, is_blank}
use tg_auto_msg.Schema.{Account, Task}
use tg_auto_msg.Account.Rows.{Accounts}

pub record User : Type 0 where
  pub id : ℕ
  pub bot_trial_eligible_at : Option ℕ
  pub bot_trial_granted_at : Option ℕ
  pub bot_trial_authorization_id : Option String

pub record PricingPlan : Type 0 where
  pub plan_code : String
  pub price_cents : ℤ
  pub duration_days : ℤ
  pub is_active : Bool

pub record ActivationCard : Type 0 where
  pub id : ℕ
  pub card_code : String
  pub plan_code : Option String
  pub duration_days : Option ℤ
  pub is_active : Bool
  pub is_used : Bool
  pub expires_at : Option ℕ
  pub used_by_user_id : Option ℕ
  pub used_at : Option ℕ
  pub created_at : Option ℕ
  pub batch_id : Option String
  pub creator_account_id : Option ℕ
  pub owner_account_id : Option ℕ
  pub direct_parent_account_id : Option ℕ
  pub root_master_account_id : Option ℕ
  pub settlement_unit_price_cents : Option ℕ
  pub card_source_type : String
  pub copy_status : String

pub data GrantSource : Type 0 where
  card bot_trial : GrantSource

pub data SlotStatus : Type 0 where
  active expired disabled : SlotStatus

pub record UserAuthorization : Type 0 where
  pub authorization_id : String
  pub user_id : ℕ
  pub current_account_id : Option String
  pub source_card_id : Option ℕ
  pub grant_source : GrantSource
  pub total_duration_days : ℕ
  pub start_at : ℕ
  pub end_at : ℕ
  pub status : SlotStatus
  pub updated_at : ℕ

pub record UserAuthorizationCard : Type 0 where
  pub authorization_id : String
  pub activation_card_id : ℕ
  pub duration_days : ℕ
  pub applied_at : ℕ

pub record UserAuthorizationBinding : Type 0 where
  pub authorization_id : String
  pub account_id : String
  pub bind_at : ℕ
  pub unbind_at : Option ℕ
  pub unbind_reason : Option String

-- The tables of a session. `ids` counts the ids that were drawn: the n-th one is `uuid n`.
pub record LicenseDb : Type 0 where
  pub users : List User
  pub accounts : Accounts
  pub plans : List PricingPlan
  pub cards : List ActivationCard
  pub slots : List UserAuthorization
  pub slot_cards : List UserAuthorizationCard
  pub bindings : List UserAuthorizationBinding
  pub tasks : List Task
  pub ids : ℕ

-- `timedelta(days=n)`
abbrev pub days : ℕ → ℕ
days n = n * 86400 * 1000000

abbrev pub is_live : SlotStatus → Bool
is_live active = true
is_live expired = false
is_live disabled = false

abbrev pub slot_of : ℕ → UserAuthorization → Bool
slot_of user_id slot = slot.user_id == user_id

abbrev pub owned_by : ℕ → Account → Bool
owned_by user_id a = a.user_id == user_id

abbrev pub has_slot_id : String → UserAuthorization → Bool
has_slot_id id slot = str_eq slot.authorization_id id

-- `str(x or "") == id` of a nullable column, for an id that is not empty.
abbrev pub names_id : String → Option String → Bool
names_id id none = false
names_id id (some x) = str_eq x id

abbrev pub is_number : ℕ → Option ℕ → Bool
is_number n none = false
is_number n (some m) = m == n

-- `status == "active" and end_at > now`
abbrev pub is_running : ℕ → UserAuthorization → Bool
is_running now slot = is_live slot.status && ltb now slot.end_at

abbrev pub get_user : ℕ → List User → Option User
get_user id users = find (λ u. u.id == id) users

abbrev plan_days : Option PricingPlan → ℕ
plan_days none = 0
plan_days (some plan) = pos_part plan.duration_days

-- `_resolve_card_duration_days`: the card's own days, and the plan's where it has none.
abbrev pub resolve_card_duration_days : List PricingPlan → ActivationCard → ℕ
resolve_card_duration_days plans c =
    let own = pos_part (or_else c.duration_days (pos 0)) in
    let code = or_else c.plan_code "" in
    if own == 0 && not (is_blank code)
    then plan_days (find (λ p. str_eq p.plan_code code) plans)
    else own

-- A tuple of numbers and then a text, compared from the left.
abbrev pub then_gt : ℕ → ℕ → Bool → Bool
then_gt a b rest = if ltb b a then true else if ltb a b then false else rest

abbrev pub bit : Bool → ℕ
bit true = 1
bit false = 0

abbrev pub health_bit : Account → ℕ
health_bit a = bit (str_eq a.health_status "online")

-- `_account_priority(a) > _account_priority(b)`. The earliest datetime is 0, and so is none.
abbrev pub account_gt : Account → Account → Bool
account_gt a b = then_gt (bit a.is_active) (bit b.is_active) (
    then_gt (health_bit a) (health_bit b) (
      then_gt (or_else a.last_used_at 0) (or_else b.last_used_at 0)
        (then_gt a.created_at b.created_at (str_gt a.account_id b.account_id))))

-- The slot's account among the user's.
abbrev pub account_in : Accounts → Option String → Option Account
account_in owned none = none
account_in owned (some id) = find (λ a. str_eq a.account_id id) owned

abbrev active_bit : Option Account → ℕ
active_bit none = 0
active_bit (some a) = bit a.is_active

abbrev online_bit : Option Account → ℕ
online_bit none = 0
online_bit (some a) = health_bit a

-- `_slot_priority(s) > _slot_priority(t)`
abbrev pub slot_gt : ℕ → Accounts → UserAuthorization → UserAuthorization → Bool
slot_gt now owned s t =
    let a = account_in owned s.current_account_id in
    let b = account_in owned t.current_account_id in
    then_gt (bit (is_running now s)) (bit (is_running now t)) (
      then_gt (active_bit a) (active_bit b) (
        then_gt (online_bit a) (online_bit b) (
          then_gt s.end_at t.end_at
            (then_gt s.updated_at t.updated_at (str_gt s.authorization_id t.authorization_id)))))
