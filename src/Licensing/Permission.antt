-- ===== src/Licensing/Permission.antt =====
-- Whether an account may send: the authorization summary of an account and its callers.
pub mod Licensed
use Prim.Native.String.{◌++◌}
use tg_auto_msg.Prelude.{
  ℕ, Bool, true, false, ◌&&◌, not, Option, none, some, List, [], ◌∷◌, String, if◌then◌else◌, ltb,
  leb, ◌==◌, or_else, keep, best, find, any, length, update_where,
}
use tg_auto_msg.Prelude.Text.{str_eq, is_blank}
use tg_auto_msg.Http.{Result, ok, refused, refuse}
use tg_auto_msg.Schema.{Task}
use tg_auto_msg.Account.Rows.{get_account}
use tg_auto_msg.Licensing.Rows.{
  UserAuthorization, LicenseDb, GrantSource, SlotStatus, names_id, is_running,
}
use tg_auto_msg.Licensing.Normalize.{normalize_single_authorization_model, switched_off}

-- `recorded s` is the status of the slot's row.
pub data SummaryStatus : Type 0 where
  licensed unlicensed : SummaryStatus
  recorded : SlotStatus → SummaryStatus

pub record AccountAuthorizationSummary : Type 0 where
  pub account_id : String
  pub authorization_id : Option String
  pub authorization_status : SummaryStatus
  pub can_create_tasks : Bool
  pub authorization_end_at : Option ℕ
  pub authorization_card_count : ℕ
  pub authorization_grant_source : Option GrantSource

abbrev pub holds : String → UserAuthorization → Bool
holds account_id s = names_id account_id s.current_account_id

-- `order_by(end_at.desc())`
abbrev pub ends_later : UserAuthorization → UserAuthorization → Bool
ends_later s t = ltb t.end_at s.end_at

abbrev card_count : LicenseDb → UserAuthorization → ℕ
card_count db s = length (keep (λ c. str_eq c.authorization_id s.authorization_id) db.slot_cards)

abbrev of_slot :
    String → LicenseDb → SummaryStatus → Bool → UserAuthorization → AccountAuthorizationSummary
of_slot account_id db status allowed s = record {
  account_id = account_id;
  authorization_id = some s.authorization_id;
  authorization_status = status;
  can_create_tasks = allowed;
  authorization_end_at = some s.end_at;
  authorization_card_count = card_count db s;
  authorization_grant_source = some s.grant_source;
}

abbrev not_running : String → ℕ → LicenseDb → Option UserAuthorization → AccountAuthorizationSummary
not_running account_id now db none = record {
  account_id = account_id;
  authorization_id = none;
  authorization_status = unlicensed;
  can_create_tasks = false;
  authorization_end_at = none;
  authorization_card_count = 0;
  authorization_grant_source = none;
}
not_running account_id now db (some s) =
    of_slot account_id db (recorded (if leb s.end_at now then SlotStatus.expired else s.status))
      false s

abbrev pub summary_of :
    String → ℕ → LicenseDb → Option UserAuthorization → AccountAuthorizationSummary
summary_of account_id now db (some s) = of_slot account_id db licensed true s
summary_of account_id now db none =
    not_running account_id now db (best ends_later (keep (holds account_id) db.slots))

-- The queries, after the user's normalization.
abbrev pub summary_in : String → ℕ → LicenseDb → AccountAuthorizationSummary
summary_in account_id now db =
    summary_of account_id now db
      (best ends_later (keep (λ s. holds account_id s && is_running now s) db.slots))

module _ (uuid : ℕ → String) where
  -- An account that is not there has no user to normalize.
  abbrev pub normalized_for : String → ℕ → LicenseDb → LicenseDb
  normalized_for account_id now db = elim (get_account account_id db.accounts) [
    | none ↦ db
    | some a ↦ (normalize_single_authorization_model uuid a.user_id now db).2
  ]

  unfoldable pub get_account_authorization_summary :
      String → ℕ → LicenseDb → AccountAuthorizationSummary × LicenseDb
  get_account_authorization_summary account_id now db =
      let after = normalized_for account_id now db in (summary_in account_id now after, after)

  abbrev permission :
      String
      → AccountAuthorizationSummary × LicenseDb
      → Result (AccountAuthorizationSummary × LicenseDb)
  permission action (summary, db) =
      if summary.can_create_tasks
      then ok (summary, db)
      else refuse 402 ("当前 TG 账号尚未获得自动发送授权，暂不可" ++ action ++ "。请先为当前授权续费后再试。")

  unfoldable pub require_account_task_permission :
      Option String → String → ℕ → LicenseDb → Result (AccountAuthorizationSummary × LicenseDb)
  require_account_task_permission account_id action now db =
      if is_blank (or_else account_id "")
      then refuse 400 "缺少执行账号"
      else permission action (get_account_authorization_summary (or_else account_id "") now db)

  -- The tasks are switched off where the account may not send; their number.
  unfoldable pub disable_tasks_for_account_if_unlicensed : String → ℕ → LicenseDb → ℕ × LicenseDb
  disable_tasks_for_account_if_unlicensed account_id now db =
      let (summary, after) = get_account_authorization_summary account_id now db in
      let is_hit = λ (t : Task). names_id account_id t.account_id && t.enabled in
      if summary.can_create_tasks then (0, after) else (
        length (keep is_hit after.tasks),
        record after { tasks = update_where is_hit switched_off after.tasks },
      )
