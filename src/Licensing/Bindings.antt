-- ===== src/Licensing/Bindings.antt =====
-- Binding the current authorization to an account, releasing it, and the limit of one account.
use tg_auto_msg.Prelude.{
  ℕ, ◌-◌, Bool, false, ◌&&◌, ◌||◌, not, Option, none, some, List, ◌++◌, String, if◌then◌else◌, ltb,
  or_else, is_some, any, keep, find, length, update_where,
}
use tg_auto_msg.Prelude.Text.{str_eq, is_blank}
use tg_auto_msg.Schema.{Account}
use tg_auto_msg.Licensing.Rows.{
  UserAuthorization, UserAuthorizationBinding, LicenseDb, has_slot_id, owned_by, is_number,
  is_running,
}
use tg_auto_msg.Licensing.Normalize.{normalize_single_authorization_model, binding_for, status_at}
use tg_auto_msg.Licensing.Permission.{holds, get_account_authorization_summary}

abbrev bound_to : String → ℕ → UserAuthorization → UserAuthorization
bound_to account_id now slot = record slot {
  current_account_id = some account_id;
  updated_at = now;
}

-- An authorization with no account takes this one; a running one of another account stays there.
abbrev pub bound :
    String → ℕ → Option UserAuthorization → LicenseDb → Option UserAuthorization × LicenseDb
bound account_id now none db = (none, db)
bound account_id now (some slot) db =
    if not (is_running now slot) || not (is_blank (or_else slot.current_account_id ""))
    then (some slot, db)
    else (
      some (bound_to account_id now slot),
      record db {
        slots = update_where (has_slot_id slot.authorization_id) (bound_to account_id now) db.slots;
        bindings = db.bindings ++ binding_for slot.authorization_id (some account_id) now;
      },
    )

module _ (uuid : ℕ → String) where
  unfoldable pub bind_current_authorization_to_account_if_possible :
      ℕ → String → ℕ → LicenseDb → Option UserAuthorization × LicenseDb
  bind_current_authorization_to_account_if_possible user_id account_id now db =
      let (slot, account, ready) = normalize_single_authorization_model uuid user_id now db in
      let (summary, after) = get_account_authorization_summary uuid account_id now ready in
      if summary.can_create_tasks
      then (find (has_slot_id (or_else summary.authorization_id "")) after.slots, after)
      else bound account_id now slot after

abbrev pub released : ℕ → UserAuthorization → UserAuthorization
released now s = record s {
  current_account_id = none;
  status = status_at now s.end_at;
  updated_at = now;
}

abbrev closes : String → List UserAuthorization → UserAuthorizationBinding → Bool
closes account_id slots b =
    str_eq b.account_id account_id
    && not (is_some b.unbind_at)
    && any (has_slot_id b.authorization_id) slots

-- The number of slots that the account held.
unfoldable pub release_slots_for_account : String → String → ℕ → LicenseDb → ℕ × LicenseDb
release_slots_for_account account_id reason now db =
    let held = keep (holds account_id) db.slots in
    (
      length held,
      record db {
        slots = update_where (holds account_id) (released now) db.slots;
        bindings =
            update_where (closes account_id held)
              (λ b. record b { unbind_at = some now; unbind_reason = some reason }) db.bindings;
      },
    )

pub record AuthorizationOverview : Type 0 where
  pub user_id : ℕ
  pub account_count : ℕ
  pub has_active_authorization : Bool
  pub next_expiring_at : Option ℕ

abbrev pub max_account_count : ℕ
max_account_count = 1

abbrev pub remaining_login_slots : AuthorizationOverview → ℕ
remaining_login_slots o = max_account_count - o.account_count

-- The end of a slot that is running.
abbrev running_end : ℕ → Option UserAuthorization → Option ℕ
running_end now none = none
running_end now (some s) = if is_running now s then some s.end_at else none

abbrev overview_of : ℕ → ℕ → Option UserAuthorization → LicenseDb → AuthorizationOverview
overview_of user_id now slot db = record {
  user_id = user_id;
  account_count = length (keep (λ a. owned_by user_id a && a.is_active) db.accounts);
  has_active_authorization = is_some (running_end now slot);
  next_expiring_at = running_end now slot;
}

-- TgAccountLimitExceededError carries the overview; the session is rolled back.
pub data LoginCheck : Type 0 where
  allowed : AuthorizationOverview → LicenseDb → LoginCheck
  limit_exceeded : AuthorizationOverview → LoginCheck

module _ (uuid : ℕ → String) where
  unfoldable pub get_authorization_overview : ℕ → ℕ → LicenseDb → AuthorizationOverview × LicenseDb
  get_authorization_overview user_id now db =
      let (slot, account, ready) = normalize_single_authorization_model uuid user_id now db in
      (overview_of user_id now slot ready, ready)

  abbrev pub is_active_login : ℕ → Option ℕ → Account → Bool
  is_active_login user_id none a = false
  is_active_login user_id (some tg) a =
      owned_by user_id a && is_number tg a.tg_user_id && a.is_active

  -- A login of a new account is refused where the user has one.
  unfoldable pub ensure_can_add_tg_account : ℕ → Option ℕ → ℕ → LicenseDb → LoginCheck
  ensure_can_add_tg_account user_id existing now db =
      let (slot, account, ready) = normalize_single_authorization_model uuid user_id now db in
      let (overview, after) = get_authorization_overview user_id now ready in
      if any (is_active_login user_id existing) ready.accounts
        || ltb overview.account_count max_account_count
      then allowed overview after
      else limit_exceeded overview
