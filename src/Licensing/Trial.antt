-- ===== src/Licensing/Trial.antt =====
-- The trial of seven days on the first account that a user binds.
pub mod Once
use tg_auto_msg.Prelude.{
  ℕ, suc, ◌+◌, Bool, true, false, ◌&&◌, ◌||◌, not, Option, none, some, List, [], ◌∷◌, ◌++◌, String,
  if◌then◌else◌, ◌==◌, or_else, is_some, any, update_where,
}
use tg_auto_msg.Prelude.Text.{is_blank}
use tg_auto_msg.Schema.{Account}
use tg_auto_msg.Account.Rows.{get_account}
use tg_auto_msg.Licensing.Rows.{
  User, ActivationCard, UserAuthorization, LicenseDb, GrantSource, SlotStatus, days, slot_of,
  is_number, get_user,
}
use tg_auto_msg.Licensing.Normalize.{normalize_single_authorization_model, binding_for}

abbrev pub bot_trial_duration_days : ℕ
bot_trial_duration_days = 7

abbrev pub has_used_card : ℕ → LicenseDb → Bool
has_used_card user_id db = any (λ c. is_number user_id c.used_by_user_id && c.is_used) db.cards

abbrev pub is_granted : User → Bool
is_granted u =
    is_some u.bot_trial_granted_at || not (is_blank (or_else u.bot_trial_authorization_id ""))

abbrev pub set_user : ℕ → (User → User) → LicenseDb → LicenseDb
set_user user_id f db = record db { users = update_where (λ u. u.id == user_id) f db.users }

abbrev eligible_at : ℕ → User → User
eligible_at now u = record u { bot_trial_eligible_at = some now }

abbrev pub not_eligible : User → User
not_eligible u = record u { bot_trial_eligible_at = none }

abbrev marked : ℕ → ℕ → Option User → LicenseDb → Bool × LicenseDb
marked user_id now none db = (false, db)
marked user_id now (some u) db =
    if is_some u.bot_trial_eligible_at
      || is_granted u
      || any (slot_of user_id) db.slots
      || has_used_card user_id db
    then (false, db)
    else (true, set_user user_id (eligible_at now) db)

abbrev trial_slot : String → ℕ → String → ℕ → UserAuthorization
trial_slot id user_id account_id now = record {
  authorization_id = id;
  user_id = user_id;
  current_account_id = some account_id;
  source_card_id = none;
  grant_source = GrantSource.bot_trial;
  total_duration_days = bot_trial_duration_days;
  start_at = now;
  end_at = now + days bot_trial_duration_days;
  status = SlotStatus.active;
  updated_at = now;
}

abbrev granted_to : String → ℕ → User → User
granted_to slot_id now u = record u {
  bot_trial_eligible_at = some (or_else u.bot_trial_eligible_at now);
  bot_trial_granted_at = some now;
  bot_trial_authorization_id = some slot_id;
}

abbrev pub add_trial : String → ℕ → String → ℕ → LicenseDb → Option UserAuthorization × LicenseDb
add_trial id user_id account_id now db =
    let slot = trial_slot id user_id account_id now in
    (
      some slot,
      set_user user_id (granted_to id now) (record db {
        slots = db.slots ++ (slot ∷ []);
        bindings = db.bindings ++ binding_for id (some account_id) now;
        ids = suc db.ids;
      }),
    )

abbrev pub own_account : ℕ → Option Account → Bool
own_account user_id none = false
own_account user_id (some a) = a.user_id == user_id

abbrev pub granted :
    String
    → ℕ
    → String
    → ℕ
    → Option UserAuthorization
    → Option User
    → LicenseDb
    → Option UserAuthorization × LicenseDb
granted id user_id account_id now primary none db = (none, db)
granted id user_id account_id now primary (some u) db =
    if is_granted u || not (own_account user_id (get_account account_id db.accounts))
    then (none, db)
    else if has_used_card user_id db || is_some primary
    then (none, set_user user_id not_eligible db)
    else add_trial id user_id account_id now db

module _ (uuid : ℕ → String) where
  unfoldable pub mark_bot_trial_eligible_on_first_bind : ℕ → ℕ → LicenseDb → Bool × LicenseDb
  mark_bot_trial_eligible_on_first_bind user_id now db =
      let (slot, account, ready) = normalize_single_authorization_model uuid user_id now db in
      marked user_id now (get_user user_id ready.users) ready

  unfoldable pub grant_trial_authorization_if_eligible :
      ℕ → String → ℕ → LicenseDb → Option UserAuthorization × LicenseDb
  grant_trial_authorization_if_eligible user_id account_id now db =
      let (slot, account, ready) = normalize_single_authorization_model uuid user_id now db in
      granted (uuid ready.ids) user_id account_id now slot (get_user user_id ready.users) ready
