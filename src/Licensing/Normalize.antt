-- ===== src/Licensing/Normalize.antt =====
-- `_normalize_single_authorization_model` and what it calls: one slot and one active account for each
-- user. `now` is one reading of the clock, and `uuid n` the n-th id that is drawn.
use tg_auto_msg.Prelude.{
  ℕ, suc, ◌+◌, Bool, true, false, ◌&&◌, ◌||◌, not, Option, none, some, List, [], ◌∷◌, ◌++◌, String,
  if◌then◌else◌, ltb, leb, ◌==◌, or_else, is_some, any, keep, update_where, best,
}
use tg_auto_msg.Prelude.Text.{str_eq, is_blank}
use tg_auto_msg.Schema.{Account, Task}
use tg_auto_msg.Account.Rows.{Accounts}
use tg_auto_msg.Licensing.Rows.{
  User, ActivationCard, UserAuthorization, UserAuthorizationCard, UserAuthorizationBinding,
  LicenseDb, SlotStatus, GrantSource, days, is_live, slot_of, owned_by, names_id, is_number,
  is_running, resolve_card_duration_days, account_gt, account_in, slot_gt,
}

-- `_choose_legacy_bind_account`: the only active account of the user, if no running slot holds it.
abbrev pub only_free : ℕ → List UserAuthorization → Accounts → Option String
only_free now slots [] = none
only_free now slots (a ∷ []) =
    if any (λ s. names_id a.account_id s.current_account_id && is_running now s) slots
    then none
    else some a.account_id
only_free now slots (a ∷ b ∷ rest) = none

abbrev pub choose_legacy_bind_account : ℕ → ℕ → LicenseDb → Option String
choose_legacy_bind_account user_id now db =
    only_free now db.slots (keep (λ a. owned_by user_id a && a.is_active) db.accounts)

abbrev pub binding_for : String → Option String → ℕ → List UserAuthorizationBinding
binding_for slot_id none at = []
binding_for slot_id (some account_id) at =
    record {
      authorization_id = slot_id;
      account_id = account_id;
      bind_at = at;
      unbind_at = none;
      unbind_reason = none;
    }
    ∷ []

-- Used cards of the user with no slot card.
abbrev pub is_legacy : ℕ → List UserAuthorizationCard → ActivationCard → Bool
is_legacy user_id used c =
    c.is_used
    && is_number user_id c.used_by_user_id
    && not (any (λ u. u.activation_card_id == c.id) used)

abbrev pub status_at : ℕ → ℕ → SlotStatus
status_at now end_at = if ltb now end_at then SlotStatus.active else SlotStatus.expired

-- The slot of a used card, from the time of its use, with its card and its binding.
abbrev pub add_slot : String → ℕ → Option String → ActivationCard → ℕ → ℕ → LicenseDb → LicenseDb
add_slot id user_id account c duration now db =
    let start = or_else c.used_at (or_else c.created_at now) in
    record db {
      slots =
          db.slots
          ++ (record {
            authorization_id = id;
            user_id = user_id;
            current_account_id = account;
            source_card_id = some c.id;
            grant_source = GrantSource.card;
            total_duration_days = duration;
            start_at = start;
            end_at = start + days duration;
            status = status_at now (start + days duration);
            updated_at = now;
          }
              ∷ []);
      slot_cards =
          db.slot_cards
          ++ (record {
            authorization_id = id;
            activation_card_id = c.id;
            duration_days = duration;
            applied_at = start;
          }
              ∷ []);
      bindings = db.bindings ++ binding_for id account start;
      ids = suc db.ids;
    }

module _ (uuid : ℕ → String) where
  -- `_backfill_legacy_used_cards` for the cards of its query.
  unfoldable pub backfill : ℕ → ℕ → List ActivationCard → LicenseDb → LicenseDb
  backfill user_id now [] db = db
  backfill user_id now (c ∷ cards) db =
      let duration = resolve_card_duration_days db.plans c in
      backfill user_id now cards (
        if duration == 0
        then db
        else add_slot (uuid db.ids) user_id (choose_legacy_bind_account user_id now db) c duration
            now db)

  unfoldable pub backfill_legacy_used_cards : ℕ → ℕ → LicenseDb → LicenseDb
  backfill_legacy_used_cards user_id now db =
      backfill user_id now (keep (is_legacy user_id db.slot_cards) db.cards) db

-- `_sync_expired_slots`
abbrev pub has_run_out : ℕ → UserAuthorization → Bool
has_run_out now slot = is_live slot.status && leb slot.end_at now

abbrev pub mark_expired : ℕ → UserAuthorization → UserAuthorization
mark_expired now slot = record slot { status = SlotStatus.expired; updated_at = now }

unfoldable pub sync_expired_slots : ℕ → ℕ → LicenseDb → LicenseDb
sync_expired_slots user_id now db = record db {
  slots = update_where (λ s. slot_of user_id s && has_run_out now s) (mark_expired now) db.slots;
}

abbrev pub or_best : Accounts → Option Account → Option Account
or_best owned none = best account_gt owned
or_best owned (some a) = some a

abbrev pub slot_account : Accounts → Option UserAuthorization → Option Account
slot_account owned none = none
slot_account owned (some slot) = account_in owned slot.current_account_id

-- What a normalization keeps.
abbrev pub primary_slot : ℕ → ℕ → LicenseDb → Option UserAuthorization
primary_slot user_id now db =
    best (slot_gt now (keep (owned_by user_id) db.accounts)) (keep (slot_of user_id) db.slots)

abbrev pub primary_account : ℕ → LicenseDb → Option UserAuthorization → Option Account
primary_account user_id db slot =
    let owned = keep (owned_by user_id) db.accounts in or_best owned (slot_account owned slot)

abbrev pub is_primary : Option UserAuthorization → UserAuthorization → Bool
is_primary none slot = false
is_primary (some p) slot = str_eq slot.authorization_id p.authorization_id

abbrev pub is_primary_account : Option Account → Account → Bool
is_primary_account none a = false
is_primary_account (some p) a = str_eq a.account_id p.account_id

abbrev pub id_of : Option Account → Option String
id_of none = none
id_of (some a) = some a.account_id

-- The user's reference to the trial slot: to the primary slot where its own is missing or deleted.
abbrev refer_to : Option UserAuthorization → User → User
refer_to none u = record u { bot_trial_authorization_id = none; bot_trial_granted_at = none }
refer_to (some p) u = record u { bot_trial_authorization_id = some p.authorization_id }

abbrev is_given_id : Option String → Bool
is_given_id id = not (is_blank (or_else id ""))

abbrev refers_to : Option String → UserAuthorization → Bool
refers_to id slot = names_id slot.authorization_id id

abbrev repair_missing : Option UserAuthorization → List UserAuthorization → User → User
repair_missing primary mine u =
    if is_given_id u.bot_trial_authorization_id
      && not (any (refers_to u.bot_trial_authorization_id) mine)
    then refer_to primary u
    else u

abbrev repair_deleted : Option UserAuthorization → List UserAuthorization → User → User
repair_deleted primary mine u =
    if any (λ s. refers_to u.bot_trial_authorization_id s && not (is_primary primary s)) mine
    then refer_to primary u
    else u

abbrev pub repaired : Option UserAuthorization → List UserAuthorization → User → User
repaired primary mine u = repair_deleted primary mine (repair_missing primary mine u)

abbrev differs : Option String → Option String → Bool
differs a b = not (str_eq (or_else a "") (or_else b ""))

-- The primary slot, its status as the clock says and bound to the primary account.
abbrev status_differs : SlotStatus → SlotStatus → Bool
status_differs SlotStatus.active SlotStatus.active = false
status_differs SlotStatus.expired SlotStatus.expired = false
status_differs SlotStatus.disabled SlotStatus.disabled = false
status_differs a b = true

abbrev pub corrected : ℕ → Option String → UserAuthorization → UserAuthorization
corrected now desired slot =
    let status = status_at now slot.end_at in
    let moved = differs slot.current_account_id desired in
    record slot {
      status = status;
      current_account_id = if moved then desired else slot.current_account_id;
      updated_at = if status_differs slot.status status || moved then now else slot.updated_at;
    }

abbrev is_open : String → UserAuthorizationBinding → Bool
is_open slot_id b = str_eq b.authorization_id slot_id && not (is_some b.unbind_at)

abbrev unbound : ℕ → String → UserAuthorizationBinding → UserAuthorizationBinding
unbound now reason b = record b { unbind_at = some now; unbind_reason = some reason }

-- A binding to the account, unless one is open.
abbrev pub ensure_bound :
    String → Option String → ℕ → List UserAuthorizationBinding → List UserAuthorizationBinding
ensure_bound slot_id none now bs = bs
ensure_bound slot_id (some account_id) now bs =
    if any (λ b. is_open slot_id b && str_eq b.account_id account_id) bs
    then bs
    else bs ++ binding_for slot_id (some account_id) now

abbrev rebound :
    ℕ
    → Option String
    → Option UserAuthorization
    → List UserAuthorizationBinding
    → List UserAuthorizationBinding
rebound now desired none bs = bs
rebound now desired (some p) bs =
    if differs p.current_account_id desired
    then ensure_bound p.authorization_id desired now (
        if is_given_id p.current_account_id
        then update_where (is_open p.authorization_id)
            (unbound now "single_authorization_normalized") bs
        else bs)
    else bs

-- The rows that a delete of the user's other slots leaves, their cards and bindings with them.
abbrev pub stays : ℕ → Option UserAuthorization → UserAuthorization → Bool
stays user_id primary s = not (slot_of user_id s) || is_primary primary s

abbrev child_stays : Option UserAuthorization → List UserAuthorization → String → Bool
child_stays primary mine id =
    not (any (λ s. str_eq s.authorization_id id && not (is_primary primary s)) mine)

-- The enabled tasks of the accounts that are switched off.
abbrev pub task_of_any : Accounts → Task → Bool
task_of_any accounts t = any (λ a. names_id a.account_id t.account_id) accounts

abbrev pub switched_off : Task → Task
switched_off t = record t { enabled = false }

-- All writes of a normalization, given what it keeps.
abbrev pub settle : ℕ → ℕ → Option UserAuthorization → Option Account → LicenseDb → LicenseDb
settle user_id now primary account db =
    let mine = keep (slot_of user_id) db.slots in
    let dropped =
      keep (λ a. owned_by user_id a && not (is_primary_account account a)) db.accounts in
    let desired = id_of account in
    record db {
      users = update_where (λ u. u.id == user_id) (repaired primary mine) db.users;
      accounts =
          update_where (owned_by user_id)
            (λ a. record a { is_active = is_primary_account account a }) db.accounts;
      slots =
          update_where (λ s. slot_of user_id s && is_primary primary s) (corrected now desired)
            (keep (stays user_id primary) db.slots);
      slot_cards = keep (λ c. child_stays primary mine c.authorization_id) db.slot_cards;
      bindings =
          keep (λ b. child_stays primary mine b.authorization_id)
            (rebound now desired primary db.bindings);
      tasks = update_where (λ t. t.enabled && task_of_any dropped t) switched_off db.tasks;
    }

abbrev pub after_correction :
    ℕ → Option String → Option UserAuthorization → Option UserAuthorization
after_correction now desired none = none
after_correction now desired (some p) = some (corrected now desired p)

abbrev pub after_activation : Option Account → Option Account
after_activation none = none
after_activation (some a) = some (record a { is_active = true })

module _ (uuid : ℕ → String) where
  -- The tables before anything is chosen.
  abbrev pub prepared : ℕ → ℕ → LicenseDb → LicenseDb
  prepared user_id now db =
      sync_expired_slots user_id now (backfill_legacy_used_cards uuid user_id now db)

  unfoldable pub normalize_single_authorization_model :
      ℕ → ℕ → LicenseDb → Option UserAuthorization × Option Account × LicenseDb
  normalize_single_authorization_model user_id now db =
      let ready = prepared user_id now db in
      let slot = primary_slot user_id now ready in
      let account = primary_account user_id ready slot in
      (
        after_correction now (id_of account) slot,
        after_activation account,
        settle user_id now slot account ready,
      )
