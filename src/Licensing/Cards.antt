-- ===== src/Licensing/Cards.antt =====
-- Activating a card: a new slot, or more time on the one there is.
pub mod Activation
pub mod Renewal
use tg_auto_msg.Prelude.{
  ℕ, suc, ◌+◌, Bool, true, false, ◌&&◌, not, Option, none, some, List, [], ◌∷◌, ◌++◌, String,
  if◌then◌else◌, ltb, leb, ◌==◌, or_else, is_some, find, update_where,
}
use tg_auto_msg.Prelude.Text.{str_eq, is_blank, strip, upper}
use tg_auto_msg.Http.{Result, ok, refused, refuse}
use tg_auto_msg.Schema.{Account}
use tg_auto_msg.Licensing.Rows.{
  ActivationCard, UserAuthorization, UserAuthorizationCard, LicenseDb, GrantSource, SlotStatus,
  days, has_slot_id, resolve_card_duration_days,
}
use tg_auto_msg.Licensing.Normalize.{
  normalize_single_authorization_model, binding_for, ensure_bound, id_of,
}

abbrev pub slot_card : String → ActivationCard → ℕ → ℕ → UserAuthorizationCard
slot_card slot_id c duration now = record {
  authorization_id = slot_id;
  activation_card_id = c.id;
  duration_days = duration;
  applied_at = now;
}

-- `_renew_slot_with_card`: the row, its time counted from its end where that is still to come.
abbrev pub renewed : ActivationCard → ℕ → ℕ → UserAuthorization → UserAuthorization
renewed c duration now slot = record slot {
  end_at = (if ltb now slot.end_at then slot.end_at else now) + days duration;
  total_duration_days = slot.total_duration_days + duration;
  status = SlotStatus.active;
  source_card_id = if is_some slot.source_card_id then slot.source_card_id else some c.id;
  updated_at = now;
}

abbrev pub renew_slot_with_card :
    UserAuthorization → ActivationCard → ℕ → ℕ → LicenseDb → UserAuthorization × LicenseDb
renew_slot_with_card slot c duration now db = (
  renewed c duration now slot,
  record db {
    slots = update_where (has_slot_id slot.authorization_id) (renewed c duration now) db.slots;
    slot_cards = db.slot_cards ++ (slot_card slot.authorization_id c duration now ∷ []);
    bindings = ensure_bound slot.authorization_id slot.current_account_id now db.bindings;
  },
)

abbrev pub new_slot : String → ℕ → ActivationCard → ℕ → Option String → ℕ → UserAuthorization
new_slot id user_id c duration account_id now = record {
  authorization_id = id;
  user_id = user_id;
  current_account_id = account_id;
  source_card_id = some c.id;
  grant_source = GrantSource.card;
  total_duration_days = duration;
  start_at = now;
  end_at = now + days duration;
  status = SlotStatus.active;
  updated_at = now;
}

-- `_create_slot_from_card`
abbrev pub create_slot_from_card :
    String → ℕ → ActivationCard → ℕ → Option String → ℕ → LicenseDb → UserAuthorization × LicenseDb
create_slot_from_card id user_id c duration account_id now db =
    let slot = new_slot id user_id c duration account_id now in
    (
      slot,
      record db {
        slots = db.slots ++ (slot ∷ []);
        slot_cards = db.slot_cards ++ (slot_card id c duration now ∷ []);
        bindings = db.bindings ++ binding_for id account_id now;
        ids = suc db.ids;
      },
    )

abbrev pub has_code : String → ActivationCard → Bool
has_code code c = str_eq (upper c.card_code) code

abbrev pub has_passed : ℕ → Option ℕ → Bool
has_passed now none = false
has_passed now (some at) = leb at now

-- The checks of a card, in their order: its days, or why it is refused.
abbrev pub usable_days : ℕ → LicenseDb → Option ActivationCard → Result (ActivationCard × ℕ)
usable_days now db none = refuse 404 "卡密不存在"
usable_days now db (some c) =
    if not c.is_active
    then refuse 400 "卡密已失效"
    else if c.is_used
    then refuse 400 "卡密已被使用"
    else if has_passed now c.expires_at
    then refuse 400 "卡密已过期"
    else if resolve_card_duration_days db.plans c == 0
    then refuse 400 "卡密配置异常：时长无效"
    else ok (c, resolve_card_duration_days db.plans c)

abbrev pub used_by : ℕ → ℕ → ActivationCard → ActivationCard
used_by user_id now c = record c {
  is_used = true;
  used_by_user_id = some user_id;
  used_at = some now;
}

-- The card's row; a code is listed once.
abbrev pub mark_used : ℕ → ℕ → ActivationCard → LicenseDb → LicenseDb
mark_used user_id now c db = record db {
  cards = update_where (λ d. d.id == c.id) (used_by user_id now) db.cards;
}

abbrev pub apply_card :
    String
    → ℕ
    → ActivationCard
    → ℕ
    → ℕ
    → Option UserAuthorization
    → Option Account
    → LicenseDb
    → UserAuthorization × LicenseDb
apply_card id user_id c duration now (some slot) account db =
    renew_slot_with_card slot c duration now db
apply_card id user_id c duration now none account db =
    create_slot_from_card id user_id c duration (id_of account) now db

abbrev pub activated :
    String
    → ℕ
    → ℕ
    → Option UserAuthorization
    → Option Account
    → LicenseDb
    → Result (ActivationCard × ℕ)
    → Result (UserAuthorization × ActivationCard × LicenseDb)
activated id user_id now slot account db (refused e) = refused e
activated id user_id now slot account db (ok (c, duration)) =
    let (authorization, after) = apply_card id user_id c duration now slot account db in
    ok (authorization, used_by user_id now c, mark_used user_id now c after)

module _ (uuid : ℕ → String) where
  -- `_activate_card_for_user`; a refusal rolls the session back.
  unfoldable pub activate_card_for_user :
      ℕ → String → ℕ → LicenseDb → Result (UserAuthorization × ActivationCard × LicenseDb)
  activate_card_for_user user_id card_code now db =
      let (slot, account, ready) = normalize_single_authorization_model uuid user_id now db in
      let code = upper (strip card_code) in
      if is_blank code
      then refuse 400 "卡密不能为空"
      else activated (uuid ready.ids) user_id now slot account ready
          (usable_days now ready (find (has_code code) ready.cards))
