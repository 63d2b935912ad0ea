-- ===== src/Tests/Licences.antt =====
-- Licences, on one user with one account and two cards.
use tg_auto_msg.Prelude.{
  ℕ, ◌+◌, ◌<◌, ◌≡◌, ◌⊎◌, refl, true, false, ◌&&◌, not, Option, none, some, List, [], ◌∷◌, String,
  any, keep,
}
use tg_auto_msg.Prelude.Int.{pos}
use tg_auto_msg.Prelude.Text.{strip, upper}
use tg_auto_msg.Prelude.Keyed.{IsKeyedBy}
use tg_auto_msg.Http.{Result, ok, refused, refuse}
use tg_auto_msg.Account.Rows.{get_account}
use tg_auto_msg.Licensing.Rows.{
  ActivationCard, UserAuthorization, LicenseDb, GrantSource, SlotStatus, days, slot_of, owned_by,
  is_running, resolve_card_duration_days,
}
use tg_auto_msg.Licensing.Normalize.{
  normalize_single_authorization_model, prepared, backfill, backfill_legacy_used_cards,
  sync_expired_slots,
}
use tg_auto_msg.Licensing.Single.{normalize_single, listed}
use tg_auto_msg.Licensing.Permission.{
  get_account_authorization_summary, disable_tasks_for_account_if_unlicensed, holds,
}
use tg_auto_msg.Licensing.Permission.Licensed.{can_create_iff, unlicensed_disabled, is_enabled_for}
use tg_auto_msg.Licensing.Cards.{activate_card_for_user}
use tg_auto_msg.Licensing.Cards.Activation.{used_once}
use tg_auto_msg.Licensing.Cards.Renewal.{activation_adds_days, paid_until, days_given}
use tg_auto_msg.Licensing.Trial.{grant_trial_authorization_if_eligible, has_used_card}
use tg_auto_msg.Licensing.Trial.Once.{trial_once, granted_at}
use tg_auto_msg.Tests.{sample_account, sample_task}

abbrev pub uuid : ℕ → String
uuid n = "u"

abbrev pub sample_card : ActivationCard
sample_card = record {
  id = 1;
  card_code = "abc";
  plan_code = none;
  duration_days = some (pos 30);
  is_active = true;
  is_used = false;
  expires_at = none;
  used_by_user_id = none;
  used_at = none;
  created_at = some 0;
  batch_id = none;
  creator_account_id = none;
  owner_account_id = none;
  direct_parent_account_id = none;
  root_master_account_id = none;
  settlement_unit_price_cents = none;
  card_source_type = "platform";
  copy_status = "new";
}

abbrev pub sample_slot : UserAuthorization
sample_slot = record {
  authorization_id = "s1";
  user_id = 1;
  current_account_id = some "a1";
  source_card_id = none;
  grant_source = GrantSource.card;
  total_duration_days = 5;
  start_at = 0;
  end_at = 5000;
  status = SlotStatus.active;
  updated_at = 0;
}

abbrev pub db_with : List UserAuthorization → LicenseDb
db_with slots = record {
  users =
      record {
        id = 1;
        bot_trial_eligible_at = none;
        bot_trial_granted_at = none;
        bot_trial_authorization_id = none;
      }
      ∷ [];
  accounts = sample_account ∷ [];
  plans = [];
  cards = sample_card ∷ [];
  slots = slots;
  slot_cards = [];
  bindings = [];
  tasks = sample_task ∷ [];
  ids = 0;
}

abbrev pub one_slot : LicenseDb
one_slot = db_with (sample_slot ∷ [])

abbrev two_slots : LicenseDb
two_slots =
    db_with (sample_slot ∷ record sample_slot { authorization_id = "s2"; end_at = 7000 } ∷ [])

abbrev no_slot : LicenseDb
no_slot = db_with []

two_slots-IsKeyed :
    IsKeyedBy (λ (s : UserAuthorization). s.authorization_id) (prepared uuid 1 1000 two_slots).slots
unfolding backfill sync_expired_slots backfill_legacy_used_cards
two_slots-IsKeyed = (refl, (refl, tt))

normalize_single_example :
    let (slot, account, after) = normalize_single_authorization_model uuid 1 1000 two_slots in
    (keep (slot_of 1) after.slots ≡ listed slot)
    × (keep (λ a. owned_by 1 a && a.is_active) after.accounts ≡ listed account)
    × (keep (λ s. not (slot_of 1 s)) after.slots ≡ keep (λ s. not (slot_of 1 s)) two_slots.slots)
    × (keep (λ a. not (owned_by 1 a)) after.accounts
        ≡ keep (λ a. not (owned_by 1 a)) two_slots.accounts)
normalize_single_example = normalize_single uuid 1 1000 two_slots (refl, tt) two_slots-IsKeyed

can_create_iff_example :
    let (summary, after) = get_account_authorization_summary uuid "a1" 1000 one_slot in
    summary.can_create_tasks ≡ any (λ s. holds "a1" s && is_running 1000 s) after.slots
can_create_iff_example = can_create_iff uuid "a1" 1000 one_slot

unlicensed_disabled_example :
    let after = (disable_tasks_for_account_if_unlicensed uuid "a1" 9000 one_slot).1 in
    (any (λ s. holds "a1" s && is_running 9000 s) after.slots ≡ true)
    ⊎ (any (is_enabled_for "a1") after.tasks ≡ false)
unlicensed_disabled_example = unlicensed_disabled uuid "a1" 9000 one_slot

-- What an activation that succeeds returns.
abbrev or_sample :
    Result (UserAuthorization × ActivationCard × LicenseDb)
    → UserAuthorization × ActivationCard × LicenseDb
or_sample (ok r) = r
or_sample (refused e) = (sample_slot, sample_card, no_slot)

abbrev first_activation : UserAuthorization × ActivationCard × LicenseDb
first_activation = or_sample (activate_card_for_user uuid 1 " abC " 1000 one_slot)

activated_once :
    activate_card_for_user uuid 1 " abC " 1000 one_slot
    ≡ ok (first_activation.0, first_activation.1, first_activation.2)
unfolding activate_card_for_user normalize_single_authorization_model backfill sync_expired_slots
    backfill_legacy_used_cards strip upper
activated_once = refl

used_once_example :
    activate_card_for_user uuid 2 " abC " 2000 first_activation.2 ≡ refuse 400 "卡密已被使用"
used_once_example =
    used_once uuid 1 " abC " 1000 one_slot first_activation.0 first_activation.1 first_activation.2
      2 2000 activated_once

one_slot-IsKeyed :
    IsKeyedBy (λ (s : UserAuthorization). s.authorization_id) (prepared uuid 1 1000 one_slot).slots
unfolding backfill sync_expired_slots backfill_legacy_used_cards
one_slot-IsKeyed = (refl, tt)

activation_adds_days_example :
    let slot = (normalize_single_authorization_model uuid 1 1000 one_slot).0 in
    let n =
      resolve_card_duration_days
        (normalize_single_authorization_model uuid 1 1000 one_slot).2.plans
        first_activation.1 in
    (first_activation.0.end_at ≡ paid_until 1000 slot + days n)
    × (first_activation.0.total_duration_days ≡ days_given slot + n)
    × (0 < n)
    × (is_running 1000 first_activation.0 ≡ true)
    × (keep (slot_of 1) first_activation.2.slots ≡ first_activation.0 ∷ [])
activation_adds_days_example =
    activation_adds_days uuid 1 " abC " 1000 one_slot first_activation.0 first_activation.1
      first_activation.2 (refl, tt) one_slot-IsKeyed activated_once

abbrev or_slot : Option UserAuthorization → UserAuthorization
or_slot none = sample_slot
or_slot (some s) = s

abbrev first_trial : Option UserAuthorization × LicenseDb
first_trial = grant_trial_authorization_if_eligible uuid 1 "a1" 1000 no_slot

granted_first :
    grant_trial_authorization_if_eligible uuid 1 "a1" 1000 no_slot
    ≡ (some (or_slot first_trial.0), first_trial.1)
unfolding grant_trial_authorization_if_eligible normalize_single_authorization_model backfill
    sync_expired_slots backfill_legacy_used_cards get_account
granted_first = refl

-- The slot that the trial gave is handed to another account and has run out.
abbrev moved : LicenseDb
moved = record first_trial.1 {
  slots = (record (or_slot first_trial.0) { current_account_id = some "a2"; end_at = 5 }) ∷ [];
  cards = [];
}

moved_held : any (slot_of 1) moved.slots ≡ true
unfolding grant_trial_authorization_if_eligible normalize_single_authorization_model backfill
    sync_expired_slots backfill_legacy_used_cards get_account
moved_held = refl

trial_once_example :
    ((or_slot first_trial.0).end_at ≡ 1000 + days 7)
    × ((or_slot first_trial.0).current_account_id ≡ some "a1")
    × (any (slot_of 1) no_slot.slots ≡ false)
    × (has_used_card 1 no_slot ≡ false)
    × (any (slot_of 1) first_trial.1.slots ≡ true)
    × (granted_at 1 first_trial.1.users ≡ some 1000)
    × (let ready = (normalize_single_authorization_model uuid 1 9000 moved).2 in
        (grant_trial_authorization_if_eligible uuid 1 "a2" 9000 moved ≡ (none, ready))
        × (granted_at 1 ready.users ≡ some 1000))
trial_once_example =
    trial_once uuid 1 "a1" 1000 no_slot (or_slot first_trial.0) first_trial.1 "a2" 9000 moved
      granted_first moved_held refl
