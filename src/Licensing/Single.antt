-- ===== src/Licensing/Single.antt =====
-- What a normalization leaves of a user's slots and accounts.
use tg_auto_msg.Prelude.{
  ℕ, ◌≡◌, refl, sym, ap, ◌∙◌, inl, inr, Bool, true, false, ◌&&◌, not, Option, none, some, List, [],
  ◌∷◌, ◌++◌, map, String, arith, ◌==◌, keep, update_where, best, Bool-cases,
}
use mathlib.Core.Path.{subst}
use tg_auto_msg.Prelude.Keyed.{Memᴰ, best-Mem, best-none, Mem-keep, find-Mem, IsKeyedBy, keep_key}
use tg_auto_msg.Prelude.Text.{str_eq}
use tg_auto_msg.Schema.{Account}
use tg_auto_msg.Account.Rows.{Accounts}
use tg_auto_msg.Licensing.Rows.{
  ActivationCard, UserAuthorization, LicenseDb, slot_of, owned_by, account_in, account_gt,
  resolve_card_duration_days,
}
use tg_auto_msg.Licensing.Normalize.{
  normalize_single_authorization_model, prepared, backfill, backfill_legacy_used_cards,
  sync_expired_slots, primary_slot, primary_account, or_best, is_primary, is_primary_account,
  corrected, after_correction, after_activation, id_of, stays, has_run_out, mark_expired, add_slot,
  choose_legacy_bind_account, is_legacy, slot_account,
}

-- At most one row.
abbrev pub listed {ℓ} : {A : Type ℓ} → Option A → List A
listed none = []
listed (some a) = a ∷ []

-- The user's slots after the deletion, corrected.
kept_slots :
    (user_id : ℕ) (p : UserAuthorization) (f : UserAuthorization → UserAuthorization)
    → ((s : UserAuthorization) → (f s).user_id ≡ s.user_id)
    → (xs : List UserAuthorization)
    → keep (slot_of user_id) (
        update_where
          (λ s. slot_of user_id s && is_primary (some p) s)
          f
          (keep (stays user_id (some p)) xs))
      ≡ map f (keep (λ s. slot_of user_id s && str_eq s.authorization_id p.authorization_id) xs)
kept_slots user_id p f keeps [] = refl
kept_slots user_id p f keeps (x ∷ xs) = ground (arith, keeps x, kept_slots user_id p f keeps xs)

none_kept :
    (user_id : ℕ) (f : UserAuthorization → UserAuthorization) (xs : List UserAuthorization)
    → keep (slot_of user_id) xs ≡ []
    → keep (slot_of user_id) (
        update_where (λ s. slot_of user_id s && is_primary none s) f (keep (stays user_id none) xs))
      ≡ []
none_kept user_id f [] h = refl
none_kept user_id f (x ∷ xs) h = ground (arith, none_kept user_id f xs)

other_slots :
    (user_id : ℕ) (primary : Option UserAuthorization) (f : UserAuthorization → UserAuthorization)
    (xs : List UserAuthorization)
    → ((s : UserAuthorization) → (f s).user_id ≡ s.user_id)
    → keep
        (λ s. not (slot_of user_id s))
        (update_where
          (λ s. slot_of user_id s && is_primary primary s)
          f
          (keep (stays user_id primary) xs))
      ≡ keep (λ s. not (slot_of user_id s)) xs
other_slots user_id primary f [] keeps = refl
other_slots user_id primary f (x ∷ xs) keeps =
    ground (arith, keeps x, other_slots user_id primary f xs keeps)

-- The same for accounts, which are switched and not deleted.
kept_accounts :
    (user_id : ℕ) (p : Account) (xs : Accounts)
    → keep
        (λ a. owned_by user_id a && a.is_active)
        (update_where
          (owned_by user_id)
          (λ a. record a { is_active = is_primary_account (some p) a })
          xs)
      ≡ map {A = Account}
          (λ a. record a { is_active = true })
          (keep (λ a. owned_by user_id a && str_eq a.account_id p.account_id) xs)
kept_accounts user_id p [] = refl
kept_accounts user_id p (x ∷ xs) = elim (Bool-cases (owned_by user_id x)) [
  | inr other ↦ ground (arith, kept_accounts user_id p xs)
  | inl mine ↦ elim (Bool-cases (str_eq x.account_id p.account_id)) [
    | inl same ↦
        rw (mine, mine, same)
          (ap (λ l. record x { is_active = true } ∷ l) (kept_accounts user_id p xs))
    | inr differ ↦ rw (mine, mine, differ) (kept_accounts user_id p xs)
  ]
]

no_accounts :
    (user_id : ℕ) (f : Account → Account) (xs : Accounts)
    → keep (owned_by user_id) xs ≡ []
    → keep (λ a. owned_by user_id a && a.is_active) (update_where (owned_by user_id) f xs) ≡ []
no_accounts user_id f [] h = refl
no_accounts user_id f (x ∷ xs) h = ground (arith, no_accounts user_id f xs)

other_accounts :
    (user_id : ℕ) (f : Account → Account) (xs : Accounts)
    → ((a : Account) → (f a).user_id ≡ a.user_id)
    → keep (λ a. not (owned_by user_id a)) (update_where (owned_by user_id) f xs)
      ≡ keep (λ a. not (owned_by user_id a)) xs
other_accounts user_id f [] keeps = refl
other_accounts user_id f (x ∷ xs) keeps = ground (arith, keeps x, other_accounts user_id f xs keeps)

-- The backfill and the expiry touch the user's slots only, and no account.
keep-append_own :
    (user_id : ℕ) (xs : List UserAuthorization) (s : UserAuthorization)
    → slot_of user_id s ≡ true
    → keep (λ t. not (slot_of user_id t)) (xs ++ (s ∷ [])) ≡ keep (λ t. not (slot_of user_id t)) xs
keep-append_own user_id [] s own = ground arith
keep-append_own user_id (x ∷ xs) s own = ground (arith, keep-append_own user_id xs s own)

backfill_frame :
    (uuid : ℕ → String) (user_id now : ℕ) (cards : List ActivationCard) (db : LicenseDb)
    → ((backfill uuid user_id now cards db).accounts ≡ db.accounts)
      × (keep (λ t. not (slot_of user_id t)) (backfill uuid user_id now cards db).slots
          ≡ keep (λ t. not (slot_of user_id t)) db.slots)
unfolding backfill
backfill_frame uuid user_id now [] db = (refl, refl)
backfill_frame uuid user_id now (c ∷ cards) db =
    elim (Bool-cases (resolve_card_duration_days db.plans c == 0)) [
      | inl none_given ↦ rw (backfill, none_given) (backfill_frame uuid user_id now cards db)
      | inr given ↦
          let added =
            add_slot (uuid db.ids) user_id (choose_legacy_bind_account user_id now db) c
              (resolve_card_duration_days db.plans c) now db in
          let (same, slots) = backfill_frame uuid user_id now cards added in
          rw (backfill, given) (same, slots ∙ keep-append_own user_id db.slots _ (ground arith))
    ]

sync_frame :
    (user_id now : ℕ) (xs : List UserAuthorization)
    → keep
        (λ t. not (slot_of user_id t))
        (update_where (λ s. slot_of user_id s && has_run_out now s) (mark_expired now) xs)
      ≡ keep (λ t. not (slot_of user_id t)) xs
sync_frame user_id now [] = refl
sync_frame user_id now (x ∷ xs) = ground (arith, sync_frame user_id now xs)

prepared_frame :
    (uuid : ℕ → String) (user_id now : ℕ) (db : LicenseDb)
    → ((prepared uuid user_id now db).accounts ≡ db.accounts)
      × (keep (λ t. not (slot_of user_id t)) (prepared uuid user_id now db).slots
          ≡ keep (λ t. not (slot_of user_id t)) db.slots)
unfolding sync_expired_slots backfill_legacy_used_cards
prepared_frame uuid user_id now db =
    let (same, slots) =
      backfill_frame uuid user_id now (keep (is_legacy user_id db.slot_cards) db.cards) db in
    (same, sync_frame user_id now _ ∙ slots)

slots_listed :
    (user_id now : ℕ) (xs : List UserAuthorization)
    (gt : UserAuthorization → UserAuthorization → Bool) (desired : Option String)
    (primary : Option UserAuthorization)
    → IsKeyedBy (λ (s : UserAuthorization). s.authorization_id) xs
    → best gt (keep (slot_of user_id) xs) ≡ primary
    → keep (slot_of user_id) (
        update_where
          (λ s. slot_of user_id s && is_primary primary s)
          (corrected now desired)
          (keep (stays user_id primary) xs))
      ≡ listed (after_correction now desired primary)
slots_listed user_id now xs gt desired none keyed chosen =
    none_kept user_id (corrected now desired) xs (best-none gt _ chosen)
slots_listed user_id now xs gt desired (some p) keyed chosen =
    let (listed_p, own) = Mem-keep (slot_of user_id) p xs (best-Mem gt _ p chosen) in
    kept_slots user_id p (corrected now desired) (λ s. refl) xs
    ∙ ap (map (corrected now desired)) (
        keep_key (λ (s : UserAuthorization). s.authorization_id) (slot_of user_id) p xs keyed
          listed_p own)

or_best-Mem :
    (user_id : ℕ) (xs : Accounts) (found : Option Account) (a : Account)
    → ((b : Account) → found ≡ some b → Memᴰ b (keep (owned_by user_id) xs))
    → or_best (keep (owned_by user_id) xs) found ≡ some a
    → Memᴰ a (keep (owned_by user_id) xs)
or_best-Mem user_id xs none a there chosen = best-Mem account_gt _ a chosen
or_best-Mem user_id xs (some b) a there chosen = there a chosen

or_best-none : (owned : Accounts) (found : Option Account) → or_best owned found ≡ none → owned ≡ []
or_best-none owned none e = best-none account_gt owned e
or_best-none owned (some b) e = cc

account_in-Mem :
    (owned : Accounts) (id : Option String) (b : Account)
    → account_in owned id ≡ some b
    → Memᴰ b owned
account_in-Mem owned none b e = cc
account_in-Mem owned (some k) b e = (find-Mem (λ a. str_eq a.account_id k) owned b e).0

slot_account-Mem :
    (owned : Accounts) (slot : Option UserAuthorization) (b : Account)
    → slot_account owned slot ≡ some b
    → Memᴰ b owned
slot_account-Mem owned none b e = cc
slot_account-Mem owned (some s) b e = account_in-Mem owned s.current_account_id b e

accounts_listed :
    (user_id : ℕ) (xs : Accounts) (slot : Option UserAuthorization) (account : Option Account)
    → IsKeyedBy (λ (a : Account). a.account_id) xs
    → or_best (keep (owned_by user_id) xs) (slot_account (keep (owned_by user_id) xs) slot)
      ≡ account
    → keep
        (λ a. owned_by user_id a && a.is_active)
        (update_where
          (owned_by user_id)
          (λ a. record a { is_active = is_primary_account account a })
          xs)
      ≡ listed (after_activation account)
accounts_listed user_id xs slot none keyed chosen =
    no_accounts user_id (λ a. record a { is_active = false }) xs (or_best-none _ _ chosen)
accounts_listed user_id xs slot (some p) keyed chosen =
    let there = or_best-Mem user_id xs _ p (slot_account-Mem _ slot) chosen in
    let (listed_p, own) = Mem-keep (owned_by user_id) p xs there in
    kept_accounts user_id p xs
    ∙ ap (map {A = Account} (λ a. record a { is_active = true }))
        (keep_key (λ (a : Account). a.account_id) (owned_by user_id) p xs keyed listed_p own)

-- After a normalization of a user, the slot that it returns is all the slots that the user has, and
-- the account that it returns all the active accounts; the slots and accounts of every other user
-- are as before. Ids are the keys of their tables.
pub normalize_single :
    (uuid : ℕ → String) (user_id now : ℕ) (db : LicenseDb)
    → IsKeyedBy (λ (a : Account). a.account_id) db.accounts
    → IsKeyedBy (λ (s : UserAuthorization). s.authorization_id) (prepared uuid user_id now db).slots
    → let (slot, account, after) = normalize_single_authorization_model uuid user_id now db in
      (keep (slot_of user_id) after.slots ≡ listed slot)
      × (keep (λ a. owned_by user_id a && a.is_active) after.accounts ≡ listed account)
      × (keep (λ s. not (slot_of user_id s)) after.slots
          ≡ keep (λ s. not (slot_of user_id s)) db.slots)
      × (keep (λ a. not (owned_by user_id a)) after.accounts
          ≡ keep (λ a. not (owned_by user_id a)) db.accounts)
unfolding normalize_single_authorization_model
normalize_single uuid user_id now db accounts_keyed slots_keyed =
    let ready = prepared uuid user_id now db in
    let slot = primary_slot user_id now ready in
    let account = primary_account user_id ready slot in
    let (same, slots) = prepared_frame uuid user_id now db in
    (
      slots_listed user_id now ready.slots _ (id_of account) slot slots_keyed refl,
      accounts_listed user_id ready.accounts slot account
          (subst (IsKeyedBy (λ (a : Account). a.account_id)) (sym same) accounts_keyed) refl,
      other_slots user_id slot (corrected now (id_of account)) ready.slots (λ s. refl) ∙ slots,
      other_accounts user_id _ ready.accounts (λ a. refl)
          ∙ ap (keep (λ a. not (owned_by user_id a))) same,
    )
