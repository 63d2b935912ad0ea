-- ===== src/Licensing/Trial/Once.antt =====
-- A user gets the trial once.
use tg_auto_msg.Prelude.{
  ℕ, ◌+◌, ◌≡◌, refl, sym, ap, ◌∙◌, inl, inr, Bool, true, false, ◌&&◌, ◌||◌, not, Option, none, some,
  List, [], ◌∷◌, ◌++◌, String, arith, ◌==◌, keep, any, is_some, update_where, Bool-cases,
  Option-cases,
}
use mathlib.Core.Path.{subst}
use tg_auto_msg.Prelude.Keyed.{best-none}
use tg_auto_msg.Account.Rows.{get_account}
use tg_auto_msg.Licensing.Rows.{
  days, User, ActivationCard, UserAuthorization, LicenseDb, slot_of, get_user,
  resolve_card_duration_days,
}
use tg_auto_msg.Licensing.Normalize.{
  normalize_single_authorization_model, prepared, repaired, backfill, backfill_legacy_used_cards,
  sync_expired_slots, add_slot, choose_legacy_bind_account, is_legacy, has_run_out, mark_expired,
  primary_slot,
}
use tg_auto_msg.Licensing.Cards.Activation.{normalize-cards}
use tg_auto_msg.Licensing.Trial.{
  grant_trial_authorization_if_eligible, granted, granted_to, add_trial, is_granted, own_account,
  has_used_card,
}

module _ {A : Type 0} (p : A → Bool) where
  any-left : (xs ys : List A) → any p xs ≡ true → any p (xs ++ ys) ≡ true
  any-left [] ys h = cc
  any-left (x ∷ xs) ys h = ground (arith, any-left xs ys)

  any-right : (xs ys : List A) → any p ys ≡ true → any p (xs ++ ys) ≡ true
  any-right [] ys h = h
  any-right (x ∷ xs) ys h = ground (arith, any-right xs ys h)

  any-keep : (xs : List A) → any p xs ≡ true → keep p xs ≡ [] → false ≡ true
  any-keep [] h e = h
  any-keep (x ∷ xs) h e = ground (arith, any-keep xs)

-- A normalization keeps a user's having a slot.
backfill-any :
    (uuid : ℕ → String) (user_id now : ℕ) (cards : List ActivationCard) (db : LicenseDb)
    → any (slot_of user_id) db.slots ≡ true
    → any (slot_of user_id) (backfill uuid user_id now cards db).slots ≡ true
unfolding backfill
backfill-any uuid user_id now [] db h = h
backfill-any uuid user_id now (c ∷ cards) db h =
    elim (Bool-cases (resolve_card_duration_days db.plans c == 0)) [
      | inl none_given ↦ rw (backfill, none_given) (backfill-any uuid user_id now cards db h)
      | inr given ↦
          rw (backfill, given)
            (backfill-any uuid user_id now cards
              (add_slot (uuid db.ids) user_id (choose_legacy_bind_account user_id now db) c
                (resolve_card_duration_days db.plans c) now db)
              (any-left (slot_of user_id) db.slots _ h))
    ]

sync-any :
    (user_id now : ℕ) (xs : List UserAuthorization)
    → any (slot_of user_id) xs ≡ true
    → any
        (slot_of user_id)
        (update_where (λ s. slot_of user_id s && has_run_out now s) (mark_expired now) xs)
      ≡ true
sync-any user_id now [] h = h
sync-any user_id now (x ∷ xs) h = ground (arith, sync-any user_id now xs)

some_slot :
    (uuid : ℕ → String) (user_id now : ℕ) (db : LicenseDb)
    → any (slot_of user_id) db.slots ≡ true
    → is_some (normalize_single_authorization_model uuid user_id now db).0 ≡ true
unfolding normalize_single_authorization_model sync_expired_slots backfill_legacy_used_cards
some_slot uuid user_id now db h =
    let ready = prepared uuid user_id now db in
    let kept =
      sync-any user_id now _
        (backfill-any uuid user_id now (keep (is_legacy user_id db.slot_cards) db.cards) db h) in
    elim (Option-cases (primary_slot user_id now ready)) [
      | inl e ↦ absurd (cc (any-keep (slot_of user_id) ready.slots kept (best-none _ _ e)))
      | inr (p, e) ↦ rw e refl
    ]

absent : (x : Option UserAuthorization) → is_some x ≡ false → x ≡ none
absent none h = refl
absent (some s) h = cc

present : (x : Option UserAuthorization) → is_some x ≡ true → x ≡ none → false ≡ true
present none h e = h
present (some s) h e = cc

-- What a grant that gives a slot went through.
granted-some :
    (id : String) (user_id : ℕ) (account_id : String) (now : ℕ) (primary : Option UserAuthorization)
    (u : Option User) (db : LicenseDb) (s : UserAuthorization) (after : LicenseDb)
    → granted id user_id account_id now primary u db ≡ (some s, after)
    → (primary ≡ none)
      × (has_used_card user_id db ≡ false)
      × (own_account user_id (get_account account_id db.accounts) ≡ true)
      × (v : User) × (u ≡ some v)
      × ((some s, after) ≡ add_trial id user_id account_id now db)
granted-some id user_id account_id now primary none db s after e = cc (ap (λ x. x.0) e)
granted-some id user_id account_id now primary (some u) db s after e =
    elim (Bool-cases
      (is_granted u || not (own_account user_id (get_account account_id db.accounts)))) [
        | inl refused ↦ absurd (not_some db s (ap (λ x. x.0) (simp refused at e)))
        | inr free ↦ elim (Bool-cases (has_used_card user_id db || is_some primary)) [
          | inl late ↦ absurd (not_some db s (ap (λ x. x.0) (simp (free, late) at e)))
          | inr first ↦
              let given : add_trial id user_id account_id now db ≡ (some s, after) =
                simp (free, first) at e in
              (absent primary (ground arith), ground arith, ground arith, u, refl, sym given)
        ]
      ]
  where
    not_some :
        (db : LicenseDb) (s : UserAuthorization)
        → ◌≡◌ {A = Option UserAuthorization} none (some s)
        → ⊥
    not_some db s e = cc

abbrev pub noted_at : Option User → Option ℕ
noted_at none = none
noted_at (some u) = u.bot_trial_granted_at

-- When the user was granted the trial.
abbrev pub granted_at : ℕ → List User → Option ℕ
granted_at user_id users = noted_at (get_user user_id users)

-- The backfill and the expiry leave the users' rows.
backfill-users :
    (uuid : ℕ → String) (user_id now : ℕ) (cards : List ActivationCard) (db : LicenseDb)
    → (backfill uuid user_id now cards db).users ≡ db.users
unfolding backfill
backfill-users uuid user_id now [] db = refl
backfill-users uuid user_id now (c ∷ cards) db =
    elim (Bool-cases (resolve_card_duration_days db.plans c == 0)) [
      | inl none_given ↦ rw (backfill, none_given) (backfill-users uuid user_id now cards db)
      | inr given ↦
          rw (backfill, given)
            (backfill-users uuid user_id now cards (
              add_slot (uuid db.ids) user_id (choose_legacy_bind_account user_id now db) c
                (resolve_card_duration_days db.plans c) now db))
    ]

prepared-users :
    (uuid : ℕ → String) (user_id now : ℕ) (db : LicenseDb)
    → (prepared uuid user_id now db).users ≡ db.users
unfolding sync_expired_slots backfill_legacy_used_cards
prepared-users uuid user_id now db =
    backfill-users uuid user_id now (keep (is_legacy user_id db.slot_cards) db.cards) db

granted_at-update :
    (user_id : ℕ) (f : User → User) (users : List User)
    → ((u : User) → (f u).id ≡ u.id)
    → ((u : User) → (f u).bot_trial_granted_at ≡ u.bot_trial_granted_at)
    → granted_at user_id (update_where (λ u. u.id == user_id) f users) ≡ granted_at user_id users
granted_at-update user_id f [] same kept = refl
granted_at-update user_id f (x ∷ xs) same kept =
    let ih = granted_at-update user_id f xs same kept in
    let id = same x in
    elim (Bool-cases (x.id == user_id)) [
      | inl hit ↦
          let hit' : ((f x).id == user_id) ≡ true = ground (arith, id, hit) in
          simp (granted_at, hit, hit', kept x)
      | inr miss ↦ simp (granted_at, miss, ih)
    ]

-- The grant writes down when it was.
granted_at-grant :
    (slot_id : String) (user_id now : ℕ) (users : List User) (u : User)
    → get_user user_id users ≡ some u
    → granted_at user_id (update_where (λ x. x.id == user_id) (granted_to slot_id now) users)
      ≡ some now
granted_at-grant slot_id user_id now [] u e = cc
granted_at-grant slot_id user_id now (x ∷ xs) u e = elim (Bool-cases (x.id == user_id)) [
  | inl hit ↦ rw (granted_at, hit, hit) refl
  | inr miss ↦
      rw (granted_at, miss, miss) (granted_at-grant slot_id user_id now xs u (rw miss at e))
]

-- The repair of a user who holds a slot leaves that time.
repaired-granted :
    (p : UserAuthorization) (mine : List UserAuthorization) (u : User)
    → ((repaired (some p) mine u).id ≡ u.id)
      × ((repaired (some p) mine u).bot_trial_granted_at ≡ u.bot_trial_granted_at)
repaired-granted p mine u = (ground arith, ground arith)

normalize-granted_at :
    (uuid : ℕ → String) (user_id now : ℕ) (db : LicenseDb)
    → any (slot_of user_id) db.slots ≡ true
    → granted_at user_id (normalize_single_authorization_model uuid user_id now db).2.users
      ≡ granted_at user_id db.users
unfolding normalize_single_authorization_model
normalize-granted_at uuid user_id now db h =
    let ready = prepared uuid user_id now db in
    let held = some_slot uuid user_id now db h in
    elim (Option-cases (primary_slot user_id now ready)) [
      | inl free ↦ absurd (cc (rw free at held))
      | inr (p, e) ↦ rw e (
          granted_at-update user_id _ ready.users (λ u. (repaired-granted p _ u).0)
            (λ u. (repaired-granted p _ u).1)
          ∙ ap (granted_at user_id) (prepared-users uuid user_id now db))
    ]

-- Whoever was granted a trial is granted nothing, and no row is changed.
granted-marked :
    (id : String) (user_id : ℕ) (account_id : String) (later : ℕ)
    (primary : Option UserAuthorization) (db : LicenseDb) (t : ℕ)
    → granted_at user_id db.users ≡ some t
    → granted id user_id account_id later primary (get_user user_id db.users) db ≡ (none, db)
granted-marked id user_id account_id later primary db t e =
    elim (Option-cases (get_user user_id db.users)) [
      | inl gone ↦ absurd (cc (sym (ap noted_at gone) ∙ e))
      | inr (u, found) ↦
          let given : u.bot_trial_granted_at ≡ some t = sym (ap noted_at found) ∙ e in
          rw (found, given) refl
    ]

not_any :
    (uuid : ℕ → String) (user_id now : ℕ) (db : LicenseDb)
    → (normalize_single_authorization_model uuid user_id now db).0 ≡ none
    → any (slot_of user_id) db.slots ≡ false
not_any uuid user_id now db e = elim (Bool-cases (any (slot_of user_id) db.slots)) [
  | inl held ↦ absurd (cc (present _ (some_slot uuid user_id now db held) e))
  | inr free ↦ free
]

-- A trial that is granted is of seven days from now, and to a user who held no slot and had used no
-- card. From then on, in all tables where the user holds some slot and the row still says when the
-- trial was granted, as the tables after the grant do, the same user is granted none, for any account
-- and at any time: the request does no more than normalize, and the row still says when.
pub trial_once :
    (uuid : ℕ → String) (user_id : ℕ) (account_id : String) (now : ℕ) (db : LicenseDb)
    (s : UserAuthorization) (after : LicenseDb) (other : String) (later : ℕ) (rows : LicenseDb)
    → grant_trial_authorization_if_eligible uuid user_id account_id now db ≡ (some s, after)
    → any (slot_of user_id) rows.slots ≡ true
    → granted_at user_id rows.users ≡ granted_at user_id after.users
    → (s.end_at ≡ now + days 7)
      × (s.current_account_id ≡ some account_id)
      × (any (slot_of user_id) db.slots ≡ false)
      × (has_used_card user_id db ≡ false)
      × (any (slot_of user_id) after.slots ≡ true)
      × (granted_at user_id after.users ≡ some now)
      × (let ready = (normalize_single_authorization_model uuid user_id later rows).2 in
          (grant_trial_authorization_if_eligible uuid user_id other later rows ≡ (none, ready))
          × (granted_at user_id ready.users ≡ some now))
unfolding grant_trial_authorization_if_eligible
trial_once uuid user_id account_id now db s after other later rows e held same =
    let (slot, account, ready) = normalize_single_authorization_model uuid user_id now db in
    let (no_slot, no_card, own, u, found, given) =
      granted-some (uuid ready.ids) user_id account_id now slot (get_user user_id ready.users) ready
        s after e in
    let row = ap (λ x. x.0) given in
    let kept : after.slots ≡ (add_trial (uuid ready.ids) user_id account_id now ready).1.slots =
      ap (λ x. x.1.slots) given in
    let noted : granted_at user_id after.users ≡ some now =
      ap (λ x. granted_at user_id x.1.users) given
      ∙ granted_at-grant (uuid ready.ids) user_id now ready.users u found in
    let still = normalize-granted_at uuid user_id later rows held ∙ same ∙ noted in
    (
      cc (row),
      cc (row),
      not_any uuid user_id now db no_slot,
      rw (← normalize-cards uuid user_id now db) no_card,
      subst (λ xs. any (slot_of user_id) xs ≡ true) (sym kept)
          (any-right (slot_of user_id) ready.slots _ (ground arith)),
      noted,
      (granted-marked _ user_id other later _ _ now still, still),
    )
