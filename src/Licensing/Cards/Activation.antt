-- ===== src/Licensing/Cards/Activation.antt =====
-- A card counts once, and adds its days to what was paid for.
use tg_auto_msg.Prelude.{
  ℕ, ◌<◌, keep, ◌≡◌, refl, sym, ap, ◌∙◌, inl, inr, true, false, Option, none, some, List, [], ◌∷◌,
  String, arith, ◌==◌, find, update_where, Bool-cases,
}
use mathlib.Core.Path.{subst}
use tg_auto_msg.Prelude.Text.{is_blank, strip, upper}
use tg_auto_msg.Http.{Result, ok, refused, refuse, HttpException}
use tg_auto_msg.Schema.{Account}
use tg_auto_msg.Licensing.Rows.{
  ActivationCard, UserAuthorization, LicenseDb, resolve_card_duration_days,
}
use tg_auto_msg.Licensing.Normalize.{
  normalize_single_authorization_model, backfill, backfill_legacy_used_cards, sync_expired_slots,
  add_slot, choose_legacy_bind_account, is_legacy,
}
use tg_auto_msg.Licensing.Cards.{
  activate_card_for_user, activated, usable_days, apply_card, has_code, has_passed, used_by,
  mark_used,
}

-- A normalization leaves the cards and the plans.
backfill-cards :
    (uuid : ℕ → String) (user_id now : ℕ) (cards : List ActivationCard) (db : LicenseDb)
    → (backfill uuid user_id now cards db).cards ≡ db.cards
unfolding backfill
backfill-cards uuid user_id now [] db = refl
backfill-cards uuid user_id now (c ∷ cards) db =
    elim (Bool-cases (resolve_card_duration_days db.plans c == 0)) [
      | inl none_given ↦ rw (backfill, none_given) (backfill-cards uuid user_id now cards db)
      | inr given ↦
          rw (backfill, given)
            (backfill-cards uuid user_id now cards (
              add_slot (uuid db.ids) user_id (choose_legacy_bind_account user_id now db) c
                (resolve_card_duration_days db.plans c) now db))
    ]

pub normalize-cards :
    (uuid : ℕ → String) (user_id now : ℕ) (db : LicenseDb)
    → (normalize_single_authorization_model uuid user_id now db).2.cards ≡ db.cards
unfolding normalize_single_authorization_model sync_expired_slots backfill_legacy_used_cards
normalize-cards uuid user_id now db =
    backfill-cards uuid user_id now (keep (is_legacy user_id db.slot_cards) db.cards) db

apply_card-cards :
    (id : String) (user_id : ℕ) (c : ActivationCard) (duration now : ℕ)
    (slot : Option UserAuthorization) (account : Option Account) (db : LicenseDb)
    → (apply_card id user_id c duration now slot account db).1.cards ≡ db.cards
apply_card-cards id user_id c duration now none account db = refl
apply_card-cards id user_id c duration now (some s) account db = refl

-- The card that is found by its code is found again, used.
find-mark :
    (code : String) (user_id now : ℕ) (c : ActivationCard) (cards : List ActivationCard)
    → find (has_code code) cards ≡ some c
    → find (has_code code) (update_where (λ d. d.id == c.id) (used_by user_id now) cards)
      ≡ some (used_by user_id now c)
find-mark code user_id now c [] e = cc
find-mark code user_id now c (d ∷ cards) e = elim (Bool-cases (has_code code d)) [
  | inl hit ↦
      let found : some d ≡ some c = rw hit at e in
      let same : d ≡ c = cc in
      subst
        (λ x.
          find (has_code code) (update_where (λ y. y.id == c.id) (used_by user_id now) (x ∷ cards))
          ≡ some (used_by user_id now c))
        (sym same)
        (let own : (c.id == c.id) ≡ true = ground arith in
          let code_fits : has_code code c ≡ true = subst (λ x. has_code code x ≡ true) same hit in
          rw (own, code_fits) refl)
  | inr miss ↦
      let rest = find-mark code user_id now c cards (rw miss at e) in
      elim (Bool-cases (d.id == c.id)) [
        | inl same_id ↦ rw (same_id, miss) rest
        | inr other_id ↦ rw (other_id, miss) rest
      ]
]

-- What a card must be to be applied.
pub record Usable (db : LicenseDb) (d : ActivationCard) (n : ℕ) : Type 0 where
  pub switched_on : d.is_active ≡ true
  pub fresh : d.is_used ≡ false
  pub given : n ≡ resolve_card_duration_days db.plans d
  pub positive : 0 < n

refused-ok : {A : Type 0} (x : HttpException) (a : A) → refused x ≡ ok a → ⊥
refused-ok x a e = cc

pub usable_days-ok :
    (now : ℕ) (db : LicenseDb) (found : Option ActivationCard) (d : ActivationCard) (n : ℕ)
    → usable_days now db found ≡ ok (d, n)
    → (found ≡ some d) × Usable db d n
usable_days-ok now db none d n e = cc
usable_days-ok now db (some c) d n e = elim (Bool-cases c.is_active) [
  | inr off ↦ absurd (refused-ok _ _ (rw off at e))
  | inl on ↦ elim (Bool-cases c.is_used) [
    | inl used ↦ absurd (refused-ok _ _ (rw (on, used) at e))
    | inr fresh ↦ elim (Bool-cases (has_passed now c.expires_at)) [
      | inl passed ↦ absurd (refused-ok _ _ (rw (on, fresh, passed) at e))
      | inr valid ↦ elim (Bool-cases (resolve_card_duration_days db.plans c == 0)) [
        | inl zero_days ↦ absurd (refused-ok _ _ (rw (on, fresh, valid, zero_days) at e))
        | inr given ↦
            let opened : ◌≡◌ {A = Result (ActivationCard × ℕ)}
                (ok (c, resolve_card_duration_days db.plans c)) (ok (d, n)) =
              simp (on, fresh, valid, given) at e in
            let same : c ≡ d = cc in
            let days_given : n ≡ resolve_card_duration_days db.plans c = cc in
            (
              ap (λ x. some x) same,
              subst (λ x. Usable db x n) same
                  (record {
                    switched_on = on;
                    fresh = fresh;
                    given = days_given;
                    positive = ground (arith, days_given);
                  }),
            )
      ]
    ]
  ]
]

pub activated-ok :
    (id : String) (user_id now : ℕ) (slot : Option UserAuthorization) (account : Option Account)
    (db : LicenseDb) (r : Result (ActivationCard × ℕ)) (s : UserAuthorization) (c : ActivationCard)
    (after : LicenseDb)
    → activated id user_id now slot account db r ≡ ok (s, c, after)
    → (d : ActivationCard) × (n : ℕ) × (r ≡ ok (d, n))
      × (s ≡ (apply_card id user_id d n now slot account db).0)
      × (after ≡ mark_used user_id now d (apply_card id user_id d n now slot account db).1)
      × (c ≡ used_by user_id now d)
activated-ok id user_id now slot account db (refused x) s c after e = cc
activated-ok id user_id now slot account db (ok (d, n)) s c after e = (d, n, refl, cc, cc, cc)

-- What an activation that succeeds went through.
pub activation-ok :
    (uuid : ℕ → String) (user_id : ℕ) (card_code : String) (now : ℕ) (db : LicenseDb)
    (s : UserAuthorization) (c : ActivationCard) (after : LicenseDb)
    → activate_card_for_user uuid user_id card_code now db ≡ ok (s, c, after)
    → let (slot, account, ready) = normalize_single_authorization_model uuid user_id now db in
      let code = upper (strip card_code) in
      (is_blank code ≡ false)
      × (activated
            (uuid ready.ids)
            user_id
            now
            slot
            account
            ready
            (usable_days now ready (find (has_code code) ready.cards))
          ≡ ok (s, c, after))
unfolding activate_card_for_user
activation-ok uuid user_id card_code now db s c after e =
    elim (Bool-cases (is_blank (upper (strip card_code)))) [
      | inl blank ↦ absurd (refused-ok _ _ (rw blank at e))
      | inr given ↦ (given, rw given at e)
    ]

activation-cards :
    (uuid : ℕ → String) (user_id : ℕ) (card_code : String) (now : ℕ) (db : LicenseDb)
    (s : UserAuthorization) (c : ActivationCard) (after : LicenseDb)
    → activate_card_for_user uuid user_id card_code now db ≡ ok (s, c, after)
    → (d : ActivationCard) × (d.is_active ≡ true)
      × (find (has_code (upper (strip card_code))) after.cards ≡ some (used_by user_id now d))
activation-cards uuid user_id card_code now db s c after e =
    let code = upper (strip card_code) in
    let (slot, account, ready) = normalize_single_authorization_model uuid user_id now db in
    let (given, run) = activation-ok uuid user_id card_code now db s c after e in
    let (d, n, usable, of_slot, of_db, of_card) =
      activated-ok _ user_id now slot account ready _ s c after run in
    let (found, good) = usable_days-ok now ready (find (has_code code) ready.cards) d n usable in
    let step : after.cards
        ≡ update_where (λ x. x.id == d.id) (used_by user_id now)
            (apply_card (uuid ready.ids) user_id d n now slot account ready).1.cards =
      ap (λ x. x.cards) of_db in
    let marked =
      step
      ∙ ap (update_where (λ x. x.id == d.id) (used_by user_id now))
          (apply_card-cards (uuid ready.ids) user_id d n now slot account ready) in
    (
      d,
      good.switched_on,
      subst (λ cs. find (has_code code) cs ≡ some (used_by user_id now d)) (sym marked)
          (find-mark code user_id now d ready.cards found),
    )

-- The code of a card that one activation took is refused by the next one, by any user and at any
-- time, with the answer that the card has been used.
pub used_once :
    (uuid : ℕ → String) (user_id : ℕ) (card_code : String) (now : ℕ) (db : LicenseDb)
    (s : UserAuthorization) (c : ActivationCard) (after : LicenseDb) (other later : ℕ)
    → activate_card_for_user uuid user_id card_code now db ≡ ok (s, c, after)
    → activate_card_for_user uuid other card_code later after ≡ refuse 400 "卡密已被使用"
unfolding activate_card_for_user
used_once uuid user_id card_code now db s c after other later e =
    let code = upper (strip card_code) in
    let (given, run) = activation-ok uuid user_id card_code now db s c after e in
    let (d, on, found) = activation-cards uuid user_id card_code now db s c after e in
    let again = normalize_single_authorization_model uuid other later after in
    let seen : find (has_code code) again.2.cards ≡ some (used_by user_id now d) =
      rw (normalize-cards uuid other later after) found in
    rw (given, seen, on) refl
