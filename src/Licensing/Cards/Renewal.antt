-- ===== src/Licensing/Cards/Renewal.antt =====
-- What a card adds to the time that is paid for.
use tg_auto_msg.Prelude.{
  ℕ, ◌+◌, ◌<◌, ◌≡◌, refl, sym, ap, ◌∙◌, max, Bool, true, List, [], ◌∷◌, ◌++◌, keep, update_where,
  Option, none, some, String, arith, find,
}
use mathlib.Core.Path.{subst}
use tg_auto_msg.Prelude.Text.{strip, upper}
use tg_auto_msg.Prelude.Keyed.{IsKeyedBy}
use text.Mathlib.TextPositions.{eq_refl}
use tg_auto_msg.Licensing.Single.{normalize_single, listed}
use tg_auto_msg.Http.{ok}
use tg_auto_msg.Schema.{Account}
use tg_auto_msg.Licensing.Rows.{
  ActivationCard, UserAuthorization, LicenseDb, has_slot_id, slot_of, days, is_running,
  resolve_card_duration_days,
}
use tg_auto_msg.Licensing.Normalize.{normalize_single_authorization_model, prepared, id_of}
use tg_auto_msg.Licensing.Cards.{activate_card_for_user, apply_card, renewed, new_slot, has_code}
use tg_auto_msg.Licensing.Cards.Activation.{usable_days-ok, activated-ok, activation-ok}

-- The time that a user's slot is paid for, and the days that it was given, before a card is applied.
abbrev pub paid_until : ℕ → Option UserAuthorization → ℕ
paid_until now none = now
paid_until now (some slot) = max now slot.end_at

abbrev pub days_given : Option UserAuthorization → ℕ
days_given none = 0
days_given (some slot) = slot.total_duration_days

apply_card-adds :
    (id : String) (user_id : ℕ) (d : ActivationCard) (n now : ℕ) (slot : Option UserAuthorization)
    (account : Option Account) (db : LicenseDb)
    → 0 < n
    → let s = (apply_card id user_id d n now slot account db).0 in
      (s.end_at ≡ paid_until now slot + days n)
      × (s.total_duration_days ≡ days_given slot + n)
      × (is_running now s ≡ true)
apply_card-adds id user_id d n now none account db h = (refl, omega arith, ground arith)
apply_card-adds id user_id d n now (some o) account db h = (ground arith, refl, ground arith)

keep-append :
    (user_id : ℕ) (xs : List UserAuthorization) (s : UserAuthorization)
    → slot_of user_id s ≡ true
    → keep (slot_of user_id) (xs ++ (s ∷ [])) ≡ keep (slot_of user_id) xs ++ (s ∷ [])
keep-append user_id [] s own = ground arith
keep-append user_id (x ∷ xs) s own = ground (arith, keep-append user_id xs s own)

keep-update :
    (user_id : ℕ) (q : UserAuthorization → Bool) (f : UserAuthorization → UserAuthorization)
    (xs : List UserAuthorization)
    → ((s : UserAuthorization) → (f s).user_id ≡ s.user_id)
    → keep (slot_of user_id) (update_where q f xs) ≡ update_where q f (keep (slot_of user_id) xs)
keep-update user_id q f [] same = refl
keep-update user_id q f (x ∷ xs) same = ground (arith, same x, keep-update user_id q f xs same)

-- The one slot of the user, with the card.
apply_card-slots :
    (id : String) (user_id : ℕ) (d : ActivationCard) (n now : ℕ) (slot : Option UserAuthorization)
    (account : Option Account) (db : LicenseDb)
    → keep (slot_of user_id) db.slots ≡ listed slot
    → let (s, after) = apply_card id user_id d n now slot account db in
      keep (slot_of user_id) after.slots ≡ s ∷ []
apply_card-slots id user_id d n now none account db one =
    let new = new_slot id user_id d n (id_of account) now in
    keep-append user_id db.slots new (ground arith) ∙ ap (λ l. l ++ (new ∷ [])) one
apply_card-slots id user_id d n now (some o) account db one =
    let own : has_slot_id o.authorization_id o ≡ true = eq_refl o.authorization_id in
    keep-update user_id (has_slot_id o.authorization_id) (renewed d n now) db.slots (λ s. refl)
    ∙ ap (update_where (has_slot_id o.authorization_id) (renewed d n now)) one
    ∙ rw own refl

-- An activation that succeeds gives the user's one slot all days of the card: they are counted from
-- the end of what was paid for, or from now where that has passed, the total grows by as many,
-- and the slot is running. In the tables after it, that slot is all that the user has. Ids are the keys
-- of their tables.
pub activation_adds_days :
    (uuid : ℕ → String) (user_id : ℕ) (card_code : String) (now : ℕ) (db : LicenseDb)
    (s : UserAuthorization) (c : ActivationCard) (after : LicenseDb)
    → IsKeyedBy (λ (a : Account). a.account_id) db.accounts
    → IsKeyedBy (λ (o : UserAuthorization). o.authorization_id) (prepared uuid user_id now db).slots
    → activate_card_for_user uuid user_id card_code now db ≡ ok (s, c, after)
    → let slot = (normalize_single_authorization_model uuid user_id now db).0 in
      let n =
        resolve_card_duration_days
          (normalize_single_authorization_model uuid user_id now db).2.plans
          c in
      (s.end_at ≡ paid_until now slot + days n)
      × (s.total_duration_days ≡ days_given slot + n)
      × (0 < n)
      × (is_running now s ≡ true)
      × (keep (slot_of user_id) after.slots ≡ s ∷ [])
activation_adds_days uuid user_id card_code now db s c after accounts_keyed slots_keyed e =
    let (slot, account, ready) = normalize_single_authorization_model uuid user_id now db in
    let (given, run) = activation-ok uuid user_id card_code now db s c after e in
    let (d, n, usable, of_slot, of_db, of_card) =
      activated-ok _ user_id now slot account ready _ s c after run in
    let (found, good) =
      usable_days-ok now ready (find (has_code (upper (strip card_code))) ready.cards) d n usable in
    let counted : n ≡ resolve_card_duration_days ready.plans c =
      good.given ∙ sym (ap (resolve_card_duration_days ready.plans) of_card) in
    let (one, _, _, _) = normalize_single uuid user_id now db accounts_keyed slots_keyed in
    let stored : keep (slot_of user_id) after.slots ≡ s ∷ [] =
      ap (λ x. keep (slot_of user_id) x.slots) of_db
      ∙ apply_card-slots (uuid ready.ids) user_id d n now slot account ready one
      ∙ ap (λ x. x ∷ []) (sym of_slot) in
    subst
      (λ t.
        (s.end_at ≡ paid_until now slot + days t)
        × (s.total_duration_days ≡ days_given slot + t)
        × (0 < t)
        × (is_running now s ≡ true)
        × (keep (slot_of user_id) after.slots ≡ s ∷ []))
      counted
      (subst
        (λ x.
          (x.end_at ≡ paid_until now slot + days n)
          × (x.total_duration_days ≡ days_given slot + n)
          × (0 < n)
          × (is_running now x ≡ true)
          × (keep (slot_of user_id) after.slots ≡ s ∷ []))
        (sym of_slot)
        (let (ends, total, runs) =
            apply_card-adds (uuid ready.ids) user_id d n now slot account ready good.positive in
          (ends, total, good.positive, runs, stored)))
