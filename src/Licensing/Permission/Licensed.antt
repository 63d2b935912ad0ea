-- ===== src/Licensing/Permission/Licensed.antt =====
-- An account may send exactly while a running slot holds it.
use tg_auto_msg.Prelude.{
  ℕ, ◌≡◌, ◌⊎◌, refl, inl, inr, Bool, true, false, ◌&&◌, Option, none, some, List, [], ◌∷◌, String,
  arith, any, keep, best, is_some, sym, ◌∙◌, Bool-cases, Option-cases, update_where,
}
use tg_auto_msg.Schema.{Task}
use tg_auto_msg.Licensing.Rows.{UserAuthorization, LicenseDb, names_id, is_running}
use tg_auto_msg.Licensing.Normalize.{switched_off}
use tg_auto_msg.Licensing.Permission.{
  holds, ends_later, summary_of, normalized_for, get_account_authorization_summary,
  disable_tasks_for_account_if_unlicensed,
}

best-keep :
    (p : UserAuthorization → Bool) (xs : List UserAuthorization)
    → is_some (best ends_later (keep p xs)) ≡ any p xs
best-keep p [] = refl
best-keep p (x ∷ xs) = elim (Bool-cases (p x)) [
  | inl hit ↦ rw hit refl
  | inr miss ↦ rw miss (best-keep p xs)
]

can_create-summary_of :
    (id : String) (now : ℕ) (db : LicenseDb) (slot : Option UserAuthorization)
    → (summary_of id now db slot).can_create_tasks ≡ is_some slot
can_create-summary_of id now db (some s) = refl
can_create-summary_of id now db none =
    elim (Option-cases (best ends_later (keep (holds id) db.slots))) [
      | inl e ↦ rw e refl
      | inr (s, e) ↦ rw e refl
    ]

-- The summary allows an account to send exactly if some slot that is active and not over is bound to
-- it, among the slots that the normalization leaves.
pub can_create_iff :
    (uuid : ℕ → String) (id : String) (now : ℕ) (db : LicenseDb)
    → let (summary, after) = get_account_authorization_summary uuid id now db in
      summary.can_create_tasks ≡ any (λ s. holds id s && is_running now s) after.slots
unfolding get_account_authorization_summary
can_create_iff uuid id now db =
    let after = normalized_for uuid id now db in
    can_create-summary_of id now after _
    ∙ best-keep (λ s. holds id s && is_running now s) after.slots

abbrev pub is_enabled_for : String → Task → Bool
is_enabled_for id t = names_id id t.account_id && t.enabled

none_enabled :
    (id : String) (tasks : List Task)
    → any (is_enabled_for id) (update_where (is_enabled_for id) switched_off tasks) ≡ false
none_enabled id [] = refl
none_enabled id (t ∷ tasks) = ground (arith, none_enabled id tasks)

-- After the check for licences either a running slot holds the account or it has no enabled task.
pub unlicensed_disabled :
    (uuid : ℕ → String) (id : String) (now : ℕ) (db : LicenseDb)
    → let after = (disable_tasks_for_account_if_unlicensed uuid id now db).1 in
      (any (λ s. holds id s && is_running now s) after.slots ≡ true)
      ⊎ (any (is_enabled_for id) after.tasks ≡ false)
unfolding disable_tasks_for_account_if_unlicensed
unlicensed_disabled uuid id now db =
    elim (Bool-cases (get_account_authorization_summary uuid id now db).0.can_create_tasks) [
      | inl allowed ↦ rw allowed (inl (sym (can_create_iff uuid id now db) ∙ allowed))
      | inr refused ↦
          rw refused
            (inr (none_enabled id (get_account_authorization_summary uuid id now db).1.tasks))
    ]
