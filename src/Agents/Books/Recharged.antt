-- ===== src/Agents/Books/Recharged.antt =====
-- A recharge loses nothing (`create_recharge_entry`).
use tg_auto_msg.Prelude.{
  ℕ, ◌+◌, ◌≡◌, refl, sym, ap, ◌∙◌, ◌⊎◌, inl, inr, true, ◌&&◌, not, some, List, String, ◌==◌, ==_iff,
  or_else, update_where, Bool-cases, Option-cases, arith,
}
use mathlib.Core.Path.{subst}
use tg_auto_msg.Prelude.Text.{str_eq}
use tg_auto_msg.Prelude.Keyed.{find-Mem}
use tg_auto_msg.Http.{ok, ok_same, Result-cases}
use tg_auto_msg.Agents.Rows.{AdminAccount, AgentDb, has_id, admin_of, with_admin}
use tg_auto_msg.Agents.Rbac.{is_agent, is_staff}
use tg_auto_msg.Agents.Visibility.{ensure_visible_account, includes, visible_account_ids}
use tg_auto_msg.Agents.Credit.{used_of, balance_of}
use tg_auto_msg.Agents.Settlement.{current}
use tg_auto_msg.Agents.Recharge.{
  auto_settle_credit_batches_for_recharge, own_pending, has_pending_credit_batches, prepay, top_up,
  topped_up, enter_recharge, create_recharge_entry,
}
use tg_auto_msg.Agents.Books.{admin_of-update, changed}
use tg_auto_msg.Agents.Books.Repaid.{
  prepay_of, IsPaid, unpaid, row_after, update_elsewhere, settle_each-IsPaid,
}

-- An account that may be seen is the row of the id that was asked for.
pub visible-found :
    (accounts : List AdminAccount) (viewer : AdminAccount) (k : ℕ) (a : AdminAccount)
    → ensure_visible_account accounts viewer k ≡ ok a
    → admin_of accounts k ≡ some a
visible-found accounts viewer k a e = elim (Option-cases (admin_of accounts k)) [
  | inl absent ↦ absurd (cc (rw absent at e))
  | inr (b, found) ↦ elim (Bool-cases (is_staff viewer)) [
    | inl staff ↦ elim (Bool-cases (str_eq b.province_code viewer.province_code)) [
      | inl same ↦ found ∙ ap some (ok_same b a (rw (found, staff, same) at e))
      | inr other ↦ absurd (cc (rw (found, staff, other) at e))
    ]
    | inr agent ↦ elim (Bool-cases (includes b.id (visible_account_ids accounts viewer))) [
      | inl seen ↦ found ∙ ap some (ok_same b a (rw (found, seen, agent) at e))
      | inr hidden ↦ absurd (cc (rw (found, hidden, agent) at e))
    ]
  ]
]

-- Between the two tables the amount came in: a part of it settled batches, which freed as much of the
-- credit, and the rest is the account's. No other account changed.
abbrev pub IsRecharged : ℕ → ℕ → ℕ → List AdminAccount → List AdminAccount → Type 0
IsRecharged s amount settled before after =
    (balance_of after s + prepay_of after s + settled
      ≡ balance_of before s + prepay_of before s + amount)
    × (used_of after s + settled ≡ used_of before s)
    × ((k : ℕ) → ((s == k) ≡ true) ⊎ (admin_of after k ≡ admin_of before k))

prepaid :
    (s n : ℕ) (accounts : List AdminAccount) (a : AdminAccount)
    → admin_of accounts s ≡ some a
    → IsRecharged s n 0 accounts (update_where (has_id s) (prepay n) accounts)
prepaid s n accounts a there =
    let after = row_after s (prepay n) (λ x. refl) accounts a there in
    (
      rw (balance_of, prepay_of, after, there) (omega arith),
      rw (used_of, after, there) (omega arith),
      update_elsewhere s (prepay n) (λ x. refl) accounts,
    )

topped :
    (s : ℕ) (accounts : List AdminAccount)
    → IsRecharged s 0 0 accounts (update_where (has_id s) top_up accounts)
topped s accounts = elim (Option-cases (admin_of accounts s)) [
  | inl absent ↦
      let after = admin_of-update top_up (λ x. refl) s accounts s ∙ ap (changed s top_up) absent in
      (
        rw (balance_of, prepay_of, after, absent) refl,
        rw (used_of, after, absent) refl,
        update_elsewhere s top_up (λ x. refl) accounts,
      )
  | inr (a, there) ↦
      let after = row_after s top_up (λ x. refl) accounts a there in
      (
        rw (balance_of, prepay_of, after, there) (omega arith),
        rw (used_of, after, there) (omega arith),
        update_elsewhere s top_up (λ x. refl) accounts,
      )
]

paid_down :
    (s n : ℕ) (first second : List AdminAccount)
    → IsPaid s n first second
    → IsRecharged s 0 n first second
paid_down s n first second (p, u, b, o) = (omega (arith, p, b), u, o)

topped_up-IsRecharged :
    (s : ℕ) (db : AgentDb) → IsRecharged s 0 0 db.accounts (topped_up s db).accounts
topped_up-IsRecharged s db = elim (Bool-cases (has_pending_credit_batches s db.batches)) [
  | inl owing ↦ rw owing (paid_down s 0 db.accounts db.accounts (unpaid s db.accounts))
  | inr free ↦ rw free (topped s db.accounts)
]

IsRecharged-on :
    (s x y z n m q : ℕ) (first second third : List AdminAccount)
    → x + y ≡ z
    → n + m ≡ q
    → IsRecharged s x n first second
    → IsRecharged s y m second third
    → IsRecharged s z q first third
IsRecharged-on s x y z n m q first second third f g (p, u, o) (p', u', o') = (
  omega (arith, p, p', f, g),
  omega (arith, u, u', f, g),
  λ k. elim (o k) [
    | inl same ↦ inl same
    | inr e ↦ elim (o' k) [ inl same ↦ inl same | inr e' ↦ inr (e' ∙ e) ]
  ],
)

module _ (hex : ℕ → String) where
  auto_settle-IsPaid :
      (subject : AdminAccount) (operator : ℕ) (db after : AgentDb) (settled : ℕ) (a : AdminAccount)
      → admin_of db.accounts subject.id ≡ some a
      → auto_settle_credit_batches_for_recharge hex subject operator db ≡ ok (settled, after)
      → IsPaid subject.id settled db.accounts after.accounts
  auto_settle-IsPaid subject operator db after settled a there e =
      elim (Bool-cases ((current db subject).credit_prepay_cents == 0)) [
        | inl nothing ↦
            subst (λ (r : ℕ × AgentDb). IsPaid subject.id r.0 db.accounts r.1.accounts)
              (ok_same (0, db) (settled, after) (rw nothing at e)) (unpaid subject.id db.accounts)
        | inr funds ↦
            settle_each-IsPaid hex subject operator (own_pending subject.id db.batches) db after
              settled a there (rw funds at e)
      ]

  enter_recharge-IsRecharged :
      (operator subject : AdminAccount) (n : ℕ) (db after : AgentDb) (settled : ℕ)
      → admin_of db.accounts subject.id ≡ some subject
      → enter_recharge hex operator subject n db ≡ ok (settled, after)
      → IsRecharged subject.id n settled db.accounts after.accounts
  enter_recharge-IsRecharged operator subject n db after settled there e =
      let paid_in = with_admin subject.id (prepay n) db in
      elim (Result-cases
        (auto_settle_credit_batches_for_recharge hex subject operator.id paid_in)) [
          | inl (x, bad) ↦ absurd (cc (rw bad at e))
          | inr ((m, mid), good) ↦
              let there' = row_after subject.id (prepay n) (λ x. refl) db.accounts subject there in
              let first = prepaid subject.id n db.accounts subject there in
              let second =
                paid_down subject.id m paid_in.accounts mid.accounts
                  (auto_settle-IsPaid subject operator.id paid_in mid m _ there' good) in
              let third = topped_up-IsRecharged subject.id mid in
              let whole =
                IsRecharged-on subject.id n 0 n 0 m m db.accounts paid_in.accounts _ (omega arith)
                  (omega arith) first
                  (IsRecharged-on subject.id 0 0 0 m 0 m paid_in.accounts mid.accounts _
                    (omega arith) (omega arith) second third) in
              subst (λ (r : ℕ × AgentDb). IsRecharged subject.id n r.0 db.accounts r.1.accounts)
                (ok_same _ (settled, after) (rw good at e)) whole
        ]

  -- What a recharge has passed: the account is found, and the money came in.
  pub recharge-passed :
      (admin account : AdminAccount) (k n settled : ℕ) (db after : AgentDb)
      → create_recharge_entry hex admin k n db ≡ ok (settled, account, after)
      → (subject : AdminAccount) × (final : AgentDb) × (admin_of db.accounts k ≡ some subject)
        × (admin_of db.accounts subject.id ≡ some subject)
        × (subject.id ≡ k)
        × (enter_recharge hex (current db admin) subject n db ≡ ok (settled, final))
        × (after.accounts ≡ final.accounts)
        × (after.batches ≡ final.batches)
  recharge-passed admin account k n settled db after e =
      let operator = current db admin in
      elim (Bool-cases (n == 0)) [
        | inl nothing ↦ absurd (cc (rw nothing at e))
        | inr some_amount ↦ elim (Result-cases (ensure_visible_account db.accounts operator k)) [
          | inl (x, bad) ↦ absurd (cc (rw (some_amount, bad) at e))
          | inr (subject, visible) ↦ elim (Bool-cases (is_agent subject)) [
            | inr staff ↦ absurd (cc (rw (some_amount, visible, staff) at e))
            | inl agent ↦
                elim (Bool-cases (
                  not (is_staff operator)
                  && not (or_else subject.parent_account_id 0 == operator.id))) [
                    | inl strange ↦ absurd (cc (rw (some_amount, visible, agent, strange) at e))
                    | inr own ↦ elim (Result-cases (enter_recharge hex operator subject n db)) [
                      | inl (x, bad) ↦ absurd (cc (rw (some_amount, visible, bad, agent, own) at e))
                      | inr ((m, final), good) ↦
                          let found = visible-found db.accounts operator k subject visible in
                          let (_, hit) = find-Mem (has_id k) db.accounts subject found in
                          let id : subject.id ≡ k = (==_iff subject.id k).0 hit in
                          let there =
                            subst (λ i. admin_of db.accounts i ≡ some subject) (sym id) found in
                          let same =
                            ok_same _ (settled, account, after)
                              (rw (some_amount, visible, good, agent, own) at e) in
                          (
                            subject,
                            final,
                            found,
                            there,
                            id,
                            subst
                                (λ (r : ℕ × AdminAccount × AgentDb).
                                  enter_recharge hex operator subject n db ≡ ok (r.0, final))
                                same good,
                            sym (ap (λ (r : ℕ × AdminAccount × AgentDb). r.2.accounts) same),
                            sym (ap (λ (r : ℕ × AdminAccount × AgentDb). r.2.batches) same),
                          )
                    ]
                  ]
          ]
        ]
      ]

  -- A recharge that goes through loses nothing: the account's balance, its prepaid credit and what was
  -- settled add up to what it had before and the amount; its used credit falls by what was settled; and
  -- every other account is left as it was.
  pub create_recharge_entry-IsRecharged :
      (admin account : AdminAccount) (k n settled : ℕ) (db after : AgentDb)
      → create_recharge_entry hex admin k n db ≡ ok (settled, account, after)
      → IsRecharged k n settled db.accounts after.accounts
  create_recharge_entry-IsRecharged admin account k n settled db after e =
      let (subject, final, _, there, id, good, accounts, _) =
        recharge-passed admin account k n settled db after e in
      let whole =
        enter_recharge-IsRecharged (current db admin) subject n db final settled there good in
      subst (IsRecharged k n settled db.accounts) (sym accounts)
        (subst (λ i. IsRecharged i n settled db.accounts final.accounts) id whole)
