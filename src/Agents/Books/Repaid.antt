-- ===== src/Agents/Books/Repaid.antt =====
-- A recharge: no cent of it is lost, and the books are kept (`create_recharge_entry`).
use tg_auto_msg.Prelude.{
  ℕ, ◌+◌, ◌≤◌, ◌≡◌, refl, sym, ap, ◌∙◌, ◌⊎◌, inl, inr, true, false, Option, none, some, List, [],
  ◌∷◌, String, ◌==◌, ltb, ==_iff, update_where, Bool-cases, Option-cases, arith,
}
use mathlib.Core.Path.{subst}
use tg_auto_msg.Prelude.Keyed.{find-Mem}
use tg_auto_msg.Http.{ok, ok_same, Result-cases}
use tg_auto_msg.Agents.Rows.{AdminAccount, CardBatch, AgentDb, has_id, admin_of, field, limit_of}
use tg_auto_msg.Agents.Credit.{used_of, balance_of}
use tg_auto_msg.Agents.Settlement.{
  apply_settlement_for_batch, hand_over, pay_off, owed_next, paid_up, is_batch, current, request_of,
  after_draw,
}
use tg_auto_msg.Agents.Recharge.{settle_each}
use tg_auto_msg.Agents.Books.{admin_of-update, changed}
use tg_auto_msg.Agents.Books.Settled.{settlement-passed}

-- The rows that a settlement leaves.
pub hand_over-rows :
    (a : AdminAccount) (b : CardBatch) (operator : ℕ) (request_id : String) (db after : AgentDb)
    (o : Option ℕ)
    → hand_over a b operator request_id db o ≡ ok after
    → (after.accounts ≡ db.accounts)
      × (g : CardBatch → CardBatch) × ((x : CardBatch) → (g x).batch_id ≡ x.batch_id)
      × (after.batches ≡ update_where (is_batch b.batch_id) g db.batches)
hand_over-rows a b operator request_id db after none e =
    let same = ok_same _ after e in
    (
      sym (ap (λ (x : AgentDb). x.accounts) same),
      paid_up,
      λ x. refl,
      sym (ap (λ (x : AgentDb). x.batches) same),
    )
hand_over-rows a b operator request_id db after (some p) e =
    elim (Option-cases (limit_of db.limits p a.id)) [
      | inl absent ↦ absurd (cc (simp absent at e))
      | inr (row, given) ↦ elim (Option-cases (admin_of db.accounts p)) [
        | inl absent ↦ absurd (cc (simp (given, absent) at e))
        | inr (next, found) ↦
            let same = ok_same _ after (simp (given, found) at e) in
            (
              sym (ap (λ (x : AgentDb). x.accounts) same),
              owed_next next,
              λ x. refl,
              sym (ap (λ (x : AgentDb). x.batches) same),
            )
      ]
    ]

abbrev pub prepay_of : List AdminAccount → ℕ → ℕ
prepay_of accounts k = field (λ (a : AdminAccount). a.credit_prepay_cents) 0 (admin_of accounts k)

-- The money of the account before and after, and what was settled between them.
abbrev pub IsPaid : ℕ → ℕ → List AdminAccount → List AdminAccount → Type 0
IsPaid s settled before after =
    (prepay_of after s + settled ≡ prepay_of before s)
    × (used_of after s + settled ≡ used_of before s)
    × (balance_of after s ≡ balance_of before s)
    × ((k : ℕ) → ((s == k) ≡ true) ⊎ (admin_of after k ≡ admin_of before k))

changed_self :
    (i : ℕ) (f : AdminAccount → AdminAccount) (a : AdminAccount)
    → a.id ≡ i
    → changed i f (some a) ≡ some (f a)
changed_self i f a e = let hit : (a.id == i) ≡ true = (==_iff a.id i).1 e in rw hit refl

-- The rows of other accounts are left.
pub update_elsewhere :
    (i : ℕ) (f : AdminAccount → AdminAccount) (same : (a : AdminAccount) → (f a).id ≡ a.id)
    (accounts : List AdminAccount) (k : ℕ)
    → ((i == k) ≡ true) ⊎ (admin_of (update_where (has_id i) f accounts) k ≡ admin_of accounts k)
update_elsewhere i f same accounts k = elim (Bool-cases (i == k)) [
  | inl hit ↦ inl hit
  | inr miss ↦ inr (
      rw (admin_of-update f same i accounts k) (elim (Option-cases (admin_of accounts k)) [
        | inl absent ↦ rw absent refl
        | inr (a, found) ↦
            let (_, id) = find-Mem (has_id k) accounts a found in
            let off : (a.id == i) ≡ false = ground arith in rw (found, off) refl
      ]))
]

pub row_after :
    (i : ℕ) (f : AdminAccount → AdminAccount) (same : (a : AdminAccount) → (f a).id ≡ a.id)
    (accounts : List AdminAccount) (a : AdminAccount)
    → admin_of accounts i ≡ some a
    → admin_of (update_where (has_id i) f accounts) i ≡ some (f a)
row_after i f same accounts a there =
    let (_, hit) = find-Mem (has_id i) accounts a there in
    admin_of-update f same i accounts i
    ∙ ap (changed i f) there
    ∙ changed_self i f a ((==_iff a.id i).0 hit)

pay_off-IsPaid :
    (accounts : List AdminAccount) (s n : ℕ) (a : AdminAccount)
    → admin_of accounts s ≡ some a
    → n ≤ a.credit_prepay_cents
    → n ≤ a.credit_used_cents
    → IsPaid s n accounts (update_where (has_id s) (pay_off n) accounts)
pay_off-IsPaid accounts s n a there prepaid used =
    let after = row_after s (pay_off n) (λ x. refl) accounts a there in
    (
      rw (prepay_of, after, there) (omega (arith, prepaid)),
      rw (used_of, after, there) (omega (arith, used)),
      rw (balance_of, after, there) refl,
      update_elsewhere s (pay_off n) (λ x. refl) accounts,
    )

IsPaid-on :
    (s n m : ℕ) (first second third : List AdminAccount)
    → IsPaid s n first second
    → IsPaid s m second third
    → IsPaid s (n + m) first third
IsPaid-on s n m first second third (p, u, b, o) (p', u', b', o') = (
  omega (arith, p, p'),
  omega (arith, u, u'),
  b' ∙ b,
  λ k. elim (o k) [
    | inl same ↦ inl same
    | inr e ↦ elim (o' k) [ inl same ↦ inl same | inr e' ↦ inr (e' ∙ e) ]
  ],
)

pub unpaid : (s : ℕ) (accounts : List AdminAccount) → IsPaid s 0 accounts accounts
unpaid s accounts = (omega arith, omega arith, refl, λ k. inr refl)

module _ (hex : ℕ → String) (subject : AdminAccount) (operator : ℕ) where
  -- A settlement of the loop.
  pub step-IsPaid :
      (b : CardBatch) (request_id : String) (db after : AgentDb) (a : AdminAccount)
      → admin_of db.accounts subject.id ≡ some a
      → apply_settlement_for_batch a b operator request_id db ≡ ok after
      → IsPaid subject.id b.total_amount_cents db.accounts after.accounts
        × (admin_of after.accounts subject.id ≡ some (pay_off b.total_amount_cents a))
  step-IsPaid b request_id db after a there e =
      let (_, _, prepaid, used, handed) = settlement-passed a b operator request_id db after e in
      let (same, _, _, _) =
        hand_over-rows a b operator request_id _ after a.parent_account_id handed in
      let (_, hit) = find-Mem (has_id subject.id) db.accounts a there in
      let id : a.id ≡ subject.id = (==_iff a.id subject.id).0 hit in
      let moved =
        subst
          (λ i. after.accounts ≡ update_where (has_id i) (pay_off b.total_amount_cents) db.accounts)
          id same in
      (
        subst (IsPaid subject.id b.total_amount_cents db.accounts) (sym moved)
            (pay_off-IsPaid db.accounts subject.id b.total_amount_cents a there prepaid used),
        ap (λ x. admin_of x subject.id) moved
            ∙ row_after subject.id (pay_off b.total_amount_cents) (λ x. refl) db.accounts a there,
      )

  pub settle_each-IsPaid :
      (bs : List CardBatch) (db after : AgentDb) (settled : ℕ) (a : AdminAccount)
      → admin_of db.accounts subject.id ≡ some a
      → settle_each hex subject operator bs db ≡ ok (settled, after)
      → IsPaid subject.id settled db.accounts after.accounts
  settle_each-IsPaid [] db after settled a there e =
      subst (λ (r : ℕ × AgentDb). IsPaid subject.id r.0 db.accounts r.1.accounts)
        (ok_same (0, db) (settled, after) e) (unpaid subject.id db.accounts)
  settle_each-IsPaid (b ∷ bs) db after settled a there e =
      let n = b.total_amount_cents in
      let rq = request_of hex "direct-recharge-settle-" db in
      elim (Bool-cases (n == 0)) [
        | inl free ↦ settle_each-IsPaid bs db after settled a there (rw free at e)
        | inr due ↦ elim (Bool-cases (ltb (current db subject).credit_prepay_cents n)) [
          | inl short ↦
              subst (λ (r : ℕ × AgentDb). IsPaid subject.id r.0 db.accounts r.1.accounts)
                (ok_same (0, db) (settled, after) (rw (due, short) at e))
                (unpaid subject.id db.accounts)
          | inr enough ↦
              elim (Result-cases (
                apply_settlement_for_batch (current db subject) b operator rq
                  (after_draw hex db))) [
                    | inl (x, bad) ↦ absurd (cc (rw (due, bad, enough) at e))
                    | inr (paid, good) ↦
                        elim (Result-cases (settle_each hex subject operator bs paid)) [
                          | inl (x, bad) ↦ absurd (cc (rw (due, good, enough, bad) at e))
                          | inr ((more, final), rest) ↦
                              let now : current db subject ≡ a = rw (current, there) refl in
                              let (first, there') =
                                step-IsPaid b rq (after_draw hex db) paid a there
                                  (rw now at good) in
                              let second = settle_each-IsPaid bs paid final more _ there' rest in
                              subst
                                (λ (r : ℕ × AgentDb).
                                  IsPaid subject.id r.0 db.accounts r.1.accounts)
                                (ok_same (n + more, final) (settled, after)
                                  (rw (due, good, enough, rest) at e))
                                (IsPaid-on subject.id n more db.accounts paid.accounts
                                  final.accounts first second)
                        ]
                  ]
        ]
      ]
