-- ===== src/Agents/Books/Direct.antt =====
-- The service that settles a batch for its caller (`settle_credit_batch`).
use tg_auto_msg.Prelude.{
  ℕ, ◌≡◌, refl, ap, ◌∙◌, none, Option, List, [], ◌∷◌, update_where, sym, inl, inr, true, some,
  String, ◌==◌, ==_iff, is_some, or_else, find, Bool-cases, Option-cases,
}
use mathlib.Core.Path.{subst}
use tg_auto_msg.Prelude.Text.{str_eq, eq_iff, strip, is_blank}
use tg_auto_msg.Prelude.Keyed.{Memᴰ, IsKeyedBy, find-Mem}
use tg_auto_msg.Http.{ok, ok_same, Result-cases}
use tg_auto_msg.Agents.Rows.{
  AdminAccount, CardBatch, AgentDb, SettlementStatus, PaymentStatus, has_id, admin_of, with_admin,
  limit_of, is_pending,
}
use tg_auto_msg.Agents.Visibility.{includes, visible_account_ids}
use tg_auto_msg.Agents.Settlement.{
  apply_settlement_for_batch, hand_over, pay_off, owed_next, paid_up, is_batch, current,
  settle_credit_batch, request_of, after_draw,
}
use tg_auto_msg.Agents.Books.{IsBalanced, IsHierarchy}
use tg_auto_msg.Agents.Books.Settled.{settlement-passed, apply_settlement_for_batch-IsBalanced}
use tg_auto_msg.Agents.Books.Repaid.{IsPaid, step-IsPaid}

-- Who owes a batch after a settlement by an account with this parent.
abbrev pub IsPassed : Option ℕ → CardBatch → Type 0
IsPassed none b =
    (b.current_liability_account_id ≡ none)
    × (b.payment_status ≡ PaymentStatus.paid)
    × (b.settlement_status ≡ SettlementStatus.settled)
IsPassed (some p) b = (b.current_liability_account_id ≡ some p) × (is_pending b ≡ true)

-- The row of the id, changed.
batch-update :
    (g : CardBatch → CardBatch) (same : (x : CardBatch) → (g x).batch_id ≡ x.batch_id) (id : String)
    (xs : List CardBatch) (b : CardBatch)
    → find (is_batch id) xs ≡ some b
    → find (is_batch id) (update_where (is_batch id) g xs) ≡ some (g b)
batch-update g same id [] b e = cc
batch-update g same id (x ∷ xs) b e = elim (Bool-cases (str_eq x.batch_id id)) [
  | inl hit ↦
      let first : some x ≡ some b = rw hit at e in
      let here : x ≡ b = cc in
      let hit' : str_eq (g x).batch_id id ≡ true = ap (λ i. str_eq i id) (same x) ∙ hit in
      let changed : find (is_batch id) (update_where (is_batch id) g (x ∷ xs)) ≡ some (g x) =
        simp (hit, hit') in
      changed ∙ ap (λ y. some (g y)) here
  | inr miss ↦ rw (miss, miss) (batch-update g same id xs b (rw miss at e))
]

hand_over-passes :
    (a : AdminAccount) (b : CardBatch) (operator : ℕ) (request_id : String) (db after : AgentDb)
    (o : Option ℕ)
    → find (is_batch b.batch_id) db.batches ≡ some b
    → hand_over a b operator request_id db o ≡ ok after
    → (next : CardBatch) × (find (is_batch b.batch_id) after.batches ≡ some next) × IsPassed o next
hand_over-passes a b operator request_id db after none found e =
    let same = ok_same _ after e in
    (
      paid_up b,
      ap (λ x. find (is_batch b.batch_id) x.batches) (sym same)
          ∙ batch-update paid_up (λ x. refl) b.batch_id db.batches b found,
      (refl, refl, refl),
    )
hand_over-passes a b operator request_id db after (some p) found e =
    elim (Option-cases (limit_of db.limits p a.id)) [
      | inl absent ↦ absurd (cc (simp absent at e))
      | inr (row, given) ↦ elim (Option-cases (admin_of db.accounts p)) [
        | inl absent ↦ absurd (cc (simp (given, absent) at e))
        | inr (next, above) ↦
            let same = ok_same _ after (simp (given, above) at e) in
            let (_, hit) = find-Mem (has_id p) db.accounts next above in
            (
              owed_next next b,
              ap (λ x. find (is_batch b.batch_id) x.batches) (sym same)
                  ∙ batch-update (owed_next next) (λ x. refl) b.batch_id db.batches b found,
              (ap some ((==_iff next.id p).0 hit), refl),
            )
      ]
    ]

-- What the settlement of a batch by the account `k` leaves: the books are kept, what the batch costs
-- comes off the prepayment and the used credit of `k` and off no other account, and the batch is owed
-- by the parent of `k`, or settled where there is none.
abbrev pub IsSettledBy : ℕ → String → AgentDb → AgentDb → Type 0
IsSettledBy k id db after =
    IsBalanced after
    × (a : AdminAccount) × (b : CardBatch) × (next : CardBatch) × (admin_of db.accounts k ≡ some a)
    × (find (is_batch id) db.batches ≡ some b)
    × (find (is_batch id) after.batches ≡ some next)
    × IsPaid k b.total_amount_cents db.accounts after.accounts
    × IsPassed a.parent_account_id next

module _ (hex : ℕ → String) (admin a : AdminAccount) (b : CardBatch) (request_id : String)
    (db after : AgentDb) where
  settled_by :
      admin_of db.accounts admin.id ≡ some a
      → IsHierarchy db.accounts
      → IsKeyedBy (λ (x : CardBatch). x.batch_id) db.batches
      → Memᴰ b db.batches
      → find (is_batch b.batch_id) db.batches ≡ some b
      → apply_settlement_for_batch a b a.id request_id (after_draw hex db) ≡ ok after
      → IsBalanced db
      → IsSettledBy admin.id b.batch_id db after
  settled_by there stood keyed listed found e balanced =
      let (_, hit) = find-Mem (has_id admin.id) db.accounts a there in
      let id : a.id ≡ admin.id = (==_iff a.id admin.id).0 hit in
      let here = subst (λ i. admin_of db.accounts i ≡ some a) (sym id) there in
      let drawn = after_draw hex db in
      let (_, _, _, _, handed) = settlement-passed a b a.id request_id drawn after e in
      let (next, stored, passed) =
        hand_over-passes a b a.id request_id (with_admin a.id (pay_off b.total_amount_cents) drawn)
          after a.parent_account_id found handed in
      (
        apply_settlement_for_batch-IsBalanced a b a.id request_id drawn after stood here keyed
            listed e balanced,
        a,
        b,
        next,
        there,
        found,
        stored,
        (step-IsPaid hex admin a.id b request_id drawn after a there e).0,
        passed,
      )

-- A batch that its caller settles leaves every account's used credit equal to what it owes, where they
-- were equal before, the caller is an account of the hierarchy and no id of a batch is listed twice.
-- The batch's amount comes off the caller's prepayment and off its used credit, its balance and all
-- other accounts stay, and the batch is then owed by the caller's parent, or paid and settled where
-- the caller has no parent.
pub settle_credit_batch-IsBalanced :
    (hex : ℕ → String) (admin : AdminAccount) (batch_id : String) (db after : AgentDb)
    → IsHierarchy db.accounts
    → is_some (admin_of db.accounts admin.id) ≡ true
    → IsKeyedBy (λ (x : CardBatch). x.batch_id) db.batches
    → settle_credit_batch hex admin batch_id db ≡ ok after
    → IsBalanced db
    → IsSettledBy admin.id (strip batch_id) db after
settle_credit_batch-IsBalanced hex admin batch_id db after stood known keyed e balanced =
    elim (Option-cases (admin_of db.accounts admin.id)) [
      | inl absent ↦ absurd (cc (rw absent at known))
      | inr (a, there) ↦
          let operator = current db admin in
          let now : operator ≡ a = rw (current, there) refl in
          elim (Bool-cases (is_blank (strip batch_id))) [
            | inl blank ↦ absurd (cc (rw blank at e))
            | inr named ↦ elim (Option-cases (find (is_batch (strip batch_id)) db.batches)) [
              | inl absent ↦ absurd (cc (rw (named, absent) at e))
              | inr (b, found) ↦
                  let (listed, named_so) =
                    find-Mem (is_batch (strip batch_id)) db.batches b found in
                  let rq = request_of hex "direct-settle-" db in
                  let seen =
                    includes b.owner_account_id (visible_account_ids db.accounts operator) in
                  let mine = or_else b.current_liability_account_id 0 == operator.id in
                  elim (Bool-cases seen) [
                    | inr hidden ↦ absurd (cc (rw (named, found, hidden) at e))
                    | inl shown ↦ elim (Bool-cases mine) [
                      | inr other ↦ absurd (cc (rw (named, found, shown, other) at e))
                      | inl own ↦
                          elim (Result-cases (
                            apply_settlement_for_batch operator b operator.id rq
                              (after_draw hex db))) [
                                | inl (x, bad) ↦
                                    absurd (cc (rw (named, found, bad, shown, own) at e))
                                | inr (paid, good) ↦
                                    let same =
                                      ok_same _ after (rw (named, found, good, shown, own) at e) in
                                    let name : b.batch_id ≡ strip batch_id =
                                      (eq_iff b.batch_id (strip batch_id)).0 named_so in
                                    let found_self =
                                      subst (λ i. find (is_batch i) db.batches ≡ some b) (sym name)
                                        found in
                                    let done =
                                      settled_by hex admin a b rq db paid there stood keyed listed
                                        found_self (rw now at good) balanced in
                                    subst (λ i. IsSettledBy admin.id i db after) name
                                      (subst (IsSettledBy admin.id b.batch_id db) same done)
                              ]
                    ]
                  ]
            ]
          ]
    ]
