-- ===== src/Agents/Books/Accounted.antt =====
-- A recharge keeps the books: what it settles comes off what is owed.
use tg_auto_msg.Prelude.{
  ℕ, ◌+◌, ◌≡◌, refl, sym, ap, ◌∙◌, inl, inr, false, some, List, [], ◌∷◌, String, ◌==◌, ==_iff, ltb,
  any, All, update_where, Bool-cases, arith,
}
use mathlib.Core.Path.{subst}
use tg_auto_msg.Prelude.Text.{str_eq}
use tg_auto_msg.Prelude.Keyed.{Memᴰ, IsKeyedBy, find-Mem}
use tg_auto_msg.Http.{ok, ok_same, Result-cases}
use tg_auto_msg.Agents.Rows.{AdminAccount, CardBatch, AgentDb, has_id, admin_of, with_admin}
use tg_auto_msg.Agents.Settlement.{
  apply_settlement_for_batch, pay_off, is_batch, current, request_of, after_draw,
}
use tg_auto_msg.Agents.Recharge.{
  settle_each, auto_settle_credit_batches_for_recharge, own_pending, has_pending_credit_batches,
  prepay, top_up, topped_up, enter_recharge, create_recharge_entry,
}
use tg_auto_msg.Agents.Quote.{root_of}
use tg_auto_msg.Agents.Credit.{used_of}
use tg_auto_msg.Agents.Books.{IsBalanced, IsHierarchy, owed}
use tg_auto_msg.Agents.Books.Settled.{settlement-passed, apply_settlement_for_batch-IsBalanced}
use tg_auto_msg.Agents.Books.Repaid.{hand_over-rows, step-IsPaid, row_after}
use tg_auto_msg.Agents.Books.Recharged.{recharge-passed}
use tg_auto_msg.Agents.Books.Sound.{
  IsFrom, IsHierarchy-kept, balance_kept, keyed-update, Mem-update, own_pending-IsFrom,
}

abbrev pub IsSound : AgentDb → Type 0
IsSound db =
    IsHierarchy db.accounts × IsKeyedBy (λ (b : CardBatch). b.batch_id) db.batches × IsBalanced db

All-update :
    (g : CardBatch → CardBatch) (same : (b : CardBatch) → (g b).batch_id ≡ b.batch_id) (id : String)
    (table bs : List CardBatch)
    → any (λ (b : CardBatch). str_eq b.batch_id id) bs ≡ false
    → All (λ b. Memᴰ b table) bs
    → All (λ b. Memᴰ b (update_where (is_batch id) g table)) bs
All-update g same id table [] h m = tt
All-update g same id table (b ∷ bs) h (m, ms) =
    let differ : str_eq b.batch_id id ≡ false = ground arith in
    let others : any (λ (c : CardBatch). str_eq c.batch_id id) bs ≡ false = ground arith in
    (Mem-update g same id b table differ m, All-update g same id table bs others ms)

step-IsSound :
    (a : AdminAccount) (b : CardBatch) (bs : List CardBatch) (operator : ℕ) (request_id : String)
    (db after : AgentDb)
    → admin_of db.accounts a.id ≡ some a
    → IsSound db
    → IsFrom db.batches (b ∷ bs)
    → apply_settlement_for_batch a b operator request_id db ≡ ok after
    → IsSound after × IsFrom after.batches bs
step-IsSound a b bs operator request_id db after there (stood, keyed, balanced) ((m, ms), (k, ks))
      e =
    let n = b.total_amount_cents in
    let (_, _, _, _, handed) = settlement-passed a b operator request_id db after e in
    let (accounts, g, same, batches) =
      hand_over-rows a b operator request_id _ after a.parent_account_id handed in
    (
      (
        subst IsHierarchy (sym accounts) (
            IsHierarchy-kept (pay_off n) (λ x. refl) (λ x. refl) (λ x. refl) (λ x. refl) a.id
              db.accounts stood),
        subst (IsKeyedBy (λ (x : CardBatch). x.batch_id)) (sym batches)
            (keyed-update g same b.batch_id db.batches keyed),
        apply_settlement_for_batch-IsBalanced a b operator request_id db after stood there keyed m e
            balanced,
      ),
      (
        subst (λ table. All (λ c. Memᴰ c table) bs) (sym batches)
            (All-update g same b.batch_id db.batches bs k ms),
        ks,
      ),
    )

module _ (hex : ℕ → String) (subject : AdminAccount) (operator : ℕ) where
  settle_each-IsSound :
      (bs : List CardBatch) (db after : AgentDb) (settled : ℕ) (a : AdminAccount)
      → admin_of db.accounts subject.id ≡ some a
      → IsSound db
      → IsFrom db.batches bs
      → settle_each hex subject operator bs db ≡ ok (settled, after)
      → IsSound after
  settle_each-IsSound [] db after settled a there sound listed e =
      subst (λ (r : ℕ × AgentDb). IsSound r.1) (ok_same (0, db) (settled, after) e) sound
  settle_each-IsSound (b ∷ bs) db after settled a there sound listed e =
      let n = b.total_amount_cents in
      let rq = request_of hex "direct-recharge-settle-" db in
      elim (Bool-cases (n == 0)) [
        | inl free ↦
            settle_each-IsSound bs db after settled a there sound (listed.0.1, listed.1.1)
              (rw free at e)
        | inr due ↦ elim (Bool-cases (ltb (current db subject).credit_prepay_cents n)) [
          | inl short ↦
              subst (λ (r : ℕ × AgentDb). IsSound r.1)
                (ok_same (0, db) (settled, after) (rw (due, short) at e)) sound
          | inr enough ↦
              elim (Result-cases (
                apply_settlement_for_batch (current db subject) b operator rq
                  (after_draw hex db))) [
                    | inl (x, bad) ↦ absurd (cc (rw (due, bad, enough) at e))
                    | inr (paid, good) ↦
                        elim (Result-cases (settle_each hex subject operator bs paid)) [
                          | inl (x, bad) ↦ absurd (cc (rw (due, good, enough, bad) at e))
                          | inr ((more, final), rest) ↦
                              let now : current db subject ≡ a = rw (current, there) refl in
                              let settles = rw now at good in
                              let (_, hit) = find-Mem (has_id subject.id) db.accounts a there in
                              let id : a.id ≡ subject.id = (==_iff a.id subject.id).0 hit in
                              let here =
                                subst (λ i. admin_of db.accounts i ≡ some a) (sym id) there in
                              let (_, there') =
                                step-IsPaid hex subject operator b rq (after_draw hex db) paid a
                                  there settles in
                              let (sound', listed') =
                                step-IsSound a b bs operator rq (after_draw hex db) paid here sound
                                  listed settles in
                              subst (λ (r : ℕ × AgentDb). IsSound r.1)
                                (ok_same (n + more, final) (settled, after)
                                  (rw (due, good, enough, rest) at e))
                                (settle_each-IsSound bs paid final more _ there' sound' listed'
                                  rest)
                        ]
                  ]
        ]
      ]

money-IsSound :
    (f : AdminAccount → AdminAccount) (same : (a : AdminAccount) → (f a).id ≡ a.id)
    (stays : (a : AdminAccount) → (f a).parent_account_id ≡ a.parent_account_id)
    (level : (a : AdminAccount) → (f a).level_depth ≡ a.level_depth)
    (rooted : (a : AdminAccount) → root_of (f a) ≡ root_of a)
    (used : (a : AdminAccount) → (f a).credit_used_cents ≡ a.credit_used_cents) (k : ℕ)
    (db : AgentDb)
    → IsSound db
    → IsSound (with_admin k f db)
money-IsSound f same stays level rooted used k db (stood, keyed, balanced) = (
  IsHierarchy-kept f same stays level rooted k db.accounts stood,
  keyed,
  balance_kept f same stays level rooted k db.accounts db.batches used balanced,
)

topped_up-IsSound : (k : ℕ) (db : AgentDb) → IsSound db → IsSound (topped_up k db)
topped_up-IsSound k db sound = elim (Bool-cases (has_pending_credit_batches k db.batches)) [
  | inl owing ↦ rw owing sound
  | inr free ↦
      rw free (
        money-IsSound top_up (λ x. refl) (λ x. refl) (λ x. refl) (λ x. refl) (λ x. refl) k db sound)
]

module _ (hex : ℕ → String) where
  enter_recharge-IsSound :
      (operator subject : AdminAccount) (n : ℕ) (db after : AgentDb) (settled : ℕ)
      → admin_of db.accounts subject.id ≡ some subject
      → IsSound db
      → enter_recharge hex operator subject n db ≡ ok (settled, after)
      → IsSound after
  enter_recharge-IsSound operator subject n db after settled there sound e =
      let paid_in = with_admin subject.id (prepay n) db in
      let start =
        money-IsSound (prepay n) (λ x. refl) (λ x. refl) (λ x. refl) (λ x. refl) (λ x. refl)
          subject.id db sound in
      let there' = row_after subject.id (prepay n) (λ x. refl) db.accounts subject there in
      elim (Result-cases
        (auto_settle_credit_batches_for_recharge hex subject operator.id paid_in)) [
          | inl (x, bad) ↦ absurd (cc (rw bad at e))
          | inr ((m, mid), good) ↦
              let settles : IsSound mid =
                elim (Bool-cases ((current paid_in subject).credit_prepay_cents == 0)) [
                  | inl nothing ↦
                      subst (λ (r : ℕ × AgentDb). IsSound r.1)
                        (ok_same (0, paid_in) (m, mid) (rw nothing at good)) start
                  | inr funds ↦
                      settle_each-IsSound hex subject operator.id
                        (own_pending subject.id paid_in.batches) paid_in mid m _ there' start
                        (own_pending-IsFrom subject.id paid_in.batches start.1) (rw funds at good)
                ] in
              subst (λ (r : ℕ × AgentDb). IsSound r.1) (ok_same _ (settled, after) (rw good at e))
                (topped_up-IsSound subject.id mid settles)
        ]

  -- A recharge that goes through leaves a hierarchy of accounts, batches of which no id is listed twice,
  -- and every account's used credit equal to what it owes, where it found them so.
  pub create_recharge_entry-IsSound :
      (admin account : AdminAccount) (k n settled : ℕ) (db after : AgentDb)
      → IsSound db
      → create_recharge_entry hex admin k n db ≡ ok (settled, account, after)
      → IsSound after
  create_recharge_entry-IsSound admin account k n settled db after sound e =
      let (subject, final, _, there, _, good, accounts, batches) =
        recharge-passed hex admin account k n settled db after e in
      let (stood, keyed, balanced) =
        enter_recharge-IsSound (current db admin) subject n db final settled there sound good in
      (
        subst IsHierarchy (sym accounts) stood,
        subst (IsKeyedBy (λ (b : CardBatch). b.batch_id)) (sym batches) keyed,
        λ i.
            ap (λ x. used_of x i) accounts
            ∙ balanced i
            ∙ sym (
                ap (λ x. owed x after.batches i) accounts
                ∙ ap (λ x. owed final.accounts x i) batches),
      )
