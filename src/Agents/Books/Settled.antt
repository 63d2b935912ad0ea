-- ===== src/Agents/Books/Settled.antt =====
-- A settlement keeps the books: the account that has paid owes the batch no more, and those above it
-- still do (`_apply_settlement_for_batch`).
use tg_auto_msg.Prelude.{
  ℕ, suc, ◌+◌, ◌≤◌, ◌≡◌, refl, sym, ap, ◌∙◌, inl, inr, true, false, ◌||◌, not, Option, none, some,
  List, String, if◌then◌else◌, ◌==◌, ltb, ==_iff, or_else, update_where, Bool-cases, Option-cases,
  arith,
}
use mathlib.Core.Path.{subst}
use tg_auto_msg.Prelude.Keyed.{Memᴰ, IsKeyedBy, find-Mem}
use tg_auto_msg.Http.{ok, refuse_if-ok, ok_same}
use tg_auto_msg.Agents.Rows.{
  AdminAccount, CardBatch, AgentDb, has_id, admin_of, with_admin, limit_of, is_pending, is_credit,
  is_settled,
}
use tg_auto_msg.Agents.Credit.{used_of}
use tg_auto_msg.Agents.Settlement.{
  apply_settlement_for_batch, hand_over, pay_off, owed_next, paid_up, is_batch,
}
use tg_auto_msg.Agents.Books.{
  parent_in, depth_in, on_line, weight, owed, IsBalanced, IsHierarchy, found-stands,
  admin_of-update,
}
use tg_auto_msg.Agents.Books.Lines.{owed-update, parent-below, on_line-depth, total_by-update}

-- What the account pays comes off what it owes.
used_of-pay_off :
    (accounts : List AdminAccount) (a : AdminAccount) (n k : ℕ)
    → admin_of accounts a.id ≡ some a
    → n ≤ a.credit_used_cents
    → used_of (update_where (has_id a.id) (pay_off n) accounts) k + (if a.id == k then n else 0)
      ≡ used_of accounts k
used_of-pay_off accounts a n k there enough =
    rw (used_of, admin_of-update (pay_off n) (λ x. refl) a.id accounts k)
      (elim (Bool-cases (a.id == k)) [
        | inl hit ↦ let same : a.id ≡ k = ground arith in rw (← same, there) (ground arith)
        | inr miss ↦ elim (Option-cases (admin_of accounts k)) [
          | inl absent ↦ rw (absent, miss) (omega arith)
          | inr (b, found) ↦ let (_, same) = find-Mem (has_id k) accounts b found in ground arith
        ]
      ])

-- The books stand where the batch weighs the account's share less.
module _ (db : AgentDb) (a : AdminAccount) (b : CardBatch) (g : CardBatch → CardBatch)
    (there : admin_of db.accounts a.id ≡ some a)
    (keyed : IsKeyedBy (λ (x : CardBatch). x.batch_id) db.batches) (listed : Memᴰ b db.batches)
    (enough : b.total_amount_cents ≤ a.credit_used_cents)
    (lighter : (k : ℕ)
      → weight db.accounts k (g b) + (if a.id == k then b.total_amount_cents else 0)
        ≡ weight db.accounts k b) where
  books_kept :
      IsBalanced db
      → (k : ℕ)
      → used_of (update_where (has_id a.id) (pay_off b.total_amount_cents) db.accounts) k
        ≡ owed
            (update_where (has_id a.id) (pay_off b.total_amount_cents) db.accounts)
            (update_where (is_batch b.batch_id) g db.batches)
            k
  books_kept balanced k =
      let paid = used_of-pay_off db.accounts a b.total_amount_cents k there enough in
      let moved =
        owed-update (pay_off b.total_amount_cents) (λ x. refl) (λ x. refl) (λ x. refl) a.id
          db.accounts k (update_where (is_batch b.batch_id) g db.batches) in
      let total = total_by-update (weight db.accounts k) g b db.batches keyed listed in
      let less = lighter k in
      let books = balanced k in omega (arith, paid, moved, total, less, books)

liability_is : (o : Option ℕ) (k : ℕ) → (or_else o 0 == k) ≡ true → ltb 0 k ≡ true → o ≡ some k
liability_is none k e h = absurd (ground arith)
liability_is (some x) k e h = ap some ((==_iff x k).0 e)

pending_weight :
    (accounts : List AdminAccount) (b : CardBatch) (x k : ℕ)
    → is_pending b ≡ true
    → b.current_liability_account_id ≡ some x
    → weight accounts k b
      ≡ (if on_line (parent_in accounts) (depth_in accounts x) x k then b.total_amount_cents else 0)
pending_weight accounts b x k unpaid_yet at_x = rw (weight, unpaid_yet, at_x) refl

module _ (accounts : List AdminAccount) (a : AdminAccount) (b : CardBatch)
    (stood : IsHierarchy accounts) (there : admin_of accounts a.id ≡ some a)
    (unpaid_yet : is_pending b ≡ true) (mine : b.current_liability_account_id ≡ some a.id) where
  lighter_at_root :
      (k : ℕ)
      → a.parent_account_id ≡ none
      → weight accounts k (paid_up b) + (if a.id == k then b.total_amount_cents else 0)
        ≡ weight accounts k b
  lighter_at_root k top =
      let (s, _) = found-stands accounts a.id a stood there in
      let here = pending_weight accounts b a.id k unpaid_yet mine in
      let deep : depth_in accounts a.id ≡ 0 = rw (depth_in, there) (ground (arith, rw top at s)) in
      let line = rw deep at here in rw line (ground arith)

  lighter_below :
      (next : AdminAccount) (p k : ℕ)
      → a.parent_account_id ≡ some p
      → next.id ≡ p
      → weight accounts k (owed_next next b) + (if a.id == k then b.total_amount_cents else 0)
        ≡ weight accounts k b
  lighter_below next p k up id =
      let parent : parent_in accounts a.id ≡ some p = rw (parent_in, there) up in
      let (step, _, _) = parent-below accounts a.id p stood parent in
      let here = rw (step, on_line, parent) at (pending_weight accounts b a.id k unpaid_yet mine) in
      rw (here, id)
        (elim (Bool-cases (on_line (parent_in accounts) (depth_in accounts p) p k)) [
          | inr off ↦ ground (arith, off)
          | inl on ↦
              let bound = on_line-depth accounts (depth_in accounts p) p k stood refl on in
              elim (Bool-cases (a.id == k)) [
                | inr differ ↦ ground (arith, on)
                | inl e ↦
                    let hit : a.id ≡ k = (==_iff a.id k).0 e in
                    let level : suc (depth_in accounts p) ≡ depth_in accounts k =
                      sym step ∙ ap (depth_in accounts) hit in
                    absurd (omega (arith, bound, level))
              ]
        ])

  -- The next account is read after the payment, which leaves its id.
  lighter_next :
      (next : AdminAccount) (p k : ℕ)
      → a.parent_account_id ≡ some p
      → admin_of (update_where (has_id a.id) (pay_off b.total_amount_cents) accounts) p ≡ some next
      → weight accounts k (owed_next next b) + (if a.id == k then b.total_amount_cents else 0)
        ≡ weight accounts k b
  lighter_next next p k up found =
      let (_, same) = find-Mem (has_id p) _ next found in
      let id : next.id ≡ p = (==_iff next.id p).0 same in lighter_below next p k up id

unsettled :
    (b : CardBatch)
    → (not (is_credit b.payment_status) || is_settled b.settlement_status) ≡ false
    → is_pending b ≡ true
unsettled b e = ground arith

-- The account has paid and hands the batch over.
hand_over-IsBalanced :
    (db after : AgentDb) (a : AdminAccount) (b : CardBatch) (operator : ℕ) (request_id : String)
    (o : Option ℕ)
    → IsHierarchy db.accounts
    → admin_of db.accounts a.id ≡ some a
    → IsKeyedBy (λ (x : CardBatch). x.batch_id) db.batches
    → Memᴰ b db.batches
    → b.total_amount_cents ≤ a.credit_used_cents
    → is_pending b ≡ true
    → b.current_liability_account_id ≡ some a.id
    → a.parent_account_id ≡ o
    → hand_over a b operator request_id (with_admin a.id (pay_off b.total_amount_cents) db) o
      ≡ ok after
    → IsBalanced db
    → IsBalanced after
hand_over-IsBalanced db after a b operator request_id none stood there keyed listed enough pending
      mine top e balanced =
    let kept =
      books_kept db a b paid_up there keyed listed enough
        (λ k. lighter_at_root db.accounts a b stood there pending mine k top) balanced in
    subst IsBalanced (ok_same _ after e) kept
hand_over-IsBalanced db after a b operator request_id (some p) stood there keyed listed enough
      pending mine up e balanced =
    let pay = pay_off b.total_amount_cents in
    elim (Option-cases (limit_of db.limits p a.id)) [
      | inl absent ↦ absurd (cc (simp absent at e))
      | inr (row, given) ↦
          elim (Option-cases (admin_of (update_where (has_id a.id) pay db.accounts) p)) [
            | inl absent ↦ absurd (cc (simp (given, absent) at e))
            | inr (next, found) ↦
                let kept =
                  books_kept db a b (owed_next next) there keyed listed enough
                    (λ k. lighter_next db.accounts a b stood there pending mine next p k up found)
                    balanced in
                subst IsBalanced (ok_same _ after (simp (given, found) at e)) kept
          ]
    ]

-- What a settlement has checked.
pub settlement-passed :
    (a : AdminAccount) (b : CardBatch) (operator : ℕ) (request_id : String) (db after : AgentDb)
    → apply_settlement_for_batch a b operator request_id db ≡ ok after
    → (is_pending b ≡ true)
      × ((or_else b.current_liability_account_id 0 == a.id) ≡ true)
      × (b.total_amount_cents ≤ a.credit_prepay_cents)
      × (b.total_amount_cents ≤ a.credit_used_cents)
      × (hand_over a b operator request_id
            (with_admin a.id (pay_off b.total_amount_cents) db)
            a.parent_account_id
          ≡ ok after)
settlement-passed a b operator request_id db after e =
    let (credit, e1) =
      refuse_if-ok (not (is_credit b.payment_status) || is_settled b.settlement_status) _ _ _ after
        e in
    let (mine, e2) =
      refuse_if-ok (not (or_else b.current_liability_account_id 0 == a.id)) _ _ _ after e1 in
    let (paid, e3) = refuse_if-ok (ltb a.credit_prepay_cents b.total_amount_cents) _ _ _ after e2 in
    let (used, e4) = refuse_if-ok (ltb a.credit_used_cents b.total_amount_cents) _ _ _ after e3 in
    (unsettled b credit, ground (arith, mine), ground (arith, paid), ground (arith, used), e4)

-- A settlement that goes through leaves every account's used credit equal to what it owes, in a table
-- of batches without a second one of an id and a hierarchy of accounts, where they were equal before.
pub apply_settlement_for_batch-IsBalanced :
    (a : AdminAccount) (b : CardBatch) (operator : ℕ) (request_id : String) (db after : AgentDb)
    → IsHierarchy db.accounts
    → admin_of db.accounts a.id ≡ some a
    → IsKeyedBy (λ (x : CardBatch). x.batch_id) db.batches
    → Memᴰ b db.batches
    → apply_settlement_for_batch a b operator request_id db ≡ ok after
    → IsBalanced db
    → IsBalanced after
apply_settlement_for_batch-IsBalanced a b operator request_id db after stood there keyed listed e
      balanced =
    let (pending, mine, paid, used, handed) =
      settlement-passed a b operator request_id db after e in
    let (s, _) = found-stands db.accounts a.id a stood there in
    let positive : ltb 0 a.id ≡ true = ground arith in
    hand_over-IsBalanced db after a b operator request_id a.parent_account_id stood there keyed
      listed used pending (liability_is b.current_liability_account_id a.id mine positive) refl
      handed balanced
