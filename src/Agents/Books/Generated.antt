-- ===== src/Agents/Books/Generated.antt =====
-- A generated batch keeps the books (`generate_card_batch`).
use tg_auto_msg.Prelude.{
  ℕ, suc, ◌+◌, ◌*◌, ◌≡◌, ◌≢◌, refl, sym, ap, ◌∙◌, inl, inr, true, ◌||◌, Option, none, some, List,
  [], ◌∷◌, ◌++◌, String, ltb, ==_iff, is_some, or_else, update_where, length, Bool-cases,
  Option-cases, arith,
}
use mathlib.Core.Path.{subst}
use tg_auto_msg.Prelude.Int.{ℤ}
use tg_auto_msg.Prelude.Text.{str_eq}
use tg_auto_msg.Prelude.Keyed.{find-Mem}
use tg_auto_msg.Http.{Result, ok, refused, some_ok_same, Result-cases}
use tg_auto_msg.Licensing.Rows.{ActivationCard}
use tg_auto_msg.Agents.Rows.{AdminAccount, CardBatch, AgentDb, has_id, admin_of, with_admin}
use tg_auto_msg.Agents.Rbac.{has_permission, lowered}
use tg_auto_msg.Agents.Quote.{Quote, prepare_batch_quote, root_of}
use tg_auto_msg.Agents.Credit.{Link, walk, used_of, collect_credit_chain}
use tg_auto_msg.Agents.Funding.{
  Funding, by_platform, by_balance, by_credit, take_balance, fund, charge, new_batch,
}
use tg_auto_msg.Agents.Batches.{
  with_codes, generate_card_code, create_batch_records, entered, generate_card_batch,
}
use tg_auto_msg.Agents.Codes.{draw_codes}
use tg_auto_msg.Agents.Books.{
  root_in, owes, weight, total_by, owed, IsBalanced, IsHierarchy, field-update,
}
use tg_auto_msg.Agents.Books.Lines.{owed-update}
use tg_auto_msg.Agents.Books.Charged.{apply_credit_generation-charges}
use tg_auto_msg.Agents.Books.Funded.{quoted, IsFunded, fund-IsFunded}

module _ (uuid random : ℕ → String) (province : String) (operator : AdminAccount) (q : Quote)
    (f : Funding) (now : ℕ) (db : AgentDb) where
  IsCreated : CardBatch → AgentDb → Type 0
  IsCreated b after =
      (b ≡ new_batch (uuid db.ids) operator q f province now)
      × (after.accounts ≡ db.accounts)
      × (after.batches ≡ db.batches ++ (b ∷ []))

  with_codes-creates :
      (o : Option (List String × ℕ)) (b : CardBatch) (cards : List ActivationCard) (after : AgentDb)
      → with_codes uuid random province operator q f now db o ≡ some (ok (b, cards, after))
      → IsCreated b after
  unfolding IsCreated
  with_codes-creates none b cards after e = cc
  with_codes-creates (some (codes, n)) b cards after e =
      subst (λ (t : CardBatch × List ActivationCard × AgentDb). IsCreated t.0 t.2)
        (some_ok_same _ (b, cards, after) e) (refl, refl, refl)

  created :
      (b : CardBatch) (cards : List ActivationCard) (after : AgentDb)
      → create_batch_records uuid random province operator q f now db ≡ some (ok (b, cards, after))
      → IsCreated b after
  created b cards after e =
      let (codes, n) =
        draw_codes (generate_card_code random q.prefix) (q.quantity * 20) q.quantity [] db.draws in
      elim (Bool-cases (ltb (length codes) q.quantity)) [
        | inl short ↦ absurd (cc (rw short at e))
        | inr full ↦ with_codes-creates _ b cards after (rw full at e)
      ]

  -- The tables as the batch and its charge leave them.
  IsEntered : CardBatch → AgentDb → Type 0
  IsEntered b after =
      (made : AgentDb) × IsCreated b made
      × (after.accounts ≡ (charge operator q b.batch_id f made).accounts)
      × (after.batches ≡ (charge operator q b.batch_id f made).batches)

  entered-IsEntered :
      (o : Option (Result (CardBatch × List ActivationCard × AgentDb))) (b : CardBatch)
      (cards : List ActivationCard) (after : AgentDb)
      → create_batch_records uuid random province operator q f now db ≡ o
      → entered operator q f o ≡ some (ok (b, cards, after))
      → IsEntered b after
  unfolding IsEntered
  entered-IsEntered none b cards after made e = cc
  entered-IsEntered (some (refused x)) b cards after made e = cc
  entered-IsEntered (some (ok (c, ds, db2))) b cards after made e =
      subst (λ (t : CardBatch × List ActivationCard × AgentDb). IsEntered t.0 t.2)
        (some_ok_same _ (b, cards, after) e) (db2, created c ds db2 made, refl, refl)

total_by-append :
    (w : CardBatch → ℕ) (b : CardBatch) (bs : List CardBatch)
    → total_by w (bs ++ (b ∷ [])) ≡ total_by w bs + w b
total_by-append w b [] = omega arith
total_by-append w b (c ∷ cs) = omega (arith, total_by-append w b cs)

-- The books stand where each account's used credit grows by what the new batch weighs.
books_grown :
    (accounts before : List AdminAccount) (bs : List CardBatch) (b : CardBatch) (after : AgentDb)
    (k n : ℕ)
    → after.accounts ≡ accounts
    → after.batches ≡ bs ++ (b ∷ [])
    → used_of accounts k ≡ used_of before k + n
    → owed accounts (bs ++ (b ∷ [])) k ≡ owed before (bs ++ (b ∷ [])) k
    → weight before k b ≡ n
    → used_of before k ≡ owed before bs k
    → used_of after.accounts k ≡ owed after.accounts after.batches k
books_grown accounts before bs b after k n acc bat used owing heavy books =
    let a = ap (λ x. used_of x k) acc in
    let o = ap (λ x. owed x after.batches k) acc ∙ ap (λ x. owed accounts x k) bat in
    let t = total_by-append (weight before k) b bs in
    omega (arith, a, o, t, used, owing, heavy, books)

pub walk_of :
    (o : Option (Result (List Link))) (x : Result (List Link)) (chain : List Link)
    → or_else o x ≡ ok chain
    → x ≢ ok chain
    → o ≡ some (ok chain)
walk_of none x chain e differ = absurd (differ e)
walk_of (some r) x chain e differ = ap some e

module _ (uuid random : ℕ → String) (province : String) (operator : AdminAccount) (q : Quote)
    (now : ℕ) (db : AgentDb) (b : CardBatch) (after : AgentDb) (stood : IsHierarchy db.accounts)
    (there : admin_of db.accounts operator.id ≡ some operator)
    (root : admin_of db.accounts (root_of operator) ≡ some q.root_master)
    (balanced : IsBalanced db) where
  platform_kept :
      IsEntered uuid random province operator q by_platform now db b after → IsBalanced after
  unfolding IsEntered IsCreated
  platform_kept (made, (new, acc, bat), acc', bat') k =
      books_grown db.accounts db.accounts db.batches b after k 0 (acc' ∙ acc) (bat' ∙ bat)
        (omega arith) refl (rw new refl) (balanced k)

  balance_kept :
      IsEntered uuid random province operator q by_balance now
        (with_admin operator.id (take_balance q.total_amount_cents) db)
        b
        after
      → IsBalanced after
  unfolding IsEntered IsCreated
  balance_kept (made, (new, acc, bat), acc', bat') k =
      let take = take_balance q.total_amount_cents in
      let used =
        field-update take (λ x. refl) (λ (a : AdminAccount). a.credit_used_cents) 0 operator.id
          db.accounts k (λ x. refl) in
      books_grown (update_where (has_id operator.id) take db.accounts) db.accounts db.batches b
        after k 0 (acc' ∙ acc) (bat' ∙ bat) (omega (arith, used))
        (owed-update take (λ x. refl) (λ x. refl) (λ x. refl) operator.id db.accounts k
          (db.batches ++ (b ∷ [])))
        (rw new refl) (balanced k)

  credit_kept :
      (chain : List Link)
      → collect_credit_chain db operator ≡ ok chain
      → IsEntered uuid random province operator q (by_credit chain) now db b after
      → IsBalanced after
  unfolding IsEntered IsCreated
  credit_kept chain walked (made, (new, acc, bat), acc', bat') k =
      let fuel = suc (length db.accounts) in
      let n = q.total_amount_cents in
      let same : made.accounts ≡ db.accounts = acc in
      let (_, id) = find-Mem (has_id (root_of operator)) db.accounts q.root_master root in
      let top : q.root_master.id ≡ root_of operator =
        (==_iff q.root_master.id (root_of operator)).0 id in
      let rooted : root_of operator ≡ root_in db.accounts operator.id = rw (root_in, there) refl in
      let known : is_some (admin_of db.accounts q.root_master.id) ≡ true = rw (top, root) refl in
      let walks = walk_of (walk fuel db.accounts db.limits operator []) _ chain walked (λ x. cc) in
      let moved =
        subst
          (λ accounts.
            IsHierarchy accounts
            × (admin_of accounts operator.id ≡ some operator)
            × (root_of operator ≡ root_in accounts operator.id)
            × (is_some (admin_of accounts q.root_master.id) ≡ true)
            × (walk fuel accounts db.limits operator [] ≡ some (ok chain)))
          (sym same) (stood, there, rooted, known, walks) in
      let (s1, t1, r1, k1, w1) = moved in
      let (used, owing, batches) =
        apply_credit_generation-charges made operator q.root_master.id n b.batch_id fuel db.limits
          chain s1 t1 (top ∙ r1) k1 w1 k in
      let books = subst (λ x. used_of x k ≡ owed x db.batches k) (sym same) (balanced k) in
      books_grown _ made.accounts db.batches b after k (owes made.accounts k (some operator.id) n)
        acc' (bat' ∙ batches ∙ bat) used (owing (db.batches ++ (b ∷ []))) (rw new refl) books

  funded_kept :
      (f : Funding) (paid : AgentDb)
      → IsFunded operator q db f paid
      → IsEntered uuid random province operator q f now paid b after
      → IsBalanced after
  funded_kept by_platform paid same e =
      platform_kept
        (subst (λ x. IsEntered uuid random province operator q by_platform now x b after) same e)
  funded_kept by_balance paid (_, same) e =
      balance_kept
        (subst (λ x. IsEntered uuid random province operator q by_balance now x b after) same e)
  funded_kept (by_credit chain) paid (same, walked, _, _) e = credit_kept chain walked (
      subst (λ x. IsEntered uuid random province operator q (by_credit chain) now x b after) same e)

-- A batch that is generated, on whatever funds, leaves every account's used credit equal to what the
-- account owes by the batches, in a hierarchy of accounts where they were equal before.
pub generate_card_batch-IsBalanced :
    (uuid random : ℕ → String) (province : String) (admin : AdminAccount) (plan_code : String)
    (quantity : ℤ) (prefix : String) (valid_days : Option ℤ) (funding_source : String) (now : ℕ)
    (db after : AgentDb) (b : CardBatch) (cards : List ActivationCard)
    → IsHierarchy db.accounts
    → generate_card_batch uuid random province admin plan_code quantity prefix valid_days
        funding_source now db
      ≡ some (ok (b, cards, after))
    → IsBalanced db
    → IsBalanced after
generate_card_batch-IsBalanced uuid random province admin plan_code quantity prefix valid_days
      funding_source now db after b cards stood e balanced =
    let funding = lowered funding_source in
    elim (Bool-cases (has_permission admin "batches.generate")) [
      | inr refusal ↦ absurd (cc (rw refusal at e))
      | inl may ↦ elim (Bool-cases (str_eq funding "balance" || str_eq funding "credit")) [
        | inr refusal ↦ absurd (cc (rw (may, refusal) at e))
        | inl known ↦ elim (Option-cases (admin_of db.accounts admin.id)) [
          | inl absent ↦ absurd (cc (rw (may, known, absent) at e))
          | inr (operator, there) ↦
              elim (Result-cases
                (prepare_batch_quote operator plan_code quantity prefix valid_days now db)) [
                  | inl (x, bad) ↦ absurd (cc (rw (may, known, there, bad) at e))
                  | inr (q, quote) ↦ elim (Result-cases (fund admin operator funding q db)) [
                    | inl (x, bad) ↦ absurd (cc (rw (may, known, there, quote, bad) at e))
                    | inr ((f, paid), good) ↦
                        let (_, hit) = find-Mem (has_id admin.id) db.accounts operator there in
                        let id : operator.id ≡ admin.id = (==_iff operator.id admin.id).0 hit in
                        let here =
                          subst (λ i. admin_of db.accounts i ≡ some operator) (sym id) there in
                        let made = rw (may, known, there, quote, good) at e in
                        funded_kept uuid random province operator q now db b after stood here
                          (quoted operator plan_code quantity prefix valid_days now db q quote)
                          balanced f paid (fund-IsFunded admin operator funding q db f paid good)
                          (entered-IsEntered uuid random province operator q f now paid
                            (create_batch_records uuid random province operator q f now paid) b
                            cards after refl made)
                  ]
                ]
        ]
      ]
    ]
