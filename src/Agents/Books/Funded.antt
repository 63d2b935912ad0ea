-- ===== src/Agents/Books/Funded.antt =====
-- What a batch that was quoted and paid for has passed (`_prepare_batch_quote`,
-- `_validate_credit_generation`).
use tg_auto_msg.Prelude.{
  ℕ, ◌≤◌, ◌≡◌, refl, ap, ◌∙◌, inl, inr, Option, some, List, String, ◌==◌, ltb, Bool-cases,
  Option-cases, arith,
}
use mathlib.Core.Path.{subst}
use tg_auto_msg.Prelude.Int.{ℤ, pos_part}
use tg_auto_msg.Prelude.Text.{str_eq}
use tg_auto_msg.Http.{Result, ok, ok_same, Result-cases}
use tg_auto_msg.Agents.Rows.{AdminAccount, AgentDb, admin_of, with_admin}
use tg_auto_msg.Agents.Rbac.{is_staff}
use tg_auto_msg.Agents.Quote.{
  Quote, normalize_batch_inputs, find_plan, prepare_batch_quote, root_of,
}
use tg_auto_msg.Agents.Credit.{
  Link, collect_credit_chain, ensure_credit_mode_allowed, ensure_links, remaining_credit,
  validate_credit_generation,
}
use tg_auto_msg.Agents.Funding.{Funding, by_platform, by_balance, by_credit, take_balance, fund}

-- The quote is of the operator's master, as the table has it.
pub quoted :
    (account : AdminAccount) (plan_code : String) (quantity : ℤ) (prefix : String)
    (valid_days : Option ℤ) (now : ℕ) (db : AgentDb) (q : Quote)
    → prepare_batch_quote account plan_code quantity prefix valid_days now db ≡ ok q
    → admin_of db.accounts (root_of account) ≡ some q.root_master
quoted account plan_code quantity prefix valid_days now db q e =
    elim (Result-cases (normalize_batch_inputs quantity prefix valid_days now)) [
      | inl (x, bad) ↦ absurd (cc (rw bad at e))
      | inr ((count, start, expires_at), good) ↦
          elim (Option-cases (find_plan plan_code db.plans)) [
            | inl absent ↦ absurd (cc (simp (good, absent) at e))
            | inr (plan, found) ↦ elim (Bool-cases plan.is_active) [
              | inr off ↦ absurd (cc (simp (good, found, off) at e))
              | inl on ↦ elim (Bool-cases (pos_part plan.price_cents == 0)) [
                | inl free ↦ absurd (cc (simp (good, found, on, free) at e))
                | inr priced ↦ elim (Option-cases (admin_of db.accounts (root_of account))) [
                  | inl absent ↦ absurd (cc (simp (good, found, on, priced, absent) at e))
                  | inr (root, there) ↦
                      let same = ok_same _ q (simp (good, found, on, priced, there) at e) in
                      there ∙ ap (λ (x : Quote). some x.root_master) same
                ]
              ]
            ]
          ]
    ]

-- A chain that was validated has room for the amount at each of its links and at the master.
pub validated :
    (db : AgentDb) (operator root_master : AdminAccount) (amount : ℕ) (chain : List Link)
    → validate_credit_generation db operator root_master amount ≡ ok chain
    → (collect_credit_chain db operator ≡ ok chain)
      × (ensure_links amount chain ≡ ok tt)
      × (amount ≤ remaining_credit root_master)
validated db operator root_master amount chain e = elim (Bool-cases (amount == 0)) [
  | inl nothing ↦ absurd (cc (simp nothing at e))
  | inr some_amount ↦ elim (Result-cases (ensure_credit_mode_allowed operator)) [
    | inl (x, bad) ↦ absurd (cc (rw (some_amount, bad) at e))
    | inr (u, mode) ↦ elim (Result-cases (collect_credit_chain db operator)) [
      | inl (x, bad) ↦ absurd (cc (rw (some_amount, mode, bad) at e))
      | inr (links, walked) ↦ elim (Result-cases (ensure_links amount links)) [
        | inl (x, bad) ↦ absurd (cc (rw (some_amount, mode, walked, bad) at e))
        | inr (v, room) ↦ elim (Bool-cases (ltb (remaining_credit root_master) amount)) [
          | inl short ↦ absurd (cc (rw (some_amount, mode, walked, room, short) at e))
          | inr enough ↦
              let same = ok_same _ chain (rw (some_amount, mode, walked, room, enough) at e) in
              (
                walked ∙ ap ok same,
                subst (λ ls. ensure_links amount ls ≡ ok tt) same room,
                ground (arith, enough),
              )
        ]
      ]
    ]
  ]
]

abbrev pub IsFunded : AdminAccount → Quote → AgentDb → Funding → AgentDb → Type 0
IsFunded operator q db by_platform after = after ≡ db
IsFunded operator q db by_balance after =
    (q.total_amount_cents ≤ operator.balance_cents)
    × (after ≡ with_admin operator.id (take_balance q.total_amount_cents) db)
IsFunded operator q db (by_credit chain) after =
    (after ≡ db)
    × (collect_credit_chain db operator ≡ ok chain)
    × (ensure_links q.total_amount_cents chain ≡ ok tt)
    × (q.total_amount_cents ≤ remaining_credit q.root_master)

module _ (admin operator : AdminAccount) (funding : String) (q : Quote) (db : AgentDb) (f : Funding)
    (after : AgentDb) where
  IsFunded-same :
      (g : Funding) (before : AgentDb)
      → ◌≡◌ {A = Result (Funding × AgentDb)} (ok (g, before)) (ok (f, after))
      → IsFunded operator q db g before
      → IsFunded operator q db f after
  IsFunded-same g before e h =
      subst (λ (p : Funding × AgentDb). IsFunded operator q db p.0 p.1)
        (ok_same (g, before) (f, after) e) h

  pub fund-IsFunded :
      fund admin operator funding q db ≡ ok (f, after) → IsFunded operator q db f after
  fund-IsFunded e = elim (Bool-cases (is_staff admin)) [
    | inl staff ↦ IsFunded-same by_platform db (rw staff at e) refl
    | inr agent ↦ elim (Bool-cases (str_eq funding "credit")) [
      | inl credit ↦ elim (Result-cases (ensure_credit_mode_allowed operator)) [
        | inl (x, bad) ↦ absurd (cc (rw (agent, credit, bad) at e))
        | inr (u, mode) ↦
            elim (Result-cases
              (validate_credit_generation db operator q.root_master q.total_amount_cents)) [
                | inl (x, bad) ↦ absurd (cc (rw (agent, credit, bad, mode) at e))
                | inr (chain, good) ↦
                    let (walked, room, enough) =
                      validated db operator q.root_master q.total_amount_cents chain good in
                    IsFunded-same (by_credit chain) db (rw (agent, credit, good, mode) at e)
                      (refl, walked, room, enough)
              ]
      ]
      | inr balance ↦ elim (Bool-cases (ltb operator.balance_cents q.total_amount_cents)) [
        | inl short ↦ absurd (cc (rw (agent, balance, short) at e))
        | inr enough ↦
            IsFunded-same by_balance _ (rw (agent, balance, enough) at e)
              (ground (arith, enough), refl)
      ]
    ]
  ]
