-- ===== src/Agents/Books/Limits.antt =====
-- Credit stays within its limits: those of the rows along the chain, and the master's
-- (`_validate_credit_generation` and `_apply_credit_generation`).
use tg_auto_msg.Prelude.{
  ℕ, suc, zero, ◌+◌, ◌-◌, ◌≤◌, ◌≡◌, refl, sym, ap, ◌∙◌, ◌⊎◌, inl, inr, Bool, true, ◌&&◌, not,
  Option, none, some, List, [], ◌∷◌, String, if◌then◌else◌, ◌==◌, ==_iff, is_some, update_where,
  length, Bool-cases, Option-cases, arith,
}
use mathlib.Core.Path.{subst}
use tg_auto_msg.Prelude.Keyed.{find-Mem}
use tg_auto_msg.Http.{ok, Result-cases, refuse_if-ok}
use tg_auto_msg.Agents.Rows.{
  AdminAccount, AgentCreditLimit, AgentDb, has_id, admin_of, limit_of, is_between,
}
use tg_auto_msg.Agents.Quote.{root_of}
use tg_auto_msg.Agents.Credit.{
  Link, link_at, walk, used_of, use_limit, charge_link, charge_chain, has_credit, ensure_links,
  validate_credit_generation, apply_credit_generation,
}
use tg_auto_msg.Agents.Books.{parent_in, depth_in, root_in, on_line, owes, IsHierarchy}
use tg_auto_msg.Agents.Books.Chain.{link_at-ok}
use tg_auto_msg.Agents.Books.Charged.{
  charged, prepend-ok, walk-line, apply_credit_generation-charges,
}
use tg_auto_msg.Agents.Books.Funded.{validated}
use tg_auto_msg.Agents.Books.Generated.{walk_of}

-- What the links charge on the row from `p` to `c`.
abbrev matched : List Link → ℕ → ℕ → ℕ → ℕ
matched [] n p c = 0
matched (l ∷ ls) n p c =
    (if (l.parent.id == p) && (l.child.id == c) then n else 0) + matched ls n p c

matched-le : (ls : List Link) (n p c : ℕ) → matched ls n p c ≤ charged ls n c
matched-le [] n p c = omega arith
matched-le (l ∷ ls) n p c = ground (arith, matched-le ls n p c)

-- The row's used part and its limit.
abbrev used_between : List AgentCreditLimit → ℕ → ℕ → ℕ
used_between limits p c = elim (limit_of limits p c) [
  | none ↦ 0
  | some r ↦ r.delegated_credit_used_cents
]

charged_row : ℕ → Bool → Option AgentCreditLimit → Option AgentCreditLimit
charged_row n t none = none
charged_row n t (some r) = some (if t then use_limit n r else r)

limit_of-use :
    (limits : List AgentCreditLimit) (i j n p c : ℕ)
    → limit_of (update_where (is_between i j) (use_limit n) limits) p c
      ≡ charged_row n ((i == p) && (j == c)) (limit_of limits p c)
unfolding charged_row
limit_of-use [] i j n p c = refl
limit_of-use (r ∷ rest) i j n p c = ground (arith, limit_of-use rest i j n p c)

-- A row that the chain has charged.
chain_row :
    (n : ℕ) (batch_id : String) (operator : ℕ) (ls : List Link) (db : AgentDb) (p c : ℕ)
    (r : AgentCreditLimit)
    → limit_of db.limits p c ≡ some r
    → (s : AgentCreditLimit) × (limit_of (charge_chain n batch_id operator ls db).limits p c
        ≡ some s)
      × (s.delegated_credit_used_cents ≡ r.delegated_credit_used_cents + matched ls n p c)
      × (s.delegated_credit_limit_cents ≡ r.delegated_credit_limit_cents)
unfolding charged_row
chain_row n batch_id operator [] db p c r e = (r, e, omega arith, refl)
chain_row n batch_id operator (l ∷ ls) db p c r e =
    let test = (l.parent.id == p) && (l.child.id == c) in
    let next = limit_of-use db.limits l.parent.id l.child.id n p c ∙ ap (charged_row n test) e in
    let (s, found, used, limit) =
      chain_row n batch_id operator ls (charge_link n batch_id operator l db) p c
        (if test then use_limit n r else r) next in
    (s, found, ground (arith, used), ground (arith, limit))

-- Each link of a validated chain has room for the amount.
links_room :
    (fuel : ℕ) (accounts : List AdminAccount) (limits : List AgentCreditLimit)
    (current : AdminAccount) (visited : List ℕ) (chain : List Link) (n p c : ℕ)
    (r : AgentCreditLimit)
    → walk fuel accounts limits current visited ≡ some (ok chain)
    → ensure_links n chain ≡ ok tt
    → limit_of limits p c ≡ some r
    → (matched chain n p c ≡ 0)
      ⊎ (n ≤ r.delegated_credit_limit_cents - r.delegated_credit_used_cents)
links_room zero accounts limits current visited chain n p c r e room there = cc
links_room (suc fuel) accounts limits current visited chain n p c r e room there =
    elim (Option-cases current.parent_account_id) [
      | inl top ↦
          let ended : [] ≡ chain = cc (rw (walk, top) at e) in
          inl (subst (λ ls. matched ls n p c ≡ 0) ended refl)
      | inr (q, up) ↦ elim (Result-cases (link_at accounts limits current q visited)) [
        | inl (x, refusal) ↦ absurd (cc (rw (walk, up, refusal) at e))
        | inr (l, linked) ↦
            let (_, child, _, row, _) = link_at-ok accounts limits current q visited l linked in
            let (ls, rest, chained) = prepend-ok l _ chain (rw (walk, up, linked) at e) in
            let all_room = subst (λ x. ensure_links n x ≡ ok tt) chained room in
            let (enough, later) = refuse_if-ok (not (has_credit n l)) _ _ _ tt all_room in
            let ih =
              links_room fuel accounts limits l.parent (current.id ∷ visited) ls n p c r rest later
                there in
            let whose : l.child.id ≡ current.id = ap (λ (a : AdminAccount). a.id) child in
            subst
              (λ x.
                (matched x n p c ≡ 0)
                ⊎ (n ≤ r.delegated_credit_limit_cents - r.delegated_credit_used_cents))
              (sym chained)
              (elim (Bool-cases ((l.parent.id == p) && (l.child.id == c))) [
                | inr other ↦ elim ih [
                  | inl nothing ↦ inl (rw other (omega (arith, nothing)))
                  | inr some_room ↦ inr some_room
                ]
                | inl this ↦
                    let hp : l.parent.id ≡ p = ground arith in
                    let hc : l.child.id ≡ c = ground arith in
                    let of_row : limit_of limits p c ≡ some l.limit =
                      subst (λ i. limit_of limits i c ≡ some l.limit) hp
                        (subst (λ j. limit_of limits l.parent.id j ≡ some l.limit) (sym whose ∙ hc)
                          row) in
                    let same : l.limit ≡ r = cc (sym of_row ∙ there) in
                    inr (
                      subst
                        (λ (x : AgentCreditLimit).
                          n ≤ x.delegated_credit_limit_cents - x.delegated_credit_used_cents)
                        same (ground (arith, enough)))
              ])
      ]
    ]

at_most :
    (accounts : List AdminAccount) (n k x y z : ℕ) → x ≡ y + owes accounts k (some z) n → x ≤ y + n
at_most accounts n k x y z e =
    elim (Bool-cases (on_line (parent_in accounts) (depth_in accounts z) z k)) [
      | inl on ↦ let f = rw on at e in omega (arith, f)
      | inr off ↦ let f = rw off at e in omega (arith, f)
    ]

-- A batch on credit that was validated and charged leaves the used credit of the operator's master
-- within the master's limit; it adds to no account more than the amount; and a row between two agents
-- that was within its limit is within it still, with the limit that it had.
pub credit_generation-within_limits :
    (db : AgentDb) (operator root_master : AdminAccount) (n : ℕ) (batch_id : String)
    (chain : List Link) (p c : ℕ) (r : AgentCreditLimit)
    → IsHierarchy db.accounts
    → admin_of db.accounts operator.id ≡ some operator
    → admin_of db.accounts (root_of operator) ≡ some root_master
    → root_master.credit_used_cents ≤ root_master.credit_limit_cents
    → limit_of db.limits p c ≡ some r
    → r.delegated_credit_used_cents ≤ r.delegated_credit_limit_cents
    → validate_credit_generation db operator root_master n ≡ ok chain
    → (used_of
          (apply_credit_generation chain root_master.id operator.id n batch_id db).accounts
          root_master.id
        ≤ root_master.credit_limit_cents)
      × ((k : ℕ)
          → used_of
              (apply_credit_generation chain root_master.id operator.id n batch_id db).accounts
              k
            ≤ used_of db.accounts k + n)
      × (s : AgentCreditLimit) × (limit_of
            (apply_credit_generation chain root_master.id operator.id n batch_id db).limits
            p
            c
          ≡ some s)
      × (s.delegated_credit_used_cents ≤ s.delegated_credit_limit_cents)
      × (s.delegated_credit_limit_cents ≡ r.delegated_credit_limit_cents)
credit_generation-within_limits db operator root_master n batch_id chain p c r stood there root
      sound given within e =
    let (walked, room, enough) = validated db operator root_master n chain e in
    let fuel = suc (length db.accounts) in
    let walks = walk_of (walk fuel db.accounts db.limits operator []) _ chain walked (λ x. cc) in
    let (_, id) = find-Mem (has_id (root_of operator)) db.accounts root_master root in
    let top : root_master.id ≡ root_of operator = (==_iff root_master.id (root_of operator)).0 id in
    let rooted : root_of operator ≡ root_in db.accounts operator.id = rw (root_in, there) refl in
    let known : is_some (admin_of db.accounts root_master.id) ≡ true = rw (top, root) refl in
    let charges =
      apply_credit_generation-charges db operator root_master.id n batch_id fuel db.limits chain
        stood there (top ∙ rooted) known walks in
    let bounded = λ (k : ℕ). at_most db.accounts n k _ _ _ (charges k).0 in
    let at_root : admin_of db.accounts root_master.id ≡ some root_master =
      subst (λ i. admin_of db.accounts i ≡ some root_master) (sym top) root in
    let before : used_of db.accounts root_master.id ≡ root_master.credit_used_cents =
      rw (used_of, at_root) refl in
    let up_to = bounded root_master.id in
    let (s, found, used, limit) = chain_row n batch_id operator.id chain db p c r given in
    let (line, _) = walk-line db.accounts stood n c fuel db.limits operator [] chain there walks in
    let few = matched-le chain n p c in
    let spare = links_room fuel db.accounts db.limits operator [] chain n p c r walks room given in
    (
      omega (arith, up_to, before, enough, sound),
      bounded,
      s,
      found,
      elim spare [
        | inl nothing ↦ omega (arith, used, limit, within, nothing)
        | inr left ↦ ground (arith, used, limit, within, left, few, line)
      ],
      limit,
    )
