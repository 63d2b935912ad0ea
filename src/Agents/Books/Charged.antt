-- ===== src/Agents/Books/Charged.antt =====
-- What a batch on credit charges, and that it is what the batch weighs.
use tg_auto_msg.Prelude.{
  ℕ, suc, zero, ◌+◌, ◌≡◌, refl, sym, ap, ◌∙◌, inl, inr, Bool, true, ◌&&◌, Option, none, some, List,
  [], ◌∷◌, String, if◌then◌else◌, ◌==◌, ==_iff, is_some, update_where, Bool-cases, Option-cases,
  arith,
}
use mathlib.Core.Path.{subst}
use tg_auto_msg.Prelude.Keyed.{find-Mem}
use tg_auto_msg.Http.{Result, ok, refused, Result-cases}
use tg_auto_msg.Agents.Rows.{AdminAccount, CardBatch, AgentCreditLimit, AgentDb, has_id, admin_of}
use tg_auto_msg.Agents.Quote.{root_of}
use tg_auto_msg.Agents.Credit.{
  Link, link_at, prepend, walk, used_of, use_credit, charge_link, charge_chain,
  apply_credit_generation,
}
use tg_auto_msg.Agents.Books.{
  parent_in, depth_in, root_in, on_line, owes, owed, IsHierarchy, found-stands, changed,
  admin_of-update,
}
use tg_auto_msg.Agents.Books.Lines.{parent-below, on_line-depth}
use tg_auto_msg.Agents.Books.Lines.{owed-update}
use tg_auto_msg.Agents.Books.Chain.{link_at-ok}

-- What the links charge on an account.
abbrev pub charged : List Link → ℕ → ℕ → ℕ
charged [] n k = 0
charged (l ∷ ls) n k = (if l.child.id == k then n else 0) + charged ls n k

abbrev pub present : List AdminAccount → List Link → Bool
present accounts [] = true
present accounts (l ∷ ls) = is_some (admin_of accounts l.child.id) && present accounts ls

pub prepend-ok :
    (l : Link) (w : Option (Result (List Link))) (chain : List Link)
    → prepend l w ≡ some (ok chain)
    → (ls : List Link) × (w ≡ some (ok ls)) × (chain ≡ l ∷ ls)
prepend-ok l none chain e = cc
prepend-ok l (some (ok ls)) chain e = (ls, refl, cc)
prepend-ok l (some (refused x)) chain e = cc

module _ (accounts : List AdminAccount) (stood : IsHierarchy accounts) (n k : ℕ) where
  -- An account, its parent, and what is charged above it.
  line_above :
      (x p m : ℕ)
      → parent_in accounts x ≡ some p
      → m ≡ (if on_line (parent_in accounts) (depth_in accounts p) p k then n else 0)
      → (if x == k then n else 0) + m
        ≡ (if on_line (parent_in accounts) (depth_in accounts x) x k then n else 0)
  line_above x p m up e =
      let (step, _, _) = parent-below accounts x p stood up in
      rw (step, on_line, up, e)
        (elim (Bool-cases (on_line (parent_in accounts) (depth_in accounts p) p k)) [
          | inr off ↦ ground (arith, off)
          | inl on ↦
              let bound = on_line-depth accounts (depth_in accounts p) p k stood refl on in
              elim (Bool-cases (x == k)) [
                | inr differ ↦ ground (arith, on)
                | inl hit ↦
                    let same : x ≡ k = (==_iff x k).0 hit in
                    let level : suc (depth_in accounts p) ≡ depth_in accounts k =
                      sym step ∙ ap (depth_in accounts) same in
                    absurd (omega (arith, bound, level))
              ]
        ])

  pub walk-line :
      (fuel : ℕ) (limits : List AgentCreditLimit) (current : AdminAccount) (visited : List ℕ)
      (chain : List Link)
      → admin_of accounts current.id ≡ some current
      → walk fuel accounts limits current visited ≡ some (ok chain)
      → (charged chain n k + (if root_in accounts current.id == k then n else 0) ≡ (
          if on_line (parent_in accounts) (depth_in accounts current.id) current.id k
          then n
          else 0))
        × (present accounts chain ≡ true)
  walk-line zero limits current visited chain there e = cc
  walk-line (suc fuel) limits current visited chain there e =
      elim (Option-cases current.parent_account_id) [
        | inl top ↦
            let ended : [] ≡ chain = cc (rw (walk, top) at e) in
            let (s, _) = found-stands accounts current.id current stood there in
            let g : (current.level_depth == 0) && (root_of current == current.id) ≡ true =
              ground (arith, rw top at s) in
            let deep : depth_in accounts current.id ≡ 0 =
              rw (depth_in, there) (ground (arith, g)) in
            let root : root_in accounts current.id ≡ current.id =
              rw (root_in, there) (ground (arith, g)) in
            rw (← ended, deep, root) (ground arith, refl)
        | inr (p, up) ↦ elim (Result-cases (link_at accounts limits current p visited)) [
          | inl (x, refusal) ↦ absurd (cc (rw (walk, up, refusal) at e))
          | inr (l, linked) ↦
              let (_, child, found, _, _) = link_at-ok accounts limits current p visited l linked in
              let (_, same) = find-Mem (has_id p) accounts l.parent found in
              let id : l.parent.id ≡ p = (==_iff l.parent.id p).0 same in
              let (ls, rest, chained) = prepend-ok l _ chain (rw (walk, up, linked) at e) in
              let (line, all_there) =
                walk-line fuel limits l.parent (current.id ∷ visited) ls
                  (subst (λ i. admin_of accounts i ≡ some l.parent) (sym id) found) rest in
              let parent : parent_in accounts current.id ≡ some p = rw (parent_in, there) up in
              let (_, root, _) = parent-below accounts current.id p stood parent in
              let above =
                subst
                  (λ i.
                    charged ls n k + (if root_in accounts i == k then n else 0)
                    ≡ (if on_line (parent_in accounts) (depth_in accounts i) i k then n else 0))
                  id line in
              let whole = line_above current.id p _ parent above in
              let whose : l.child.id ≡ current.id = ap (λ (a : AdminAccount). a.id) child in
              (
                rw (chained, whose, root) (omega (arith, whole)),
                rw (chained, whose, there) all_there,
              )
        ]
      ]

used_of-use :
    (accounts : List AdminAccount) (i n k : ℕ)
    → is_some (admin_of accounts i) ≡ true
    → used_of (update_where (has_id i) (use_credit n) accounts) k
      ≡ used_of accounts k + (if i == k then n else 0)
used_of-use accounts i n k there =
    rw (used_of, admin_of-update (use_credit n) (λ x. refl) i accounts k)
      (elim (Option-cases (admin_of accounts k)) [
        | inl absent ↦ elim (Bool-cases (i == k)) [
          | inl hit ↦
              let same : i ≡ k = (==_iff i k).0 hit in absurd (cc (rw (same, absent) at there))
          | inr miss ↦ rw (absent, miss) (omega arith)
        ]
        | inr (b, found) ↦
            let (_, same) = find-Mem (has_id k) accounts b found in rw found (ground arith)
      ])

pub is_some-changed :
    (i : ℕ) (f : AdminAccount → AdminAccount) (o : Option AdminAccount)
    → is_some (changed i f o) ≡ is_some o
is_some-changed i f none = refl
is_some-changed i f (some a) = refl

found-use :
    (accounts : List AdminAccount) (i n k : ℕ)
    → is_some (admin_of (update_where (has_id i) (use_credit n) accounts) k)
      ≡ is_some (admin_of accounts k)
found-use accounts i n k =
    ap is_some (admin_of-update (use_credit n) (λ x. refl) i accounts k)
    ∙ is_some-changed i (use_credit n) (admin_of accounts k)

present-use :
    (accounts : List AdminAccount) (i n : ℕ) (ls : List Link)
    → present (update_where (has_id i) (use_credit n) accounts) ls ≡ present accounts ls
present-use accounts i n [] = refl
present-use accounts i n (l ∷ ls) =
    rw (found-use accounts i n l.child.id, present-use accounts i n ls) refl

-- The chain charges its accounts, and moves none.
charge_chain-accounts :
    (n : ℕ) (batch_id : String) (operator : ℕ) (ls : List Link) (db : AgentDb)
    → present db.accounts ls ≡ true
    → ((k : ℕ)
        → used_of (charge_chain n batch_id operator ls db).accounts k
          ≡ used_of db.accounts k + charged ls n k)
      × ((k : ℕ) (bs : List CardBatch)
          → owed (charge_chain n batch_id operator ls db).accounts bs k ≡ owed db.accounts bs k)
      × ((k : ℕ)
          → is_some (admin_of (charge_chain n batch_id operator ls db).accounts k)
            ≡ is_some (admin_of db.accounts k))
      × ((charge_chain n batch_id operator ls db).batches ≡ db.batches)
charge_chain-accounts n batch_id operator [] db all_there =
    (λ k. omega arith, λ k bs. refl, λ k. refl, refl)
charge_chain-accounts n batch_id operator (l ∷ ls) db all_there =
    let here : is_some (admin_of db.accounts l.child.id) ≡ true = ground arith in
    let later : present db.accounts ls ≡ true = ground arith in
    let (used, owing, found, same) =
      charge_chain-accounts n batch_id operator ls (charge_link n batch_id operator l db)
        (rw (present-use db.accounts l.child.id n ls) later) in
    (
      λ k. omega (arith, used k, used_of-use db.accounts l.child.id n k here),
      λ k bs.
          owing k bs
          ∙ owed-update (use_credit n) (λ x. refl) (λ x. refl) (λ x. refl) l.child.id db.accounts k
              bs,
      λ k. found k ∙ found-use db.accounts l.child.id n k,
      same,
    )

-- What a batch on credit of the operator adds to each account's used credit is what it weighs there.
pub apply_credit_generation-charges :
    (db : AgentDb) (operator : AdminAccount) (root n : ℕ) (batch_id : String) (fuel : ℕ)
    (limits : List AgentCreditLimit) (chain : List Link)
    → IsHierarchy db.accounts
    → admin_of db.accounts operator.id ≡ some operator
    → root ≡ root_in db.accounts operator.id
    → is_some (admin_of db.accounts root) ≡ true
    → walk fuel db.accounts limits operator [] ≡ some (ok chain)
    → (k : ℕ)
    → (used_of (apply_credit_generation chain root operator.id n batch_id db).accounts k
        ≡ used_of db.accounts k + owes db.accounts k (some operator.id) n)
      × ((bs : List CardBatch)
          → owed (apply_credit_generation chain root operator.id n batch_id db).accounts bs k
            ≡ owed db.accounts bs k)
      × ((apply_credit_generation chain root operator.id n batch_id db).batches ≡ db.batches)
apply_credit_generation-charges db operator root n batch_id fuel limits chain stood there rooted
      known e k =
    let (line, all_there) = walk-line db.accounts stood n k fuel limits operator [] chain there e in
    let (used, owing, found, batches) =
      charge_chain-accounts n batch_id operator.id chain db all_there in
    let mid = charge_chain n batch_id operator.id chain db in
    let top = used_of-use mid.accounts root n k (found root ∙ known) in
    let charges = used k in
    let whole = rw (← rooted) at line in
    (
      omega (arith, whole, charges, top),
      λ bs.
          owed-update (use_credit n) (λ x. refl) (λ x. refl) (λ x. refl) root mid.accounts k bs
          ∙ owing k bs,
      batches,
    )
