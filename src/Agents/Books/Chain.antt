-- ===== src/Agents/Books/Chain.antt =====
-- The chain of credit: its walk ends, and it holds every account above the operator once.
use tg_auto_msg.Prelude.{
  ℕ, suc, zero, ◌≤◌, ◌<◌, ◌≡◌, refl, inl, inr, true, false, not, Option, none, some, List, [], ◌∷◌,
  keep, length, length-keep-le, Bool-cases, Option-cases, arith,
}
use mathlib.Core.Path.{subst}
use tg_auto_msg.Prelude.Keyed.{find-Mem, Memᴰ}
use tg_auto_msg.Http.{Result, ok, refused, ok_same, Result-cases}
use tg_auto_msg.Agents.Rows.{AdminAccount, AgentCreditLimit, AgentDb, has_id, admin_of, limit_of}
use tg_auto_msg.Agents.Visibility.{includes}
use tg_auto_msg.Agents.Credit.{Link, link_at, prepend, walk, collect_credit_chain}

-- What a link is: the account, the one above it, and an active row between them.
pub link_at-ok :
    (accounts : List AdminAccount) (limits : List AgentCreditLimit) (current : AdminAccount) (p : ℕ)
    (visited : List ℕ) (l : Link)
    → link_at accounts limits current p visited ≡ ok l
    → (includes current.id visited ≡ false)
      × (l.child ≡ current)
      × (admin_of accounts p ≡ some l.parent)
      × (limit_of limits l.parent.id current.id ≡ some l.limit)
      × (l.limit.is_active ≡ true)
link_at-ok accounts limits current p visited l e = elim (Bool-cases (includes current.id visited)) [
  | inl seen ↦ absurd (cc (simp seen at e))
  | inr new ↦ elim (Option-cases (admin_of accounts p)) [
    | inl absent ↦ absurd (cc (simp (new, absent) at e))
    | inr (parent, found) ↦ elim (Option-cases (limit_of limits parent.id current.id)) [
      | inl absent ↦ absurd (cc (simp (new, found, absent) at e))
      | inr (row, given) ↦ elim (Bool-cases row.is_active) [
        | inr off ↦ absurd (cc (simp (new, found, given, off) at e))
        | inl on ↦
            let same = ok_same _ l (simp (new, found, given, on) at e) in
            subst
              (λ (m : Link).
                (includes current.id visited ≡ false)
                × (m.child ≡ current)
                × (admin_of accounts p ≡ some m.parent)
                × (limit_of limits m.parent.id current.id ≡ some m.limit)
                × (m.limit.is_active ≡ true))
              same (new, refl, found, given, on)
      ]
    ]
  ]
]

-- The accounts that the walk has not passed.
unseen : List AdminAccount → List ℕ → ℕ
unseen accounts visited = length (keep (λ (a : AdminAccount). not (includes a.id visited)) accounts)

unseen-le :
    (accounts : List AdminAccount) (c : ℕ) (visited : List ℕ)
    → unseen accounts (c ∷ visited) ≤ unseen accounts visited
unfolding unseen
unseen-le [] c visited = omega arith
unseen-le (a ∷ rest) c visited = ground (arith, unseen-le rest c visited)

unseen-lt :
    (accounts : List AdminAccount) (a : AdminAccount) (visited : List ℕ)
    → Memᴰ a accounts
    → includes a.id visited ≡ false
    → unseen accounts (a.id ∷ visited) < unseen accounts visited
unfolding unseen
unseen-lt [] a visited m new = elim m [ ]
unseen-lt (b ∷ rest) a visited (Memᴰ.head e) new =
    let less = unseen-le rest a.id visited in rw (← e) (ground (arith, less))
unseen-lt (b ∷ rest) a visited (Memᴰ.tail m) new = ground (arith, unseen-lt rest a visited m new)

prepend-returns :
    (l : Link) (w : Option (Result (List Link))) (r : Result (List Link))
    → w ≡ some r
    → (q : Result (List Link)) × (prepend l w ≡ some q)
prepend-returns l none r e = cc
prepend-returns l (some (ok ls)) r e = (ok (l ∷ ls), refl)
prepend-returns l (some (refused x)) r e = (refused x, refl)

walk-returns :
    (fuel : ℕ) (accounts : List AdminAccount) (limits : List AgentCreditLimit)
    (current : AdminAccount) (visited : List ℕ)
    → Memᴰ current accounts
    → unseen accounts visited < fuel
    → (r : Result (List Link)) × (walk fuel accounts limits current visited ≡ some r)
walk-returns zero accounts limits current visited m enough = absurd (omega (arith, enough))
walk-returns (suc fuel) accounts limits current visited m enough =
    elim (Option-cases current.parent_account_id) [
      | inl top ↦ (ok [], rw (walk, top) refl)
      | inr (p, up) ↦ elim (Result-cases (link_at accounts limits current p visited)) [
        | inl (x, e) ↦ (refused x, rw (walk, up, e) refl)
        | inr (l, e) ↦
            let (new, _, found, _, _) = link_at-ok accounts limits current p visited l e in
            let (here, _) = find-Mem (has_id p) accounts l.parent found in
            let less = unseen-lt accounts current visited m new in
            let (r, rest) =
              walk-returns fuel accounts limits l.parent (current.id ∷ visited) here
                (omega (arith, enough, less)) in
            let (q, both) = prepend-returns l _ r rest in (q, rw (walk, up, e, both) refl)
      ]
    ]

-- The walk from an account of the table comes to an end within a turn for each account and one more,
-- whatever the table's parents are: it returns the chain or it refuses.
pub walk-Ends :
    (db : AgentDb) (operator : AdminAccount)
    → Memᴰ operator db.accounts
    → (r : Result (List Link)) × (walk (suc (length db.accounts)) db.accounts db.limits operator []
        ≡ some r)
      × (collect_credit_chain db operator ≡ r)
unfolding unseen
walk-Ends db operator m =
    let few = length-keep-le (λ (a : AdminAccount). not (includes a.id [])) db.accounts in
    let (r, e) =
      walk-returns (suc (length db.accounts)) db.accounts db.limits operator [] m
        (omega (arith, few)) in
    (r, e, rw e refl)
