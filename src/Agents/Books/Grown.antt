-- ===== src/Agents/Books/Grown.antt =====
-- The hierarchy grows: a new agent stands below the one that made it (`create_child_agent`).
use tg_auto_msg.Prelude.{
  ℕ, ◌+◌, ◌≤◌, ◌≡◌, refl, sym, ap, ◌∙◌, inl, inr, Bool, true, false, ◌&&◌, ◌||◌, not, none, some,
  List, [], ◌∷◌, ◌++◌, String, if◌then◌else◌, ◌==◌, ltb, ==_iff, is_some, any, update_where,
  Bool-cases, Option-cases, arith,
}
use mathlib.Core.Path.{subst}
use tg_auto_msg.Prelude.Keyed.{find-Mem}
use tg_auto_msg.Http.{ok, ok_same}
use tg_auto_msg.Agents.Rows.{AdminAccount, AgentCreditLimit, AgentDb, has_id, admin_of, field}
use tg_auto_msg.Agents.Quote.{root_of}
use tg_auto_msg.Agents.Rbac.{is_agent, is_master_agent, is_sub_agent}
use tg_auto_msg.Agents.Hierarchy.{
  AgentForm, has_username, trimmed, allocate, new_child, new_limit, create_child_agent,
}
use tg_auto_msg.Agents.Books.{
  depth_in, root_in, stands, is_hierarchy, IsHierarchy, found-stands, admin_of-update, field-update,
}
use tg_auto_msg.Agents.Books.Repaid.{row_after, update_elsewhere}
use tg_auto_msg.Agents.Books.Charged.{is_some-changed}

admin_of-append :
    (accounts : List AdminAccount) (c : AdminAccount) (k : ℕ)
    → is_some (admin_of accounts k) ≡ true
    → admin_of (accounts ++ (c ∷ [])) k ≡ admin_of accounts k
admin_of-append [] c k h = cc
admin_of-append (a ∷ rest) c k h = elim (Bool-cases (a.id == k)) [
  | inl hit ↦ rw hit refl
  | inr miss ↦ let ih = admin_of-append rest c k (rw miss at h) in rw miss ih
]

-- What stands in a table stands in another that has the same of the parent's row.
pub stands-ext :
    (first second : List AdminAccount) (a b : AdminAccount)
    → b.id ≡ a.id
    → b.parent_account_id ≡ a.parent_account_id
    → b.level_depth ≡ a.level_depth
    → root_of b ≡ root_of a
    → ((p : ℕ)
        → is_some (admin_of first p) ≡ true
        → (depth_in second p ≡ depth_in first p)
          × (root_in second p ≡ root_in first p)
          × (is_some (admin_of second p) ≡ true))
    → stands first a ≡ true
    → stands second b ≡ true
stands-ext first second a b id parent level root same h = elim (Option-cases a.parent_account_id) [
  | inl top ↦ rw (stands, parent, top, root, level, id) (rw top at h)
  | inr (p, up) ↦
      let g = rw up at h in
      let there : is_some (admin_of first p) ≡ true = ground (arith, g) in
      let (d, r, s) = same p there in
      rw (stands, parent, up, root, level, d, r, s, id) (rw there at g)
]

pub both : (x y : Bool) → x ≡ true → y ≡ true → x && y ≡ true
both true y h g = g
both false y h g = cc

pub chosen :
    (t : Bool) (accounts : List AdminAccount) (a b : AdminAccount)
    → stands accounts a ≡ true
    → stands accounts b ≡ true
    → stands accounts (if t then a else b) ≡ true
chosen true accounts a b h g = h
chosen false accounts a b h g = g

module _ (first second : List AdminAccount)
    (same : (p : ℕ)
      → is_some (admin_of first p) ≡ true
      → (depth_in second p ≡ depth_in first p)
        × (root_in second p ≡ root_in first p)
        × (is_some (admin_of second p) ≡ true)) where
  hierarchy-ext :
      (xs : List AdminAccount) → is_hierarchy first xs ≡ true → is_hierarchy second xs ≡ true
  hierarchy-ext [] h = refl
  hierarchy-ext (x ∷ xs) h =
      let one : stands first x ≡ true = ground arith in
      let others : is_hierarchy first xs ≡ true = ground arith in
      rw (stands-ext first second x x refl refl refl refl same one, hierarchy-ext xs others) refl

  hierarchy-allocate :
      (i n : ℕ) (xs : List AdminAccount)
      → is_hierarchy first xs ≡ true
      → is_hierarchy second (update_where (has_id i) (allocate n) xs) ≡ true
  hierarchy-allocate i n [] h = refl
  hierarchy-allocate i n (x ∷ xs) h =
      let one : stands first x ≡ true = ground arith in
      let others : is_hierarchy first xs ≡ true = ground arith in
      both (stands second (if x.id == i then allocate n x else x)) _
        (chosen (x.id == i) second (allocate n x) x
          (stands-ext first second x (allocate n x) refl refl refl refl same one)
          (stands-ext first second x x refl refl refl refl same one))
        (hierarchy-allocate i n xs others)

hierarchy-append :
    (accounts xs : List AdminAccount) (c : AdminAccount)
    → is_hierarchy accounts xs ≡ true
    → stands accounts c ≡ true
    → is_hierarchy accounts (xs ++ (c ∷ [])) ≡ true
hierarchy-append accounts [] c h s = rw s refl
hierarchy-append accounts (x ∷ xs) c h s =
    let one : stands accounts x ≡ true = ground arith in
    let others : is_hierarchy accounts xs ≡ true = ground arith in
    rw (one, hierarchy-append accounts xs c others s) refl

appended :
    (accounts : List AdminAccount) (c : AdminAccount) (p : ℕ)
    → is_some (admin_of accounts p) ≡ true
    → (depth_in (accounts ++ (c ∷ [])) p ≡ depth_in accounts p)
      × (root_in (accounts ++ (c ∷ [])) p ≡ root_in accounts p)
      × (is_some (admin_of (accounts ++ (c ∷ [])) p) ≡ true)
appended accounts c p h =
    let e = admin_of-append accounts c p h in
    (ap (field (λ (a : AdminAccount). a.level_depth) 0) e, ap (field root_of 0) e, ap is_some e ∙ h)

allocated :
    (accounts : List AdminAccount) (i n p : ℕ)
    → is_some (admin_of accounts p) ≡ true
    → (depth_in (update_where (has_id i) (allocate n) accounts) p ≡ depth_in accounts p)
      × (root_in (update_where (has_id i) (allocate n) accounts) p ≡ root_in accounts p)
      × (is_some (admin_of (update_where (has_id i) (allocate n) accounts) p) ≡ true)
allocated accounts i n p h = (
  field-update (allocate n) (λ x. refl) (λ (a : AdminAccount). a.level_depth) 0 i accounts p
      (λ x. refl),
  field-update (allocate n) (λ x. refl) root_of 0 i accounts p (λ x. refl),
  ap is_some (admin_of-update (allocate n) (λ x. refl) i accounts p)
      ∙ is_some-changed i (allocate n) (admin_of accounts p)
      ∙ h,
)

-- The child stands below its parent.
child-stands :
    (accounts : List AdminAccount) (hash : String → String) (id : ℕ) (parent : AdminAccount)
    (f : AgentForm) (mode : String) (n : ℕ) (db : AgentDb)
    → ltb 0 id ≡ true
    → IsHierarchy accounts
    → admin_of accounts parent.id ≡ some parent
    → stands accounts (new_child hash id parent f mode n db.roles) ≡ true
child-stands accounts hash id parent f mode n db positive stood there =
    let (s, _) = found-stands accounts parent.id parent stood there in
    let here : ltb 0 parent.id ≡ true = ground arith in
    rw (positive, depth_in, root_in, there) (ground (arith, here))

-- The new row is found by its id.
found-appended :
    (accounts : List AdminAccount) (c : AdminAccount)
    → admin_of accounts c.id ≡ none
    → admin_of (accounts ++ (c ∷ [])) c.id ≡ some c
found-appended [] c free =
    let same : (c.id == c.id) ≡ true = (==_iff c.id c.id).1 refl in rw same refl
found-appended (a ∷ rest) c free = elim (Bool-cases (a.id == c.id)) [
  | inl hit ↦ absurd (cc (rw hit at free))
  | inr miss ↦ let ih = found-appended rest c (rw miss at free) in rw miss ih
]

-- What a new child leaves: a hierarchy, in which the child stands right below the account `k`. What
-- this one has given grows by the child's limit, and is not more than its own, which stays.
abbrev pub IsGrown : ℕ → AdminAccount → ℕ → AgentDb → AgentDb → Type 0
IsGrown k child n db after =
    IsHierarchy after.accounts
    × (old : AdminAccount) × (p : AdminAccount) × (admin_of db.accounts k ≡ some old)
    × (admin_of after.accounts k ≡ some p)
    × (p.allocated_credit_limit_cents ≡ old.allocated_credit_limit_cents + n)
    × (p.credit_limit_cents ≡ old.credit_limit_cents)
    × (p.allocated_credit_limit_cents ≤ p.credit_limit_cents)
    × (admin_of after.accounts child.id ≡ some child)
    × (child.parent_account_id ≡ some k)
    × (child.level_depth ≡ p.level_depth + 1)
    × (child.credit_limit_cents ≡ n)
    × (r : AgentCreditLimit) × (after.limits ≡ db.limits ++ (r ∷ []))
    × (r.parent_account_id ≡ k)
    × (r.child_account_id ≡ child.id)
    × (r.delegated_credit_limit_cents ≡ n)
    × (r.delegated_credit_used_cents ≡ 0)
    × (r.is_active ≡ true)

grown :
    (accounts : List AdminAccount) (child parent : AdminAccount) (k n : ℕ)
    → IsHierarchy accounts
    → admin_of accounts k ≡ some parent
    → stands accounts child ≡ true
    → IsHierarchy (update_where (has_id k) (allocate n) (accounts ++ (child ∷ [])))
grown accounts child parent k n stood there stands_there =
    let all_accounts = accounts ++ (child ∷ []) in
    let longer =
      hierarchy-ext accounts all_accounts (appended accounts child) all_accounts
        (hierarchy-append accounts accounts child stood stands_there) in
    hierarchy-allocate all_accounts (update_where (has_id k) (allocate n) all_accounts)
      (allocated all_accounts k n) k n all_accounts longer

module _ (hash : String → String) (admin parent : AdminAccount) (f : AgentForm) (mode : String)
    (n : ℕ) (db : AgentDb) (positive : ltb 0 db.next_account ≡ true)
    (free : admin_of db.accounts db.next_account ≡ none)
    (there : admin_of db.accounts parent.id ≡ some parent) (stood : IsHierarchy db.accounts)
    (enough : ltb parent.credit_limit_cents (parent.allocated_credit_limit_cents + n) ≡ false) where
  abbrev made : AdminAccount
  made = new_child hash db.next_account parent f mode n db.roles

  abbrev grown_accounts : List AdminAccount
  grown_accounts = update_where (has_id parent.id) (allocate n) (db.accounts ++ (made ∷ []))

  child_row : admin_of grown_accounts db.next_account ≡ some made
  child_row =
      let last = found-appended db.accounts made free in
      elim (update_elsewhere parent.id (allocate n) (λ x. refl) (db.accounts ++ (made ∷ []))
        db.next_account) [
          | inl same ↦
              let e : parent.id ≡ db.next_account = (==_iff parent.id db.next_account).0 same in
              let clash : none ≡ some parent =
                sym free ∙ ap (admin_of db.accounts) (sym e) ∙ there in
              absurd (cc clash)
          | inr kept ↦ kept ∙ last
        ]

  child-IsGrown :
      (after : AgentDb)
      → after.accounts ≡ grown_accounts
      → after.limits ≡ db.limits ++ (new_limit parent db.next_account n ∷ [])
      → IsGrown parent.id made n db after
  child-IsGrown after rows given =
      let stands_there =
        child-stands db.accounts hash db.next_account parent f mode n db positive stood there in
      let still = admin_of-append db.accounts made parent.id (rw there refl) ∙ there in
      (
        subst IsHierarchy (sym rows)
            (grown db.accounts made parent parent.id n stood there stands_there),
        parent,
        allocate n parent,
        there,
        ap (λ x. admin_of x parent.id) rows
            ∙ row_after parent.id (allocate n) (λ x. refl) (db.accounts ++ (made ∷ [])) parent
                still,
        refl,
        refl,
        ground (arith, enough),
        ap (λ x. admin_of x db.next_account) rows ∙ child_row,
        refl,
        refl,
        refl,
        new_limit parent db.next_account n,
        given,
        refl,
        refl,
        refl,
        refl,
        refl,
      )

-- An agent that makes a child leaves a hierarchy of accounts where it found one, if the id of the new
-- account is positive and not taken. The child stands in it, right below the agent, with the limit that
-- was asked for. What the agent has given grows by that limit and is not more than its own, which
-- stays, and one row is added to the credit limits: of that limit, unused and active.
pub create_child_agent-IsHierarchy :
    (hash : String → String) (admin child : AdminAccount) (f : AgentForm) (mode : String) (n : ℕ)
    (db after : AgentDb)
    → ltb 0 db.next_account ≡ true
    → admin_of db.accounts db.next_account ≡ none
    → create_child_agent hash admin f mode n db ≡ ok (child, after)
    → IsHierarchy db.accounts
    → IsGrown admin.id child n db after
create_child_agent-IsHierarchy hash admin child f mode n db after positive unused e stood =
    elim (Bool-cases (not (is_agent admin) || not (is_master_agent admin || is_sub_agent admin))) [
      | inl stranger ↦ absurd (cc (rw stranger at e))
      | inr agent ↦ elim (Option-cases (admin_of db.accounts admin.id)) [
        | inl absent ↦ absurd (cc (rw (agent, absent) at e))
        | inr (parent, there) ↦
            elim (Bool-cases (any (has_username (trimmed f.username)) db.accounts)) [
              | inl taken ↦ absurd (cc (rw (agent, there, taken) at e))
              | inr free ↦
                  elim (Bool-cases
                    (ltb parent.credit_limit_cents (parent.allocated_credit_limit_cents + n))) [
                      | inl short ↦ absurd (cc (rw (agent, there, free, short) at e))
                      | inr enough ↦
                          let (_, hit) = find-Mem (has_id admin.id) db.accounts parent there in
                          let id : parent.id ≡ admin.id = (==_iff parent.id admin.id).0 hit in
                          let here =
                            subst (λ i. admin_of db.accounts i ≡ some parent) (sym id) there in
                          let same =
                            ok_same _ (child, after) (rw (agent, there, free, enough) at e) in
                          subst (λ i. IsGrown i child n db after) id
                            (subst (λ c. IsGrown parent.id c n db after) (ap (λ r. r.0) same)
                              (child-IsGrown hash admin parent f mode n db positive unused here
                                stood enough after (sym (ap (λ r. r.1.accounts) same))
                                (sym (ap (λ r. r.1.limits) same))))
                    ]
            ]
      ]
    ]
