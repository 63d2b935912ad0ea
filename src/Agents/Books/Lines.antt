-- ===== src/Agents/Books/Lines.antt =====
-- An account, the one above it, and what a batch weighs on them.
use text.Mathlib.TextPositions.{eq_refl}
use tg_auto_msg.Prelude.{
  Option, none, ℕ, suc, zero, ◌+◌, ◌≤◌, ◌≡◌, refl, inl, inr, true, false, ◌&&◌, some, List, [], ◌∷◌,
  String, ◌==◌, is_some, any, update_where, Bool-cases, Option-cases, arith,
}
use mathlib.Core.Path.{subst}
use tg_auto_msg.Prelude.Text.{str_eq, eq_iff}
use tg_auto_msg.Prelude.Keyed.{Memᴰ, IsKeyedBy, Mem-key}
use tg_auto_msg.Agents.Rows.{has_id, AdminAccount, CardBatch, admin_of}
use tg_auto_msg.Agents.Quote.{root_of}
use tg_auto_msg.Agents.Settlement.{is_batch}
use tg_auto_msg.Agents.Books.{
  owes, weight, owed, on_line-ext, field-update, parent_in, depth_in, root_in, on_line, total_by,
  stands, IsHierarchy, found-stands,
}

-- Below its parent by a level.
below :
    (accounts : List AdminAccount) (a : AdminAccount) (p : ℕ)
    → stands accounts a ≡ true
    → a.parent_account_id ≡ some p
    → (a.level_depth ≡ suc (depth_in accounts p))
      × (root_of a ≡ root_in accounts p)
      × (is_some (admin_of accounts p) ≡ true)
below accounts a p h e =
    let g : ((a.level_depth == suc (depth_in accounts p))
          && (root_of a == root_in accounts p)
          && is_some (admin_of accounts p))
        ≡ true =
      ground (arith, rw e at h) in
    ground arith

pub parent-below :
    (accounts : List AdminAccount) (x p : ℕ)
    → IsHierarchy accounts
    → parent_in accounts x ≡ some p
    → (depth_in accounts x ≡ suc (depth_in accounts p))
      × (root_in accounts x ≡ root_in accounts p)
      × (is_some (admin_of accounts p) ≡ true)
parent-below accounts x p h e = elim (Option-cases (admin_of accounts x)) [
  | inl absent ↦ absurd (cc (rw (parent_in, absent) at e))
  | inr (a, there) ↦
      let (s, _) = found-stands accounts x a h there in
      let (deeper, rooted, found) = below accounts a p s (rw (parent_in, there) at e) in
      (rw (depth_in, there) deeper, rw (root_in, there) rooted, found)
]

pub on_line-depth :
    (accounts : List AdminAccount) (d x k : ℕ)
    → IsHierarchy accounts
    → depth_in accounts x ≡ d
    → on_line (parent_in accounts) d x k ≡ true
    → depth_in accounts k ≤ d
on_line-depth accounts zero x k h e on =
    let same : x ≡ k = ground arith in rw (← same, e) (omega arith)
on_line-depth accounts (suc d) x k h e on = elim (Bool-cases (x == k)) [
  | inl here ↦ let same : x ≡ k = ground arith in rw (← same, e) (omega arith)
  | inr differ ↦ elim (Option-cases (parent_in accounts x)) [
    | inl top ↦ absurd (cc (simp (differ, top) at on))
    | inr (p, up) ↦
        let (step, _, _) = parent-below accounts x p h up in
        let deep : depth_in accounts p ≡ d = omega (arith, step, e) in
        let ih = on_line-depth accounts d p k h deep (simp (differ, up) at on) in omega (arith, ih)
  ]
]

pub total_by-ext :
    (v w : CardBatch → ℕ) (bs : List CardBatch)
    → ((b : CardBatch) → v b ≡ w b)
    → total_by v bs ≡ total_by w bs
total_by-ext v w [] e = refl
total_by-ext v w (b ∷ bs) e = rw (e b, total_by-ext v w bs e) refl

update_absent :
    (id : String) (f : CardBatch → CardBatch) (bs : List CardBatch)
    → any (λ (b : CardBatch). str_eq b.batch_id id) bs ≡ false
    → update_where (is_batch id) f bs ≡ bs
update_absent id f [] h = refl
update_absent id f (b ∷ bs) h = ground (arith, update_absent id f bs)

-- The change of a row of a table changes the total by what the row weighs.
pub total_by-update :
    (w : CardBatch → ℕ) (f : CardBatch → CardBatch) (b : CardBatch) (bs : List CardBatch)
    → IsKeyedBy (λ (x : CardBatch). x.batch_id) bs
    → Memᴰ b bs
    → total_by w (update_where (is_batch b.batch_id) f bs) + w b ≡ total_by w bs + w (f b)
total_by-update w f b [] keyed m = elim m [ ]
total_by-update w f b (c ∷ cs) keyed (Memᴰ.head e) =
    let absent : any (λ (x : CardBatch). str_eq x.batch_id b.batch_id) cs ≡ false =
      rw (← e) at (keyed.0) in
    rw (← e, eq_refl b.batch_id, update_absent b.batch_id f cs absent) (omega arith)
total_by-update w f b (c ∷ cs) keyed (Memᴰ.tail m) =
    elim (Bool-cases (str_eq c.batch_id b.batch_id)) [
      | inl same ↦
          let here = Mem-key (λ (x : CardBatch). x.batch_id) b cs m in
          let e : c.batch_id ≡ b.batch_id = (eq_iff c.batch_id b.batch_id).0 same in
          let absent : any (λ (x : CardBatch). str_eq x.batch_id b.batch_id) cs ≡ false =
            subst (λ k. any (λ (x : CardBatch). str_eq x.batch_id k) cs ≡ false) e keyed.0 in
          absurd (cc)
      | inr differ ↦ let ih = total_by-update w f b cs keyed.1 m in rw differ (omega (arith, ih))
    ]

-- Money does not move an account in the hierarchy.
module _ (f : AdminAccount → AdminAccount) (same : (a : AdminAccount) → (f a).id ≡ a.id)
    (stays : (a : AdminAccount) → (f a).parent_account_id ≡ a.parent_account_id)
    (level : (a : AdminAccount) → (f a).level_depth ≡ a.level_depth) (i : ℕ)
    (accounts : List AdminAccount) where
  parent_in-update :
      (k : ℕ) → parent_in (update_where (has_id i) f accounts) k ≡ parent_in accounts k
  parent_in-update k =
      field-update f same (λ (a : AdminAccount). a.parent_account_id) none i accounts k stays

  depth_in-update : (k : ℕ) → depth_in (update_where (has_id i) f accounts) k ≡ depth_in accounts k
  depth_in-update k = field-update f same (λ (a : AdminAccount). a.level_depth) 0 i accounts k level

  owes-update :
      (k : ℕ) (o : Option ℕ) (n : ℕ)
      → owes (update_where (has_id i) f accounts) k o n ≡ owes accounts k o n
  owes-update k none n = refl
  owes-update k (some x) n =
      rw
        (
          depth_in-update x,
          on_line-ext (parent_in (update_where (has_id i) f accounts)) (parent_in accounts)
              (depth_in accounts x) x k parent_in-update,
        )
        refl

  weight-update :
      (k : ℕ) (b : CardBatch)
      → weight (update_where (has_id i) f accounts) k b ≡ weight accounts k b
  weight-update k b = rw (owes-update k b.current_liability_account_id b.total_amount_cents) refl

  pub owed-update :
      (k : ℕ) (bs : List CardBatch)
      → owed (update_where (has_id i) f accounts) bs k ≡ owed accounts bs k
  owed-update k bs =
      total_by-ext (weight (update_where (has_id i) f accounts) k) (weight accounts k) bs
        (weight-update k)
