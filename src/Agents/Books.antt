-- ===== src/Agents/Books.antt =====
-- The books: what each account owes by the batches that stand on credit. A batch is owed by the account
-- that is to settle it next and by every account above it.
pub mod Lines
pub mod Settled
pub mod Direct
pub mod Chain
pub mod Charged
pub mod Funded
pub mod Generated
pub mod Repaid
pub mod Recharged
pub mod Grown
pub mod Sound
pub mod Accounted
pub mod Limits
use tg_auto_msg.Prelude.{
  ℕ, suc, zero, ◌+◌, ◌≤◌, ◌≡◌, refl, sym, ap, ◌∙◌, inl, inr, Bool, true, false, ◌&&◌, ◌||◌, not,
  Option, none, some, List, [], ◌∷◌, String, if◌then◌else◌, ◌==◌, ltb, ==_iff, is_some, or_else,
  find, any, update_where, Bool-cases, Option-cases, All, arith,
}
use text.Mathlib.TextPositions.{eq_refl}
use tg_auto_msg.Prelude.Text.{str_eq, eq_iff}
use tg_auto_msg.Prelude.Keyed.{Memᴰ, IsKeyedBy, find-Mem, Mem-key}
use tg_auto_msg.Agents.Rows.{AdminAccount, CardBatch, AgentDb, has_id, admin_of, field, is_pending}
use tg_auto_msg.Agents.Credit.{used_of}
use tg_auto_msg.Agents.Quote.{root_of}
use tg_auto_msg.Agents.Settlement.{is_batch}

abbrev pub parent_in : List AdminAccount → ℕ → Option ℕ
parent_in accounts k = field (λ (a : AdminAccount). a.parent_account_id) none (admin_of accounts k)

abbrev pub depth_in : List AdminAccount → ℕ → ℕ
depth_in accounts k = field (λ (a : AdminAccount). a.level_depth) 0 (admin_of accounts k)

abbrev pub root_in : List AdminAccount → ℕ → ℕ
root_in accounts k = field root_of 0 (admin_of accounts k)

-- The account `k` is `x`, or stands above it within so many steps.
abbrev pub on_line : (ℕ → Option ℕ) → ℕ → ℕ → ℕ → Bool
on_line up zero x k = x == k
on_line up (suc d) x k = (x == k) || elim (up x) [ none ↦ false | some p ↦ on_line up d p k ]

abbrev pub owes : List AdminAccount → ℕ → Option ℕ → ℕ → ℕ
owes accounts k none amount = 0
owes accounts k (some x) amount =
    if on_line (parent_in accounts) (depth_in accounts x) x k then amount else 0

abbrev pub weight : List AdminAccount → ℕ → CardBatch → ℕ
weight accounts k b =
    if is_pending b then owes accounts k b.current_liability_account_id b.total_amount_cents else 0

abbrev pub total_by : (CardBatch → ℕ) → List CardBatch → ℕ
total_by w [] = 0
total_by w (b ∷ bs) = w b + total_by w bs

-- What the account owes by the batches.
abbrev pub owed : List AdminAccount → List CardBatch → ℕ → ℕ
owed accounts batches k = total_by (weight accounts k) batches

-- The credit that every account has used is what it owes.
abbrev pub IsBalanced : AgentDb → Type 0
IsBalanced db = (k : ℕ) → used_of db.accounts k ≡ owed db.accounts db.batches k

-- An account without a parent is the root of its own; one with a parent stands a level below it and
-- has its root.
abbrev pub stands : List AdminAccount → AdminAccount → Bool
stands accounts a = ltb 0 a.id && elim a.parent_account_id [
  | none ↦ (a.level_depth == 0) && (root_of a == a.id)
  | some p ↦
      (a.level_depth == suc (depth_in accounts p))
      && (root_of a == root_in accounts p)
      && is_some (admin_of accounts p)
]

abbrev pub is_hierarchy : List AdminAccount → List AdminAccount → Bool
is_hierarchy accounts [] = true
is_hierarchy accounts (a ∷ rest) = stands accounts a && is_hierarchy accounts rest

abbrev pub IsHierarchy : List AdminAccount → Type 0
IsHierarchy accounts = is_hierarchy accounts accounts ≡ true

hierarchy-Mem :
    (accounts : List AdminAccount) (a : AdminAccount) (rest : List AdminAccount)
    → is_hierarchy accounts rest ≡ true
    → Memᴰ a rest
    → stands accounts a ≡ true
hierarchy-Mem accounts a [] h m = elim m [ ]
hierarchy-Mem accounts a (b ∷ bs) h (Memᴰ.head e) = rw e (ground arith)
hierarchy-Mem accounts a (b ∷ bs) h (Memᴰ.tail m) = hierarchy-Mem accounts a bs (ground arith) m

pub found-stands :
    (accounts : List AdminAccount) (k : ℕ) (a : AdminAccount)
    → IsHierarchy accounts
    → admin_of accounts k ≡ some a
    → (stands accounts a ≡ true) × (a.id ≡ k)
found-stands accounts k a h e =
    let (m, same) = find-Mem (has_id k) accounts a e in
    (hierarchy-Mem accounts a accounts h m, (==_iff a.id k).0 same)

-- A row changed in what is not its id.
abbrev pub changed : ℕ → (AdminAccount → AdminAccount) → Option AdminAccount → Option AdminAccount
changed k f none = none
changed k f (some a) = some (if a.id == k then f a else a)

module _ (f : AdminAccount → AdminAccount) (same : (a : AdminAccount) → (f a).id ≡ a.id) where
  field-changed {ℓ} :
      {B : Type ℓ} (g : AdminAccount → B) (d : B) (i : ℕ) (o : Option AdminAccount)
      → ((a : AdminAccount) → g (f a) ≡ g a)
      → field g d (changed i f o) ≡ field g d o
  field-changed g d i none kept = refl
  field-changed g d i (some a) kept = elim (Bool-cases (a.id == i)) [
    | inl hit ↦ rw hit (kept a)
    | inr miss ↦ rw miss refl
  ]

  pub admin_of-update :
      (i : ℕ) (accounts : List AdminAccount) (k : ℕ)
      → admin_of (update_where (has_id i) f accounts) k ≡ changed i f (admin_of accounts k)
  admin_of-update i [] k = refl
  admin_of-update i (a ∷ rest) k =
      let ih = admin_of-update i rest k in let kept = same a in ground (arith, ih, kept)

  pub field-update {ℓ} :
      {B : Type ℓ} (g : AdminAccount → B) (d : B) (i : ℕ) (accounts : List AdminAccount) (k : ℕ)
      → ((a : AdminAccount) → g (f a) ≡ g a)
      → field g d (admin_of (update_where (has_id i) f accounts) k)
        ≡ field g d (admin_of accounts k)
  field-update g d i accounts k kept =
      ap (field g d) (admin_of-update i accounts k) ∙ field-changed g d i (admin_of accounts k) kept

pub on_line-ext :
    (up down : ℕ → Option ℕ) (d x k : ℕ)
    → ((y : ℕ) → up y ≡ down y)
    → on_line up d x k ≡ on_line down d x k
on_line-ext up down zero x k e = refl
on_line-ext up down (suc d) x k e = rw (e x) (elim (Option-cases (down x)) [
  | inl top ↦ simp top
  | inr (p, below) ↦ rw (below, on_line-ext up down d p k e) refl
])
