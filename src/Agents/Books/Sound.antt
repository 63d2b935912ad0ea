-- ===== src/Agents/Books/Sound.antt =====
-- What the tables of the books keep when rows change: the hierarchy, the ids and the balance.
use tg_auto_msg.Prelude.{
  ℕ, ◌≡◌, refl, sym, ap, ◌∙◌, inl, inr, Bool, true, false, ◌||◌, List, [], ◌∷◌, String,
  if◌then◌else◌, ◌==◌, is_some, any, keep, All, update_where, Bool-cases, arith,
}
use tg_auto_msg.Prelude.Text.{str_eq, eq_iff}
use tg_auto_msg.Prelude.Keyed.{Memᴰ, IsKeyedBy}
use tg_auto_msg.Agents.Rows.{AdminAccount, CardBatch, has_id, admin_of}
use tg_auto_msg.Agents.Quote.{root_of}
use tg_auto_msg.Agents.Credit.{used_of}
use tg_auto_msg.Agents.Settlement.{is_batch}
use tg_auto_msg.Agents.Recharge.{oldest_first, insert_batch, earlier, own_pending}
use tg_auto_msg.Agents.Books.{
  depth_in, root_in, stands, is_hierarchy, IsHierarchy, owed, admin_of-update, field-update,
}
use tg_auto_msg.Agents.Books.Lines.{owed-update}
use tg_auto_msg.Agents.Books.Charged.{is_some-changed}
use tg_auto_msg.Agents.Books.Grown.{stands-ext, both, chosen}

-- A change of money alone.
module _ (f : AdminAccount → AdminAccount) (same : (a : AdminAccount) → (f a).id ≡ a.id)
    (stays : (a : AdminAccount) → (f a).parent_account_id ≡ a.parent_account_id)
    (level : (a : AdminAccount) → (f a).level_depth ≡ a.level_depth)
    (rooted : (a : AdminAccount) → root_of (f a) ≡ root_of a) (i : ℕ)
    (accounts : List AdminAccount) where
  rows_kept :
      (p : ℕ)
      → is_some (admin_of accounts p) ≡ true
      → (depth_in (update_where (has_id i) f accounts) p ≡ depth_in accounts p)
        × (root_in (update_where (has_id i) f accounts) p ≡ root_in accounts p)
        × (is_some (admin_of (update_where (has_id i) f accounts) p) ≡ true)
  rows_kept p h = (
    field-update f same (λ (a : AdminAccount). a.level_depth) 0 i accounts p level,
    field-update f same root_of 0 i accounts p rooted,
    ap is_some (admin_of-update f same i accounts p)
        ∙ is_some-changed i f (admin_of accounts p)
        ∙ h,
  )

  rows_stand :
      (xs : List AdminAccount)
      → is_hierarchy accounts xs ≡ true
      → is_hierarchy (update_where (has_id i) f accounts) (update_where (has_id i) f xs) ≡ true
  rows_stand [] h = refl
  rows_stand (x ∷ xs) h =
      let after = update_where (has_id i) f accounts in
      let one : stands accounts x ≡ true = ground arith in
      let others : is_hierarchy accounts xs ≡ true = ground arith in
      both (stands after (if x.id == i then f x else x)) _
        (chosen (x.id == i) after (f x) x
          (stands-ext accounts after x (f x) (same x) (stays x) (level x) (rooted x) rows_kept one)
          (stands-ext accounts after x x refl refl refl refl rows_kept one))
        (rows_stand xs others)

  pub IsHierarchy-kept : IsHierarchy accounts → IsHierarchy (update_where (has_id i) f accounts)
  IsHierarchy-kept h = rows_stand accounts h

  pub balance_kept :
      (bs : List CardBatch)
      → ((a : AdminAccount) → (f a).credit_used_cents ≡ a.credit_used_cents)
      → ((k : ℕ) → used_of accounts k ≡ owed accounts bs k)
      → (k : ℕ)
      → used_of (update_where (has_id i) f accounts) k
        ≡ owed (update_where (has_id i) f accounts) bs k
  balance_kept bs used books k =
      field-update f same (λ (a : AdminAccount). a.credit_used_cents) 0 i accounts k used
      ∙ books k
      ∙ sym (owed-update f same stays level i accounts k bs)

abbrev id_of : CardBatch → String
id_of b = b.batch_id

-- Batches change, and their ids do not.
module _ (g : CardBatch → CardBatch) (same : (b : CardBatch) → (g b).batch_id ≡ b.batch_id) where
  any-update :
      (id k : String) (bs : List CardBatch)
      → any (λ b. str_eq (id_of b) k) (update_where (is_batch id) g bs)
        ≡ any (λ b. str_eq (id_of b) k) bs
  any-update id k [] = refl
  any-update id k (b ∷ bs) = elim (Bool-cases (str_eq b.batch_id id)) [
    | inl hit ↦ rw (hit, same b, any-update id k bs) refl
    | inr miss ↦ rw (miss, any-update id k bs) refl
  ]

  pub keyed-update :
      (id : String) (bs : List CardBatch)
      → IsKeyedBy id_of bs
      → IsKeyedBy id_of (update_where (is_batch id) g bs)
  keyed-update id [] h = tt
  keyed-update id (b ∷ bs) (h, t) = elim (Bool-cases (str_eq b.batch_id id)) [
    | inl hit ↦ rw hit (rw (same b, any-update id b.batch_id bs) h, keyed-update id bs t)
    | inr miss ↦ rw miss (rw (any-update id b.batch_id bs) h, keyed-update id bs t)
  ]

  -- A row of another id is where it was.
  pub Mem-update :
      (id : String) (x : CardBatch) (bs : List CardBatch)
      → str_eq x.batch_id id ≡ false
      → Memᴰ x bs
      → Memᴰ x (update_where (is_batch id) g bs)
  Mem-update id x [] differ m = elim m [ ]
  Mem-update id x (b ∷ bs) differ (Memᴰ.head e) =
      let kept : (if str_eq b.batch_id id then g b else b) ≡ b = rw (rw e at differ) refl in
      Memᴰ.head (e ∙ sym kept)
  Mem-update id x (b ∷ bs) differ (Memᴰ.tail m) = Memᴰ.tail (Mem-update id x bs differ m)

-- The batches of a recharge: rows of the table, none of them twice.
abbrev pub IsFrom : List CardBatch → List CardBatch → Type 0
IsFrom table bs = All (λ b. Memᴰ b table) bs × IsKeyedBy id_of bs

any-insert :
    (p : CardBatch → Bool) (b : CardBatch) (cs : List CardBatch)
    → any p (insert_batch b cs) ≡ (p b || any p cs)
any-insert p b [] = refl
any-insert p b (c ∷ cs) = ground (arith, any-insert p b cs)

str_eq-sym : (s t : String) → str_eq s t ≡ false → str_eq t s ≡ false
str_eq-sym s t e = elim (Bool-cases (str_eq t s)) [
  | inl same ↦ absurd (cc (sym ((eq_iff s t).1 (sym ((eq_iff t s).0 same))) ∙ e))
  | inr differ ↦ differ
]

insert-IsFrom :
    (table : List CardBatch) (b : CardBatch) (cs : List CardBatch)
    → Memᴰ b table
    → any (λ c. str_eq (id_of c) b.batch_id) cs ≡ false
    → IsFrom table cs
    → IsFrom table (insert_batch b cs)
insert-IsFrom table b [] m new h = ((m, tt), (refl, tt))
insert-IsFrom table b (c ∷ cs) m new ((mc, ms), (k, ks)) =
    let first : str_eq c.batch_id b.batch_id ≡ false = ground (arith, new) in
    let others : any (λ d. str_eq (id_of d) b.batch_id) cs ≡ false = ground (arith, new) in
    let (ms', ks') = insert-IsFrom table b cs m others (ms, ks) in
    let other_way = str_eq-sym c.batch_id b.batch_id first in
    let alone : any (λ d. str_eq (id_of d) c.batch_id) (insert_batch b cs) ≡ false =
      any-insert (λ d. str_eq (id_of d) c.batch_id) b cs ∙ rw (other_way, k) refl in
    elim (Bool-cases (earlier c b)) [
      | inl before ↦ rw before ((mc, ms'), (alone, ks'))
      | inr after ↦ rw after ((m, (mc, ms)), (new, (k, ks)))
    ]

any-keep :
    (p q : CardBatch → Bool) (bs : List CardBatch) → any p bs ≡ false → any p (keep q bs) ≡ false
any-keep p q [] h = refl
any-keep p q (b ∷ bs) h = ground (arith, any-keep p q bs)

any-oldest_first : (p : CardBatch → Bool) (bs : List CardBatch) → any p (oldest_first bs) ≡ any p bs
any-oldest_first p [] = refl
any-oldest_first p (b ∷ bs) = rw (any-insert p b (oldest_first bs), any-oldest_first p bs) refl

keep-IsFrom :
    (q : CardBatch → Bool) (table bs : List CardBatch) → IsFrom table bs → IsFrom table (keep q bs)
keep-IsFrom q table [] h = h
keep-IsFrom q table (b ∷ bs) ((m, ms), (k, ks)) =
    let (ms', ks') = keep-IsFrom q table bs (ms, ks) in
    elim (Bool-cases (q b)) [
      | inl kept ↦ rw kept ((m, ms'), (any-keep (λ c. str_eq (id_of c) b.batch_id) q bs k, ks'))
      | inr left ↦ rw left (ms', ks')
    ]

oldest_first-IsFrom : (table bs : List CardBatch) → IsFrom table bs → IsFrom table (oldest_first bs)
oldest_first-IsFrom table [] h = h
oldest_first-IsFrom table (b ∷ bs) ((m, ms), (k, ks)) =
    insert-IsFrom table b (oldest_first bs) m
      (any-oldest_first (λ c. str_eq (id_of c) b.batch_id) bs ∙ k)
      (oldest_first-IsFrom table bs (ms, ks))

weaken :
    (b : CardBatch) (table bs : List CardBatch)
    → All (λ c. Memᴰ c table) bs
    → All (λ c. Memᴰ c (b ∷ table)) bs
weaken b table [] h = tt
weaken b table (c ∷ cs) (m, ms) = (Memᴰ.tail m, weaken b table cs ms)

All-from : (bs : List CardBatch) → All (λ b. Memᴰ b bs) bs
All-from [] = tt
All-from (b ∷ bs) = (Memᴰ.head refl, weaken b bs bs (All-from bs))

pub own_pending-IsFrom :
    (k : ℕ) (bs : List CardBatch) → IsKeyedBy id_of bs → IsFrom bs (own_pending k bs)
own_pending-IsFrom k bs keyed = oldest_first-IsFrom bs _ (keep-IsFrom _ bs bs (All-from bs, keyed))
