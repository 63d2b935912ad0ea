-- ===== src/Scheduler/Queue/Earlier.antt =====
-- When a task in the queue is run.
use tg_auto_msg.Prelude.{
  ℕ, suc, ◌+◌, ◌≤◌, ◌≡◌, refl, inl, inr, min, max, Bool, true, false, Option, none, some, List, [],
  ◌∷◌, String, arith, if◌then◌else◌, ltb, leb, Bool-cases, All,
}
use mathlib.Core.Path.{subst}
use tg_auto_msg.Prelude.Text.{str_eq, eq_iff}
use text.Mathlib.TextPositions.{eq_refl}
use tg_auto_msg.Prelude.Int.{pos, pos_part, ltb_ℤ, leb_ℤ}
use tg_auto_msg.Redis.{SortedSet, IsSortedSet, scores_at_most}
use tg_auto_msg.Schema.{Task, Account}
use tg_auto_msg.Account.Rows.{Accounts, get_account}
use tg_auto_msg.Scheduler.Lifecycle.{has_account, account_of}
use tg_auto_msg.Scheduler.Queue.{
  delay_min, delay_max, extra_max, jitter_of, base_jitter, extra_jitter, scored, enqueue_one,
  enqueue_all, enqueue_due_tasks, due_tasks,
}

abbrev pub is_urgent : Task → Bool
is_urgent t = leb_ℤ (pos 100) t.priority

total :
    (urgent with_account : Bool) (least jitter extra : ℕ)
    → least ≤ jitter
    → jitter ≤ 300
    → extra ≤ 120
    → let sum = (if urgent then min jitter 3 else jitter) + (if with_account then extra else 0) in
      ((if urgent then 0 else least) ≤ sum) × (sum ≤ (if urgent then 123 else 420))
total true true least jitter extra h k l = omega arith
total true false least jitter extra h k l = omega arith
total false true least jitter extra h k l = omega arith
total false false least jitter extra h k l = omega arith

-- A member whose score is now at most the one it had.
abbrev pub sooner : Option ℕ → Option ℕ → Bool
sooner new none = true
sooner none (some old) = false
sooner (some new) (some old) = leb new old

sooner_refl : (a : Option ℕ) → sooner a a ≡ true
sooner_refl none = refl
sooner_refl (some a) = ground arith

sooner_trans : (a b c : Option ℕ) → sooner a b ≡ true → sooner b c ≡ true → sooner a c ≡ true
sooner_trans a b none h k = refl
sooner_trans none none (some z) h k = cc
sooner_trans none (some y) (some z) h k = cc
sooner_trans (some x) none (some z) h k = cc
sooner_trans (some x) (some y) (some z) h k = ground arith

sooner-most :
    (n : ℕ) (a b : Option ℕ)
    → sooner a b ≡ true
    → scores_at_most n b ≡ true
    → scores_at_most n a ≡ true
sooner-most n a none h k = cc
sooner-most n none (some y) h k = cc
sooner-most n (some x) (some y) h k = ground arith

later-most :
    (m n : ℕ) (a : Option ℕ) → m ≤ n → scores_at_most m a ≡ true → scores_at_most n a ≡ true
later-most m n none le h = cc
later-most m n (some x) le h = ground arith

module _ {S : Type 0} (r : SortedSet S) (law : IsSortedSet r) where
  scored-own :
      (id : String) (at : ℕ) (old : Option ℕ) (st : S)
      → r.zscore id st ≡ old
      → (sooner (r.zscore id (scored r id at old st)) old ≡ true)
        × (scores_at_most at (r.zscore id (scored r id at old st)) ≡ true)
  scored-own id at none st e = rw (law.score_add id at st id, eq_refl id) (refl, ground arith)
  scored-own id at (some old) st e = elim (Bool-cases (ltb at old)) [
    | inl earlier ↦ rw (earlier, law.score_add id at st id, eq_refl id) (ground arith, ground arith)
    | inr stays ↦ rw (stays, e) (ground arith, ground arith)
  ]

  scored-other :
      (id : String) (at : ℕ) (old : Option ℕ) (st : S) (j : String)
      → str_eq id j ≡ false
      → r.zscore j (scored r id at old st) ≡ r.zscore j st
  scored-other id at none st j other = rw (law.score_add id at st j, other) refl
  scored-other id at (some old) st j other = elim (Bool-cases (ltb at old)) [
    | inl earlier ↦ rw (earlier, law.score_add id at st j, other) refl
    | inr stays ↦ rw stays refl
  ]

  scored-sooner :
      (id : String) (at : ℕ) (st : S) (j : String)
      → sooner (r.zscore j (scored r id at (r.zscore id st) st)) (r.zscore j st) ≡ true
  scored-sooner id at st j = elim (Bool-cases (str_eq id j)) [
    | inl same ↦
        subst (λ i. sooner (r.zscore i (scored r id at (r.zscore id st) st)) (r.zscore i st) ≡ true)
          ((eq_iff id j).0 same) (scored-own id at (r.zscore id st) st refl).0
    | inr other ↦ rw (scored-other id at (r.zscore id st) st j other) (sooner_refl (r.zscore j st))
  ]

module _ (randint : ℕ → ℕ → ℕ → ℕ)
    (in_range : (k a b : ℕ) → a ≤ b → (a ≤ randint k a b) × (randint k a b ≤ b)) where
  -- What the code's randomness may be, of any task.
  base-range :
      (k : ℕ) (t : Task)
      → (min (delay_min t) 300 ≤ base_jitter randint k t) × (base_jitter randint k t ≤ 300)
  base-range k t = elim (Bool-cases (ltb 0 (delay_max t))) [
    | inl delayed ↦
        let upper = min (delay_max t) 300 in
        let (low, high) = in_range k (min (delay_min t) upper) upper (omega arith) in
        rw delayed (omega (arith, low, high), omega (arith, high))
    | inr at_once ↦
        let upper = min (pos_part t.jitter_seconds) 300 in
        let (low, high) = in_range k 0 upper (omega arith) in
        let no_delay : max (delay_min t) (pos_part t.delay_max_seconds) ≤ 0 = ground arith in
        rw at_once (omega (arith, no_delay), omega (arith, high))
  ]

  extra-le : (k : ℕ) (a : Option Account) → extra_jitter randint k a ≤ 120
  extra-le k none = omega arith
  extra-le k (some a) =
      let most = (in_range k 0 (extra_max a.weight) (omega arith)).1 in
      elim (Bool-cases (ltb_ℤ a.weight (pos 100))) [
        | inl light ↦ rw light (omega (arith, most))
        | inr full ↦ rw full (omega arith)
      ]

  -- The jitter of a task is at least its smallest delay, cut at 300 seconds, and at most 420
  -- seconds; that of an urgent task may be less than its delay and is at most 123 seconds. A
  -- draw lies between its bounds.
  pub jitter_bounds :
      (k : ℕ) (accounts : Accounts) (t : Task)
      → ((if is_urgent t then 0 else min (delay_min t) 300) ≤ jitter_of randint k accounts t)
        × (jitter_of randint k accounts t ≤ (if is_urgent t then 123 else 420))
  unfolding jitter_of
  jitter_bounds k accounts t =
      let (low, high) = base-range k t in
      let extra = extra-le (suc k) (get_account (account_of t) accounts) in
      total (is_urgent t) (has_account t) (min (delay_min t) 300) (base_jitter randint k t) _ low
        high extra

  jitter-most : (k : ℕ) (accounts : Accounts) (t : Task) → jitter_of randint k accounts t ≤ 420
  jitter-most k accounts t =
      let most = (jitter_bounds k accounts t).1 in
      elim (Bool-cases (is_urgent t)) [
        | inl urgent ↦
            let short : jitter_of randint k accounts t ≤ 123 = rw urgent at most in
            omega (arith, short)
        | inr relaxed ↦ rw relaxed at most
      ]

  module _ {S : Type 0} (r : SortedSet S) (law : IsSortedSet r) where
    enqueue_all-sooner :
        (now k : ℕ) (accounts : Accounts) (ts : List Task) (st : S) (j : String)
        → sooner (r.zscore j (enqueue_all randint r now k accounts ts st)) (r.zscore j st) ≡ true
    unfolding enqueue_all
    enqueue_all-sooner now k accounts [] st j = sooner_refl (r.zscore j st)
    enqueue_all-sooner now k accounts (t ∷ ts) st j =
        sooner_trans _ _ (r.zscore j st)
          (enqueue_all-sooner now (suc (suc k)) accounts ts
            (enqueue_one randint r now k accounts t st) j)
          (scored-sooner r law t.task_id (now + jitter_of randint k accounts t) st j)

    enqueue_all_within :
        (now k : ℕ) (accounts : Accounts) (ts : List Task) (st : S)
        → All
            (λ t.
              scores_at_most
                (now + 420)
                (r.zscore t.task_id (enqueue_all randint r now k accounts ts st))
              ≡ true)
            ts
    unfolding enqueue_all
    enqueue_all_within now k accounts [] st = tt
    enqueue_all_within now k accounts (t ∷ ts) st =
        let at = now + jitter_of randint k accounts t in
        let next = enqueue_one randint r now k accounts t st in
        let here = (scored-own r law t.task_id at (r.zscore t.task_id st) st refl).1 in
        let soon =
          later-most at (now + 420) (r.zscore t.task_id next)
            (omega (arith, jitter-most k accounts t)) here in
        (
          sooner-most (now + 420) _ (r.zscore t.task_id next)
              (enqueue_all-sooner now (suc (suc k)) accounts ts next t.task_id) soon,
          enqueue_all_within now (suc (suc k)) accounts ts next,
        )

    -- Enqueueing puts nothing in the queue off: a member's score stays or falls, and each due
    -- task that the query returns is in the queue to run within 420 seconds of now. A draw lies
    -- between its bounds.
    pub enqueue_within :
        (now : ℕ) (accounts : Accounts) (tasks : List Task) (st : S) (j : String)
        → let after = enqueue_due_tasks randint r now accounts tasks st in
          (sooner (r.zscore j after) (r.zscore j st) ≡ true)
          × All
              (λ t. scores_at_most (now + 420) (r.zscore t.task_id after) ≡ true)
              (due_tasks now tasks)
    unfolding enqueue_due_tasks
    enqueue_within now accounts tasks st j = (
      enqueue_all-sooner now 0 accounts (due_tasks now tasks) st j,
      enqueue_all_within now 0 accounts (due_tasks now tasks) st,
    )
