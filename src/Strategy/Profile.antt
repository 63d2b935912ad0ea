-- ===== src/Strategy/Profile.antt =====
-- What the automatic delays do to the queue.
use tg_auto_msg.Prelude.{
  ℕ, ◌+◌, ◌≤◌, ◌<◌, min, max, Bool, true, false, Option, arith, if◌then◌else◌,
}
use tg_auto_msg.Prelude.Int.{ℤ}
use tg_auto_msg.Schema.{Task, Account}
use tg_auto_msg.Account.Rows.{Accounts}
use tg_auto_msg.Scheduler.Queue.{jitter_of}
use tg_auto_msg.Scheduler.Queue.Earlier.{jitter_bounds, is_urgent}
use tg_auto_msg.Strategy.{
  min_range, max_low, drawn_min, drawn_max, build_auto_delay_profile, apply_system_strategy_fields,
}

ranges :
    (priority : ℤ) (account : Option Account)
    → (30 ≤ (min_range priority account).0)
      × ((min_range priority account).0 ≤ (min_range priority account).1)
      × ((min_range priority account).1 ≤ 150)
      × (max_low priority account ≤ 300)
ranges priority account = ground arith

raised_floor :
    (urgent : Bool) (floor wait : ℕ)
    → 30 ≤ floor
    → (if urgent then 0 else floor) ≤ wait
    → (if urgent then 0 else 30) ≤ wait
raised_floor true floor wait h k = k
raised_floor false floor wait h k = omega (arith, h, k)

module _ (randint : ℕ → ℕ → ℕ → ℕ)
    (in_range : (k a b : ℕ) → a ≤ b → (a ≤ randint k a b) × (randint k a b ≤ b)) where
  profile-ordered :
      (priority : ℤ) (account : Option Account)
      → let p = build_auto_delay_profile randint priority account in
        (30 ≤ p.delay_min_seconds)
        × (p.delay_min_seconds ≤ 150)
        × (p.delay_min_seconds < p.delay_max_seconds)
        × (p.delay_max_seconds ≤ 300)
        × (30 ≤ p.jitter_seconds)
        × (p.jitter_seconds ≤ p.delay_max_seconds)
  unfolding build_auto_delay_profile
  profile-ordered priority account =
      let (least, some_range, most, low) = ranges priority account in
      let (a, b) =
        in_range 0 (min_range priority account).0 (min_range priority account).1 some_range in
      let bottom = max (drawn_min randint priority account + 1) (max_low priority account) in
      let small : drawn_min randint priority account ≤ 150 = omega (arith, b, most) in
      let (x, y) = in_range 1 bottom 300 (omega (arith, small, low)) in
      let large : drawn_min randint priority account < drawn_max randint priority account =
        omega (arith, x) in
      let start : 30 ≤ drawn_min randint priority account = omega (arith, least, a) in
      let (j, k) =
        in_range 2 30 (min (drawn_max randint priority account) 300)
          (omega (arith, start, large)) in
      (start, small, large, y, j, omega (arith, k))

  -- The automatic delays of a task are in order: the smallest is 30 to 150 seconds, below the greatest,
  -- which is at most 300, and the jitter is 30 seconds or more and at most the greatest delay. The task
  -- then waits in the queue for 30 to 420 seconds, unless it is urgent: those delays do not hold it
  -- back, and it waits for 123 seconds at most. A draw lies between its bounds.
  pub auto_delay_bounds :
      (account : Option Account) (t : Task) (k : ℕ) (accounts : Accounts)
      → let p = build_auto_delay_profile randint t.priority account in
        let wait = jitter_of randint k accounts (apply_system_strategy_fields randint account t) in
        ((30 ≤ p.delay_min_seconds)
          × (p.delay_min_seconds ≤ 150)
          × (p.delay_min_seconds < p.delay_max_seconds)
          × (p.delay_max_seconds ≤ 300)
          × (30 ≤ p.jitter_seconds)
          × (p.jitter_seconds ≤ p.delay_max_seconds))
        × ((if is_urgent t then 0 else 30) ≤ wait)
        × (wait ≤ (if is_urgent t then 123 else 420))
  unfolding apply_system_strategy_fields
  auto_delay_bounds account t k accounts =
      let order = profile-ordered t.priority account in
      let (low, high) =
        jitter_bounds randint in_range k accounts
          (apply_system_strategy_fields randint account t) in
      (order, raised_floor (is_urgent t) _ _ (omega (arith, order.0)) low, high)
