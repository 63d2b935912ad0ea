-- ===== src/Limiter.antt =====
-- backend/bot/safety/rate_limiter.py: the locks before a send, and the invisible variation of a text.
-- Times are microseconds; the retry of a Redis command after a broken connection is not modelled.
pub mod Wait
pub mod Variation
use Prim.Native.String.{◌++◌}
use tg_auto_msg.Prelude.{
  ℕ, zero, suc, ◌+◌, ◌-◌, ◌*◌, Bool, true, false, ◌&&◌, not, Option, none, some, List, [], ◌∷◌,
  String, if◌then◌else◌, ltb,
}
use tg_auto_msg.Prelude.Int.{ℤ}
use tg_auto_msg.Prelude.Text.{show_ℤ}
use tg_auto_msg.Redis.{Keys}

abbrev pub account_lock_ttl : ℕ
account_lock_ttl = 1000000

abbrev pub peer_lock_ttl : ℕ
peer_lock_ttl = 2000000

-- `max_wait`
abbrev pub max_wait : ℕ
max_wait = 10000000

abbrev pub account_lock_key : String → String
account_lock_key account_id = "lock:account:" ++ account_id

abbrev pub peer_lock_key : ℤ → String
peer_lock_key peer_id = "lock:peer:" ++ show_ℤ peer_id

-- The waiting time that is returned, or that RateLimiterTimeoutError was raised after.
pub data Slot : Type 0 where
  granted timed_out : ℕ → Slot

module _ {S : Type 0} (r : Keys S) where
  unfoldable pub acquire_account_lock : String → ℕ → S → Bool × S
  acquire_account_lock account_id now st =
      r.set_nx (account_lock_key account_id) "1" account_lock_ttl now st

  unfoldable pub acquire_peer_lock : ℤ → ℕ → S → Bool × S
  acquire_peer_lock peer_id now st = r.set_nx (peer_lock_key peer_id) "1" peer_lock_ttl now st

  unfoldable pub release_account_lock : String → S → S
  release_account_lock account_id st = r.delete (account_lock_key account_id) st

  unfoldable pub release_peer_lock : ℤ → S → S
  release_peer_lock peer_id st = r.delete (peer_lock_key peer_id) st

  -- Both locks, or none of the two: the account's is given back where the peer's is not free.
  abbrev pub both_or_none : String → ℤ → ℕ → Bool × S → Bool × S
  both_or_none account_id peer_id now (false, st) = (false, st)
  both_or_none account_id peer_id now (true, st) =
      let (got, after) = acquire_peer_lock peer_id now st in
      (got, if got then after else release_account_lock account_id after)

  unfoldable pub try_slot : String → ℤ → ℕ → S → Bool × S
  try_slot account_id peer_id now st =
      both_or_none account_id peer_id now (acquire_account_lock account_id now st)

  -- `wait_for_slot`: `clock k` is the time of round k, and `others k` what others write to Redis
  -- during the sleep after it. `none` is a lack of fuel.
  module _ (clock : ℕ → ℕ) (others : ℕ → S → S) where
    unfoldable pub wait_rounds : ℕ → ℕ → String → ℤ → S → Option (Slot × S)
    wait_rounds zero k account_id peer_id st = none
    wait_rounds (suc fuel) k account_id peer_id st =
        let waited = clock k - clock 0 in
        let (got, after) = try_slot account_id peer_id (clock k) st in
        let rest = wait_rounds fuel (suc k) account_id peer_id (others k after) in
        if not (ltb waited max_wait)
        then some (timed_out waited, st)
        else if got
        then some (granted waited, after)
        else rest

    unfoldable pub wait_for_slot : String → ℤ → S → Option (Slot × S)
    wait_for_slot account_id peer_id st = wait_rounds 101 0 account_id peer_id st

    abbrev pub sent_with : String → ℤ → (S → S) → Option (Slot × S) → Option (Slot × S)
    sent_with account_id peer_id sending none = none
    sent_with account_id peer_id sending (some (timed_out waited, st)) = some (timed_out waited, st)
    sent_with account_id peer_id sending (some (granted waited, st)) =
        some
          (granted waited, release_peer_lock peer_id (release_account_lock account_id (sending st)))

    -- `acquire_locks_and_send`; `sending` is what others write to Redis during the send, whether it
    -- returns or raises.
    unfoldable pub acquire_locks_and_send : String → ℤ → (S → S) → S → Option (Slot × S)
    acquire_locks_and_send account_id peer_id sending st =
        sent_with account_id peer_id sending (wait_for_slot account_id peer_id st)
