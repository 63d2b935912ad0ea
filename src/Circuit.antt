-- ===== src/Circuit.antt =====
-- The circuit breaker of an account: backend/bot/circuit/breaker.py, recovery.py and notify.py, and
-- the health check of backend/bot/account/health_selection.py.
pub mod Windows
use Prim.Native.String.{◌++◌}
use tg_auto_msg.Prelude.{
  ℕ, ◌+◌, ◌-◌, ◌*◌, ◌/◌, Bool, true, false, ◌&&◌, ◌||◌, not, Option, none, some, List, [], ◌∷◌,
  String, if◌then◌else◌, ltb, leb, ◌==◌, any, is_some,
}
use tg_auto_msg.Prelude.Text.{str_contains, lower}
use tg_auto_msg.Prelude.Dict.{Dict, insert}
use tg_auto_msg.Schema.{Account}
use tg_auto_msg.Scheduler.Classifier.{SendError}
use tg_auto_msg.Account.Rows.{Accounts, get_account, update_account}

pub data FloodWaitAction : Type 0 where
  retry skip ban : FloodWaitAction

pub data HealthStatus : Type 0 where
  online offline banned : HealthStatus

-- The messages to an account's owner.
pub data Notice : Type 0 where
  flood_wait_notice : String → ℕ → Bool → Notice
  session_invalid_notice account_recovered_notice : String → Notice

-- The accounts table, the delays of the recovery tasks by account, the health cache, and the
-- messages sent to users, the last one first.
pub record Breaker : Type 0 where
  pub accounts : Accounts
  pub recovery_tasks : Dict ℕ
  pub health_cache : Dict HealthStatus
  pub notices : List (ℕ × Notice)

abbrev pub flood_wait_ban_threshold : ℕ
flood_wait_ban_threshold = 24 * 3600

abbrev pub peer_flood_ban_seconds : ℕ
peer_flood_ban_seconds = 24 * 3600

abbrev pub after_seconds : ℕ → ℕ → ℕ
after_seconds now seconds = now + seconds * 1000000

-- An account without an owner (`user_id` 0) or without a row gets no message.
abbrev addressed : Option Account → Notice → List (ℕ × Notice) → List (ℕ × Notice)
addressed none n ns = ns
addressed (some a) n ns = if a.user_id == 0 then ns else (a.user_id, n) ∷ ns

pub notify : String → Notice → Breaker → Breaker
notify id n b = record b { notices = addressed (get_account id b.accounts) n b.notices }

-- A new task replaces the account's old one.
pub start_recovery_task : String → ℕ → Breaker → Breaker
start_recovery_task id delay_seconds b = record b {
  recovery_tasks = insert id delay_seconds b.recovery_tasks;
}

abbrev pub flooded : ℕ → Account → Account
flooded until a = record a { is_flooding = true; flood_until = some until }

abbrev pub flood_banned : ℕ → Account → Account
flood_banned until a = record a { is_banned = true; is_flooding = true; flood_until = some until }

abbrev pub cleared : Account → Account
cleared a = record a { is_banned = false; is_flooding = false; flood_until = none }

abbrev pub update : String → (Account → Account) → Breaker → Breaker
update id f b = record b { accounts = update_account id f b.accounts }

pub handle_flood_wait : String → ℕ → ℕ → Breaker → FloodWaitAction × Breaker
handle_flood_wait id seconds now b =
    let until = after_seconds now seconds in
    if leb flood_wait_ban_threshold seconds
    then (
      ban,
      start_recovery_task id seconds
          (notify id (flood_wait_notice id seconds true) (update id (flood_banned until) b)),
    )
    else let waiting = update id (flooded until) b in
      if leb seconds 300 then (retry, start_recovery_task id seconds waiting) else (
        skip,
        notify id (flood_wait_notice id seconds false) (start_recovery_task id seconds waiting),
      )

unfoldable pub handle_peer_flood : String → ℕ → Breaker → ℕ × Breaker
handle_peer_flood id now b =
    let until = after_seconds now peer_flood_ban_seconds in
    (
      until,
      notify id (flood_wait_notice id peer_flood_ban_seconds false) (update id (flooded until) b),
    )

-- The end of a flood wait that is over.
abbrev is_over : ℕ → Option ℕ → Bool
is_over now none = false
is_over now (some until) = not (ltb now until)

abbrev pub reconciled : String → ℕ → Breaker → Option Account → Option Account × Breaker
reconciled id now b none = (none, b)
reconciled id now b (some a) =
    if (a.is_flooding || a.is_banned) && is_over now a.flood_until
    then (get_account id (update_account id cleared b.accounts), update id cleared b)
    else (some a, b)

unfoldable pub reconcile_account_flood_state : String → ℕ → Breaker → Option Account × Breaker
reconcile_account_flood_state id now b = reconciled id now b (get_account id b.accounts)

abbrev pub status_value : HealthStatus → String
status_value online = "online"
status_value offline = "offline"
status_value banned = "banned"

abbrev pub update_health_status : String → HealthStatus → Breaker → Breaker
update_health_status id status b =
    record (update id (λ a. record a { health_status = status_value status }) b) {
      health_cache = insert id status b.health_cache;
    }

-- What Telegram's `get_me` answers: no client for the account, a user, nothing, or an exception.
pub data Probe : Type 0 where
  no_client me nobody failure : Probe

abbrev pub health_check : Probe → String → Breaker → HealthStatus × Breaker
health_check no_client id b = (offline, b)
health_check me id b = (online, update_health_status id online b)
health_check nobody id b = (offline, b)
health_check failure id b = (offline, update_health_status id offline b)

-- A flood wait that is not over: its end, if it is later than now.
abbrev pub pending : ℕ → Option ℕ → Option ℕ
pending now none = none
pending now (some until) = if ltb now until then some until else none

abbrev announced : String → HealthStatus × Breaker → Breaker
announced id (online, b) = notify id (account_recovered_notice id) b
announced id (offline, b) = b
announced id (banned, b) = b

abbrev pub recovered : Probe → String → ℕ → Option Account × Breaker → Breaker
recovered probe id now (none, b) = b
recovered probe id now (some a, b) = elim (pending now a.flood_until) [
  | some until ↦ start_recovery_task id ((until - now) / 1000000 + 1) b
  | none ↦ announced id (health_check probe id (update id cleared b))
]

-- The clock is read twice.
abbrev pub recover_account : Probe → String → ℕ → ℕ → Breaker → Breaker
recover_account probe id first second b =
    recovered probe id second (reconcile_account_flood_state id first b)

-- What the wrapped call raises: the seconds of a FloodWaitError, the text of a PeerFloodError, and
-- any other exception.
pub data Raised : Type 0 where
  flood_wait : ℕ → Raised
  peer_flood : String → Raised
  exception : SendError → Raised

pub data Outcome {ℓ} (A : Type ℓ) : Type ℓ where
  returned : A → Outcome A
  raised : Raised → Outcome A

abbrev session_words : List String
session_words = "session" ∷ "authorized" ∷ "key" ∷ "deactivated" ∷ []

-- The text of the exception is about the session.
abbrev pub mentions_session : String → Bool
mentions_session message = any (λ word. str_contains word (lower message)) session_words

abbrev pub session_failed : String → String → Breaker → Breaker
session_failed id message b =
    if mentions_session message
    then notify id (session_invalid_notice id) (update_health_status id offline b)
    else b

abbrev value_error : String → Raised
value_error message = exception (record { type_name = "ValueError"; message = message; code = "" })

module _ {ℓ} {A : Type ℓ} where
  abbrev after_flood_wait : ℕ → Outcome A → FloodWaitAction × Breaker → Outcome A × Breaker
  after_flood_wait seconds second (retry, b) = (second, b)
  after_flood_wait seconds second (skip, b) = (raised (flood_wait seconds), b)
  after_flood_wait seconds second (ban, b) = (raised (flood_wait seconds), b)

  -- The `try`: the first call ends as `first`, and the call after the wait, if there is one, as
  -- `second`.
  unfoldable pub guarded : String → ℕ → Outcome A → Outcome A → Breaker → Outcome A × Breaker
  guarded id now (returned a) second b = (returned a, b)
  guarded id now (raised (flood_wait seconds)) second b =
      after_flood_wait seconds second (handle_flood_wait id seconds now b)
  guarded id now (raised (peer_flood message)) second b =
      (raised (peer_flood message), session_failed id message b)
  guarded id now (raised (exception e)) second b =
      (raised (exception e), session_failed id e.message b)

  abbrev pub unless_banned :
      String → ℕ → Outcome A → Outcome A → Option Account × Breaker → Outcome A × Breaker
  unless_banned id now first second (none, b) = (raised (value_error ("账号不存在: " ++ id)), b)
  unless_banned id now first second (some a, b) =
      if a.is_banned
      then (raised (value_error ("账号已被封禁: " ++ id)), b)
      else guarded id now first second b

  -- `clock i` is the i-th reading of the clock; `probe` is what the health check of a recovery meets.
  abbrev pub admitted :
      Probe
      → String
      → (ℕ → ℕ)
      → Outcome A
      → Outcome A
      → Option Account × Breaker
      → Outcome A × Breaker
  admitted probe id clock first second (none, b) = (raised (value_error ("账号不存在: " ++ id)), b)
  admitted probe id clock first second (some a, b) =
      if a.is_flooding && is_some a.flood_until
      then elim (pending (clock 1) a.flood_until) [
        | some until ↦ (raised (flood_wait ((until - clock 1) / 1000000)), b)
        | none ↦
            let after = recover_account probe id (clock 2) (clock 3) b in
            unless_banned id (clock 4) first second (get_account id after.accounts, after)
      ]
      else unless_banned id (clock 4) first second (some a, b)

  unfoldable pub execute_with_circuit_breaker :
      Probe → String → (ℕ → ℕ) → Outcome A → Outcome A → Breaker → Outcome A × Breaker
  execute_with_circuit_breaker probe id clock first second b =
      admitted probe id clock first second (reconcile_account_flood_state id (clock 0) b)
