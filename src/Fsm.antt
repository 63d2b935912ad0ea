-- ===== src/Fsm.antt =====
-- The conversation states of the bot's users: backend/bot/state/fsm.py. A dict from users is a
-- function, `none` for a missing key; `now` is `time.monotonic()` in microseconds, read once per call.
pub mod Readback
use tg_auto_msg.Prelude.{
  ℕ, ◌+◌, ◌-◌, ◌*◌, Bool, true, false, Option, none, some, List, [], ◌∷◌, String, if◌then◌else◌,
  ltb, ◌==◌, or_else,
}
use tg_auto_msg.Prelude.Dict.{Dict, insert}
use tg_auto_msg.Json.{Value}

pub data FsmState : Type 0 where
  no_state wait_text wait_day_start wait_day_end wait_start_at wait_end_at wait_interval : FsmState
  wait_target_search wait_shortcut_label wait_task_create_text wait_register_username : FsmState
  wait_register_password wait_register_email wait_activation_code wait_login_phone : FsmState
  wait_login_code wait_login_password : FsmState

-- A dict with users as keys.
abbrev pub ByUser {ℓ} : Type ℓ → Type ℓ
ByUser V = ℕ → Option V

abbrev pub put {ℓ} : {V : Type ℓ} → ℕ → V → ByUser V → ByUser V
put id v d j = if id == j then some v else d j

abbrev pub pop {ℓ} : {V : Type ℓ} → ℕ → ByUser V → ByUser V
pop id d j = if id == j then none else d j

pub record FsmStorage : Type 0 where
  pub states : ByUser FsmState
  pub data_of : ByUser (Dict Value)
  pub timestamps : ByUser ℕ
  pub ttl_seconds : ℕ
  pub cleanup_counter : ℕ

-- `now - ts > ttl`
abbrev pub is_stale : ℕ → ℕ → Option ℕ → Bool
is_stale now ttl none = false
is_stale now ttl (some ts) = ltb (ttl * 1000000) (now - ts)

-- The entries of a dict whose user is not stale.
abbrev pub purge {ℓ} : {V : Type ℓ} → ℕ → FsmStorage → ByUser V → ByUser V
purge now s d j = if is_stale now s.ttl_seconds (s.timestamps j) then none else d j

abbrev purged : ℕ → FsmStorage → FsmStorage
purged now s = record s {
  states = purge now s s.states;
  data_of = purge now s s.data_of;
  timestamps = purge now s s.timestamps;
  cleanup_counter = 0;
}

-- `_maybe_cleanup`: at every hundredth write.
pub maybe_cleanup : ℕ → FsmStorage → FsmStorage
maybe_cleanup now s =
    if ltb (s.cleanup_counter + 1) 100
    then record s { cleanup_counter = s.cleanup_counter + 1 }
    else purged now s

-- `_is_expired`
abbrev pub is_expired : ℕ → ℕ → FsmStorage → Bool
is_expired id now s = elim (s.timestamps id) [
  | none ↦ true
  | some ts ↦ ltb (s.ttl_seconds * 1000000) (now - ts)
]

abbrev pub reset_state : ℕ → FsmStorage → FsmStorage
reset_state id s = record s {
  states = pop id s.states;
  data_of = pop id s.data_of;
  timestamps = pop id s.timestamps;
}

unfoldable pub get_state : ℕ → ℕ → FsmStorage → FsmState × FsmStorage
get_state id now s =
    if is_expired id now s
    then (no_state, reset_state id s)
    else (or_else (s.states id) no_state, s)

unfoldable pub set_state : ℕ → FsmState → ℕ → FsmStorage → FsmStorage
unfolding maybe_cleanup
set_state id state now s =
    let clean = maybe_cleanup now s in
    record clean { states = put id state clean.states; timestamps = put id now clean.timestamps }

pub get_data : ℕ → ℕ → FsmStorage → Dict Value × FsmStorage
get_data id now s =
    if is_expired id now s then ([], reset_state id s) else (or_else (s.data_of id) [], s)

-- `dict.update`
abbrev pub update_with : Dict Value → Dict Value → Dict Value
update_with [] d = d
update_with ((k, v) ∷ fields) d = update_with fields (insert k v d)

unfoldable pub update_data : ℕ → Dict Value → ℕ → FsmStorage → FsmStorage
unfolding maybe_cleanup
update_data id fields now s =
    let clean = maybe_cleanup now s in
    record clean {
      data_of = put id (update_with fields (or_else (clean.data_of id) [])) clean.data_of;
      timestamps = put id now clean.timestamps;
    }
