-- ===== src/Tests/Talks.antt =====
-- A user who is asked for a text, and comes back after 31 minutes.
use tg_auto_msg.Prelude.{◌-◌, ◌*◌, ◌≡◌, refl, none, [], ◌∷◌, if◌then◌else◌, ltb, ◌==◌, arith}
use tg_auto_msg.Prelude.Dict.{Dict}
use tg_auto_msg.Json.{Value, text}
use tg_auto_msg.Fsm.{FsmStorage, no_state, wait_text, get_state, set_state, update_data, put}
use tg_auto_msg.Fsm.Readback.{get-set_state}

-- User 7 was asked at second 1; the next write cleans up.
abbrev asked : FsmStorage
asked = record {
  states = put 7 wait_text (λ j. none);
  data_of = λ j. none;
  timestamps = put 7 1000000 (λ j. none);
  ttl_seconds = 1800;
  cleanup_counter = 99;
}

abbrev fields : Dict Value
fields = ("task_id", text "t1") ∷ []

get-set_state_example : (get_state 7 1861000000 (set_state 9 wait_text 1861000000 asked)).0 ≡ (
    if 9 == 7
    then if ltb (1800 * 1000000) (1861000000 - 1861000000) then no_state else wait_text
    else (get_state 7 1861000000 asked).0)
get-set_state_example = get-set_state 9 7 1861000000 1861000000 wait_text asked (omega arith)

-- A write of data after the state has expired brings the old state back.
stale_state_returns :
    (get_state 7 1861000000
      (update_data 7 fields 1861000000 (record asked { cleanup_counter = 0 }))).0
    ≡ wait_text
unfolding get_state update_data
stale_state_returns = refl
