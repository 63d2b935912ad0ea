-- ===== src/Tests/Queues.antt =====
-- The queue, the workers and the rate limiter, on the sample servers.
use Prim.Native.Char.{Char}
use text.Mathlib.TextLemmas.{nil≢cons, cons≢nil, tail-eq_of_cons-eq}
use tg_auto_msg.Prelude.{
  ℕ, zero, suc, ◌+◌, ◌*◌, ◌≤◌, ◌<◌, ◌≡◌, refl, true, false, ◌&&◌, Option, none, some, List, [], ◌∷◌,
  String, arith, if◌then◌else◌, any, All, take, length-take, ap,
}
use tg_auto_msg.Prelude.Int.{pos}
use tg_auto_msg.Prelude.Text.{is_blank, str_eq, str_len, show_ℤ}
use tg_auto_msg.Prelude.Keyed.{Memᴰ}
use tg_auto_msg.Schema.{Task}
use tg_auto_msg.Redis.{scores_at_most}
use tg_auto_msg.Scheduler.Lifecycle.{Store}
use tg_auto_msg.Scheduler.Queue.{
  jitter_of, enqueue_due_tasks, due_tasks, get_pending_tasks, is_scheduled, claim_due_tasks,
}
use tg_auto_msg.Scheduler.Queue.Earlier.{is_urgent, enqueue_within, sooner}
use tg_auto_msg.Scheduler.Queue.Claims.{claimed_once}
use tg_auto_msg.Scheduler.Worker.{
  Ending, execute_task_from_queue, processing_key, is_value, recover_runtime_state,
  take_processing_lock,
}
use tg_auto_msg.Scheduler.Worker.Release.{execution_releases}
use tg_auto_msg.Scheduler.Worker.Recovery.{recovery_repairs, is_repaired}
use tg_auto_msg.Limiter.{
  try_slot, granted, wait_for_slot, wait_rounds, acquire_locks_and_send, acquire_account_lock,
  acquire_peer_lock, release_account_lock, release_peer_lock, account_lock_key, peer_lock_key,
}
use tg_auto_msg.Scheduler.Worker.Exclusion.{
  Execution, Workers, Reach, Step, taken, after_taking, after_missing, after_recovery, one_run,
}
use tg_auto_msg.Limiter.Wait.{Ends, wait_for_slot-Ends}
use tg_auto_msg.Limiter.Variation.{add_invisible_variation}
use tg_auto_msg.Limiter.Variation.Visible.{visible, variation_invisible}
use tg_auto_msg.Strategy.{build_auto_delay_profile, apply_system_strategy_fields}
use tg_auto_msg.Strategy.Profile.{auto_delay_bounds}
use tg_auto_msg.Tests.Servers
use tg_auto_msg.Tests.Servers.{keys, keys-IsKeys, empty_store, sorted_set, sorted_set-IsSortedSet}
use tg_auto_msg.Tests.{sample_task, sample_account, sample_store}

-- A draw of the greatest number.
abbrev greatest : ℕ → ℕ → ℕ → ℕ
greatest k a b = b

greatest-in_range : (k a b : ℕ) → a ≤ b → (a ≤ greatest k a b) × (greatest k a b ≤ b)
greatest-in_range k a b h = (h, omega arith)

abbrev delayed_task : Task
delayed_task = record sample_task { delay_min_seconds = pos 20; delay_max_seconds = pos 50 }

auto_delay_bounds_example :
    let p = build_auto_delay_profile greatest sample_task.priority (some sample_account) in
    let wait =
      jitter_of greatest 3
        (sample_account ∷ [])
        (apply_system_strategy_fields greatest (some sample_account) sample_task) in
    ((30 ≤ p.delay_min_seconds)
      × (p.delay_min_seconds ≤ 150)
      × (p.delay_min_seconds < p.delay_max_seconds)
      × (p.delay_max_seconds ≤ 300)
      × (30 ≤ p.jitter_seconds)
      × (p.jitter_seconds ≤ p.delay_max_seconds))
    × ((if is_urgent sample_task then 0 else 30) ≤ wait)
    × (wait ≤ (if is_urgent sample_task then 123 else 420))
auto_delay_bounds_example =
    auto_delay_bounds greatest greatest-in_range (some sample_account) sample_task 3
      (sample_account ∷ [])

enqueue_within_example :
    let after =
      enqueue_due_tasks greatest sorted_set 2000
        (sample_account ∷ [])
        (delayed_task ∷ [])
        (("t1", 9000) ∷ []) in
    (sooner (sorted_set.zscore "t1" after) (sorted_set.zscore "t1" (("t1", 9000) ∷ [])) ≡ true)
    × All
        (λ t. scores_at_most (2000 + 420) (sorted_set.zscore t.task_id after) ≡ true)
        (due_tasks 2000 (delayed_task ∷ []))
enqueue_within_example =
    enqueue_within greatest greatest-in_range sorted_set sorted_set-IsSortedSet 2000
      (sample_account ∷ []) (delayed_task ∷ []) (("t1", 9000) ∷ []) "t1"

sample_claimed :
    Memᴰ sample_task (get_pending_tasks sorted_set 3000 3 (sample_task ∷ []) (("t1", 2500) ∷ [])).0
unfolding get_pending_tasks claim_due_tasks
sample_claimed = Memᴰ.head refl

claimed_once_example :
    let after = (get_pending_tasks sorted_set 3000 3 (sample_task ∷ []) (("t1", 2500) ∷ [])).1 in
    (sample_task.enabled && is_scheduled sample_task.trigger_mode ≡ true)
    × (scores_at_most 3000 (sorted_set.zscore "t1" (("t1", 2500) ∷ [])) ≡ true)
    × (sorted_set.zscore "t1" after ≡ none)
    × (any
          (λ (x : Task). str_eq x.task_id "t1")
          (get_pending_tasks sorted_set 9000 3 (sample_task ∷ []) after).0
        ≡ false)
claimed_once_example =
    claimed_once sorted_set sorted_set-IsSortedSet 3000 3 (sample_task ∷ []) (("t1", 2500) ∷ [])
      sample_task 9000 3 (sample_task ∷ []) sample_claimed

abbrev token : ℕ → String
token zero = ""
token (suc n) = String.◌∷◌ "u" (token n)

token-distinct : (m n : ℕ) → token m ≡ token n → m ≡ n
token-distinct zero zero e = refl
token-distinct zero (suc n) e = absurd (nil≢cons e)
token-distinct (suc m) zero e = absurd (cons≢nil e)
token-distinct (suc m) (suc n) e = ap suc (token-distinct m n (tail-eq_of_cons-eq e))

-- One worker takes the task, a process starts and removes the lock, and a second worker takes the task
-- too; a third misses it, and five seconds go by.
abbrev second_run : Execution
second_run = record { task_id = "t1"; draw = 1; started = 0 }

abbrev started : Workers Servers.Store
started = record { redis = empty_store; clock = 0; running = []; draws = 0; last_start = 0 }

abbrev restarted : Workers Servers.Store
restarted =
    after_recovery keys token 360 (processing_key "t1" ∷ [])
      (after_taking keys token 360 "t1" started)

abbrev missed_third : Workers Servers.Store
missed_third = after_missing keys token 360 "t1" (after_taking keys token 360 "t1" restarted)

abbrev at_work : Workers Servers.Store
at_work = record missed_third { clock = missed_third.clock + 5000000 }

at_work-Reach : Reach keys token 360 at_work
unfolding take_processing_lock processing_key
at_work-Reach =
    let taken = Reach.later (Reach.start empty_store 0) (Step.takes started "t1" refl) in
    let cleared =
      Reach.later taken
        (Step.recovers (after_taking keys token 360 "t1" started) (processing_key "t1" ∷ [])) in
    let again = Reach.later cleared (Step.takes restarted "t1" refl) in
    let missed =
      Reach.later again (Step.misses (after_taking keys token 360 "t1" restarted) "t1" refl) in
    Reach.later missed (Step.waits missed_third 5000000)

one_run_example :
    (second_run.draw ≡ second_run.draw) × ((taken keys token 360 "t1" at_work).0 ≡ false)
one_run_example =
    one_run keys keys-IsKeys token 3 (λ m n _ _ e. token-distinct m n e) 360 at_work second_run
      second_run at_work-Reach (omega arith) (Memᴰ.head refl) (Memᴰ.head refl) refl (omega arith)
      (omega arith) (omega arith) (omega arith)

abbrev run_fails : Option Store → Ending × Option Store
run_fails rows = (Ending.timed_out, rows)

execution_releases_example :
    let after =
      execute_task_from_queue keys run_fails
        (λ st. st)
        "t1"
        "mine"
        360
        3
        100
        200
        (empty_store, some sample_store) in
    is_value "mine" (keys.get (processing_key "t1") 200 after.0) ≡ false
execution_releases_example =
    execution_releases keys keys-IsKeys run_fails (λ st. st) "t1" "mine" 360 3 100 200 empty_store
      (some sample_store) refl

recovery_repairs_example :
    let tasks = record sample_task { next_run_at = none } ∷ [] in
    All (λ t. is_repaired 50 t ≡ true) (recover_runtime_state 50 tasks)
    × (recover_runtime_state 50 (recover_runtime_state 50 tasks) ≡ recover_runtime_state 50 tasks)
recovery_repairs_example = recovery_repairs 50 (record sample_task { next_run_at = none } ∷ [])

abbrev steady : ℕ → ℕ
steady k = 7 + k * 100000

abbrev nobody : ℕ → Servers.Store → Servers.Store
nobody k st = st

wait_for_slot-Ends_example :
    Ends keys "a1" (pos 7) 7 500000 (wait_for_slot keys steady nobody "a1" (pos 7) empty_store)
wait_for_slot-Ends_example =
    wait_for_slot-Ends keys keys-IsKeys steady nobody (λ k. omega arith) "a1" (pos 7) 500000
      empty_store

abbrev after_sending : Servers.Store
after_sending =
    keys.delete (peer_lock_key (pos 7))
      (keys.delete (account_lock_key "a1") (try_slot keys "a1" (pos 7) 7 empty_store).1)

sent :
    acquire_locks_and_send keys steady nobody "a1" (pos 7) (λ st. st) empty_store
    ≡ some (granted 0, after_sending)
unfolding acquire_locks_and_send wait_for_slot wait_rounds try_slot acquire_account_lock
    acquire_peer_lock release_account_lock release_peer_lock show_ℤ
sent = refl

abbrev first_chars : List Char → ℕ → List Char
first_chars cs n = take n cs

abbrev first_char : List Char → Char
first_char [] = "\u{200b}"
first_char (c ∷ cs) = c

variation_invisible_example :
    let after =
      add_invisible_variation 2 first_chars (λ ps n. take n ps) first_char (λ s. []) "hi" in
    (visible after ≡ visible "hi")
    × ((if is_blank "hi" then 0 else str_len "hi" + 1) ≤ str_len after)
    × (str_len after ≤ str_len "hi" + 5)
variation_invisible_example =
    variation_invisible 2 first_chars (λ ps n. take n ps) first_char (λ s. [])
      (omega arith, omega arith) ((refl, (refl, tt)), refl)
      (λ ps n. omega (arith, length-take n ps)) refl "hi"
