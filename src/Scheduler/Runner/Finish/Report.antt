-- ===== src/Scheduler/Runner/Finish/Report.antt =====
-- What a run reports of its targets.
use tg_auto_msg.Prelude.{
  ℕ, ◌+◌, ◌≡◌, refl, sym, ap, ◌∙◌, inl, inr, Bool, not, Option, none, some, List, [], ◌∷◌, String,
  arith, length, if◌then◌else◌, ◌==◌, is_some, is_empty, ltb, All, keep, map, Bool-cases,
}
use mathlib.Core.Path.{subst}
use tg_auto_msg.Prelude.Int.{ℤ}
use tg_auto_msg.Schema.{Task}
use tg_auto_msg.Circuit.{flood_wait, peer_flood, exception}
use tg_auto_msg.Scheduler.Targets.{Target, collect_task_targets}
use tg_auto_msg.Scheduler.Targets.Keys.{Distinct}
use tg_auto_msg.Scheduler.Targets.Collected.{HasKnownType, collect_task_targets-Distinct}
use tg_auto_msg.Scheduler.Runner.{
  TaskExecutionSummary, Status, success, failed, partial_success, build_summary,
}
use tg_auto_msg.Scheduler.Runner.Send.{
  World, Progress, LoopEnd, Outside, finished, interrupted, send_loop, start, target_label,
}
use tg_auto_msg.Scheduler.Runner.Send.Counts.{
  WhenFinished, AllCounted, send_loop-AllCounted, all_Fresh,
}
use tg_auto_msg.Scheduler.Runner.Send.Attribution.{
  is_sent, is_unsent, IsAttributed, send_loop-IsAttributed,
}
use tg_auto_msg.Scheduler.Runner.Finish.{
  Run, finish, ended, send_phase, on_flood_wait, on_peer_flood, on_exception,
}

-- The status that the numbers stand for.
abbrev pub status_of : ℕ → ℕ → Status
status_of successes failures =
    if successes == 0 then failed else if failures == 0 then success else partial_success

-- A report that names and counts these targets.
abbrev pub Names : List Target → List Target → TaskExecutionSummary → Type 0
Names sent unsent summary =
    (summary.success_targets ≡ map target_label sent)
    × (summary.failed_targets ≡ map target_label unsent)
    × (summary.success_count ≡ length sent)
    × (summary.failed_count ≡ length unsent)
    × (summary.status ≡ status_of (length sent) (length unsent))

-- The report of a loop over the targets: after one that finishes, the targets with a stored message id
-- are its successes and all others its failures; a flood error makes all targets failures, and none
-- is named.
abbrev pub IsExact : List Target → LoopEnd → TaskExecutionSummary → Type 0
IsExact ts (finished p) summary =
    Names (keep (is_sent p.ids) ts) (keep (is_unsent p.ids) ts) summary
IsExact ts (interrupted e p) summary =
    (summary.success_targets ≡ [])
    × (summary.failed_targets ≡ [])
    × (summary.success_count ≡ 0)
    × (summary.failed_count ≡ length ts)
    × (summary.status ≡ failed)

module _ {A : Type 0} (p : A → Bool) where
  length-keep_parts :
      (xs : List A) → length (keep p xs) + length (keep (λ x. not (p x)) xs) ≡ length xs
  length-keep_parts [] = omega arith
  length-keep_parts (x ∷ xs) = ground (arith, length-keep_parts xs)

  keep_rest : (xs : List A) → length (keep p xs) ≡ 0 → keep (λ x. not (p x)) xs ≡ xs
  keep_rest [] h = refl
  keep_rest (x ∷ xs) h = elim (Bool-cases (p x)) [
    | inl kept ↦ let one : length (x ∷ keep p xs) ≡ 0 = rw kept at h in absurd (omega (arith, one))
    | inr left ↦ rw left (ap (λ l. x ∷ l) (keep_rest xs (rw left at h)))
  ]

or_all :
    (labels : List String) (all_labels : List String)
    → labels ≡ all_labels
    → (if is_empty labels then all_labels else labels) ≡ all_labels
or_all [] all_labels e = refl
or_all (l ∷ labels) all_labels e = e

finish-Names :
    (run : Run) (p : Progress) (last : Option ℤ)
    → IsAttributed run.targets p
    → is_some last ≡ ltb 0 (length p.ids)
    → Names
        (keep (is_sent p.ids) run.targets)
        (keep (is_unsent p.ids) run.targets)
        (finish run p last).0
unfolding build_summary
finish-Names run p none (sent, unsent, many) e =
    let parts = length-keep_parts (is_sent p.ids) run.targets in
    let no_id : length (keep (is_sent p.ids) run.targets) ≡ 0 = ground (arith, e, many) in
    let rest = keep_rest (is_sent p.ids) run.targets no_id in
    (
      sent,
      or_all p.failed_labels (map target_label run.targets) (unsent ∙ ap (map target_label) rest)
          ∙ ap (map target_label) (sym rest),
      sym no_id,
      ap length (sym rest),
      rw no_id refl,
    )
finish-Names run p (some m) (sent, unsent, many) e =
    let parts = length-keep_parts (is_sent p.ids) run.targets in
    (sent, unsent, many, omega (arith, parts, many), ground (arith, e, parts, many))

ended-IsExact :
    (run : Run) (w : World) (end : LoopEnd)
    → AllCounted (length run.targets) (start w) end
    → WhenFinished (IsAttributed run.targets) end
    → IsExact run.targets end (ended run end).0
unfolding build_summary on_flood_wait on_peer_flood on_exception
ended-IsExact run w (finished p) counted h = finish-Names run p p.last_message_id h counted.3
ended-IsExact run w (interrupted (flood_wait n) p) counted h = (refl, refl, refl, refl, refl)
ended-IsExact run w (interrupted (peer_flood m) p) counted h = (refl, refl, refl, refl, refl)
ended-IsExact run w (interrupted (exception e) p) counted h = (refl, refl, refl, refl, refl)

-- The report of a run over a task's collected targets is exact, however the sends end. After a loop
-- that finishes, it names and counts as successes the targets for which a message id is stored, and
-- as failures all others, and its status is a success, a partial one or a failure as these numbers
-- say. A flood error makes it a failure of all targets.
pub send_phase-IsExact :
    (outside : Outside) (run : Run) (w : World) (task : Task)
    → run.targets ≡ collect_task_targets task
    → IsExact run.targets
        (send_loop outside run.account_id run.targets (start w))
        (send_phase outside run w).0
unfolding send_phase
send_phase-IsExact outside run w task collected =
    let (distinct, known) = collect_task_targets-Distinct task in
    let distinct_here = subst Distinct (sym collected) distinct in
    let known_here = subst (All HasKnownType) (sym collected) known in
    ended-IsExact run w (send_loop outside run.account_id run.targets (start w))
      (send_loop-AllCounted outside run.account_id run.targets (start w) distinct_here known_here
        (all_Fresh run.targets))
      (send_loop-IsAttributed outside run.account_id run.targets w distinct_here known_here)
