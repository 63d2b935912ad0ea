-- ===== src/Scheduler/Worker/Recovery.antt =====
-- The rows of the tasks after the repair at a start.
use tg_auto_msg.Prelude.{
  ℕ, ◌≡◌, refl, inl, inr, Bool, true, false, ◌&&◌, ◌||◌, not, List, [], ◌∷◌, is_some, Bool-cases,
  All,
}
use tg_auto_msg.Schema.{Task}
use tg_auto_msg.Scheduler.Worker.{past_end, recovered_task, recover_runtime_state}

-- A task that can run again: it is off, or it has a next run and has not ended.
abbrev pub is_repaired : ℕ → Task → Bool
is_repaired now t = not t.enabled || not (past_end now t.end_at) && is_some t.next_run_at

one-repaired : (now : ℕ) (t : Task) → is_repaired now (recovered_task now t) ≡ true
unfolding recovered_task
one-repaired now t = elim (Bool-cases t.enabled) [
  | inr off ↦ simp off
  | inl on ↦ elim (Bool-cases (past_end now t.end_at)) [
    | inl ended ↦ simp (on, ended)
    | inr runs ↦ elim (Bool-cases (is_some t.next_run_at)) [
      | inl given ↦ simp (on, runs, given)
      | inr missing ↦ simp (on, runs, missing)
    ]
  ]
]

one-again : (now : ℕ) (t : Task) → is_repaired now t ≡ true → recovered_task now t ≡ t
unfolding recovered_task
one-again now t h = elim (Bool-cases t.enabled) [
  | inr off ↦ simp off
  | inl on ↦ elim (Bool-cases (past_end now t.end_at)) [
    | inl ended ↦ let no : false ≡ true = simp (on, ended) at h in cc
    | inr runs ↦ elim (Bool-cases (is_some t.next_run_at)) [
      | inl given ↦ simp (on, runs, given)
      | inr missing ↦ let no : false ≡ true = simp (on, runs, missing) at h in cc
    ]
  ]
]

-- After the repair, each task is off or has a next run and has not ended, and a second repair at the same
-- time changes nothing.
pub recovery_repairs :
    (now : ℕ) (tasks : List Task)
    → All (λ t. is_repaired now t ≡ true) (recover_runtime_state now tasks)
      × (recover_runtime_state now (recover_runtime_state now tasks)
          ≡ recover_runtime_state now tasks)
unfolding recover_runtime_state
recovery_repairs now [] = (tt, refl)
recovery_repairs now (t ∷ tasks) =
    let (all, same) = recovery_repairs now tasks in
    let here = one-repaired now t in
    ((here, all), list_path (one-again now (recovered_task now t) here) same)
  where
    list_path : {x y : Task} {xs ys : List Task} → x ≡ y → xs ≡ ys → x ∷ xs ≡ y ∷ ys
    list_path e f = cc
