-- ===== src/Scheduler/Worker/Release.antt =====
-- What a worker leaves of its lock.
use tg_auto_msg.Prelude.{
  ℕ, ◌+◌, ◌*◌, ◌≡◌, refl, true, false, Option, none, some, String, ◌≤◌, Bool-cases, inl, inr,
}
use text.Mathlib.TextPositions.{eq_refl}
use tg_auto_msg.Redis.{Keys, IsKeys}
use tg_auto_msg.Scheduler.Lifecycle.{Store}
use tg_auto_msg.Scheduler.Worker.{
  Ending, take_processing_lock, release_processing_lock, processing_key, is_value, is_runnable,
  execute_task_from_queue,
}

module _ {S : Type 0} (r : Keys S) (law : IsKeys r) where
  -- A release, and nobody else's, takes the lock of a token away.
  release-free :
      (task_id token : String) (now : ℕ) (st : S)
      → is_value token
          (r.get (processing_key task_id) now (release_processing_lock r task_id token now st))
        ≡ false
  unfolding release_processing_lock
  release-free task_id token now st =
      elim (Bool-cases (is_value token (r.get (processing_key task_id) now st))) [
        | inl own ↦
            rw
              (
                own,
                law.get_delete (processing_key task_id) st (processing_key task_id) now,
                eq_refl (processing_key task_id),
              )
              refl
        | inr other ↦ rw (other, other) refl
      ]

  -- A worker that finds a task's lock taken leaves the task's rows, and every key of Redis reads as
  -- before, now and later.
  pub busy_task_left :
      (run : Option Store → Ending × Option Store) (meanwhile : S → S) (task_id token v : String)
      (timeout max_failures now later : ℕ) (st : S) (rows : Option Store) (j : String) (t : ℕ)
      → r.get (processing_key task_id) now st ≡ some v
      → now ≤ t
      → let (st', rows') =
          execute_task_from_queue r run meanwhile task_id token timeout max_failures now later
            (st, rows) in
        (rows' ≡ rows) × (r.get j t st' ≡ r.get j t st)
  unfolding execute_task_from_queue take_processing_lock
  busy_task_left run meanwhile task_id token v timeout max_failures now later st rows j t held le =
      let taken : (r.set_nx (processing_key task_id) token ((timeout + 60) * 1000000) now st).0
          ≡ false =
        rw (law.set_free (processing_key task_id) token ((timeout + 60) * 1000000) now st, held)
          refl in
      let same =
        law.get_set (processing_key task_id) token ((timeout + 60) * 1000000) now st j t le in
      rw taken (refl, rw same (rw taken refl))

  -- A worker that takes a free lock does not hold it any more when it is done, whether the task was
  -- gone or switched off, or the run ended, was refused, raised or timed out, and whatever others wrote to Redis meanwhile.
  pub execution_releases :
      (run : Option Store → Ending × Option Store) (meanwhile : S → S) (task_id token : String)
      (timeout max_failures now later : ℕ) (st : S) (rows : Option Store)
      → r.get (processing_key task_id) now st ≡ none
      → let after =
          execute_task_from_queue r run meanwhile task_id token timeout max_failures now later
            (st, rows) in
        is_value token (r.get (processing_key task_id) later after.0) ≡ false
  unfolding execute_task_from_queue take_processing_lock
  execution_releases run meanwhile task_id token timeout max_failures now later st rows free =
      let got : (r.set_nx (processing_key task_id) token ((timeout + 60) * 1000000) now st).0
          ≡ true =
        rw (law.set_free (processing_key task_id) token ((timeout + 60) * 1000000) now st, free)
          refl in
      let done =
        release-free task_id token later (
          meanwhile
            (r.set_nx (processing_key task_id) token ((timeout + 60) * 1000000) now st).1) in
      elim (Bool-cases (is_runnable rows)) [
        | inl runs ↦ rw (got, runs) done
        | inr gone ↦ rw (got, gone) done
      ]
