-- ===== src/Scheduler/Worker/Exclusion.antt =====
-- The workers of all processes on one Redis, in any order of their steps: who runs a task. A step is
-- the taking of a task's lock, with success or not, the release of a lock, the start of a process, which
-- removes the locks (`_recover_runtime_state`), and the passing of time; each token is a new uuid.
use tg_auto_msg.Prelude.{
  ℕ, suc, ◌+◌, ◌≤◌, ◌<◌, ◌≡◌, refl, sym, ap, ◌∙◌, inl, inr, Bool, true, false, not, some, List, [],
  ◌∷◌, String, arith, ltb, ◌==◌, keep, is_some, lt→ltb, Bool-cases,
}
use mathlib.Core.Path.{subst}
use tg_auto_msg.Prelude.Text.{str_eq, eq_iff}
use tg_auto_msg.Prelude.Keyed.{Memᴰ, Mem-keep}
use text.Mathlib.TextPositions.{eq_refl}
use tg_auto_msg.Redis.{Keys, IsKeys}
use tg_auto_msg.Scheduler.Worker.{
  take_processing_lock, release_processing_lock, processing_key, processing_ttl, is_value,
}

-- A run of a task, from the taking of its lock to the release.
pub record Execution : Type 0 where
  pub task_id : String
  pub draw : ℕ
  pub started : ℕ

-- `last_start` is what was drawn at the last start of a process.
pub record Workers (S : Type 0) : Type 0 where
  pub redis : S
  pub clock : ℕ
  pub running : List Execution
  pub draws : ℕ
  pub last_start : ℕ

abbrev pub delete_all : {S : Type 0} → Keys S → List String → S → S
delete_all r [] st = st
delete_all r (k ∷ ks) st = delete_all r ks (r.delete k st)

module _ {S : Type 0} (r : Keys S) (uuid : ℕ → String) (timeout : ℕ) where
  abbrev pub taken : String → Workers S → Bool × S
  taken task_id w = take_processing_lock r task_id (uuid w.draws) timeout w.clock w.redis

  abbrev pub after_taking : String → Workers S → Workers S
  after_taking task_id w = record w {
    redis = (taken task_id w).1;
    running = record { task_id = task_id; draw = w.draws; started = w.clock } ∷ w.running;
    draws = suc w.draws;
  }

  abbrev pub after_missing : String → Workers S → Workers S
  after_missing task_id w = record w { redis = (taken task_id w).1; draws = suc w.draws }

  abbrev pub after_release : Execution → Workers S → Workers S
  after_release e w = record w {
    redis = release_processing_lock r e.task_id (uuid e.draw) w.clock w.redis;
    running = keep (λ x. not (x.draw == e.draw)) w.running;
  }

  -- A process starts and removes the locks, those of runs of other processes too.
  abbrev pub after_recovery : List String → Workers S → Workers S
  after_recovery keys w = record w { redis = delete_all r keys w.redis; last_start = w.draws }

  pub data Step : Workers S → Workers S → Type 0 where
    waits : (w : Workers S) (d : ℕ) → Step w (record w { clock = w.clock + d })
    takes :
        (w : Workers S) (task_id : String)
        → (taken task_id w).0 ≡ true
        → Step w (after_taking task_id w)
    misses :
        (w : Workers S) (task_id : String)
        → (taken task_id w).0 ≡ false
        → Step w (after_missing task_id w)
    releases : (w : Workers S) (e : Execution) → Memᴰ e w.running → Step w (after_release e w)
    recovers : (w : Workers S) (keys : List String) → Step w (after_recovery keys w)

  pub data Reach : Workers S → Type 0 where
    start :
        (st : S) (clock : ℕ)
        → Reach (record { redis = st; clock = clock; running = []; draws = 0; last_start = 0 })
    later : {w v : Workers S} → Reach w → Step w v → Reach v

-- The lock of a run is there, with its token, until the time to live is over.
record Holds {S : Type 0} (r : Keys S) (uuid : ℕ → String) (timeout : ℕ) (w : Workers S)
    (e : Execution) : Type 0 where
  begun : e.started ≤ w.clock
  locked :
      (t : ℕ)
      → w.clock ≤ t
      → t < e.started + processing_ttl timeout
      → r.get (processing_key e.task_id) t w.redis ≡ some (uuid e.draw)

module _ {S : Type 0} (r : Keys S) (law : IsKeys r) (uuid : ℕ → String) (limit : ℕ)
    (distinct : (m n : ℕ) → m < limit → n < limit → uuid m ≡ uuid n → m ≡ n) (timeout : ℕ) where
  abbrev Guarded : Workers S → Type 0
  Guarded w =
      (e : Execution)
      → Memᴰ e w.running
      → (e.draw < w.draws) × (w.last_start ≤ e.draw → Holds r uuid timeout w e)

  held-set :
      (w : Workers S) (task_id : String) (e : Execution) (t : ℕ)
      → Holds r uuid timeout w e
      → w.clock ≤ t
      → t < e.started + processing_ttl timeout
      → r.get (processing_key e.task_id) t (taken r uuid timeout task_id w).1 ≡ some (uuid e.draw)
  unfolding take_processing_lock
  held-set w task_id e t h le lt =
      let mine = processing_key e.task_id in
      let key = processing_key task_id in
      let ttl = processing_ttl timeout in
      let read = law.get_set key (uuid w.draws) ttl w.clock w.redis mine t le in
      elim (Bool-cases (r.set_nx key (uuid w.draws) ttl w.clock w.redis).0) [
        | inr refused ↦ rw (read, refused) (h.locked t le lt)
        | inl set ↦ elim (Bool-cases (str_eq key mine)) [
          | inr other ↦ rw (read, set, other) (h.locked t le lt)
          | inl same ↦
              let e1 : key ≡ mine = (eq_iff key mine).0 same in
              let now_held = h.locked w.clock (omega arith) (omega (arith, le, lt)) in
              let free = law.set_free key (uuid w.draws) ttl w.clock w.redis in
              let clash : not (is_some (r.get mine w.clock w.redis)) ≡ true =
                subst (λ k. not (is_some (r.get k w.clock w.redis)) ≡ true) e1 (sym free ∙ set) in
              let no : not (is_some (some (uuid e.draw))) ≡ true = rw now_held at clash in cc
        ]
      ]

  held-release :
      (w : Workers S) (x e : Execution) (t : ℕ)
      → e.draw < limit
      → x.draw < limit
      → Holds r uuid timeout w e
      → (e.draw == x.draw) ≡ false
      → w.clock ≤ t
      → t < e.started + processing_ttl timeout
      → r.get (processing_key e.task_id) t (after_release r uuid timeout x w).redis
        ≡ some (uuid e.draw)
  unfolding release_processing_lock
  held-release w x e t e_drawn x_drawn h other le lt =
      let mine = processing_key e.task_id in
      let key = processing_key x.task_id in
      elim (Bool-cases (is_value (uuid x.draw) (r.get key w.clock w.redis))) [
        | inr foreign ↦ rw foreign (h.locked t le lt)
        | inl own ↦ elim (Bool-cases (str_eq key mine)) [
          | inr apart ↦ rw (own, law.get_delete key w.redis mine t, apart) (h.locked t le lt)
          | inl same ↦
              let e1 : key ≡ mine = (eq_iff key mine).0 same in
              let now_held = h.locked w.clock (omega arith) (omega (arith, le, lt)) in
              let read : is_value (uuid x.draw) (r.get mine w.clock w.redis) ≡ true =
                subst (λ k. is_value (uuid x.draw) (r.get k w.clock w.redis) ≡ true) e1 own in
              let tokens : str_eq (uuid e.draw) (uuid x.draw) ≡ true = rw now_held at read in
              let draws =
                distinct e.draw x.draw e_drawn x_drawn
                  ((eq_iff (uuid e.draw) (uuid x.draw)).0 tokens) in
              absurd (ground (arith, draws))
        ]
      ]

  taken-Holds :
      (w : Workers S) (task_id : String)
      → (taken r uuid timeout task_id w).0 ≡ true
      → Holds r uuid timeout
          (after_taking r uuid timeout task_id w)
          (record { task_id = task_id; draw = w.draws; started = w.clock })
  unfolding take_processing_lock
  taken-Holds w task_id got = record {
    begun = omega arith;
    locked = λ t le lt.
        let key = processing_key task_id in
        let ttl = processing_ttl timeout in
        let fresh : ltb t (w.clock + ttl) ≡ true = lt→ltb t (w.clock + ttl) lt in
        rw (law.get_set key (uuid w.draws) ttl w.clock w.redis key t le, got, eq_refl key)
          (rw fresh refl);
  }

  Step-draws : {w v : Workers S} → Step r uuid timeout w v → w.draws ≤ v.draws
  Step-draws (Step.waits w d) = omega arith
  Step-draws (Step.takes w task_id got) = omega arith
  Step-draws (Step.misses w task_id missed) = omega arith
  Step-draws (Step.releases w e there) = omega arith
  Step-draws (Step.recovers w keys) = omega arith

  fewer_before : {w v : Workers S} → Step r uuid timeout w v → v.draws ≤ limit → w.draws ≤ limit
  fewer_before step few = let more = Step-draws step in omega (arith, more, few)

  Step-Guarded :
      {w v : Workers S} → Step r uuid timeout w v → w.draws ≤ limit → Guarded w → Guarded v
  unfolding take_processing_lock
  Step-Guarded (Step.waits w d) few g e m =
      let (drawn, held) = g e m in
      (
        drawn,
        λ since. record {
          begun = omega (arith, (held since).begun);
          locked = λ t le lt. (held since).locked t (omega (arith, le)) lt;
        },
      )
  Step-Guarded (Step.takes w task_id got) few g e (Memᴰ.head same) = (
    omega (arith, ap (λ (x : Execution). x.draw) same),
    λ since.
        subst (Holds r uuid timeout (after_taking r uuid timeout task_id w)) (sym same)
          (taken-Holds w task_id got),
  )
  Step-Guarded (Step.takes w task_id got) few g e (Memᴰ.tail m) =
      let (drawn, held) = g e m in
      (
        omega (arith, drawn),
        λ since. record {
          begun = (held since).begun;
          locked = λ t le lt. held-set w task_id e t (held since) le lt;
        },
      )
  Step-Guarded (Step.misses w task_id missed) few g e m =
      let (drawn, held) = g e m in
      (
        omega (arith, drawn),
        λ since. record {
          begun = (held since).begun;
          locked = λ t le lt. held-set w task_id e t (held since) le lt;
        },
      )
  Step-Guarded (Step.releases w x there) few g e m =
      let (n, other) = Mem-keep (λ y. not (y.draw == x.draw)) e w.running m in
      let (drawn, held) = g e n in
      (
        drawn,
        λ since. record {
          begun = (held since).begun;
          locked = λ t le lt.
              held-release w x e t (omega (arith, drawn, few)) (omega (arith, (g x there).0, few))
                (held since) (ground arith) le lt;
        },
      )
  Step-Guarded (Step.recovers w keys) few g e m =
      let (drawn, _) = g e m in (drawn, λ since. absurd (omega (arith, drawn, since)))

  Reach-Guarded : {w : Workers S} → Reach r uuid timeout w → w.draws ≤ limit → Guarded w
  Reach-Guarded (Reach.start st clock) few e m = elim m [ ]
  Reach-Guarded (Reach.later before step) few e m =
      let fewer = fewer_before step few in Step-Guarded step fewer (Reach-Guarded before fewer) e m

  -- Let the tokens that were drawn so far all differ. While a run that began since the last start of a process has a lock that
  -- has not run out, nobody takes the lock of its task, and another such run of the same task is the
  -- same run, whatever steps the workers took.
  pub one_run :
      (w : Workers S) (e x : Execution)
      → Reach r uuid timeout w
      → w.draws ≤ limit
      → Memᴰ e w.running
      → Memᴰ x w.running
      → e.task_id ≡ x.task_id
      → w.last_start ≤ e.draw
      → w.last_start ≤ x.draw
      → w.clock < e.started + processing_ttl timeout
      → w.clock < x.started + processing_ttl timeout
      → (e.draw ≡ x.draw) × ((taken r uuid timeout e.task_id w).0 ≡ false)
  unfolding take_processing_lock
  one_run w e x reached few e_runs x_runs same e_since x_since e_fresh x_fresh =
      let g = Reach-Guarded reached few in
      let one = ((g e e_runs).1 e_since).locked w.clock (omega arith) e_fresh in
      let two = ((g x x_runs).1 x_since).locked w.clock (omega arith) x_fresh in
      let tokens : some (uuid e.draw) ≡ some (uuid x.draw) =
        sym one ∙ ap (λ k. r.get (processing_key k) w.clock w.redis) same ∙ two in
      let free =
        law.set_free (processing_key e.task_id) (uuid w.draws) (processing_ttl timeout) w.clock
          w.redis in
      (
        distinct e.draw x.draw (omega (arith, (g e e_runs).0, few))
            (omega (arith, (g x x_runs).0, few)) (cc),
        free ∙ ap (λ o. not (is_some o)) one,
      )
