-- ===== src/Fsm/Readback.antt =====
-- What a user's state and data are after writes, the clean-up included.
use tg_auto_msg.Prelude.{
  ℕ, ◌+◌, ◌-◌, ◌*◌, ◌≤◌, ◌≡◌, refl, sym, ◌∙◌, inl, inr, true, false, Option, none, some, [], arith,
  if◌then◌else◌, ltb, ◌==◌, or_else, Bool-cases, Option-cases,
}
use tg_auto_msg.Prelude.Dict.{Dict}
use tg_auto_msg.Json.{Value}
use tg_auto_msg.Fsm.{
  FsmState, FsmStorage, no_state, get_state, set_state, get_data, update_data, update_with,
  maybe_cleanup, is_expired, is_stale,
}

-- The value read from a user's entry and time stamp.
abbrev read {ℓ} : {V : Type ℓ} → V → ℕ → ℕ → Option ℕ → Option V → V
read default ttl now none v = default
read default ttl now (some ts) v =
    if ltb (ttl * 1000000) (now - ts) then default else or_else v default

get_state-read :
    (id now : ℕ) (s : FsmStorage)
    → (get_state id now s).0 ≡ read no_state s.ttl_seconds now (s.timestamps id) (s.states id)
unfolding get_state
get_state-read id now s = elim (Option-cases (s.timestamps id)) [
  | inl absent ↦ rw (get_state, is_expired, absent) refl
  | inr (ts, seen) ↦ elim (Bool-cases (ltb (s.ttl_seconds * 1000000) (now - ts))) [
    | inl stale ↦ rw (get_state, is_expired, seen, stale) refl
    | inr fresh ↦ rw (get_state, is_expired, seen, fresh) refl
  ]
]

get_data-read :
    (id now : ℕ) (s : FsmStorage)
    → (get_data id now s).0 ≡ read [] s.ttl_seconds now (s.timestamps id) (s.data_of id)
unfolding get_data
get_data-read id now s = elim (Option-cases (s.timestamps id)) [
  | inl absent ↦ rw (get_data, is_expired, absent) refl
  | inr (ts, seen) ↦ elim (Bool-cases (ltb (s.ttl_seconds * 1000000) (now - ts))) [
    | inl stale ↦ rw (get_data, is_expired, seen, stale) refl
    | inr fresh ↦ rw (get_data, is_expired, seen, fresh) refl
  ]
]

-- The clean-up is not seen later: what it takes out has expired by then.
read-purged {ℓ} :
    {V : Type ℓ} (default : V) (ttl t now : ℕ) (ts : Option ℕ) (v : Option V)
    → t ≤ now
    → read default ttl now
        (if is_stale t ttl ts then none else ts)
        (if is_stale t ttl ts then none else v)
      ≡ read default ttl now ts v
read-purged default ttl t now none v h = refl
read-purged default ttl t now (some ts) v h = elim (Bool-cases (ltb (ttl * 1000000) (t - ts))) [
  | inl stale ↦
      let later : ltb (ttl * 1000000) (now - ts) ≡ true = ground arith in rw (stale, later) refl
  | inr fresh ↦ rw fresh refl
]

state-maybe_cleanup :
    (id t now : ℕ) (s : FsmStorage)
    → t ≤ now
    → read no_state s.ttl_seconds now
        ((maybe_cleanup t s).timestamps id)
        ((maybe_cleanup t s).states id)
      ≡ read no_state s.ttl_seconds now (s.timestamps id) (s.states id)
unfolding maybe_cleanup
state-maybe_cleanup id t now s h = elim (Bool-cases (ltb (s.cleanup_counter + 1) 100)) [
  | inl early ↦ rw (maybe_cleanup, early) refl
  | inr due ↦
      rw (maybe_cleanup, due)
        (read-purged no_state s.ttl_seconds t now (s.timestamps id) (s.states id) h)
]

data-maybe_cleanup :
    (id t now : ℕ) (s : FsmStorage)
    → t ≤ now
    → read [] s.ttl_seconds now ((maybe_cleanup t s).timestamps id) ((maybe_cleanup t s).data_of id)
      ≡ read [] s.ttl_seconds now (s.timestamps id) (s.data_of id)
unfolding maybe_cleanup
data-maybe_cleanup id t now s h = elim (Bool-cases (ltb (s.cleanup_counter + 1) 100)) [
  | inl early ↦ rw (maybe_cleanup, early) refl
  | inr due ↦
      rw (maybe_cleanup, due)
        (read-purged [] s.ttl_seconds t now (s.timestamps id) (s.data_of id) h)
]

maybe_cleanup-ttl : (t : ℕ) (s : FsmStorage) → (maybe_cleanup t s).ttl_seconds ≡ s.ttl_seconds
unfolding maybe_cleanup
maybe_cleanup-ttl t s = elim (Bool-cases (ltb (s.cleanup_counter + 1) 100)) [
  | inl early ↦ rw (maybe_cleanup, early) refl
  | inr due ↦ rw (maybe_cleanup, due) refl
]

kept_data :
    (id t : ℕ) (s : FsmStorage)
    → is_expired id t s ≡ false
    → (maybe_cleanup t s).data_of id ≡ s.data_of id
unfolding maybe_cleanup
kept_data id t s live = elim (Bool-cases (ltb (s.cleanup_counter + 1) 100)) [
  | inl early ↦ rw (maybe_cleanup, early) refl
  | inr due ↦ elim (Option-cases (s.timestamps id)) [
    | inl absent ↦ rw (maybe_cleanup, due, absent) refl
    | inr (ts, seen) ↦
        let fresh : ltb (s.ttl_seconds * 1000000) (t - ts) ≡ false =
          rw (is_expired, seen) at live in
        rw (maybe_cleanup, due, seen, fresh) refl
  ]
]

-- Where the clock does not go back, a state that is set is read back until its time to live is over,
-- and then there is none; every other user's state is the same as without the write, whether it
-- cleaned up or not.
pub get-set_state :
    (id other t now : ℕ) (state : FsmState) (s : FsmStorage)
    → t ≤ now
    → (get_state other now (set_state id state t s)).0 ≡ (
        if id == other
        then if ltb (s.ttl_seconds * 1000000) (now - t) then no_state else state
        else (get_state other now s).0)
unfolding set_state
get-set_state id other t now state s h =
    get_state-read other now (set_state id state t s) ∙ elim (Bool-cases (id == other)) [
      | inl same ↦ rw (same, maybe_cleanup-ttl t s) refl
      | inr differ ↦
          rw (differ, maybe_cleanup-ttl t s)
            (state-maybe_cleanup other t now s h ∙ sym (get_state-read other now s))
    ]

-- Data that is written for a user whose entry has not expired is merged into what was there and
-- read back until its time to live is over; every other user's data is the same as without the
-- write. The clock does not go back.
pub get-update_data :
    (id other t now : ℕ) (fields : Dict Value) (s : FsmStorage)
    → t ≤ now
    → is_expired id t s ≡ false
    → (get_data other now (update_data id fields t s)).0 ≡ (
        if id == other
        then if ltb (s.ttl_seconds * 1000000) (now - t)
          then []
          else update_with fields (or_else (s.data_of id) [])
        else (get_data other now s).0)
unfolding update_data
get-update_data id other t now fields s h live =
    get_data-read other now (update_data id fields t s) ∙ elim (Bool-cases (id == other)) [
      | inl same ↦ rw (same, maybe_cleanup-ttl t s, kept_data id t s live) refl
      | inr differ ↦
          rw (differ, maybe_cleanup-ttl t s)
            (data-maybe_cleanup other t now s h ∙ sym (get_data-read other now s))
    ]
