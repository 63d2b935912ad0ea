-- ===== src/Limiter/Wait.antt =====
-- The wait for a slot ends, and with both locks or none.
use Prim.Native.String.{◌++◌}
use text.Mathlib.TextLemmas.{cons-append, append_assoc, append_cancel_left, head-eq_of_cons-eq}
use Prim.Native.Char.{code}
use mathlib.Core.Path.{subst}
use text.Mathlib.TextPositions.{eq_refl}
use tg_auto_msg.Prelude.{
  ℕ, zero, suc, ◌+◌, ◌-◌, ◌*◌, ◌≤◌, ◌<◌, ◌≡◌, refl, sym, ap, ◌∙◌, inl, inr, Bool, true, false,
  Option, none, some, String, arith, ltb→lt, ltb, is_some, Bool-cases,
}
use tg_auto_msg.Prelude.Int.{ℤ}
use tg_auto_msg.Prelude.Text.{str_eq, show_ℤ, eq_iff}
use tg_auto_msg.Redis.{Keys, IsKeys, until}
use tg_auto_msg.Limiter.{
  Slot, granted, timed_out, account_lock_key, peer_lock_key, max_wait, acquire_account_lock,
  acquire_peer_lock, release_account_lock, release_peer_lock, both_or_none, try_slot, wait_rounds,
  wait_for_slot, sent_with, acquire_locks_and_send,
}

keys_differ : (a : String) (p : ℤ) → str_eq (peer_lock_key p) (account_lock_key a) ≡ false
keys_differ a p = elim (Bool-cases (str_eq (peer_lock_key p) (account_lock_key a))) [
  | inl same ↦
      let whole : "lock:account:" ++ a ≡ "lock:peer:" ++ show_ℤ p = sym ((eq_iff _ _).0 same) in
      let rest = append_cancel_left "lock:" ("account:" ++ a) ("peer:" ++ show_ℤ p) (
        sym (append_assoc "lock:" "account:" a)
        ∙ whole
        ∙ append_assoc "lock:" "peer:" (show_ℤ p)) in
      let heads =
        head-eq_of_cons-eq
          (sym (cons-append "a" "ccount:" a) ∙ rest ∙ cons-append "p" "eer:" (show_ℤ p)) in
      let letters : ◌≡◌ {A = ℕ} 97 112 = ap code heads in absurd (omega (arith, letters))
  | inr other ↦ other
]

one_more :
    (c0 c d fuel : ℕ)
    → c0 ≤ c
    → c + 100000 ≤ d
    → max_wait ≤ (c - c0) + suc fuel * 100000
    → (c0 ≤ d) × (max_wait ≤ (d - c0) + fuel * 100000)
one_more c0 c d fuel le pace enough = omega arith

abbrev pub is_taken : Option String → Bool
is_taken v = is_some v

-- What a wait may end with: a slot within the waiting time, with the account's lock taken for the
-- next second and the peer's for the next two (`d` after the grant), or a timeout after the waiting
-- time.
abbrev pub IsOutcome : {S : Type 0} → Keys S → String → ℤ → ℕ → ℕ → Slot × S → Type 0
IsOutcome r account_id peer_id start d (granted waited, st) =
    (waited < max_wait)
    × (is_taken (r.get (account_lock_key account_id) (start + waited + d) st) ≡ ltb d 1000000)
    × (is_taken (r.get (peer_lock_key peer_id) (start + waited + d) st) ≡ ltb d 2000000)
IsOutcome r account_id peer_id start d (timed_out waited, st) = max_wait ≤ waited

abbrev pub Ends : {S : Type 0} → Keys S → String → ℤ → ℕ → ℕ → Option (Slot × S) → Type 0
Ends r account_id peer_id start d none = ⊥
Ends r account_id peer_id start d (some outcome) = IsOutcome r account_id peer_id start d outcome

until-taken : (now d ttl : ℕ) → is_taken (until (now + d) (now + ttl) "1") ≡ ltb d ttl
until-taken now d ttl = ground arith

module _ {S : Type 0} (r : Keys S) (law : IsKeys r) where
  pair-taken :
      (account_id : String) (peer_id : ℤ) (now d : ℕ) (p : Bool × S)
      → (p.0 ≡ true
          → r.get (account_lock_key account_id) (now + d) p.1 ≡ until (now + d) (now + 1000000) "1")
      → (both_or_none r account_id peer_id now p).0 ≡ true
      → (is_taken (
            r.get
              (account_lock_key account_id)
              (now + d)
              (both_or_none r account_id peer_id now p).1)
          ≡ ltb d 1000000)
        × (is_taken
              (r.get (peer_lock_key peer_id) (now + d) (both_or_none r account_id peer_id now p).1)
            ≡ ltb d 2000000)
  unfolding acquire_peer_lock
  pair-taken account_id peer_id now d (false, st) own got = cc
  pair-taken account_id peer_id now d (true, st) own got =
      let akey = account_lock_key account_id in
      let pkey = peer_lock_key peer_id in
      let through = law.get_set pkey "1" 2000000 now st akey (now + d) (omega arith) in
      let peer = law.get_set pkey "1" 2000000 now st pkey (now + d) (omega arith) in
      rw got (
        rw (through, got, keys_differ account_id peer_id, own refl) (until-taken now d 1000000),
        rw (peer, got, eq_refl pkey) (until-taken now d 2000000),
      )

  account-taken :
      (account_id : String) (now d : ℕ) (st : S)
      → (acquire_account_lock r account_id now st).0 ≡ true
      → r.get (account_lock_key account_id) (now + d) (acquire_account_lock r account_id now st).1
        ≡ until (now + d) (now + 1000000) "1"
  unfolding acquire_account_lock
  account-taken account_id now d st mine =
      let akey = account_lock_key account_id in
      rw (law.get_set akey "1" 1000000 now st akey (now + d) (omega arith), mine, eq_refl akey) refl

  slot-taken :
      (account_id : String) (peer_id : ℤ) (now d : ℕ) (st : S)
      → (try_slot r account_id peer_id now st).0 ≡ true
      → (is_taken
            (r.get (account_lock_key account_id) (now + d) (try_slot r account_id peer_id now st).1)
          ≡ ltb d 1000000)
        × (is_taken
              (r.get (peer_lock_key peer_id) (now + d) (try_slot r account_id peer_id now st).1)
            ≡ ltb d 2000000)
  unfolding try_slot
  slot-taken account_id peer_id now d st got =
      pair-taken account_id peer_id now d (acquire_account_lock r account_id now st)
        (account-taken account_id now d st) got

module _ {S : Type 0} (r : Keys S) (law : IsKeys r) (clock : ℕ → ℕ) (others : ℕ → S → S)
    (pace : (k : ℕ) → clock k + 100000 ≤ clock (suc k)) where
  rounds-Ends :
      (fuel k : ℕ) (account_id : String) (peer_id : ℤ) (d : ℕ) (st : S)
      → clock 0 ≤ clock k
      → max_wait ≤ (clock k - clock 0) + fuel * 100000
      → Ends r account_id peer_id
          (clock 0)
          d
          (wait_rounds r clock others (suc fuel) k account_id peer_id st)
  unfolding wait_rounds
  rounds-Ends zero k account_id peer_id d st from enough =
      let late : ltb (clock k - clock 0) max_wait ≡ false = ground (arith, enough) in
      rw late (ground (arith, late))
  rounds-Ends (suc fuel) k account_id peer_id d st from enough =
      let (from', enough') =
        one_more (clock 0) (clock k) (clock (suc k)) fuel from (pace k) enough in
      let later =
        rounds-Ends fuel (suc k) account_id peer_id d
          (others k (try_slot r account_id peer_id (clock k) st).1) from' enough' in
      elim (Bool-cases (ltb (clock k - clock 0) max_wait)) [
        | inr late ↦ rw late (ground (arith, late))
        | inl early ↦ elim (Bool-cases (try_slot r account_id peer_id (clock k) st).0) [
          | inl got ↦
              let at : clock 0 + (clock k - clock 0) ≡ clock k = omega (arith, from) in
              let (account, peer) = slot-taken r law account_id peer_id (clock k) d st got in
              rw (early, got) (ltb→lt (clock k - clock 0) max_wait early, rw at account, rw at peer)
          | inr missed ↦ rw (early, missed) later
        ]
      ]

  -- A wait ends after at most 101 rounds, each of which takes a tenth of a second or more: within ten
  -- seconds with a slot, the account's lock being taken for exactly the next second and the peer's for
  -- exactly the next two, or else after ten seconds with a timeout.
  pub wait_for_slot-Ends :
      (account_id : String) (peer_id : ℤ) (d : ℕ) (st : S)
      → Ends r account_id peer_id (clock 0) d (wait_for_slot r clock others account_id peer_id st)
  unfolding wait_for_slot
  wait_for_slot-Ends account_id peer_id d st =
      rounds-Ends 100 0 account_id peer_id d st (omega arith) (omega arith)

module _ {S : Type 0} (r : Keys S) (law : IsKeys r) (clock : ℕ → ℕ) (others : ℕ → S → S) where
  sent-free :
      (account_id : String) (peer_id : ℤ) (sending : S → S) (found : Option (Slot × S)) (waited : ℕ)
      (after : S) (t : ℕ)
      → sent_with r clock others account_id peer_id sending found ≡ some (granted waited, after)
      → (r.get (account_lock_key account_id) t after ≡ none)
        × (r.get (peer_lock_key peer_id) t after ≡ none)
  unfolding release_account_lock release_peer_lock
  sent-free account_id peer_id sending none waited after t e = cc
  sent-free account_id peer_id sending (some (timed_out w, st)) waited after t e = cc
  sent-free account_id peer_id sending (some (granted w, st)) waited after t e =
      let akey = account_lock_key account_id in
      let pkey = peer_lock_key peer_id in
      let first = r.delete akey (sending st) in
      let freed : r.delete pkey first ≡ after = cc in
      subst (λ s. (r.get akey t s ≡ none) × (r.get pkey t s ≡ none)) freed
        (
          rw
              (
                law.get_delete pkey first akey t,
                keys_differ account_id peer_id,
                law.get_delete akey (sending st) akey t,
                eq_refl akey,
              )
              refl,
          rw (law.get_delete pkey first pkey t, eq_refl pkey) refl,
        )

  -- When a send that got its slot is over, both locks are free, at whatever time they are looked at
  -- and whatever was written to Redis during the send.
  pub send_frees_locks :
      (account_id : String) (peer_id : ℤ) (sending : S → S) (st : S) (waited : ℕ) (after : S)
      (t : ℕ)
      → acquire_locks_and_send r clock others account_id peer_id sending st
        ≡ some (granted waited, after)
      → (r.get (account_lock_key account_id) t after ≡ none)
        × (r.get (peer_lock_key peer_id) t after ≡ none)
  unfolding acquire_locks_and_send
  send_frees_locks account_id peer_id sending st waited after t e =
      sent-free account_id peer_id sending (wait_for_slot r clock others account_id peer_id st)
        waited after t e
