-- ===== src/Circuit/Windows.antt =====
-- The time that an account is kept from sending.
use tg_auto_msg.Prelude.{
  ℕ, ◌+◌, ◌-◌, ◌*◌, ◌/◌, ◌≤◌, ◌<◌, ◌≡◌, refl, ◌∙◌, true, false, some, String, arith, if◌then◌else◌,
  ltb, leb, Bool-cases, inl, inr,
}
use text.Mathlib.TextPositions.{eq_refl}
use tg_auto_msg.Schema.{Account}
use tg_auto_msg.Account.Rows.{get_account, get-update}
use tg_auto_msg.Circuit.{
  Breaker, Probe, Outcome, raised, flood_wait, flooded, flood_banned, cleared, update,
  handle_flood_wait, handle_peer_flood, execute_with_circuit_breaker, reconcile_account_flood_state,
  guarded, notify, start_recovery_task, flood_wait_ban_threshold,
}

-- The row that is written is read back.
get-written :
    (id : String) (f : Account → Account) (b : Breaker) (a : Account)
    → ((x : Account) → (f x).account_id ≡ x.account_id)
    → get_account id b.accounts ≡ some a
    → get_account id (update id f b).accounts ≡ some (f a)
get-written id f b a keeps found = get-update id id f b.accounts keeps ∙ rw (eq_refl id, found) refl

abbrev flood_row : ℕ → ℕ → Account → Account
flood_row seconds now a =
    if leb flood_wait_ban_threshold seconds
    then flood_banned (now + seconds * 1000000) a
    else flooded (now + seconds * 1000000) a

flood_row-flooding : (seconds now : ℕ) (a : Account) → (flood_row seconds now a).is_flooding ≡ true
flood_row-flooding seconds now a = ground arith

flood_row-until :
    (seconds now : ℕ) (a : Account)
    → (flood_row seconds now a).flood_until ≡ some (now + seconds * 1000000)
flood_row-until seconds now a = ground arith

get-handle_flood_wait :
    (id : String) (seconds now : ℕ) (b : Breaker) (a : Account)
    → get_account id b.accounts ≡ some a
    → get_account id (handle_flood_wait id seconds now b).1.accounts
      ≡ some (flood_row seconds now a)
unfolding handle_flood_wait notify start_recovery_task
get-handle_flood_wait id seconds now b a found =
    elim (Bool-cases (leb flood_wait_ban_threshold seconds)) [
      | inl long ↦
          rw long (get-written id (flood_banned (now + seconds * 1000000)) b a (λ x. refl) found)
      | inr short ↦
          let written = get-written id (flooded (now + seconds * 1000000)) b a (λ x. refl) found in
          elim (Bool-cases (leb seconds 300)) [
            | inl brief ↦ rw (short, brief) written
            | inr skipped ↦ rw (short, skipped) written
          ]
    ]

module _ {ℓ} {A : Type ℓ} (probe : Probe) (id : String) (clock : ℕ → ℕ) (first second : Outcome A)
    (until : ℕ) (b : Breaker) (a : Account) where
  waiting :
      get_account id b.accounts ≡ some a
      → a.is_flooding ≡ true
      → a.flood_until ≡ some until
      → clock 0 < until
      → clock 1 < until
      → execute_with_circuit_breaker probe id clock first second b
        ≡ (raised (flood_wait ((until - clock 1) / 1000000)), b)
  unfolding execute_with_circuit_breaker reconcile_account_flood_state
  waiting found flooding ends before_0 before_1 =
      rw (found, flooding, ends)
        (let early_0 : ltb (clock 0) until ≡ true = ground arith in
          let early_1 : ltb (clock 1) until ≡ true = ground arith in rw (early_0, early_1) refl)

  over :
      get_account id b.accounts ≡ some a
      → a.is_flooding ≡ true
      → a.flood_until ≡ some until
      → until ≤ clock 0
      → execute_with_circuit_breaker probe id clock first second b
        ≡ guarded id (clock 4) first second (update id cleared b)
  unfolding execute_with_circuit_breaker reconcile_account_flood_state
  over found flooding ends after =
      let written = get-written id cleared b a (λ x. refl) found in
      let late : ltb (clock 0) until ≡ false = ground arith in
      rw (found, flooding, ends, late, written) refl

module _ {ℓ} {A : Type ℓ} (probe : Probe) (id : String) (clock : ℕ → ℕ)
    (first second : Outcome A) where
  -- From a flood wait of a listed account until it is over, no call is made through the breaker,
  -- whatever it would return: the rest of the wait is raised as a flood wait, rounded down to
  -- seconds, and nothing is written.
  pub flood_wait_blocks :
      (seconds now : ℕ) (b : Breaker) (a : Account)
      → get_account id b.accounts ≡ some a
      → clock 0 < now + seconds * 1000000
      → clock 1 < now + seconds * 1000000
      → execute_with_circuit_breaker probe id clock first second
          (handle_flood_wait id seconds now b).1
        ≡ (
          raised (flood_wait ((now + seconds * 1000000 - clock 1) / 1000000)),
          (handle_flood_wait id seconds now b).1,
        )
  flood_wait_blocks seconds now b a found before_0 before_1 =
      waiting probe id clock first second (now + seconds * 1000000)
        (handle_flood_wait id seconds now b).1 (flood_row seconds now a)
        (get-handle_flood_wait id seconds now b a found) (flood_row-flooding seconds now a)
        (flood_row-until seconds now a) before_0 before_1

  -- Once the wait is over the account is cleared, also of a ban, and the call is made as for an
  -- account that never had to wait.
  pub flood_wait_ends :
      (seconds now : ℕ) (b : Breaker) (a : Account)
      → get_account id b.accounts ≡ some a
      → now + seconds * 1000000 ≤ clock 0
      → execute_with_circuit_breaker probe id clock first second
          (handle_flood_wait id seconds now b).1
        ≡ guarded id
            (clock 4)
            first
            second
            (update id cleared (handle_flood_wait id seconds now b).1)
  flood_wait_ends seconds now b a found after =
      over probe id clock first second (now + seconds * 1000000)
        (handle_flood_wait id seconds now b).1 (flood_row seconds now a)
        (get-handle_flood_wait id seconds now b a found) (flood_row-flooding seconds now a)
        (flood_row-until seconds now a) after

  -- A peer flood keeps the account from sending for 24 hours in the same way.
  pub peer_flood_blocks :
      (now : ℕ) (b : Breaker) (a : Account)
      → get_account id b.accounts ≡ some a
      → clock 0 < now + 24 * 3600 * 1000000
      → clock 1 < now + 24 * 3600 * 1000000
      → execute_with_circuit_breaker probe id clock first second (handle_peer_flood id now b).1 ≡ (
        raised (flood_wait ((now + 24 * 3600 * 1000000 - clock 1) / 1000000)),
        (handle_peer_flood id now b).1,
      )
  unfolding handle_peer_flood notify
  peer_flood_blocks now b a found before_0 before_1 =
      let until : ℕ = now + 24 * 3600 * 1000000 in
      waiting probe id clock first second until (handle_peer_flood id now b).1 (flooded until a)
        (get-written id (flooded until) b a (λ x. refl) found) refl refl before_0 before_1
