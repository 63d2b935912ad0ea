-- ===== src/Account/Observation/Budget.antt =====
-- One send in an observation window, however many runs ask for it.
use tg_auto_msg.Prelude.{
  ℕ, ◌+◌, ◌*◌, ◌≤◌, ◌≡◌, refl, false, Option, none, some, List, [], ◌∷◌, String, arith, All,
  if◌then◌else◌, ltb, any, Bool-cases, inl, inr,
}
use mathlib.Core.Path.{subst}
use tg_auto_msg.Prelude.Text.{str_eq, eq_iff}
use tg_auto_msg.Schema.{Account}
use tg_auto_msg.Account.Rows.{Accounts, IsKeyed, get_account, update_account}
use tg_auto_msg.Account.Observation.{
  is_before, is_claimable, claim_proxy_observation_send_budget, start_proxy_observation,
}

-- No claim can succeed from this instant on.
abbrev pub Spent : String → ℕ → Accounts → Type 0
Spent id t = All (λ a. (later : ℕ) → t ≤ later → is_claimable id later a ≡ false)

later_before :
    (t later : ℕ) (until : Option ℕ)
    → t ≤ later
    → is_before t until ≡ false
    → is_before later until ≡ false
later_before t later none h e = refl
later_before t later (some u) h e = ground arith

unclaimable_later :
    (id : String) (a : Account) (t later : ℕ)
    → t ≤ later
    → is_claimable id t a ≡ false
    → is_claimable id later a ≡ false
unclaimable_later id a t later h e = ground (arith, later_before t later a.proxy_observation_until)

claim-Spent :
    (id : String) (t : ℕ) (accounts : Accounts)
    → Spent id t (claim_proxy_observation_send_budget id t accounts).1
unfolding claim_proxy_observation_send_budget
claim-Spent id t [] = tt
claim-Spent id t (a ∷ accounts) = elim (Bool-cases (is_claimable id t a)) [
  | inl hit ↦ rw hit ((λ later h. ground arith), claim-Spent id t accounts)
  | inr miss ↦
      rw miss ((λ later h. unclaimable_later id a t later h miss), claim-Spent id t accounts)
]

Spent-claim :
    (id : String) (t later : ℕ) (accounts : Accounts)
    → t ≤ later
    → Spent id t accounts
    → claim_proxy_observation_send_budget id later accounts ≡ (false, accounts)
unfolding claim_proxy_observation_send_budget
Spent-claim id t later [] h spent = refl
Spent-claim id t later (a ∷ accounts) h spent =
    rw (spent.0 later h, Spent-claim id t later accounts h spent.1)

-- The number of successful claims at these times, one after the other.
abbrev pub successes : String → List ℕ → Accounts → ℕ
successes id [] accounts = 0
successes id (t ∷ times) accounts =
    let (hit, after) = claim_proxy_observation_send_budget id t accounts in
    (if hit then 1 else 0) + successes id times after

abbrev pub IsAscendingFrom : ℕ → List ℕ → Type 0
IsAscendingFrom t [] = Unit
IsAscendingFrom t (u ∷ times) = (t ≤ u) × IsAscendingFrom u times

Spent-later :
    (id : String) (t u : ℕ) (accounts : Accounts)
    → t ≤ u
    → Spent id t accounts
    → Spent id u accounts
Spent-later id t u [] h spent = tt
Spent-later id t u (a ∷ accounts) h spent =
    (λ later le. spent.0 later (omega arith), Spent-later id t u accounts h spent.1)

Spent-successes :
    (id : String) (t : ℕ) (times : List ℕ) (accounts : Accounts)
    → IsAscendingFrom t times
    → Spent id t accounts
    → successes id times accounts ≡ 0
Spent-successes id t [] accounts h spent = refl
Spent-successes id t (u ∷ times) accounts h spent =
    rw (Spent-claim id t u accounts h.0 spent) (
      omega
        (arith, Spent-successes id u times accounts h.1 (Spent-later id t u accounts h.0 spent)))

-- Runs that claim the budget of an account one after the other, the clock not going back: at most
-- one of them gets it, as long as no window is started in between.
pub claim_once :
    (id : String) (times : List ℕ) (accounts : Accounts)
    → IsAscendingFrom 0 times
    → successes id times accounts ≤ 1
claim_once id [] accounts h = omega arith
claim_once id (t ∷ times) accounts h = ground (
  arith,
  Spent-successes id t times (claim_proxy_observation_send_budget id t accounts).1 h.1
      (claim-Spent id t accounts),
)

unlisted_claim :
    (id : String) (t : ℕ) (accounts : Accounts)
    → any (λ b. str_eq b.account_id id) accounts ≡ false
    → (claim_proxy_observation_send_budget id t accounts).0 ≡ false
unfolding claim_proxy_observation_send_budget
unlisted_claim id t [] h = refl
unlisted_claim id t (a ∷ accounts) h = ground (arith, unlisted_claim id t accounts)

-- When the window of a listed account starts, and no id is listed twice, its budget is claimed
-- exactly at the instants before the end of 24 hours.
pub start_claim :
    (id : String) (now t : ℕ) (accounts : Accounts) (a : Account)
    → IsKeyed accounts
    → get_account id accounts ≡ some a
    → (claim_proxy_observation_send_budget id t
        (update_account id (start_proxy_observation now) accounts)).0
      ≡ ltb t (now + 24 * 3600 * 1000000)
unfolding claim_proxy_observation_send_budget update_account start_proxy_observation get_account
start_claim id now t [] a keyed found = cc
start_claim id now t (b ∷ accounts) a keyed found = elim (Bool-cases (str_eq b.account_id id)) [
  | inl here ↦
      let others =
        subst (λ k. any (λ c. str_eq c.account_id k) accounts ≡ false)
          ((eq_iff b.account_id id).0 here) keyed.0 in
      ground (arith, unlisted_claim id t accounts others)
  | inr not_here ↦
      let rest = start_claim id now t accounts a keyed.1 (rw not_here at found) in
      ground (arith, rest)
]
