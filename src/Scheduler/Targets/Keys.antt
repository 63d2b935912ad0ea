-- ===== src/Scheduler/Targets/Keys.antt =====
-- The keys (type, id) of the targets under `dedupe`.
use tg_auto_msg.Prelude.{
  ◌≡◌, inl, inr, true, false, ◌&&◌, not, List, [], ◌∷◌, String, arith, any, All, Bool-cases,
}
use tg_auto_msg.Prelude.Int.{ℤ, eqb_ℤ_iff}
use tg_auto_msg.Prelude.Text.{eq_iff}
use tg_auto_msg.Scheduler.Targets.{Target, same_key, dedupe}

-- A target has its own key, and a target with a given key stands for every target with that key.
pub same_key_self : (t : Target) → same_key t.peer_type t.peer_id t ≡ true
same_key_self t = ground (arith, eq_iff t.peer_type t.peer_type, eqb_ℤ_iff t.peer_id t.peer_id)

any-same_key :
    (kind : String) (id : ℤ) (t : Target) (ts : List Target)
    → same_key kind id t ≡ true
    → any (same_key t.peer_type t.peer_id) ts ≡ any (same_key kind id) ts
any-same_key kind id t ts h =
    let k : t.peer_type ≡ kind = ground (arith, eq_iff t.peer_type kind) in
    let i : t.peer_id ≡ id = ground (arith, eqb_ℤ_iff t.peer_id id) in rw (k, i)

-- `dedupe` keeps the keys that were not seen, and no other.
pub any-dedupe :
    (kind : String) (id : ℤ) (seen ts : List Target)
    → any (same_key kind id) (dedupe seen ts)
      ≡ not (any (same_key kind id) seen) && any (same_key kind id) ts
unfolding dedupe
any-dedupe kind id seen [] = ground arith
any-dedupe kind id seen (t ∷ ts) = ground (
  arith,
  any-dedupe kind id seen ts,
  any-dedupe kind id (t ∷ seen) ts,
  any-same_key kind id t seen,
)

-- No two targets have one key.
abbrev pub Distinct : List Target → Type 0
Distinct [] = Unit
Distinct (t ∷ ts) = (any (same_key t.peer_type t.peer_id) ts ≡ false) × Distinct ts

pub dedupe-Distinct : (seen ts : List Target) → Distinct (dedupe seen ts)
unfolding dedupe
dedupe-Distinct seen [] = tt
dedupe-Distinct seen (t ∷ ts) = elim (Bool-cases (any (same_key t.peer_type t.peer_id) seen)) [
  | inl old ↦ rw old (dedupe-Distinct seen ts)
  | inr new ↦ rw new (
    ground (arith, any-dedupe t.peer_type t.peer_id (t ∷ seen) ts, same_key_self t),
    dedupe-Distinct (t ∷ seen) ts,
  )
]

pub dedupe-All : (P : Target → Type 0) (seen ts : List Target) → All P ts → All P (dedupe seen ts)
unfolding dedupe
dedupe-All P seen [] h = tt
dedupe-All P seen (t ∷ ts) h = elim (Bool-cases (any (same_key t.peer_type t.peer_id) seen)) [
  | inl old ↦ rw old (dedupe-All P seen ts h.1)
  | inr new ↦ rw new (h.0, dedupe-All P (t ∷ seen) ts h.1)
]
