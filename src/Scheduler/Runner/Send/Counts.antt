-- ===== src/Scheduler/Runner/Send/Counts.antt =====
-- How a step of the loop changes the lists, and how many entries a finished loop has made.
use tg_auto_msg.Prelude.{
  ℕ, ◌+◌, ◌≡◌, refl, sym, ◌∙◌, ◌⊎◌, inl, inr, true, false, ◌&&◌, Option, none, some, List, [], ◌∷◌,
  ◌++◌, String, arith, length, length-append, is_some, ltb, ap, ◌||◌, ◌≤◌, any, All, Bool-cases,
}
use mathlib.Core.Path.{subst}
use tg_auto_msg.Prelude.Int.{ℤ, eqb_ℤ, eqb_ℤ_iff}
use tg_auto_msg.Prelude.Text.{str_eq, eq_iff, strip, lower, is_blank}
use tg_auto_msg.Schema.{Task}
use tg_auto_msg.Circuit.{Outcome, returned, raised, flood_wait, peer_flood, exception}
use tg_auto_msg.Scheduler.Targets.{Target, is_peer_type, same_key, is_set}
use tg_auto_msg.Scheduler.Targets.Keys.{Distinct}
use tg_auto_msg.Scheduler.Targets.Collected.{HasKnownType}
use tg_auto_msg.Scheduler.SentIds.{MessageIds, sent_id, put_sent, get_target_last_message_id}
use tg_auto_msg.Scheduler.Runner.Send.{
  Progress, target_label, Replies, Outside, LoopEnd, finished, interrupted, type_of, failed_target,
  and_then, breaker_of, with_breaker, send_with_protections, sent_target, served, serve, send_loop,
}

-- No id is stored for any of these targets.
abbrev pub Fresh : List Target → MessageIds → Type 0
Fresh ts ids = All (λ t. sent_id t.peer_type t.peer_id ids ≡ none) ts

length-put_sent :
    (kind : String) (id m : ℤ) (ids : MessageIds)
    → sent_id kind id ids ≡ none
    → length (put_sent kind id m ids) ≡ length ids + 1
unfolding sent_id put_sent
length-put_sent kind id m [] new = omega arith
length-put_sent kind id m ((key, n) ∷ ids) new = ground (arith, length-put_sent kind id m ids)

pub sent_id-put_sent_other :
    (kind k : String) (id i m : ℤ) (ids : MessageIds)
    → (str_eq kind k && eqb_ℤ id i) ≡ false
    → sent_id k i (put_sent kind id m ids) ≡ sent_id k i ids
unfolding sent_id put_sent
sent_id-put_sent_other kind k id i m [] differ = ground arith
sent_id-put_sent_other kind k id i m ((key, n) ∷ ids) differ =
    ground (
      arith,
      eq_iff key.0 kind,
      eqb_ℤ_iff key.1 id,
      sent_id-put_sent_other kind k id i m ids differ,
    )

Fresh-put_sent :
    (t : Target) (m : ℤ) (ts : List Target) (ids : MessageIds)
    → any (same_key t.peer_type t.peer_id) ts ≡ false
    → Fresh ts ids
    → Fresh ts (put_sent t.peer_type t.peer_id m ids)
Fresh-put_sent t m [] ids differ fresh = tt
Fresh-put_sent t m (u ∷ ts) ids differ fresh = (
  sent_id-put_sent_other t.peer_type u.peer_type t.peer_id u.peer_id m ids (
        ground (
          arith,
          eq_iff t.peer_type u.peer_type,
          eqb_ℤ_iff t.peer_id u.peer_id,
          eq_iff u.peer_type t.peer_type,
          eqb_ℤ_iff u.peer_id t.peer_id,
        ))
      ∙ fresh.0,
  Fresh-put_sent t m ts ids (ground arith) fresh.1,
)

abbrev IsNormal : String → Type 0
IsNormal s = (is_blank s ≡ false) × (lower (strip s) ≡ s)

one_of : (s type : String) → IsNormal type → (str_eq s type ≡ false → IsNormal s) → IsNormal s
one_of s type normal else_normal = elim (Bool-cases (str_eq s type)) [
  | inl here ↦ subst IsNormal (sym ((eq_iff s type).0 here)) normal
  | inr not_here ↦ else_normal not_here
]

known_type : (s : String) → is_peer_type s ≡ true → IsNormal s
unfolding is_peer_type lower strip
known_type s known =
    one_of s "user" (refl, refl)
      (λ a.
        one_of s "chat" (refl, refl)
          (λ b.
            one_of s "supergroup" (refl, refl)
              (λ c. one_of s "channel" (refl, refl) (λ d. ground arith))))

type_of_known : (task : Task) (t : Target) → HasKnownType t → type_of task t ≡ t.peer_type
type_of_known task t known =
    let (given, same) = known_type t.peer_type known in rw (given, given, same) refl

-- What serving one target changes.
abbrev pub Advance : Target → Progress → Progress → Type 0
Advance t p q =
    ((q.ids ≡ p.ids)
      × (length q.failed_labels ≡ length p.failed_labels + 1)
      × (length q.success_labels ≡ length p.success_labels)
      × (q.last_message_id ≡ p.last_message_id)
      × (q.failed_labels ≡ p.failed_labels ++ (target_label t ∷ []))
      × (q.success_labels ≡ p.success_labels))
    ⊎ ((m : ℤ) × (q.ids ≡ put_sent t.peer_type t.peer_id m p.ids)
        × (length q.failed_labels ≡ length p.failed_labels)
        × (length q.success_labels ≡ length p.success_labels + 1)
        × (is_some q.last_message_id ≡ true)
        × (q.failed_labels ≡ p.failed_labels)
        × (q.success_labels ≡ p.success_labels ++ (target_label t ∷ [])))

abbrev pub WhenFinished : (Progress → Type 0) → LoopEnd → Type 0
WhenFinished P (finished q) = P q
WhenFinished P (interrupted e q) = Unit

served-Advance :
    (t : Target) (r : Replies) (outcome : Outcome (Option ℤ)) (p : Progress)
    → HasKnownType t
    → WhenFinished (Advance t p) (served t r outcome p)
unfolding served failed_target sent_target
served-Advance t r (returned id) p known = elim (Bool-cases (is_set id)) [
  | inl set ↦
      rw (set, type_of_known p.world.store.task t known)
        (inr (_, refl, refl, length-append p.success_labels _, refl, refl, refl))
  | inr unset ↦ rw unset (inl (refl, length-append p.failed_labels _, refl, refl, refl, refl))
]
served-Advance t r (raised (exception e)) p known =
    inl (refl, length-append p.failed_labels _, refl, refl, refl, refl)
served-Advance t r (raised (flood_wait n)) p known = tt
served-Advance t r (raised (peer_flood m)) p known = tt

-- A target's step in the counts, and the loop's.
abbrev pub IsCounted : ℕ → Progress → Progress → Type 0
IsCounted n p q =
    (length q.ids + length q.failed_labels ≡ length p.ids + length p.failed_labels + n)
    × (length q.success_labels + length p.ids ≡ length p.success_labels + length q.ids)
    × (length p.ids ≤ length q.ids)
    × (is_some q.last_message_id ≡ is_some p.last_message_id || ltb (length p.ids) (length q.ids))

Advance-IsCounted :
    (t : Target) (n : ℕ) (p q r : Progress)
    → sent_id t.peer_type t.peer_id p.ids ≡ none
    → Advance t p q
    → IsCounted n q r
    → IsCounted (n + 1) p r
Advance-IsCounted t n p q r new (inl (ids, unsent, sent, last, _, _)) rest =
    let same : length q.ids ≡ length p.ids = rw ids in
    let kept : is_some q.last_message_id ≡ is_some p.last_message_id = ap (λ o. is_some o) last in
    (omega arith, omega arith, omega arith, ground arith)
Advance-IsCounted t n p q r new (inr (m, ids, unsent, sent, last, _, _)) rest =
    let more : length q.ids ≡ length p.ids + 1 =
      rw ids (length-put_sent t.peer_type t.peer_id m p.ids new) in
    (omega arith, omega arith, omega arith, ground arith)

pub Advance-Fresh :
    (t : Target) (ts : List Target) (p q : Progress)
    → any (same_key t.peer_type t.peer_id) ts ≡ false
    → Fresh ts p.ids
    → Advance t p q
    → Fresh ts q.ids
Advance-Fresh t ts p q differ fresh (inl (ids, unsent, sent, last, _, _)) =
    subst (Fresh ts) (sym ids) fresh
Advance-Fresh t ts p q differ fresh (inr (m, ids, unsent, sent, last, _, _)) =
    subst (Fresh ts) (sym ids) (Fresh-put_sent t m ts p.ids differ fresh)

pub serve-Advance :
    (outside : Outside) (account_id : String) (t : Target) (p : Progress)
    → HasKnownType t
    → WhenFinished (Advance t p) (serve outside account_id t p)
unfolding serve
serve-Advance outside account_id t p known =
    let previous = get_target_last_message_id p.world.store.task t.peer_id (some t.peer_type) in
    let sent = send_with_protections (outside t previous) account_id (breaker_of p.world) in
    served-Advance t (outside t previous) sent.0 (record p { world = with_breaker p.world sent.1 })
      known

abbrev pub AllCounted : ℕ → Progress → LoopEnd → Type 0
AllCounted n p = WhenFinished (IsCounted n p)

Advance-AllCounted :
    (t : Target) (n : ℕ) (p q : Progress) (end : LoopEnd)
    → sent_id t.peer_type t.peer_id p.ids ≡ none
    → Advance t p q
    → AllCounted n q end
    → AllCounted (n + 1) p end
Advance-AllCounted t n p q (finished r) new step rest = Advance-IsCounted t n p q r new step rest
Advance-AllCounted t n p q (interrupted e r) new step rest = tt

and_then-AllCounted :
    (t : Target) (ts : List Target) (p : Progress) (end : LoopEnd) (next : Progress → LoopEnd)
    → any (same_key t.peer_type t.peer_id) ts ≡ false
    → Fresh (t ∷ ts) p.ids
    → WhenFinished (Advance t p) end
    → ((q : Progress) → Fresh ts q.ids → AllCounted (length ts) q (next q))
    → AllCounted (length ts + 1) p (and_then end next)
and_then-AllCounted t ts p (finished q) next differ fresh step rest =
    Advance-AllCounted t (length ts) p q (next q) fresh.0 step
      (rest q (Advance-Fresh t ts p q differ fresh.1 step))
and_then-AllCounted t ts p (interrupted e q) next differ fresh step rest = tt

pub send_loop-AllCounted :
    (outside : Outside) (account_id : String) (ts : List Target) (p : Progress)
    → Distinct ts
    → All HasKnownType ts
    → Fresh ts p.ids
    → AllCounted (length ts) p (send_loop outside account_id ts p)
unfolding send_loop
send_loop-AllCounted outside account_id [] p distinct known fresh =
    (omega arith, omega arith, omega arith, ground arith)
send_loop-AllCounted outside account_id (t ∷ ts) p distinct known fresh =
    subst (λ n. AllCounted n p (send_loop outside account_id (t ∷ ts) p)) (omega arith)
      (and_then-AllCounted t ts p (serve outside account_id t p)
        (λ q. send_loop outside account_id ts q) distinct.0 fresh
        (serve-Advance outside account_id t p known.0)
        (λ q h. send_loop-AllCounted outside account_id ts q distinct.1 known.1 h))

pub all_Fresh : (ts : List Target) → Fresh ts []
unfolding sent_id
all_Fresh [] = tt
all_Fresh (t ∷ ts) = (refl, all_Fresh ts)
