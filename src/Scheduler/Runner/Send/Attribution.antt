-- ===== src/Scheduler/Runner/Send/Attribution.antt =====
-- Which targets a finished loop has sent to, and what it says of them.
use tg_auto_msg.Prelude.{
  ◌≡◌, refl, ap, ◌∙◌, inl, inr, Bool, true, false, ◌&&◌, not, none, some, List, [], ◌∷◌, ◌++◌,
  String, arith, length, length-map, map, keep, is_some, any, All, Bool-cases,
}
use mathlib.Core.Path.{subst}
use tg_auto_msg.Prelude.Int.{ℤ, eqb_ℤ, eqb_ℤ_iff}
use tg_auto_msg.Prelude.Text.{str_eq, eq_iff}
use tg_auto_msg.Schema.{Task}
use tg_auto_msg.Scheduler.Targets.{Target, same_key, collect_task_targets}
use tg_auto_msg.Scheduler.Targets.Keys.{Distinct}
use tg_auto_msg.Scheduler.Targets.Collected.{HasKnownType, collect_task_targets-Distinct}
use tg_auto_msg.Scheduler.SentIds.{MessageIds, sent_id, put_sent}
use tg_auto_msg.Scheduler.Runner.Send.{
  Progress, Outside, LoopEnd, finished, interrupted, and_then, start, World, target_label, serve,
  send_loop,
}
use tg_auto_msg.Scheduler.Runner.Send.Counts.{
  Fresh, Advance, Advance-Fresh, WhenFinished, serve-Advance, AllCounted, send_loop-AllCounted,
  all_Fresh, sent_id-put_sent_other,
}

abbrev pub is_sent : MessageIds → Target → Bool
is_sent ids t = is_some (sent_id t.peer_type t.peer_id ids)

abbrev pub is_unsent : MessageIds → Target → Bool
is_unsent ids t = not (is_sent ids t)

sent_id-put_sent :
    (kind : String) (id m : ℤ) (ids : MessageIds)
    → sent_id kind id (put_sent kind id m ids) ≡ some m
unfolding sent_id put_sent
sent_id-put_sent kind id m [] = ground (arith, eq_iff kind kind, eqb_ℤ_iff id id)
sent_id-put_sent kind id m ((key, n) ∷ ids) =
    elim (Bool-cases (str_eq key.0 kind && eqb_ℤ key.1 id)) [
      | inl hit ↦ rw (hit, hit) refl
      | inr miss ↦ rw (miss, miss) (sent_id-put_sent kind id m ids)
    ]

++_assoc : {A : Type 0} (xs ys zs : List A) → (xs ++ ys) ++ zs ≡ xs ++ (ys ++ zs)
++_assoc [] ys zs = refl
++_assoc (x ∷ xs) ys zs = ap (λ l. x ∷ l) (++_assoc xs ys zs)

-- What the loop adds for these targets: a label for each, among the successes where an id is stored
-- for it in the end, and else among the failures. What is stored for other targets stays.
abbrev Attributed : List Target → Progress → Progress → Type 0
Attributed ts p q =
    (q.success_labels ≡ p.success_labels ++ map target_label (keep (is_sent q.ids) ts))
    × (q.failed_labels ≡ p.failed_labels ++ map target_label (keep (is_unsent q.ids) ts))
    × ((kind : String) (id : ℤ)
        → any (same_key kind id) ts ≡ false
        → sent_id kind id q.ids ≡ sent_id kind id p.ids)

other_key :
    (t : Target) (ts : List Target) (kind : String) (id : ℤ)
    → any (same_key kind id) (t ∷ ts) ≡ false
    → ((str_eq t.peer_type kind && eqb_ℤ t.peer_id id) ≡ false)
      × (any (same_key kind id) ts ≡ false)
other_key t ts kind id h = (ground (arith, h), ground (arith, h))

Advance-Attributed :
    (t : Target) (ts : List Target) (p q r : Progress)
    → any (same_key t.peer_type t.peer_id) ts ≡ false
    → sent_id t.peer_type t.peer_id p.ids ≡ none
    → Advance t p q
    → Attributed ts q r
    → Attributed (t ∷ ts) p r
Advance-Attributed t ts p q r differ new (inl (ids, _, _, _, failed, sent)) (s, f, kept) =
    let stored : sent_id t.peer_type t.peer_id r.ids ≡ none =
      kept t.peer_type t.peer_id differ ∙ ap (sent_id t.peer_type t.peer_id) ids ∙ new in
    let off : is_sent r.ids t ≡ false = ap is_some stored in
    (
      rw off (s ∙ ap (λ l. l ++ map target_label (keep (is_sent r.ids) ts)) sent),
      rw off (
          f
          ∙ ap (λ l. l ++ map target_label (keep (is_unsent r.ids) ts)) failed
          ∙ ++_assoc p.failed_labels (target_label t ∷ []) _),
      λ kind id h. kept kind id (other_key t ts kind id h).1 ∙ ap (sent_id kind id) ids,
    )
Advance-Attributed t ts p q r differ new (inr (m, ids, _, _, _, failed, sent)) (s, f, kept) =
    let stored : sent_id t.peer_type t.peer_id r.ids ≡ some m =
      kept t.peer_type t.peer_id differ
      ∙ ap (sent_id t.peer_type t.peer_id) ids
      ∙ sent_id-put_sent t.peer_type t.peer_id m p.ids in
    let on : is_sent r.ids t ≡ true = ap is_some stored in
    (
      rw on (
          s
          ∙ ap (λ l. l ++ map target_label (keep (is_sent r.ids) ts)) sent
          ∙ ++_assoc p.success_labels (target_label t ∷ []) _),
      rw on (f ∙ ap (λ l. l ++ map target_label (keep (is_unsent r.ids) ts)) failed),
      λ kind id h.
          let (apart, rest) = other_key t ts kind id h in
          kept kind id rest
          ∙ ap (sent_id kind id) ids
          ∙ sent_id-put_sent_other t.peer_type kind t.peer_id id m p.ids apart,
    )

abbrev AllAttributed : List Target → Progress → LoopEnd → Type 0
AllAttributed ts p = WhenFinished (Attributed ts p)

and_then-AllAttributed :
    (t : Target) (ts : List Target) (p : Progress) (end : LoopEnd) (next : Progress → LoopEnd)
    → any (same_key t.peer_type t.peer_id) ts ≡ false
    → Fresh (t ∷ ts) p.ids
    → WhenFinished (Advance t p) end
    → ((q : Progress) → Fresh ts q.ids → AllAttributed ts q (next q))
    → AllAttributed (t ∷ ts) p (and_then end next)
and_then-AllAttributed t ts p (finished q) next differ fresh step rest =
    step_on (next q) (rest q (Advance-Fresh t ts p q differ fresh.1 step))
  where
    step_on : (end : LoopEnd) → AllAttributed ts q end → AllAttributed (t ∷ ts) p end
    step_on (finished r) h = Advance-Attributed t ts p q r differ fresh.0 step h
    step_on (interrupted e r) h = tt
and_then-AllAttributed t ts p (interrupted e q) next differ fresh step rest = tt

++_nil : {A : Type 0} (xs : List A) → xs ≡ xs ++ []
++_nil [] = refl
++_nil (x ∷ xs) = ap (λ l. x ∷ l) (++_nil xs)

send_loop-AllAttributed :
    (outside : Outside) (account_id : String) (ts : List Target) (p : Progress)
    → Distinct ts
    → All HasKnownType ts
    → Fresh ts p.ids
    → AllAttributed ts p (send_loop outside account_id ts p)
unfolding send_loop
send_loop-AllAttributed outside account_id [] p distinct known fresh =
    (++_nil p.success_labels, ++_nil p.failed_labels, λ kind id h. refl)
send_loop-AllAttributed outside account_id (t ∷ ts) p distinct known fresh =
    and_then-AllAttributed t ts p (serve outside account_id t p)
      (λ q. send_loop outside account_id ts q) distinct.0 fresh
      (serve-Advance outside account_id t p known.0)
      (λ q h. send_loop-AllAttributed outside account_id ts q distinct.1 known.1 h)

-- What a finished loop says of its targets: the labels of the successes are those of the targets with a
-- stored message id, in their order, the labels of the failures are those of all other targets, in
-- their order, and there are as many ids as targets that have one.
abbrev pub IsAttributed : List Target → Progress → Type 0
IsAttributed ts p =
    (p.success_labels ≡ map target_label (keep (is_sent p.ids) ts))
    × (p.failed_labels ≡ map target_label (keep (is_unsent p.ids) ts))
    × (length p.ids ≡ length (keep (is_sent p.ids) ts))

finished-IsAttributed :
    (ts : List Target) (w : World) (end : LoopEnd)
    → AllAttributed ts (start w) end
    → AllCounted (length ts) (start w) end
    → WhenFinished (IsAttributed ts) end
finished-IsAttributed ts w (interrupted e p) h counted = tt
finished-IsAttributed ts w (finished p) (sent, failed, _) counted =
    let many : length p.success_labels ≡ length (keep (is_sent p.ids) ts) =
      ap length sent ∙ length-map target_label (keep (is_sent p.ids) ts) in
    (sent, failed, omega (arith, counted.1, many))

pub send_loop-IsAttributed :
    (outside : Outside) (account_id : String) (ts : List Target) (w : World)
    → Distinct ts
    → All HasKnownType ts
    → WhenFinished (IsAttributed ts) (send_loop outside account_id ts (start w))
send_loop-IsAttributed outside account_id ts w distinct known =
    let end = send_loop outside account_id ts (start w) in
    finished-IsAttributed ts w end
      (send_loop-AllAttributed outside account_id ts (start w) distinct known (all_Fresh ts))
      (send_loop-AllCounted outside account_id ts (start w) distinct known (all_Fresh ts))

-- A run over a task's collected targets whose loop ends without a flood error, whatever the outside
-- replies: the labels of the successes are those of the targets with a stored message id, in their
-- order, the labels of the failures are those of all other targets, in their order, and there are as
-- many ids as targets that have one.
pub targets-IsAttributed :
    (outside : Outside) (account_id : String) (task : Task) (w : World) (p : Progress)
    → send_loop outside account_id (collect_task_targets task) (start w) ≡ finished p
    → IsAttributed (collect_task_targets task) p
targets-IsAttributed outside account_id task w p ends =
    let ts = collect_task_targets task in
    let (distinct, known) = collect_task_targets-Distinct task in
    subst (WhenFinished (IsAttributed ts)) ends
      (send_loop-IsAttributed outside account_id ts w distinct known)
