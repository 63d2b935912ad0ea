-- ===== src/Scheduler/Metadata/Delivery.antt =====
-- A failure that suspends a target takes it out of the task's targets, a success puts it back, and
-- neither touches another target.
use tg_auto_msg.Prelude.{
  ◌≡◌, refl, sym, ap, ◌∙◌, inl, inr, Bool, true, false, ◌&&◌, not, some, List, [], ◌∷◌, ◌++◌, map,
  String, arith, any, Bool-cases, Option-cases, if◌then◌else◌, or_else,
}
use tg_auto_msg.Prelude.Int.{ℤ, eqb_ℤ, eqb_ℤ_iff}
use tg_auto_msg.Prelude.Text.{str_eq, eq_iff, strip, lower, is_blank}
use tg_auto_msg.Prelude.Dict.{Dict, insert}
use tg_auto_msg.Json.{Value, null, text, get-insert, str_or_empty}
use tg_auto_msg.Schema.{Task, Item, entry, other}
use tg_auto_msg.Scheduler.Targets.{
  names_target, same_peer, is_peer_type, is_suspended, peer_type_of, peer_id_of, same_key,
  collect_task_targets,
}
use tg_auto_msg.Scheduler.Targets.Collected.{
  is_active_for, is_configured, collect_task_targets_iff_active,
}
use tg_auto_msg.Scheduler.Metadata.{
  Writes, write_all, Failure, failure_writes, success_writes, title_writes, error_writes,
  status_writes, active_markers, suspended_markers, is_given, update_item,
  update_task_target_failure_metadata, update_task_target_success_metadata,
}
use tg_auto_msg.Scheduler.Metadata.Writes.{
  KeepsIdentity, write_all-append, names_target-write_all, peer_type_of-write_all,
  peer_id_of-write_all, is_suspended-write_all,
}

-- The element names the target and its type is known.
abbrev pub is_named : String → ℤ → Item → Bool
is_named kind id (other v) = false
is_named kind id (entry d) = names_target kind id d && is_peer_type (peer_type_of d)

-- The status that the last three writes leave.
pub marked :
    (status : String) (a b : Value) (d : Dict Value)
    → is_suspended (
        write_all
          (("delivery_status", text status) ∷ ("suspended_reason", a) ∷ ("suspended_at", b) ∷ [])
          d)
      ≡ str_eq (lower (strip (str_or_empty (text status)))) "suspended"
unfolding write_all
marked status a b d =
    is_suspended-write_all (("suspended_reason", a) ∷ ("suspended_at", b) ∷ [])
      (insert "delivery_status" (text status) d) (refl, (refl, tt))
    ∙ ap (λ t. str_eq (lower (strip (str_or_empty t))) "suspended")
        (get-insert "delivery_status" "delivery_status" (text status) d)

write_all-suspended :
    (ws vs : Writes) (d : Dict Value)
    → is_suspended (write_all (ws ++ vs) d) ≡ is_suspended (write_all vs (write_all ws d))
write_all-suspended ws vs d = ap (λ e. is_suspended e) (write_all-append ws vs d)

failure-suspended :
    (f : Failure) (d : Dict Value)
    → is_suspended (write_all (failure_writes f) d) ≡ is_given f.suspension_reason
unfolding str_or_empty strip lower
failure-suspended f d =
    write_all-suspended (title_writes f) (error_writes f ++ status_writes f) d
    ∙ write_all-suspended (error_writes f) (status_writes f) (write_all (title_writes f) d)
    ∙ elim (Bool-cases (is_blank (or_else f.suspension_reason ""))) [
      | inl blank ↦ rw blank (marked "active" _ _ _)
      | inr given ↦ rw given (marked "suspended" _ _ _)
    ]

failure-KeepsIdentity : (f : Failure) → KeepsIdentity (failure_writes f)
failure-KeepsIdentity f = elim (Bool-cases (is_blank (or_else f.peer_title ""))) [
  | inl untitled ↦ rw untitled (rest_keeps (is_blank (or_else f.suspension_reason "")))
  | inr titled ↦ rw titled ((refl, refl), rest_keeps (is_blank (or_else f.suspension_reason "")))
]
  where
    rest_keeps :
        (b : Bool)
        → KeepsIdentity (
            error_writes f
            ++ (if not b
                then suspended_markers (or_else f.suspension_reason "") f.now_iso
                else active_markers))
    rest_keeps true =
        ((refl, refl), ((refl, refl), ((refl, refl), ((refl, refl), ((refl, refl), tt)))))
    rest_keeps false =
        ((refl, refl), ((refl, refl), ((refl, refl), ((refl, refl), ((refl, refl), tt)))))

success-KeepsIdentity : KeepsIdentity success_writes
success-KeepsIdentity =
    ((refl, refl), ((refl, refl), ((refl, refl), ((refl, refl), ((refl, refl), tt)))))

success-suspended : (d : Dict Value) → is_suspended (write_all success_writes d) ≡ false
unfolding str_or_empty strip lower
success-suspended d =
    write_all-suspended active_markers
      (("last_error_type", null) ∷ ("last_error_message", null) ∷ []) d
    ∙ is_suspended-write_all (("last_error_type", null) ∷ ("last_error_message", null) ∷ [])
        (write_all active_markers d) (refl, (refl, tt))
    ∙ marked "active" null null d

-- An element names one target.
names-key :
    (kind k : String) (id i : ℤ) (d : Dict Value)
    → names_target kind id d ≡ true
    → names_target k i d ≡ (eqb_ℤ id i && str_eq kind k)
unfolding names_target
names-key kind k id i d here = elim (Option-cases (peer_id_of d)) [
  | inl none_read ↦ ground arith
  | inr (z, read) ↦
      let same : same_peer kind id (some z) (peer_type_of d) ≡ true = rw read at here in
      let same_id : z ≡ id = ground (arith, eqb_ℤ_iff z id) in
      let same_type : peer_type_of d ≡ kind = ground (arith, eq_iff (peer_type_of d) kind) in
      rw (read, same_id, same_type)
]

other-key :
    (kind k : String) (id i : ℤ) (d : Dict Value)
    → names_target kind id d ≡ false
    → (eqb_ℤ id i && str_eq kind k) ≡ true
    → names_target k i d ≡ false
other-key kind k id i d not_here same =
    let same_id : id ≡ i = ground (arith, eqb_ℤ_iff id i) in
    let same_type : kind ≡ k = ground (arith, eq_iff kind k) in rw (same_id, same_type) at not_here

module _ (kind : String) (id : ℤ) (ws : Writes) (s : Bool) (keeps : KeepsIdentity ws)
    (status : (d : Dict Value) → is_suspended (write_all ws d) ≡ s) where
  -- One element, seen for the target (k, i), after the update for (kind, id).
  active-update :
      (k : String) (i : ℤ) (item : Item)
      → is_active_for k i (update_item kind id ws item) ≡ (
          if eqb_ℤ id i && str_eq (lower (strip kind)) k
          then is_named k i item && not s
          else is_active_for k i item)
  unfolding update_item
  active-update k i (other v) = ground arith
  active-update k i (entry d) = elim (Bool-cases (names_target (lower (strip kind)) id d)) [
    | inl here ↦ rw here (
        ground (
          arith,
          names_target-write_all k i ws d keeps,
          peer_type_of-write_all ws d keeps,
          status d,
          names-key (lower (strip kind)) k id i d here,
        ))
    | inr not_here ↦ rw not_here (ground (arith, other-key (lower (strip kind)) k id i d not_here))
  ]

  named-update : (item : Item) → is_configured (update_item kind id ws item) ≡ is_configured item
  unfolding update_item
  named-update (other v) = refl
  named-update (entry d) = elim (Bool-cases (names_target (lower (strip kind)) id d)) [
    | inl here ↦
        rw here (ground (arith, peer_id_of-write_all ws d keeps, peer_type_of-write_all ws d keeps))
    | inr not_here ↦ rw not_here
  ]

  any_named-update :
      (items : List Item)
      → any is_configured (map (update_item kind id ws) items) ≡ any is_configured items
  any_named-update [] = refl
  any_named-update (item ∷ items) = ground (arith, named-update item, any_named-update items)

  any_active-update :
      (k : String) (i : ℤ) (items : List Item)
      → any (is_active_for k i) (map (update_item kind id ws) items) ≡ (
          if eqb_ℤ id i && str_eq (lower (strip kind)) k
          then any (is_named k i) items && not s
          else any (is_active_for k i) items)
  any_active-update k i [] = ground arith
  any_active-update k i (item ∷ items) =
      ground (arith, active-update k i item, any_active-update k i items)

  -- The targets of a task after an update, for every (type, id).
  collected-update :
      (task updated : Task) (items : List Item)
      → task.target_peers ≡ some items
      → updated.target_peers ≡ some (map (update_item kind id ws) items)
      → any is_configured items ≡ true
      → (k : String) (i : ℤ)
      → any (same_key k i) (collect_task_targets updated) ≡ (
          if eqb_ℤ id i && str_eq (lower (strip kind)) k
          then any (is_named k i) items && not s
          else any (same_key k i) (collect_task_targets task))
  collected-update task updated items listed written explicit k i =
      collect_task_targets_iff_active k i updated _ written (any_named-update items ∙ explicit)
      ∙ any_active-update k i items
      ∙ ap
          (λ b.
            if eqb_ℤ id i && str_eq (lower (strip kind)) k
            then any (is_named k i) items && not s
            else b)
          (sym (collect_task_targets_iff_active k i task items listed explicit))

-- After a failure of the target (peer_id, peer_type), that target is among the task's targets
-- exactly if the list names it and no suspension reason was given; for every other (type, id) the
-- answer is the one before the failure. The task has a list that names at least one target.
pub failure_metadata_collected :
    (task : Task) (items : List Item) (peer_id : ℤ) (peer_type : String) (f : Failure)
    → task.target_peers ≡ some items
    → any is_configured items ≡ true
    → (k : String) (i : ℤ)
    → any
        (same_key k i)
        (collect_task_targets (update_task_target_failure_metadata task peer_id peer_type f))
      ≡ (if eqb_ℤ peer_id i && str_eq (lower (strip peer_type)) k
          then any (is_named k i) items && not (is_given f.suspension_reason)
          else any (same_key k i) (collect_task_targets task))
unfolding update_task_target_failure_metadata
failure_metadata_collected task items peer_id peer_type f listed explicit =
    collected-update peer_type peer_id (failure_writes f) (is_given f.suspension_reason)
      (failure-KeepsIdentity f) (failure-suspended f) task _ items listed (simp listed) explicit

-- After a success of the target it is among the task's targets exactly if the list names it, also if
-- it was suspended before; for every other (type, id) nothing changes.
pub success_metadata_collected :
    (task : Task) (items : List Item) (peer_id : ℤ) (peer_type : String)
    → task.target_peers ≡ some items
    → any is_configured items ≡ true
    → (k : String) (i : ℤ)
    → any
        (same_key k i)
        (collect_task_targets (update_task_target_success_metadata task peer_id peer_type))
      ≡ (if eqb_ℤ peer_id i && str_eq (lower (strip peer_type)) k
          then any (is_named k i) items && true
          else any (same_key k i) (collect_task_targets task))
unfolding update_task_target_success_metadata
success_metadata_collected task items peer_id peer_type listed explicit =
    collected-update peer_type peer_id success_writes false success-KeepsIdentity success-suspended
      task _ items listed (simp listed) explicit
