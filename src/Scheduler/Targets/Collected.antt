-- ===== src/Scheduler/Targets/Collected.antt =====
-- What `collect_task_targets` returns, for the JSON list and for the columns from before it.
use tg_auto_msg.Prelude.{
  ◌≡◌, refl, sym, ap, ◌∙◌, inl, inr, Bool, true, false, ◌&&◌, not, Option, none, some, List, [],
  ◌∷◌, String, arith, any, All, Bool-cases, ltb,
}
use tg_auto_msg.Prelude.Int.{ℤ}
use tg_auto_msg.Schema.{Task, Item, entry, other}
use tg_auto_msg.Scheduler.Targets.{
  Target, is_peer_type, is_suspended, names_target, peer_id_of, peer_type_of, same_key, scan_item,
  scan_items, scan_entry, scanned, legacy_targets, count_item, count_items, candidates,
  count_configured_task_targets, collect_task_targets, dedupe,
}
use tg_auto_msg.Scheduler.Targets.Keys.{Distinct, any-dedupe, dedupe-Distinct, dedupe-All}

-- The element names the target, its type is known, and it is not suspended.
abbrev pub is_active_for : String → ℤ → Item → Bool
is_active_for kind id (other v) = false
is_active_for kind id (entry d) =
    names_target kind id d && is_peer_type (peer_type_of d) && not (is_suspended d)

-- The element is a target, suspended or not.
abbrev pub is_configured : Item → Bool
is_configured (other v) = false
is_configured (entry d) = elim (peer_id_of d) [
  | none ↦ false
  | some id ↦ is_peer_type (peer_type_of d)
]

any-scan_items :
    (kind : String) (id : ℤ) (items : List Item)
    → any (same_key kind id) (scan_items items).0 ≡ any (is_active_for kind id) items
unfolding scan_items scan_item scan_entry names_target
any-scan_items kind id [] = refl
any-scan_items kind id (other v ∷ items) = any-scan_items kind id items
any-scan_items kind id (entry d ∷ items) = ground (arith, any-scan_items kind id items)

explicit-eq-any : (items : List Item) → (scan_items items).1 ≡ any is_configured items
unfolding scan_items scan_item scan_entry
explicit-eq-any [] = refl
explicit-eq-any (other v ∷ items) = explicit-eq-any items
explicit-eq-any (entry d ∷ items) = ground (arith, explicit-eq-any items)

counted : (items : List Item) → ltb 0 (count_items items) ≡ any is_configured items
unfolding count_items count_item
counted [] = refl
counted (other v ∷ items) = ground (arith, counted items)
counted (entry d ∷ items) = ground (arith, counted items)

user_known : is_peer_type "user" ≡ true
unfolding is_peer_type
user_known = refl

abbrev pub HasKnownType : Target → Type 0
HasKnownType t = is_peer_type t.peer_type ≡ true

types_known : (items : List Item) → All HasKnownType (scan_items items).0
unfolding scan_items scan_item scan_entry
types_known [] = tt
types_known (other v ∷ items) = types_known items
types_known (entry d ∷ items) = ground (arith, types_known items)

legacy_type_known : (task : Task) → All HasKnownType (legacy_targets task)
unfolding legacy_targets
legacy_type_known task = ground (arith, user_known)

candidates_known :
    (task : Task) (found : List Target × Bool)
    → All HasKnownType found.0
    → All HasKnownType (candidates task found)
unfolding candidates
candidates_known task ([], false) h = legacy_type_known task
candidates_known task ([], true) h = h
candidates_known task (t ∷ ts, explicit) h = h

scanned_known : (peers : Option (List Item)) → All HasKnownType (scanned peers).0
scanned_known none = tt
scanned_known (some items) = types_known items

candidates_explicit :
    (task : Task) (items : List Item)
    → any is_configured items ≡ true
    → candidates task (scan_items items) ≡ (scan_items items).0
unfolding candidates
candidates_explicit task items explicit = ground (arith, explicit-eq-any items)

none_scanned : (items : List Item) → any is_configured items ≡ false → (scan_items items).0 ≡ []
unfolding scan_items scan_item scan_entry
none_scanned [] h = refl
none_scanned (other v ∷ items) h = none_scanned items h
none_scanned (entry d ∷ items) h = ground (arith, none_scanned items)

candidates_legacy :
    (task : Task) (items : List Item)
    → any is_configured items ≡ false
    → candidates task (scan_items items) ≡ legacy_targets task
unfolding candidates
candidates_legacy task items none_named =
    ground (arith, explicit-eq-any items, none_scanned items none_named)

dedupe_legacy : (task : Task) → dedupe [] (legacy_targets task) ≡ legacy_targets task
unfolding dedupe legacy_targets
dedupe_legacy task = ground arith

active_configured :
    (kind : String) (id : ℤ) (items : List Item)
    → any is_configured items ≡ false
    → any (is_active_for kind id) items ≡ false
unfolding names_target
active_configured kind id [] h = refl
active_configured kind id (other v ∷ items) h = active_configured kind id items h
active_configured kind id (entry d ∷ items) h = ground (arith, active_configured kind id items)

-- Every target that is returned has a known type, and no two have one key, whatever the JSON holds.
pub collect_task_targets-Distinct :
    (task : Task)
    → Distinct (collect_task_targets task) × All HasKnownType (collect_task_targets task)
unfolding collect_task_targets
collect_task_targets-Distinct task = (
  dedupe-Distinct [] _,
  dedupe-All HasKnownType [] _ (candidates_known task _ (scanned_known task.target_peers)),
)

-- For a task with a list that names at least one target: a (type, id) is sent to exactly if some
-- element of the list names it, with a known type and not suspended. The old columns play no part.
pub collect_task_targets_iff_active :
    (kind : String) (id : ℤ) (task : Task) (items : List Item)
    → task.target_peers ≡ some items
    → any is_configured items ≡ true
    → any (same_key kind id) (collect_task_targets task) ≡ any (is_active_for kind id) items
unfolding collect_task_targets
collect_task_targets_iff_active kind id task items listed explicit =
    simp (listed, any-dedupe, candidates_explicit task items explicit, any-scan_items)

-- Where the list names no target, the old columns decide, for at most one target.
pub collect_task_targets-legacy :
    (task : Task) (items : List Item)
    → task.target_peers ≡ some items
    → any is_configured items ≡ false
    → collect_task_targets task ≡ legacy_targets task
unfolding collect_task_targets
collect_task_targets-legacy task items listed none_named =
    simp (listed, candidates_legacy task items none_named, dedupe_legacy)

-- With a list, a task that is left with no target has configured targets exactly if some element of the
-- list is a target; then every such element is suspended.
pub no_targets_configured :
    (task : Task) (items : List Item)
    → task.target_peers ≡ some items
    → collect_task_targets task ≡ []
    → (ltb 0 (count_configured_task_targets task) ≡ any is_configured items)
      × ((kind : String) (id : ℤ) → any (is_active_for kind id) items ≡ false)
unfolding count_configured_task_targets
no_targets_configured task items listed empty = (
  simp listed (counted items),
  λ kind id. elim (Bool-cases (any is_configured items)) [
    | inl explicit ↦
        sym (collect_task_targets_iff_active kind id task items listed explicit)
        ∙ ap (any (same_key kind id)) empty
    | inr none_named ↦ active_configured kind id items none_named
  ],
)
