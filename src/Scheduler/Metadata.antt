-- ===== src/Scheduler/Metadata.antt =====
-- The delivery state that is kept in `target_peers`:
-- backend/scheduler/core/task_issue_state.py, the functions on the JSON list.
pub mod Writes
pub mod Delivery
pub mod Resubmit
use tg_auto_msg.Prelude.{
  Bool, true, false, not, Option, none, some, List, [], ◌∷◌, ◌++◌, map, String, if◌then◌else◌,
  or_else, ◌&&◌, is_some,
}
use tg_auto_msg.Prelude.Int.{ℤ}
use tg_auto_msg.Prelude.Text.{is_blank, strip, lower}
use tg_auto_msg.Prelude.Dict.{Dict, insert, lookup}
use tg_auto_msg.Json.{Value, null, text, truthy, is_absent, py_int, str_or_empty, get}
use tg_auto_msg.Schema.{Task, Item, entry, other}
use tg_auto_msg.Scheduler.Targets.{names_target, peer_type_of}

-- A sequence of assignments `d[k] = v`.
abbrev pub Writes : Type 0
Writes = List (String × Value)

unfoldable pub write_all : Writes → Dict Value → Dict Value
write_all [] d = d
write_all ((k, v) ∷ ws) d = write_all ws (insert k v d)

-- `str(x or "")` is not empty.
abbrev pub is_given : Option String → Bool
is_given s = not (is_blank (or_else s ""))

-- The markers of a target that is sent to.
abbrev pub active_markers : Writes
active_markers =
    ("delivery_status", text "active") ∷ ("suspended_reason", null) ∷ ("suspended_at", null) ∷ []

abbrev pub suspended_markers : String → String → Writes
suspended_markers reason now_iso =
    ("delivery_status", text "suspended")
    ∷ ("suspended_reason", text reason)
    ∷ ("suspended_at", text now_iso)
    ∷ []

-- What a failure writes. `now_iso` is `datetime.now().isoformat()`.
pub record Failure : Type 0 where
  pub peer_title : Option String
  pub error_type : String
  pub error_message : String
  pub suspension_reason : Option String
  pub now_iso : String

abbrev pub error_writes : Failure → Writes
error_writes f =
    ("last_error_type", text f.error_type) ∷ ("last_error_message", text f.error_message) ∷ []

abbrev pub title_writes : Failure → Writes
title_writes f =
    if is_given f.peer_title then ("title", text (strip (or_else f.peer_title ""))) ∷ [] else []

abbrev pub status_writes : Failure → Writes
status_writes f =
    if is_given f.suspension_reason
    then suspended_markers (or_else f.suspension_reason "") f.now_iso
    else active_markers

abbrev pub failure_writes : Failure → Writes
failure_writes f = title_writes f ++ (error_writes f ++ status_writes f)

abbrev pub success_writes : Writes
success_writes = active_markers ++ (("last_error_type", null) ∷ ("last_error_message", null) ∷ [])

-- The loop of both updates: the writes go to the elements that name the target.
pub update_item : String → ℤ → Writes → Item → Item
update_item kind id ws (other v) = other v
update_item kind id ws (entry d) =
    entry (if names_target (lower (strip kind)) id d then write_all ws d else d)

abbrev pub update_peers : String → ℤ → Writes → Option (List Item) → Option (List Item)
update_peers kind id ws none = none
update_peers kind id ws (some items) = some (map (update_item kind id ws) items)

pub update_task_target_failure_metadata : Task → ℤ → String → Failure → Task
update_task_target_failure_metadata task peer_id peer_type f = record task {
  target_peers = update_peers peer_type peer_id (failure_writes f) task.target_peers;
}

pub update_task_target_success_metadata : Task → ℤ → String → Task
update_task_target_success_metadata task peer_id peer_type = record task {
  target_peers = update_peers peer_type peer_id success_writes task.target_peers;
}

-- `existing_map.get((peer_type, peer_id), {})`: the last element with the key, blank types left out.
unfoldable pub existing_for : String → ℤ → Dict Value → List Item → Dict Value
existing_for kind id found [] = found
existing_for kind id found (other v ∷ items) = existing_for kind id found items
existing_for kind id found (entry d ∷ items) =
    existing_for kind id
      (if names_target kind id d && not (is_blank (peer_type_of d)) then d else found) items

-- `if test: merged_item[key] = existing.get(key)`
unfoldable pub carry : Bool → String → Dict Value → Dict Value → Dict Value
carry test key existing merged = if test then insert key (get key existing) merged else merged

abbrev pub has : String → Dict Value → Bool
has key d = is_some (lookup key d)

abbrev pub carry_summary : Dict Value → Dict Value → Dict Value
carry_summary existing item =
    let titled =
      carry (truthy (get "title" existing) && not (truthy (get "title" item))) "title" existing
        item in
    let sent =
      carry (not (is_absent (get "last_sent_message_id" existing))) "last_sent_message_id" existing
        titled in
    let typed = carry (truthy (get "last_error_type" existing)) "last_error_type" existing sent in
    carry (truthy (get "last_error_message" existing)) "last_error_message" existing typed

unfoldable pub merge_item : Bool → Dict Value → Dict Value → Dict Value
merge_item true existing item = write_all active_markers (carry_summary existing item)
merge_item false existing item =
    let merged = carry_summary existing item in
    let status = carry (has "delivery_status" existing) "delivery_status" existing merged in
    let reason = carry (has "suspended_reason" existing) "suspended_reason" existing status in
    carry (has "suspended_at" existing) "suspended_at" existing reason

-- `item["peer_id"]` through `int` and `item["peer_type"]` of an incoming target; `none` is the
-- exception of a missing key or of no number, which ends the call.
abbrev pub merge_found : Bool → List Item → Dict Value → Option ℤ → Bool → Option (Dict Value)
merge_found reset existing item (some id) true =
    some (merge_item reset (existing_for (peer_type_of item) id [] existing) item)
merge_found reset existing item _ _ = none

unfoldable pub merge_one : Bool → List Item → Dict Value → Option (Dict Value)
merge_one reset existing item =
    merge_found reset existing item (py_int (get "peer_id" item)) (has "peer_type" item)

abbrev pub both : Option (Dict Value) → Option (List (Dict Value)) → Option (List (Dict Value))
both (some merged) (some rest) = some (merged ∷ rest)
both _ _ = none

unfoldable pub merge_all : Bool → List Item → List (Dict Value) → Option (List (Dict Value))
merge_all reset existing [] = some []
merge_all reset existing (item ∷ items) =
    both (merge_one reset existing item) (merge_all reset existing items)

unfoldable pub merge_target_runtime_metadata :
    List (Dict Value) → Option (List Item) → Bool → Option (List (Dict Value))
merge_target_runtime_metadata incoming existing reset =
    merge_all reset (or_else existing []) incoming
