-- ===== src/Scheduler/SentIds.antt =====
-- The message ids that are stored with each target of a task, and with the task:
-- backend/scheduler/core/task_execution.py.
pub mod Stored
use tg_auto_msg.Prelude.{
  ◌≡◌, Bool, true, false, ◌&&◌, Option, none, some, List, [], ◌∷◌, map, String, if◌then◌else◌,
  or_else,
}
use tg_auto_msg.Prelude.Int.{ℤ, pos, eqb_ℤ}
use tg_auto_msg.Prelude.Text.{str_eq, is_blank}
use tg_auto_msg.Prelude.Dict.{Dict, insert}
use tg_auto_msg.Json.{Value, num, is_absent, py_int, get}
use tg_auto_msg.Schema.{Task, Item, entry, other}
use tg_auto_msg.Scheduler.Targets.{peer_id_of, peer_type_of, is_set, normalized, names_target}

-- The first stored message id of the target, `default` where it is absent or no number.
pub find_message_id : String → ℤ → Option ℤ → List Item → Option ℤ
find_message_id kind id default [] = default
find_message_id kind id default (other v ∷ items) = find_message_id kind id default items
find_message_id kind id default (entry d ∷ items) =
    let stored = get "last_sent_message_id" d in
    if names_target kind id d
    then (if is_absent stored
        then default
        else elim (py_int stored) [ none ↦ default | some m ↦ some m ])
    else find_message_id kind id default items

abbrev stored_id : String → ℤ → Option ℤ → Option (List Item) → Option ℤ
stored_id kind id default none = default
stored_id kind id default (some items) = find_message_id kind id default items

-- `str(target_peer_type or task.target_peer_type or "").strip().lower()`
abbrev wanted_type : Option String → Option String → String
wanted_type asked column = normalized (if is_blank (or_else asked "") then column else asked)

pub get_target_last_message_id : Task → ℤ → Option String → Option ℤ
get_target_last_message_id task target_peer_id target_peer_type =
    stored_id (wanted_type target_peer_type task.target_peer_type) target_peer_id
      task.last_sent_message_id task.target_peers

-- A dict with keys (type, id), in insertion order.
abbrev pub MessageIds : Type 0
MessageIds = List ((String × ℤ) × ℤ)

unfoldable pub sent_id : String → ℤ → MessageIds → Option ℤ
sent_id kind id [] = none
sent_id kind id ((key, m) ∷ ids) =
    if str_eq key.0 kind && eqb_ℤ key.1 id then some m else sent_id kind id ids

unfoldable pub put_sent : String → ℤ → ℤ → MessageIds → MessageIds
put_sent kind id m [] = ((kind, id), m) ∷ []
put_sent kind id m ((key, n) ∷ ids) =
    if str_eq key.0 kind && eqb_ℤ key.1 id
    then (key, m) ∷ ids
    else (key, n) ∷ put_sent kind id m ids

-- `next(reversed(list(ids.values())))`, and the old value where the dict is empty.
abbrev pub last_value : Option ℤ → MessageIds → Option ℤ
last_value old [] = old
last_value old ((key, m) ∷ ids) = last_value (some m) ids

abbrev stored : MessageIds → Dict Value → Option ℤ → Dict Value
stored ids d none = d
stored ids d (some id) =
    let sent = sent_id (peer_type_of d) id ids in
    if is_set sent then insert "last_sent_message_id" (num (or_else sent (pos 0))) d else d

pub store_message_id : MessageIds → Item → Item
store_message_id ids (other v) = other v
store_message_id ids (entry d) = entry (stored ids d (peer_id_of d))

-- The list with the ids stored; a column that holds no list stays.
abbrev store_all : MessageIds → Option (List Item) → Option (List Item)
store_all ids none = none
store_all ids (some items) = some (map (store_message_id ids) items)

pub update_task_target_last_message_ids : Task → MessageIds → Task
update_task_target_last_message_ids task ids = record task {
  target_peers = store_all ids task.target_peers;
  last_sent_message_id = last_value task.last_sent_message_id ids;
}
