-- ===== src/Scheduler/Targets.antt =====
-- The targets of a task: backend/scheduler/core/task_execution.py, from the JSON list to the list of
-- peers to send to, with what is left out and why.
pub mod Keys
pub mod Identity
pub mod Collected
use tg_auto_msg.Prelude.{
  ℕ, zero, suc, ◌+◌, ◌≡◌, Bool, true, false, ◌&&◌, ◌||◌, not, Option, none, some, List, [], ◌∷◌,
  map, String, if◌then◌else◌, is_some, or_else, is_empty, any,
}
use tg_auto_msg.Prelude.Int.{ℤ, pos, nonzero, eqb_ℤ}
use tg_auto_msg.Prelude.Text.{str_eq, is_blank, strip, lower}
use tg_auto_msg.Prelude.Dict.{Dict}
use tg_auto_msg.Json.{Value, null, num, text, is_absent, py_int, str_or_empty, get}
use tg_auto_msg.Schema.{Task, Item, entry, other}

-- `str(s or "").strip().lower()` of a text column.
abbrev pub normalized : Option String → String
normalized s = lower (strip (or_else s ""))

-- `item.get("peer_id")` through `int`, and the normalized `item.get("peer_type")`.
abbrev pub peer_id_of : Dict Value → Option ℤ
peer_id_of d = py_int (get "peer_id" d)

abbrev pub peer_type_of : Dict Value → String
peer_type_of d = lower (strip (str_or_empty (get "peer_type" d)))

-- `peer_type in {"user", "chat", "supergroup", "channel"}`
unfoldable pub is_peer_type : String → Bool
is_peer_type s = str_eq s "user" || str_eq s "chat" || str_eq s "supergroup" || str_eq s "channel"

-- `a or b` of two id columns: zero is no id.
abbrev pub first_id : Option ℤ → Option ℤ → Option ℤ
first_id (some z) b = if nonzero z then some z else b
first_id none b = b

abbrev pub is_set : Option ℤ → Bool
is_set (some z) = nonzero z
is_set none = false

-- Does this element name the target? (`_match_target` of task_issue_state.py, on a normalized type.)
abbrev pub same_peer : String → ℤ → Option ℤ → String → Bool
same_peer kind id none item_type = false
same_peer kind id (some item_id) item_type = eqb_ℤ item_id id && str_eq item_type kind

unfoldable pub names_target : String → ℤ → Dict Value → Bool
names_target kind id d = same_peer kind id (peer_id_of d) (peer_type_of d)

count_item : Item → ℕ
count_item (other v) = 0
count_item (entry d) = elim (peer_id_of d) [
  | none ↦ 0
  | some id ↦ if is_peer_type (peer_type_of d) then 1 else 0
]

pub count_items : List Item → ℕ
count_items [] = 0
count_items (item ∷ items) = count_item item + count_items items

abbrev count_peers : Bool → Option (List Item) → ℕ
count_peers legacy (some items) = count_items items
count_peers legacy none = if legacy then 1 else 0

pub count_configured_task_targets : Task → ℕ
count_configured_task_targets task =
    count_peers (is_set (first_id task.target_peer_id task.chat_id)) task.target_peers

-- The dicts that `collect_task_targets` returns. The access hash may be None, "" or a number.
pub record Target : Type 0 where
  pub peer_id : ℤ
  pub peer_type : String
  pub access_hash : Value
  pub title : Option String

-- What one element of the list says: no target, a suspended one, or one to send to.
pub data Scan : Type 0 where
  invalid suspended : Scan
  ready : Target → Scan

-- The stored access hash: None and "" stay, all else goes through `int`.
abbrev read_hash : Value → Value
read_hash v = if is_absent v then v else elim (py_int v) [ none ↦ null | some z ↦ num z ]

-- `x.strip() or None`
abbrev pub some_text : String → Option String
some_text s = if is_blank s then none else some s

abbrev pub is_suspended : Dict Value → Bool
is_suspended d = str_eq (lower (strip (str_or_empty (get "delivery_status" d)))) "suspended"

abbrev target_of : Dict Value → ℤ → Target
target_of d id = record {
  peer_id = id;
  peer_type = peer_type_of d;
  access_hash = read_hash (get "access_hash" d);
  title = some_text (strip (str_or_empty (get "title" d)));
}

-- The body of the loop in `collect_task_targets`.
unfoldable pub scan_entry : Dict Value → ℤ → Scan
scan_entry d id =
    if is_peer_type (peer_type_of d)
    then (if is_suspended d then suspended else ready (target_of d id))
    else invalid

unfoldable pub scan_item : Item → Scan
unfolding scan_entry
scan_item (other v) = invalid
scan_item (entry d) = elim (peer_id_of d) [ none ↦ invalid | some id ↦ scan_entry d id ]

-- The loop: the targets to send to, and `has_explicit_target_peers`.
unfoldable pub scan_items : List Item → List Target × Bool
scan_items [] = ([], false)
scan_items (item ∷ items) =
    let (targets, explicit) = scan_items items in
    elim (scan_item item) [
      | invalid ↦ (targets, explicit)
      | suspended ↦ (targets, true)
      | ready t ↦ (t ∷ targets, true)
    ]

-- The columns of a task from before `target_peers`.
pub legacy_targets : Task → List Target
legacy_targets task = elim (first_id task.target_peer_id task.chat_id) [
  | none ↦ []
  | some id ↦
      let kind = lower (strip (or_else task.target_peer_type "user")) in
      if nonzero id
      then record {
        peer_id = id;
        peer_type = if is_peer_type kind then kind else "user";
        access_hash = elim task.target_access_hash [ none ↦ null | some z ↦ num z ];
        title = none;
      }
        ∷ []
      else []
]

abbrev pub same_key : String → ℤ → Target → Bool
same_key kind id t = str_eq t.peer_type kind && eqb_ℤ t.peer_id id

-- The last loop: the first target of each (type, id), given those already seen.
unfoldable pub dedupe : List Target → List Target → List Target
dedupe seen [] = []
dedupe seen (t ∷ ts) =
    let skipped = dedupe seen ts in
    let kept = t ∷ dedupe (t ∷ seen) ts in
    if any (same_key t.peer_type t.peer_id) seen then skipped else kept

abbrev pub scanned : Option (List Item) → List Target × Bool
scanned none = ([], false)
scanned (some items) = scan_items items

unfoldable pub candidates : Task → List Target × Bool → List Target
candidates task (targets, explicit) =
    if is_empty targets && not explicit then legacy_targets task else targets

unfoldable pub collect_task_targets : Task → List Target
collect_task_targets task = dedupe [] (candidates task (scanned task.target_peers))
