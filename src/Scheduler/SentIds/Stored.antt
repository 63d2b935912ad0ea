-- ===== src/Scheduler/SentIds/Stored.antt =====
-- A message id that is stored with a target is the one that is read back for it.
use tg_auto_msg.Prelude.{
  ◌≡◌, refl, ◌∙◌, inl, inr, Bool, true, false, Option, some, List, [], ◌∷◌, map, String, arith, any,
  Bool-cases, Option-cases, if◌then◌else◌,
}
use tg_auto_msg.Prelude.Int.{ℤ, nonzero, eqb_ℤ_iff}
use tg_auto_msg.Prelude.Text.{eq_iff}
use tg_auto_msg.Prelude.Dict.{Dict, insert}
use tg_auto_msg.Json.{Value, num, get-insert, py_int}
use tg_auto_msg.Schema.{Task, Item, entry, other}
use tg_auto_msg.Scheduler.Targets.{
  names_target, same_peer, is_peer_type, peer_id_of, peer_type_of, is_set,
}
use tg_auto_msg.Scheduler.Targets.Identity.{names_target-insert, normalized_type}
use tg_auto_msg.Scheduler.SentIds.{
  MessageIds, sent_id, last_value, store_message_id, find_message_id, wanted_type,
  update_task_target_last_message_ids, get_target_last_message_id,
}

-- Some element of the list names the target.
abbrev pub names : String → ℤ → Item → Bool
names kind id (other v) = false
names kind id (entry d) = names_target kind id d

names-store :
    (kind : String) (id : ℤ) (ids : MessageIds) (item : Item)
    → names kind id (store_message_id ids item) ≡ names kind id item
unfolding store_message_id
names-store kind id ids (other v) = refl
names-store kind id ids (entry d) = elim (Option-cases (peer_id_of d)) [
  | inl none_read ↦ rw none_read
  | inr (z, read) ↦ elim (Bool-cases (is_set (sent_id (peer_type_of d) z ids))) [
    | inl sent ↦ rw (read, sent) (names_target-insert _ _ d kind id refl refl)
    | inr unsent ↦ rw (read, unsent)
  ]
]

store-named :
    (kind : String) (id m : ℤ) (ids : MessageIds) (d : Dict Value)
    → names_target kind id d ≡ true
    → sent_id kind id ids ≡ some m
    → nonzero m ≡ true
    → store_message_id ids (entry d) ≡ entry (insert "last_sent_message_id" (num m) d)
unfolding store_message_id names_target
store-named kind id m ids d named sent real = elim (Option-cases (peer_id_of d)) [
  | inl none_read ↦ ground arith
  | inr (z, read) ↦
      let same : same_peer kind id (some z) (peer_type_of d) ≡ true = rw read at named in
      let same_id : z ≡ id = ground (arith, eqb_ℤ_iff z id) in
      let same_type : peer_type_of d ≡ kind = ground (arith, eq_iff (peer_type_of d) kind) in
      rw (read, same_id, same_type, sent, real)
]

find-insert :
    (kind : String) (id m : ℤ) (default : Option ℤ) (d : Dict Value) (items : List Item)
    → names_target kind id d ≡ true
    → find_message_id kind id default (entry (insert "last_sent_message_id" (num m) d) ∷ items)
      ≡ some m
unfolding find_message_id py_int
find-insert kind id m default d items named =
    let key : String = "last_sent_message_id" in
    rw (names_target-insert key (num m) d kind id refl refl, named, get-insert key key (num m) d)

find-skip :
    (kind : String) (id : ℤ) (default : Option ℤ) (item : Item) (items : List Item)
    → names kind id item ≡ false
    → find_message_id kind id default (item ∷ items) ≡ find_message_id kind id default items
unfolding find_message_id
find-skip kind id default (other v) items h = refl
find-skip kind id default (entry d) items h = rw h

find-store :
    (kind : String) (id m : ℤ) (default : Option ℤ) (ids : MessageIds) (items : List Item)
    → sent_id kind id ids ≡ some m
    → nonzero m ≡ true
    → any (names kind id) items ≡ true
    → find_message_id kind id default (map (store_message_id ids) items) ≡ some m
find-store kind id m default ids [] sent real named = cc
find-store kind id m default ids (other v ∷ items) sent real named =
    find-skip kind id default _ _ (names-store kind id ids (other v))
    ∙ find-store kind id m default ids items sent real named
find-store kind id m default ids (entry d ∷ items) sent real named =
    elim (Bool-cases (names_target kind id d)) [
      | inl here ↦
          rw (store-named kind id m ids d here sent real) (find-insert kind id m default d _ here)
      | inr not_here ↦
          find-skip kind id default _ _ (names-store kind id ids (entry d) ∙ not_here)
          ∙ find-store kind id m default ids items sent real (rw not_here at named)
    ]

find-absent :
    (kind : String) (id : ℤ) (default : Option ℤ) (ids : MessageIds) (items : List Item)
    → any (names kind id) items ≡ false
    → find_message_id kind id default (map (store_message_id ids) items) ≡ default
unfolding find_message_id
find-absent kind id default ids [] absent = refl
find-absent kind id default ids (item ∷ items) absent =
    find-skip kind id default _ _ (names-store kind id ids item ∙ ground arith)
    ∙ find-absent kind id default ids items (ground arith)

asked_type :
    (kind : String) (column : Option String)
    → is_peer_type kind ≡ true
    → wanted_type (some kind) column ≡ kind
asked_type kind column known =
    let (normal, not_blank) = normalized_type kind known in rw not_blank normal

-- After the ids of a run are stored, each target of a known type that the list names and that was
-- sent to, with an id that is not zero, has its own id, the one that `delete_previous` will remove;
-- for a target that the list does not name it is the id of the run's last message.
pub stored_id_read_back :
    (task : Task) (items : List Item) (ids : MessageIds) (kind : String) (id m : ℤ)
    → task.target_peers ≡ some items
    → is_peer_type kind ≡ true
    → sent_id kind id ids ≡ some m
    → nonzero m ≡ true
    → get_target_last_message_id (update_task_target_last_message_ids task ids) id (some kind)
      ≡ (if any (names kind id) items then some m else last_value task.last_sent_message_id ids)
unfolding get_target_last_message_id update_task_target_last_message_ids
stored_id_read_back task items ids kind id m listed known sent real =
    let default = last_value task.last_sent_message_id ids in
    simp (listed, asked_type kind task.target_peer_type known)
      (elim (Bool-cases (any (names kind id) items)) [
        | inl named ↦ rw named (find-store kind id m default ids items sent real named)
        | inr absent ↦ rw absent (find-absent kind id default ids items absent)
      ])
