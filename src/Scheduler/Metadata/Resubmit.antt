-- ===== src/Scheduler/Metadata/Resubmit.antt =====
-- A task that is submitted again: its targets become active, and what a run stored stays.
use tg_auto_msg.Prelude.{
  suc, ◌||◌, ◌≡◌, refl, ap, ◌∙◌, inl, inr, Bool, true, false, Option, none, some, List, [], ◌∷◌,
  map, String, arith, any, length, Option-cases, or_else,
}
use mathlib.Core.Path.{ap₂}
use tg_auto_msg.Prelude.Int.{ℤ}
use tg_auto_msg.Prelude.Text.{str_eq, strip, lower}
use tg_auto_msg.Prelude.Dict.{Dict}
use tg_auto_msg.Json.{Value, null, get, str_or_empty, py_int}
use tg_auto_msg.Schema.{Item, entry}
use tg_auto_msg.Scheduler.Targets.{names_target, is_suspended, peer_type_of}
use tg_auto_msg.Scheduler.Targets.Identity.{names_target-insert, peer_type_of-insert}
use tg_auto_msg.Scheduler.Targets.Collected.{is_active_for}
use tg_auto_msg.Scheduler.Metadata.{
  active_markers, carry, carry_summary, has, merge_item, merge_found, merge_one, merge_all,
  existing_for, merge_target_runtime_metadata,
}
use tg_auto_msg.Scheduler.Metadata.Writes.{
  KeepsIdentity, names_target-write_all, peer_type_of-write_all,
}
use tg_auto_msg.Scheduler.Metadata.Delivery.{is_named, marked}

-- Same target: it answers to the same (type, id), and has the same type.
record SameTarget (d e : Dict Value) : Type 0 where
  named : (k : String) (i : ℤ) → names_target k i d ≡ names_target k i e
  typed : peer_type_of d ≡ peer_type_of e

same_trans : {d e f : Dict Value} → SameTarget d e → SameTarget e f → SameTarget d f
same_trans p q = record { named = λ k i. p.named k i ∙ q.named k i; typed = p.typed ∙ q.typed }

carry_same :
    (b : Bool) (key : String) (existing merged : Dict Value)
    → str_eq key "peer_id" ≡ false
    → str_eq key "peer_type" ≡ false
    → SameTarget (carry b key existing merged) merged
unfolding carry
carry_same false key existing merged ne_id ne_type = record { named = λ k i. refl; typed = refl }
carry_same true key existing merged ne_id ne_type = record {
  named = λ k i. names_target-insert key _ merged k i ne_id ne_type;
  typed = peer_type_of-insert key _ merged ne_type;
}

summary_same : (existing item : Dict Value) → SameTarget (carry_summary existing item) item
summary_same existing item = same_trans (carry_same _ "last_error_message" existing _ refl refl) (
    same_trans (carry_same _ "last_error_type" existing _ refl refl) (
      same_trans (carry_same _ "last_sent_message_id" existing _ refl refl)
        (carry_same _ "title" existing item refl refl)))

reset_same : (existing item : Dict Value) → SameTarget (merge_item true existing item) item
unfolding merge_item
reset_same existing item =
    let summary = carry_summary existing item in
    let keeps : KeepsIdentity active_markers = ((refl, refl), ((refl, refl), ((refl, refl), tt))) in
    same_trans
      (record {
        named = λ k i. names_target-write_all k i active_markers summary keeps;
        typed = peer_type_of-write_all active_markers summary keeps;
      })
      (summary_same existing item)

reset_not_suspended :
    (existing item : Dict Value) → is_suspended (merge_item true existing item) ≡ false
unfolding merge_item str_or_empty strip lower
reset_not_suspended existing item = marked "active" null null (carry_summary existing item)

reset_active :
    (k : String) (i : ℤ) (existing item : Dict Value)
    → is_active_for k i (entry (merge_item true existing item)) ≡ is_named k i (entry item)
reset_active k i existing item =
    let same = reset_same existing item in
    ground (arith, same.named k i, same.typed, reset_not_suspended existing item)

merge_found_from :
    (existing : List Item) (item merged : Dict Value) (id : Option ℤ) (typed : Bool)
    → merge_found true existing item id typed ≡ some merged
    → (old : Dict Value) × (merged ≡ merge_item true old item)
merge_found_from existing item merged none typed e = cc
merge_found_from existing item merged (some id) false e = cc
merge_found_from existing item merged (some id) true e =
    (existing_for (peer_type_of item) id [] existing, cc)

-- A merged target comes from the incoming one.
merge_one_from :
    (existing : List Item) (item merged : Dict Value)
    → merge_one true existing item ≡ some merged
    → (old : Dict Value) × (merged ≡ merge_item true old item)
unfolding merge_one
merge_one_from existing item merged e =
    merge_found_from existing item merged (py_int (get "peer_id" item)) (has "peer_type" item) e

merged_active :
    (k : String) (i : ℤ) (existing : List Item) (incoming merged : List (Dict Value))
    → merge_all true existing incoming ≡ some merged
    → (length merged ≡ length incoming)
      × (any (is_active_for k i) (map entry merged) ≡ any (is_named k i) (map entry incoming))
unfolding merge_all
merged_active k i existing [] merged e = let done : merged ≡ [] = cc in rw done (refl, refl)
merged_active k i existing (item ∷ incoming) merged e =
    elim (Option-cases (merge_one true existing item)) [
      | inl failed ↦ let bad : none ≡ some merged = rw failed at e in cc
      | inr (m, one) ↦ elim (Option-cases (merge_all true existing incoming)) [
        | inl failed ↦ let bad : none ≡ some merged = rw (one, failed) at e in cc
        | inr (rest, others) ↦
            let found : some (m ∷ rest) ≡ some merged = rw (one, others) at e in
            let shape : merged ≡ m ∷ rest = cc in
            let (old, from) = merge_one_from existing item m one in
            let (count, active) = merged_active k i existing incoming rest others in
            let first = reset_active k i old item in
            rw (shape, from) (ap suc count, ap₂ ◌||◌ first active)
      ]
    ]

-- Resubmitting a task's targets re-enables them: where no incoming target is malformed, there are as
-- many merged targets as incoming ones, and a (type, id) is active among the merged ones exactly if
-- an incoming one names it with a known type, whatever was suspended before.
pub merge_target_runtime_metadata-active :
    (incoming merged : List (Dict Value)) (existing : Option (List Item))
    → merge_target_runtime_metadata incoming existing true ≡ some merged
    → (k : String) (i : ℤ)
    → (length merged ≡ length incoming)
      × (any (is_active_for k i) (map entry merged) ≡ any (is_named k i) (map entry incoming))
unfolding merge_target_runtime_metadata
merge_target_runtime_metadata-active incoming merged existing e k i =
    merged_active k i (or_else existing []) incoming merged e
