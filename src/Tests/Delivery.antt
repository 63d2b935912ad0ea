-- ===== src/Tests/Delivery.antt =====
-- The targets of a task and their delivery state, on two targets.
use tg_auto_msg.Prelude.{
  ◌≡◌, refl, Bool, true, false, ◌&&◌, not, Option, none, some, List, [], ◌∷◌, map, any, All,
  if◌then◌else◌, length, ltb, String, ℕ,
}
use tg_auto_msg.Prelude.Int.{pos, eqb_ℤ, ℤ}
use tg_auto_msg.Prelude.Text.{str_eq, strip, lower}
use tg_auto_msg.Prelude.Dict.{Dict}
use tg_auto_msg.Json.{Value, null, num, text, get, str_or_empty, py_int}
use tg_auto_msg.Schema.{Item, entry, scheduler}
use tg_auto_msg.Scheduler.Lifecycle.{Store}
use tg_auto_msg.Scheduler.Targets.{
  same_key, collect_task_targets, count_configured_task_targets, legacy_targets, is_peer_type,
  dedupe, candidates, scan_items, scan_item, scan_entry,
}
use tg_auto_msg.Scheduler.Targets.Collected.{
  is_active_for, is_configured, collect_task_targets_iff_active,
}
use tg_auto_msg.Scheduler.SentIds.{
  get_target_last_message_id, update_task_target_last_message_ids, last_value, sent_id,
}
use tg_auto_msg.Scheduler.SentIds.Stored.{names, stored_id_read_back}
use tg_auto_msg.Scheduler.Metadata.{
  is_given, update_task_target_failure_metadata, merge_target_runtime_metadata, merge_all,
  merge_one, merge_item, existing_for, carry, write_all,
}
use tg_auto_msg.Scheduler.Metadata.Delivery.{is_named, failure_metadata_collected}
use tg_auto_msg.Scheduler.Runner.{handle_no_targets}
use tg_auto_msg.Scheduler.Runner.NoTargets.{IsReported, no_targets-IsReported}
use tg_auto_msg.Tests.{two_items, sample_task, sample_failure, sample_store, task_with}

two_items_configured : any is_configured two_items ≡ true
unfolding is_peer_type py_int get tg_auto_msg.Prelude.Dict.lookup lower str_or_empty
two_items_configured = refl

failure_metadata_collected_example :
    any (same_key "channel" (pos 7)) (
      collect_task_targets
        (update_task_target_failure_metadata sample_task (pos 7) "channel" sample_failure))
    ≡ (if eqb_ℤ (pos 7) (pos 7) && str_eq (lower (strip "channel")) "channel"
        then any (is_named "channel" (pos 7)) two_items
          && not (is_given sample_failure.suspension_reason)
        else any (same_key "channel" (pos 7)) (collect_task_targets sample_task))
failure_metadata_collected_example =
    failure_metadata_collected sample_task two_items (pos 7) "channel" sample_failure refl
      two_items_configured "channel" (pos 7)

collect_task_targets_iff_active_example :
    any (same_key "user" (pos 9)) (collect_task_targets sample_task)
    ≡ any (is_active_for "user" (pos 9)) two_items
collect_task_targets_iff_active_example =
    collect_task_targets_iff_active "user" (pos 9) sample_task two_items refl two_items_configured

-- The one target is suspended.
abbrev suspended_item : Item
suspended_item = entry (
    ("peer_id", num (pos 9))
    ∷ ("peer_type", text "user")
    ∷ ("delivery_status", text "suspended")
    ∷ [])

no_targets : collect_task_targets (task_with (some (suspended_item ∷ []))) ≡ []
unfolding collect_task_targets dedupe candidates scan_items scan_item scan_entry py_int get
    tg_auto_msg.Prelude.Dict.lookup is_peer_type lower str_or_empty
no_targets = refl

abbrev suspended_store : Store
suspended_store = record sample_store { task = task_with (some (suspended_item ∷ [])) }

no_targets-IsReported_example :
    IsReported
      (any is_configured (suspended_item ∷ []))
      false
      7000
      suspended_store
      (handle_no_targets 7000 7000000000 3 false scheduler suspended_store)
    × ((kind : String) (id : ℤ) → any (is_active_for kind id) (suspended_item ∷ []) ≡ false)
no_targets-IsReported_example =
    no_targets-IsReported 7000 7000000000 3 false scheduler suspended_store (suspended_item ∷ [])
      refl no_targets

sent_here : sent_id "channel" (pos 7) ((("channel", pos 7), pos 321) ∷ []) ≡ some (pos 321)
unfolding sent_id
sent_here = refl

channel_known : is_peer_type "channel" ≡ true
unfolding is_peer_type
channel_known = refl

stored_id_read_back_example :
    get_target_last_message_id
      (update_task_target_last_message_ids sample_task ((("channel", pos 7), pos 321) ∷ []))
      (pos 7)
      (some "channel")
    ≡ (if any (names "channel" (pos 7)) two_items
        then some (pos 321)
        else last_value sample_task.last_sent_message_id ((("channel", pos 7), pos 321) ∷ []))
stored_id_read_back_example =
    stored_id_read_back sample_task two_items ((("channel", pos 7), pos 321) ∷ []) "channel" (pos 7)
      (pos 321) refl channel_known sent_here refl

abbrev incoming : List (Dict Value)
incoming = (("peer_id", num (pos 9)) ∷ ("peer_type", text "user") ∷ []) ∷ []

-- The merged target: the markers say active again.
abbrev merged : List (Dict Value)
merged =
    (("peer_id", num (pos 9))
      ∷ ("peer_type", text "user")
      ∷ ("delivery_status", text "active")
      ∷ ("suspended_reason", null)
      ∷ ("suspended_at", null)
      ∷ [])
    ∷ []

merged_here : merge_target_runtime_metadata incoming (some two_items) true ≡ some merged
unfolding merge_target_runtime_metadata merge_all merge_one merge_item existing_for carry write_all
    py_int get tg_auto_msg.Prelude.Dict.lookup tg_auto_msg.Prelude.Dict.insert
    tg_auto_msg.Scheduler.Targets.names_target lower str_or_empty
merged_here = refl
