-- ===== src/Scheduler/Metadata/Writes.antt =====
-- Assignments to a stored target that leave its identity alone.
use tg_auto_msg.Prelude.{◌≡◌, refl, ◌∙◌, false, [], ◌∷◌, ◌++◌, String, All}
use tg_auto_msg.Prelude.Int.{ℤ}
use tg_auto_msg.Prelude.Text.{str_eq}
use tg_auto_msg.Prelude.Dict.{Dict, insert}
use tg_auto_msg.Json.{Value}
use tg_auto_msg.Scheduler.Targets.{names_target, is_suspended, peer_id_of, peer_type_of}
use tg_auto_msg.Scheduler.Targets.Identity.{
  names_target-insert, is_suspended-insert, peer_id_of-insert, peer_type_of-insert,
}
use tg_auto_msg.Scheduler.Metadata.{Writes, write_all}

-- Neither id nor type is written.
abbrev pub KeepsIdentity : Writes → Type 0
KeepsIdentity = All (λ w. (str_eq w.0 "peer_id" ≡ false) × (str_eq w.0 "peer_type" ≡ false))

abbrev pub KeepsStatus : Writes → Type 0
KeepsStatus = All (λ w. str_eq w.0 "delivery_status" ≡ false)

pub write_all-append :
    (ws vs : Writes) (d : Dict Value) → write_all (ws ++ vs) d ≡ write_all vs (write_all ws d)
unfolding write_all
write_all-append [] vs d = refl
write_all-append ((k, v) ∷ ws) vs d = write_all-append ws vs (insert k v d)

pub names_target-write_all :
    (kind : String) (id : ℤ) (ws : Writes) (d : Dict Value)
    → KeepsIdentity ws
    → names_target kind id (write_all ws d) ≡ names_target kind id d
unfolding write_all
names_target-write_all kind id [] d h = refl
names_target-write_all kind id ((k, v) ∷ ws) d h =
    names_target-write_all kind id ws (insert k v d) h.1
    ∙ names_target-insert k v d kind id h.0.0 h.0.1

pub peer_type_of-write_all :
    (ws : Writes) (d : Dict Value)
    → KeepsIdentity ws
    → peer_type_of (write_all ws d) ≡ peer_type_of d
unfolding write_all
peer_type_of-write_all [] d h = refl
peer_type_of-write_all ((k, v) ∷ ws) d h =
    peer_type_of-write_all ws (insert k v d) h.1 ∙ peer_type_of-insert k v d h.0.1

pub peer_id_of-write_all :
    (ws : Writes) (d : Dict Value) → KeepsIdentity ws → peer_id_of (write_all ws d) ≡ peer_id_of d
unfolding write_all
peer_id_of-write_all [] d h = refl
peer_id_of-write_all ((k, v) ∷ ws) d h =
    peer_id_of-write_all ws (insert k v d) h.1 ∙ peer_id_of-insert k v d h.0.0

pub is_suspended-write_all :
    (ws : Writes) (d : Dict Value) → KeepsStatus ws → is_suspended (write_all ws d) ≡ is_suspended d
unfolding write_all
is_suspended-write_all [] d h = refl
is_suspended-write_all ((k, v) ∷ ws) d h =
    is_suspended-write_all ws (insert k v d) h.1 ∙ is_suspended-insert k v d h.0
