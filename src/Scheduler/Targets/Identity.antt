-- ===== src/Scheduler/Targets/Identity.antt =====
-- Which writes to a stored target leave its identity alone.
use tg_auto_msg.Prelude.{◌≡◌, refl, ap, ◌∙◌, ◌⊎◌, inl, inr, true, false, some, String, arith}
use tg_auto_msg.Prelude.Int.{ℤ}
use tg_auto_msg.Prelude.Text.{str_eq, eq_iff, strip, lower, is_blank}
use tg_auto_msg.Prelude.Dict.{Dict, insert}
use tg_auto_msg.Json.{Value, get, get-insert, py_int, str_or_empty}
use tg_auto_msg.Scheduler.Targets.{
  names_target, is_peer_type, normalized, peer_id_of, peer_type_of, is_suspended,
}

module _ (k : String) (v : Value) (d : Dict Value) where
  pub get-insert_ne : (j : String) → str_eq k j ≡ false → get j (insert k v d) ≡ get j d
  get-insert_ne j ne = get-insert k j v d ∙ rw ne refl

  -- A write under another key leaves id and type.
  pub peer_id_of-insert : str_eq k "peer_id" ≡ false → peer_id_of (insert k v d) ≡ peer_id_of d
  peer_id_of-insert ne = ap py_int (get-insert_ne "peer_id" ne)

  pub peer_type_of-insert :
      str_eq k "peer_type" ≡ false → peer_type_of (insert k v d) ≡ peer_type_of d
  peer_type_of-insert ne = ap (λ t. lower (strip (str_or_empty t))) (get-insert_ne "peer_type" ne)

  pub names_target-insert :
      (kind : String) (id : ℤ)
      → str_eq k "peer_id" ≡ false
      → str_eq k "peer_type" ≡ false
      → names_target kind id (insert k v d) ≡ names_target kind id d
  unfolding names_target
  names_target-insert kind id ne_id ne_type =
      rw (peer_id_of-insert ne_id, peer_type_of-insert ne_type)

  pub is_suspended-insert :
      str_eq k "delivery_status" ≡ false → is_suspended (insert k v d) ≡ is_suspended d
  is_suspended-insert ne =
      ap (λ t. str_eq (lower (strip (str_or_empty t))) "suspended")
        (get-insert_ne "delivery_status" ne)

-- The known types, one by one.
pub known_cases :
    (kind : String)
    → is_peer_type kind ≡ true
    → (kind ≡ "user") ⊎ (kind ≡ "chat") ⊎ (kind ≡ "supergroup") ⊎ (kind ≡ "channel")
unfolding is_peer_type
known_cases kind known =
    ground (
      arith,
      eq_iff kind "user",
      eq_iff kind "chat",
      eq_iff kind "supergroup",
      eq_iff kind "channel",
    )

-- A known type is its own normal form, and is not blank.
pub normalized_type :
    (kind : String)
    → is_peer_type kind ≡ true
    → (normalized (some kind) ≡ kind) × (is_blank kind ≡ false)
unfolding strip lower
normalized_type kind known = elim (known_cases kind known) [
  | inl e ↦ rw e (refl, refl)
  | inr (inl e) ↦ rw e (refl, refl)
  | inr (inr (inl e)) ↦ rw e (refl, refl)
  | inr (inr (inr e)) ↦ rw e (refl, refl)
]
