-- ===== src/Agents/Batches.antt =====
-- Generating a batch of cards, paid from the balance or on credit
-- (backend/h5_backend/services/admin_panel/batch_service.py).
use Prim.Native.String.{◌++◌ as str_append}
use tg_auto_msg.Prelude.{
  ℕ, suc, ◌+◌, ◌*◌, ◌||◌, not, Option, none, some, List, [], ◌∷◌, ◌++◌, map, String, if◌then◌else◌,
  ltb, length,
}
use tg_auto_msg.Prelude.Int.{ℤ}
use tg_auto_msg.Prelude.Text.{str_eq}
use tg_auto_msg.Http.{Result, ok, refused, refuse}
use tg_auto_msg.Licensing.Rows.{ActivationCard}
use tg_auto_msg.Agents.Rows.{AdminAccount, CardBatch, AgentDb, admin_of}
use tg_auto_msg.Agents.Rbac.{has_permission, lowered}
use tg_auto_msg.Agents.Visibility.{append_audit}
use tg_auto_msg.Agents.Codes.{draw_codes, replace_taken, sorted}
use tg_auto_msg.Agents.Quote.{Quote, normalized_prefix}
use tg_auto_msg.Agents.Funding.{new_batch, cards_for, charge, paid_for, Funding}

-- `generate_card_code(prefix)`: the prefix, and 16 characters of the random source.
abbrev pub generate_card_code : (ℕ → String) → String → ℕ → String
generate_card_code random prefix n = str_append (normalized_prefix prefix) (random n)

abbrev pub entered :
    AdminAccount
    → Quote
    → Funding
    → Option (Result (CardBatch × List ActivationCard × AgentDb))
    → Option (Result (CardBatch × List ActivationCard × AgentDb))
entered operator q f none = none
entered operator q f (some (refused e)) = some (refused e)
entered operator q f (some (ok (b, cards, db))) = some (
    ok (
      b,
      cards,
      append_audit operator "agent.generate_card_batch" "card_batch" b.batch_id
          (charge operator q b.batch_id f db),
    ))

module _ (uuid : ℕ → String) (random : ℕ → String) (province : String) where
  -- `_create_batch_records`: the rows, or 500 where the first loop's turns do not suffice; `none` as
  -- in `replace_taken`.
  abbrev pub with_codes :
      AdminAccount
      → Quote
      → Funding
      → ℕ
      → AgentDb
      → Option (List String × ℕ)
      → Option (Result (CardBatch × List ActivationCard × AgentDb))
  with_codes operator q f now db none = none
  with_codes operator q f now db (some (codes, n)) =
      let b = new_batch (uuid db.ids) operator q f province now in
      let cards = cards_for b q f db.next_card now (sorted codes) in
      some (
        ok (
          b,
          cards,
          record db {
            batches = db.batches ++ (b ∷ []);
            cards = db.cards ++ cards;
            ids = suc db.ids;
            draws = n;
            next_card = db.next_card + length cards;
          },
        ))

  abbrev pub create_batch_records :
      AdminAccount
      → Quote
      → Funding
      → ℕ
      → AgentDb
      → Option (Result (CardBatch × List ActivationCard × AgentDb))
  create_batch_records operator q f now db =
      let (codes, n) =
        draw_codes (generate_card_code random q.prefix) (q.quantity * 20) q.quantity [] db.draws in
      if ltb (length codes) q.quantity
      then some (refuse 500 "生成卡密失败，请重试")
      else with_codes operator q f now db (
          replace_taken (generate_card_code random q.prefix) (suc (length db.cards)) q.quantity
            (map (λ (c : ActivationCard). c.card_code) db.cards) q.quantity codes n)

  abbrev pub generated :
      AdminAccount
      → ℕ
      → Result (Quote × Funding × AgentDb)
      → Option (Result (CardBatch × List ActivationCard × AgentDb))
  generated operator now (refused e) = some (refused e)
  generated operator now (ok (q, f, db)) =
      entered operator q f (create_batch_records operator q f now db)

  -- `generate_card_batch`
  abbrev pub generate_card_batch :
      AdminAccount
      → String
      → ℤ
      → String
      → Option ℤ
      → String
      → ℕ
      → AgentDb
      → Option (Result (CardBatch × List ActivationCard × AgentDb))
  generate_card_batch current_admin plan_code quantity prefix valid_days funding_source now db =
      let funding = lowered funding_source in
      if not (has_permission current_admin "batches.generate")
      then some (refuse 403 "当前角色不能生成卡密")
      else if not (str_eq funding "balance" || str_eq funding "credit")
      then some (refuse 400 "funding_source 仅支持 balance 或 credit")
      else elim (admin_of db.accounts current_admin.id) [
        | none ↦ some (refuse 500 "Internal Server Error")
        | some operator ↦
            generated operator now
              (paid_for current_admin operator plan_code quantity prefix valid_days funding now db)
      ]
