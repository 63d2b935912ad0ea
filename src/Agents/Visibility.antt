-- ===== src/Agents/Visibility.antt =====
-- Which accounts a session may touch (backend/h5_backend/services/admin_panel/shared_helpers.py).
use Prim.Native.String.{◌++◌ as str_append}
use tg_auto_msg.Prelude.{
  ℕ, suc, zero, Bool, false, not, none, some, List, [], ◌∷◌, ◌++◌, map, String, if◌then◌else◌, ◌==◌,
  keep, any, length,
}
use tg_auto_msg.Prelude.Text.{str_eq, show_ℕ}
use tg_auto_msg.Http.{Result, ok, ◌>>=◌, found_or, refuse_if}
use tg_auto_msg.Agents.Rows.{AdminAccount, AgentDb, admin_of}
use tg_auto_msg.Agents.Rbac.{is_staff}

abbrev pub includes : ℕ → List ℕ → Bool
includes k = any (λ x. x == k)

abbrev pub is_child_of : List ℕ → AdminAccount → Bool
is_child_of parents a = elim a.parent_account_id [ none ↦ false | some p ↦ includes p parents ]

-- The new ones of the next generation.
abbrev pub next_generation : List AdminAccount → List ℕ → List ℕ → List ℕ
next_generation accounts pending visited =
    keep (λ k. not (includes k visited))
      (map (λ (a : AdminAccount). a.id) (keep (is_child_of pending) accounts))

-- The loop, a generation a turn. Each turn but the last finds an account, so the turns that it has
-- are enough.
abbrev pub descendants : ℕ → List AdminAccount → List ℕ → List ℕ → List ℕ
descendants zero accounts pending visited = visited
descendants (suc fuel) accounts [] visited = visited
descendants (suc fuel) accounts (p ∷ ps) visited =
    let new = next_generation accounts (p ∷ ps) visited in
    descendants fuel accounts new (visited ++ new)

abbrev pub list_descendant_ids : List AdminAccount → ℕ → List ℕ
list_descendant_ids accounts k = descendants (suc (length accounts)) accounts (k ∷ []) []

abbrev pub visible_account_ids : List AdminAccount → AdminAccount → List ℕ
visible_account_ids accounts a =
    if is_staff a
    then map (λ (b : AdminAccount). b.id)
        (keep (λ (b : AdminAccount). str_eq b.province_code a.province_code) accounts)
    else a.id ∷ list_descendant_ids accounts a.id

abbrev pub if_visible : List AdminAccount → AdminAccount → AdminAccount → Result AdminAccount
if_visible accounts a target =
    if is_staff a
    then refuse_if (not (str_eq target.province_code a.province_code)) 403 "不能访问其他省份后台账号"
        (ok target)
    else refuse_if (not (includes target.id (visible_account_ids accounts a))) 403 "无权访问该后台账号"
        (ok target)

abbrev pub ensure_visible_account : List AdminAccount → AdminAccount → ℕ → Result AdminAccount
ensure_visible_account accounts a target =
    found_or 404 "后台账号不存在" (admin_of accounts target) >>= if_visible accounts a

-- `append_audit`; the details of the entry are left out.
abbrev pub append_audit : AdminAccount → String → String → String → AgentDb → AgentDb
append_audit actor action target_type target_id db = record db {
  audits =
      db.audits
      ++ (record {
        actor = str_append actor.username (str_append "#" (show_ℕ actor.id));
        action = action;
        target_type = some target_type;
        target_id = some target_id;
      }
          ∷ []);
}
