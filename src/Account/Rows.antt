-- ===== src/Account/Rows.antt =====
-- Reading and writing the accounts table by id (`get_account` and `update_account` of
-- backend/bot/account/manager.py, and the UPDATE statements on one account).
use tg_auto_msg.Prelude.{
  ◌≡◌, ap, false, Option, none, some, List, [], ◌∷◌, String, if◌then◌else◌, arith, any,
}
use tg_auto_msg.Prelude.Text.{str_eq, eq_iff}
use tg_auto_msg.Schema.{Account}

abbrev pub Accounts : Type 0
Accounts = List Account

-- The primary key is the first row with the id.
unfoldable pub get_account : String → Accounts → Option Account
get_account id [] = none
get_account id (a ∷ accounts) = if str_eq a.account_id id then some a else get_account id accounts

-- `update_account(id, ...)`: the fields are assigned on the row, if it is there.
unfoldable pub update_account : String → (Account → Account) → Accounts → Accounts
update_account id f [] = []
update_account id f (a ∷ accounts) =
    if str_eq a.account_id id then f a ∷ accounts else a ∷ update_account id f accounts

-- The assignments leave the primary key.
abbrev pub KeepsId : (Account → Account) → Type 0
KeepsId f = (a : Account) → (f a).account_id ≡ a.account_id

abbrev pub mapped : (Account → Account) → Option Account → Option Account
mapped f none = none
mapped f (some a) = some (f a)

-- The updated row is read back, every other row as before.
pub get-update :
    (id j : String) (f : Account → Account) (accounts : Accounts)
    → KeepsId f
    → get_account j (update_account id f accounts)
      ≡ (if str_eq id j then mapped f (get_account j accounts) else get_account j accounts)
unfolding get_account update_account
get-update id j f [] keeps = ground arith
get-update id j f (a ∷ accounts) keeps = ground (
  arith,
  ap (λ x. str_eq x j) (keeps a),
  eq_iff a.account_id id,
  eq_iff a.account_id j,
  eq_iff id j,
  get-update id j f accounts keeps,
)

-- The primary key: no id is listed twice.
abbrev pub IsKeyed : Accounts → Type 0
IsKeyed [] = Unit
IsKeyed (a ∷ accounts) =
    (any (λ b. str_eq b.account_id a.account_id) accounts ≡ false) × IsKeyed accounts
