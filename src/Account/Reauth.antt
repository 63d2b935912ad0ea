-- ===== src/Account/Reauth.antt =====
-- backend/bot/account/reauth.py: when an account must be bound again.
use tg_auto_msg.Prelude.{Bool, ◌||◌, Option, String, or_else}
use tg_auto_msg.Prelude.Text.{str_eq, strip, lower}
use tg_auto_msg.Schema.{Account}

-- `_REAUTH_REASON_SET`
abbrev pub is_reauth_required_reason : Option String → Bool
is_reauth_required_reason reason =
    let normalized = lower (strip (or_else reason "")) in
    str_eq normalized "session_unauthorized" || str_eq normalized "proxy_unavailable_direct"

abbrev pub is_reauth_required_account : Account → Bool
is_reauth_required_account account =
    account.reauth_required || is_reauth_required_reason account.reauth_reason
