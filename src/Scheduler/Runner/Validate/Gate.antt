-- ===== src/Scheduler/Runner/Validate/Gate.antt =====
-- What stands between a task and its sends.
use tg_auto_msg.Prelude.{ℕ, Bool, true, ◌&&◌, ◌||◌, not, Option, none, some, String}
use tg_auto_msg.Prelude.Text.{is_blank, lower, strip, str_eq}
use tg_auto_msg.Schema.{Account}
use tg_auto_msg.Account.Rows.{get_account}
use tg_auto_msg.Account.Reauth.{is_reauth_required_account}
use tg_auto_msg.Account.Observation.{is_proxy_observation_active, proxy_observation_has_send_budget}
use tg_auto_msg.Circuit.{Probe}
use tg_auto_msg.Licensing.Rows.{LicenseDb}
use tg_auto_msg.Licensing.Permission.{
  AccountAuthorizationSummary, get_account_authorization_summary,
}
use tg_auto_msg.Scheduler.Lifecycle.{account_of}
use tg_auto_msg.Scheduler.Runner.Session.{Session, task_in, licence_rows, after_licences}
use tg_auto_msg.Scheduler.Runner.Validate.{Call, try_recover}

-- What holds of an account that a run goes on with: its health is "online", in any case and between
-- any spaces, or blank, and in an observation it has a send left.
abbrev pub is_fit : Call → Account → Bool
is_fit c a =
    (is_blank (lower (strip a.health_status)) || str_eq (lower (strip a.health_status)) "online")
    && not
        (is_proxy_observation_active a c.wall && not (proxy_observation_has_send_budget a c.wall))

abbrev pub fits : Call → Option Account → Bool
fits c none = true
fits c (some a) = is_fit c a

module _ (client : String → Bool) (c : Call) (probe : Probe) where
  -- The account as the run finds it: it need not be bound again, and after the recovery it is fit.
  abbrev pub goes_on : Option Account → Session → Bool
  goes_on none s = true
  goes_on (some a) s =
      not (is_reauth_required_account a) && fits c (try_recover client c probe a s).0

  module _ (uuid : ℕ → String) where
    -- The licence of the task's account, and the rows as its check leaves them.
    abbrev pub licence : Session → AccountAuthorizationSummary × LicenseDb
    licence s =
        get_account_authorization_summary uuid (account_of (task_in s)) c.wall (licence_rows s)

    abbrev pub account_found : Session → Option Account
    account_found s =
        get_account (account_of (task_in s)) (after_licences (licence s).1 s).world.store.accounts
