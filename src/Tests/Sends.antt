-- ===== src/Tests/Sends.antt =====
-- What leads to a send, on the sample world and its licences.
use tg_auto_msg.Prelude.{Bool, true, [], String}
use tg_auto_msg.Schema.{scheduler}
use tg_auto_msg.Circuit.{no_client}
use tg_auto_msg.Scheduler.Runner.Session.{Session, Validated, ValidationResult, valid}
use tg_auto_msg.Scheduler.Runner.Validate.{Call, validate_and_resolve}
use tg_auto_msg.Json
use tg_auto_msg.Tests.{sample_world}
use tg_auto_msg.Tests.Licences.{one_slot, uuid}

abbrev sample_session : Session
sample_session = record { world = sample_world; licences = one_slot }

abbrev sample_call : Call
sample_call = record {
  now = 1000;
  wall = 1000;
  max_failures = 3;
  advance = true;
  source = scheduler;
}

abbrev everyone : String → Bool
everyone id = true

abbrev or_default : Validated × Session → ValidationResult × Session
or_default (valid v, s) = (v, s)
or_default (other, s) = (record { account_display = ""; target_specs = []; account_id_str = "" }, s)

abbrev passed : ValidationResult × Session
passed = or_default (validate_and_resolve everyone sample_call no_client uuid sample_session)
