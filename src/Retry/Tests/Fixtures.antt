-- ===== src/Retry/Tests/Fixtures.antt =====
-- A concrete queue with a due CDR and a session that a crashed worker left locked.
use citrineos_ocpi.Prelude.{ℕ, zero, suc, ◌+◌, Option, none, some, [], ◌∷◌}
use citrineos_ocpi.Config.{OcpiConfig}
use citrineos_ocpi.Js.{Nullable}
use citrineos_ocpi.Exec.{Thrown}
use citrineos_ocpi.Model.{ModuleId, InterfaceRole, HttpMethod}
use citrineos_ocpi.Retry.Queue.{Key, Item, Row, ResourceType, Status}
use citrineos_ocpi.Retry.World.{Env, World, CdrRow, no_fault, replied, failed}
use citrineos_ocpi.Retry.Tests.Claim.{claim_due}

abbrev pub config : OcpiConfig
config = record {
  gireve = some (record {
    country_code = Nullable.value "FR";
    party_id = Nullable.value "107";
    retry_interval_seconds = some 60;
    retry_backoff_multiplier = none;
    retry_max_interval_seconds = none;
    retry_batch_size = none;
    retry_stale_lock_seconds = none;
  });
}

abbrev pub cdr_key : Key
cdr_key = record {
  module_id = ModuleId.cdrs;
  partner_tenant_partner_id = 7;
  resource_type = ResourceType.cdr;
  resource_id = "FR*ABC*F1*L1";
}

abbrev pub session_key : Key
session_key = record {
  module_id = ModuleId.sessions;
  partner_tenant_partner_id = 7;
  resource_type = ResourceType.session;
  resource_id = "S1";
}

abbrev pub item_of : ℕ → Key → Item
item_of id key = record {
  id = id;
  key = key;
  cpo_country_code = "FR";
  cpo_party_id = "ABC";
  interface_role = InterfaceRole.receiver;
  http_method = HttpMethod.post;
  ocpi_path = none;
  payload = "{1}";
  attempt_count = 2;
  next_retry_at = 1000;
}

abbrev pub row_of : ℕ → Key → Status → Option ℕ → Row
row_of id key status locked_at = record {
  item = item_of id key;
  status = status;
  last_error = some "timeout";
  locked_at = locked_at;
  sent_at = none;
  created_at = 0;
  updated_at = 0;
}

abbrev pub queued : Row
queued = row_of 1 cdr_key Status.pending none

abbrev pub crashed : Row
crashed = row_of 2 session_key Status.processing (some 5000)

abbrev pub cdr_row : CdrRow
cdr_row = record {
  id = 40;
  ocpi_cdr_id = "FR*ABC*F1*L1";
  to_tenant_partner_id = 7;
  transaction_id = some 1;
  successfully_sent_at = none;
}

-- The clock stands at 2,000,000 ms; the partner accepts everything but its second message.
abbrev pub env : Env
env = record {
  config = config;
  time = λ n. 2000000;
  fault = λ n. no_fault;
  answer = λ n. elim n [ suc zero ↦ failed (Thrown.text "503") | _ ↦ replied (some 1000) ];
  uuid = λ n. 100 + n;
  stack = λ message. none;
  number_text = λ n. "7";
  partner_by_id =
      λ n. some (record { country_code = "FR"; party_id = "107"; has_profile = some "{}" });
  claim = claim_due;
}

abbrev pub world : World
world = record {
  table = queued ∷ crashed ∷ [];
  cdrs = cdr_row ∷ [];
  pushes = [];
  clock_reads = 0;
  requests = 0;
  sends = 0;
  uuids = 0;
}

abbrev pub later : World
later = record world { sends = 1 }
