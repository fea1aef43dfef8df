-- ===== src/Client/Tests/Partners.antt =====
-- Two concrete partners, of which Gireve does not answer the first request, and the state before it.
use citrineos_ocpi.Prelude.{ℕ, ◌==◌, String, false, Option, none, some, [], ◌∷◌, if◌then◌else◌}
use citrineos_ocpi.Js.{Nullable}
use citrineos_ocpi.Config.{OcpiConfig}
use citrineos_ocpi.Exec.{Thrown, ok, err}
use citrineos_ocpi.Model.{Role}
use citrineos_ocpi.Partner.{BroadcastPartner, PartnerProfile}
use citrineos_ocpi.Retry.World.{no_fault, replied}
use citrineos_ocpi.Client.Body.{Payload, HttpResponse}
use citrineos_ocpi.Client.Response.{Web}
use citrineos_ocpi.Client.Net.{ClientEnv, Net}

abbrev pub config : OcpiConfig
config = record {
  gireve = some (record {
    country_code = Nullable.value "FR";
    party_id = Nullable.value "107";
    retry_interval_seconds = none;
    retry_backoff_multiplier = none;
    retry_max_interval_seconds = none;
    retry_batch_size = none;
    retry_stale_lock_seconds = none;
  });
}

abbrev pub profile : Option String → PartnerProfile
profile token = record { roles = some (Role.emsp ∷ []); endpoints = none; token = token }

abbrev pub partner : ℕ → String → BroadcastPartner
partner id party_id = record {
  id = id;
  country_code = Nullable.value "FR";
  party_id = Nullable.value party_id;
  profile = some (profile (some "secret"));
  aws_secret_certificate_arn = Nullable.null;
}

abbrev pub gireve : BroadcastPartner
gireve = partner 7 "107"

abbrev pub payload : Payload
payload = record {
  status_code = some 1000;
  has_data_array = false;
  limit = none;
  total = none;
  link = none;
  offset = none;
  rest = "";
}

abbrev pub accepted : HttpResponse
accepted = record { status_code = 200; result = some payload; headers = none }

abbrev pub timeout : Thrown
timeout = Thrown.text "timeout"

abbrev pub web : Web
web = record {
  offset_param = λ s. none;
  offset_match = λ s. none;
  parse_int = λ s. none;
  stack = λ s. none;
}

abbrev pub client : ClientEnv
client = record {
  env = record {
    config = config;
    time = λ n. n;
    fault = λ n. no_fault;
    answer = λ n. replied none;
    uuid = λ n. n;
    stack = λ s. none;
    number_text = λ n. "0";
    partner_by_id = λ n. none;
    claim = λ now limit t. ([], t);
  };
  web = web;
  get_url = λ p. ok "https://partner/sessions";
  exchange = λ n. if n == 0 then err timeout else ok accepted;
  certificate_fault = λ n. none;
  partners_by_identity = λ a b c d. [];
  partners_by_cpo = λ a b c. gireve ∷ partner 8 "EMS" ∷ [];
  profile_json = λ p. "{}";
  body_json = λ b. "{\"id\":\"tx\"}";
  iso = λ t. "";
  base64_encode = λ s. s;
  search = λ ps. "";
  uuid_text = λ n. "uuid";
}

abbrev pub start : Net
start = record {
  outbox = record {
    table = [];
    cdrs = [];
    pushes = [];
    clock_reads = 0;
    requests = 0;
    sends = 0;
    uuids = 0;
  };
  sent = [];
  exchanges = 0;
}

abbrev pub answered : Net
answered = record start { exchanges = 1 }

abbrev pub schema : Option Payload → Option (Option ℕ)
schema none = none
schema (some p) = some p.status_code
