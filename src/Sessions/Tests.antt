-- ===== src/Sessions/Tests.antt =====
-- The broadcasts of sessions with concrete texts: each theorem at an input where its hypotheses
-- hold.
use citrineos_ocpi.Prelude.{
  none, ℕ, ◌≡◌, refl, true, false, not, String, some, List, [], ◌∷◌, if◌then◌else◌, ◌==◌, str_eq,
}
use citrineos_ocpi.Model.{HttpMethod}
use citrineos_ocpi.Exec.{ok, err}
use citrineos_ocpi.Partner.{token_owner_partner_filter}
use citrineos_ocpi.Retry.World.{Fault}
use citrineos_ocpi.Client.Body.{Body, Json}
use citrineos_ocpi.Client.Net.{ClientEnv}
use citrineos_ocpi.Client.Tests.Partners.{client, start, schema, timeout}
use citrineos_ocpi.Sessions.Broadcaster.{
  Live, MappedSession, SessionPush, wanted, broadcast_session_deduped,
}
use citrineos_ocpi.Sessions.Broadcaster.Outcome.{answered_or_not, unlisted_retried}
use citrineos_ocpi.Sessions.Dedupe.{
  Texts, DateField, SessionBody, empty, get, set, has, add, remove, has_prefix, key, fingerprint,
  should_broadcast, mark_in_flight, mark_sent,
}
use citrineos_ocpi.Sessions.Dedupe.Lifecycle.{sent_once}
use citrineos_ocpi.Sessions.Dedupe.InFlight.{Push, Event, begins, ends, clears, begin, end, run}
use citrineos_ocpi.Sessions.Dedupe.InFlight.Exclusive.{
  IsExclusive, ClearsIdle, started, run-IsExclusive,
}
use citrineos_ocpi.Sessions.Dedupe.InFlight.Cleared.{clear_admits_second}

abbrev print_method : HttpMethod → String
print_method HttpMethod.put = "PUT"
print_method HttpMethod.patch = "PATCH"
print_method _ = "other"

abbrev texts : Texts
texts = record {
  number_text = λ n. if n == 7 then "7" else "8";
  method_text = print_method;
  iso = λ t. "2026-01-01T00:00:00.000Z";
  fixed4 = λ n. if n == 0 then "0.0000" else "1.2500";
}

abbrev body_at : ℕ → SessionBody
body_at kwh = record {
  status = some "ACTIVE";
  last_updated = DateField.date 10;
  kwh = some kwh;
  end_date_time = DateField.missing;
  charging_periods = some (DateField.date 5 ∷ []);
}

sent_once_example :
    (should_broadcast texts
        (mark_in_flight texts empty "tx" 7 HttpMethod.put)
        "tx"
        7
        HttpMethod.put
        (body_at 12500)
      ≡ false)
    × (should_broadcast texts
          (mark_sent texts empty "tx" 7 HttpMethod.put (body_at 0))
          "tx"
          7
          HttpMethod.put
          (body_at 12500)
        ≡ not (str_eq (fingerprint texts (body_at 0)) (fingerprint texts (body_at 12500))))
sent_once_example = sent_once texts empty "tx" 7 HttpMethod.put (body_at 0) (body_at 12500)

first_is_wanted : should_broadcast texts empty "tx" 7 HttpMethod.put (body_at 0) ≡ true
unfolding should_broadcast has get
first_is_wanted = refl

abbrev first_push : Push
first_push = record {
  transaction_id = "tx";
  partner_id = 7;
  method = HttpMethod.put;
  body = body_at 0;
}

-- The same push twice, one of another transaction, the end of the first, the clear of its transaction,
-- then again with another body.
abbrev events : List Event
events =
    begins first_push
    ∷ begins first_push
    ∷ begins (record first_push { transaction_id = "ty" })
    ∷ ends 1 true
    ∷ clears "tx"
    ∷ begins (record first_push { body = body_at 12500 })
    ∷ []

cleared_when_idle : ClearsIdle texts events (started texts)
unfolding begin end should_broadcast mark_in_flight mark_sent has add remove get set key has_prefix
cleared_when_idle = ((refl, tt), tt)

run-IsExclusive_example : IsExclusive texts (run texts events (started texts))
run-IsExclusive_example = run-IsExclusive texts events cleared_when_idle

clear_admits_second_example :
    (run texts
      (begins first_push ∷ clears "tx" ∷ begins (record first_push { body = body_at 12500 }) ∷ [])
      (started texts)).running
    ≡ record first_push { body = body_at 12500 } ∷ first_push ∷ []
clear_admits_second_example =
    clear_admits_second texts first_push (body_at 12500) (started texts) first_is_wanted

abbrev session : MappedSession
session = record {
  id = "tx";
  session = body_at 0;
  json = Body.object (("id", Json.string "tx") ∷ []);
}

abbrev push : SessionPush
push = record {
  transaction_id = "tx";
  partner_id = 7;
  tenant = record { country_code = "FR"; party_id = "CPO" };
  body = session;
  method = HttpMethod.put;
  path = "/FR/CPO/tx";
  partner_filter = token_owner_partner_filter 7;
  ocpi_to = none;
}

abbrev live : Live
live = record { net = start; dedupe = empty }

answered_or_not_example :
    ((broadcast_session_deduped texts client schema push live).0 ≡ ok tt)
    × (wanted texts client schema push
          (broadcast_session_deduped texts client schema push live).1.dedupe
        ≡ false)
answered_or_not_example = answered_or_not texts client schema push live refl

-- The database is down.
abbrev no_database : ClientEnv
no_database = record client { env = record client.env { fault = λ n. Fault.before timeout } }

unlisted_retried_example :
    ((broadcast_session_deduped texts no_database schema push live).0 ≡ err timeout)
    × (wanted texts no_database schema push
          (broadcast_session_deduped texts no_database schema push live).1.dedupe
        ≡ true)
unlisted_retried_example =
    unlisted_retried texts no_database schema push live timeout first_is_wanted refl
