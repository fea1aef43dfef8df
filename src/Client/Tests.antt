-- ===== src/Client/Tests.antt =====
-- The clients against two concrete partners, of which Gireve does not answer: each theorem at an
-- input where its hypotheses hold.
pub mod Partners
use citrineos_ocpi.Prelude.{
  ℕ, ◌≤◌, ◌≡◌, refl, ◌↔◌, inl, inr, true, false, String, Option, none, some, List, [], ◌∷◌, arith,
  eq_iff, keep, length, ◌⧺◌, if◌then◌else◌, ◌==◌,
}
use citrineos_ocpi.Js.{Nullable}
use citrineos_ocpi.Config.{OcpiConfig}
use citrineos_ocpi.Exec.{Thrown, ok, err}
use citrineos_ocpi.Model.{ModuleId, InterfaceRole, Role, HttpMethod, module_eq}
use citrineos_ocpi.Partner.{BroadcastPartner, PartnerProfile, is_gireve_partner}
use citrineos_ocpi.Retry.Queue.{Row, ResourceType, find_gireve_retry_queue}
use citrineos_ocpi.Retry.World.{no_fault, replied, fresh_uuid}
use citrineos_ocpi.Retry.Outbox.Latest.{Refreshed}
use citrineos_ocpi.Client.Path.{last_segment}
use citrineos_ocpi.Client.Body.{Json, object, Payload, HttpResponse, field}
use citrineos_ocpi.Client.Response.{Web, filled, handle_response, paged, with_page}
use citrineos_ocpi.Client.Net.{ClientEnv, Net}
use citrineos_ocpi.Client.Request.{
  RequestParams, request, request_with, resolve_partner, base_url, get_headers, token_header,
  load_client, send,
}
use citrineos_ocpi.Client.Request.Token.{unsent_without_token}
use citrineos_ocpi.Client.Broadcast.{
  BroadcastParams, is_selected, is_retryable_module, computed_resource_id, retry_input,
  request_params, push_partner, push_all, broadcast_to_clients,
}
use citrineos_ocpi.Client.Broadcast.Isolation.{
  listed, after_listing, broadcast_returns, Awaits, failed_key, retried_session, failed_push_queued,
  unqueued_push,
}
use citrineos_ocpi.Client.Broadcast.Identity.{put_has_identity}
use citrineos_ocpi.Client.Tests.Partners.{
  profile, partner, gireve, accepted, timeout, web, client, start, answered, schema,
}

abbrev fields : List (String × Json)
fields = ("id", Json.string "tx") ∷ []

abbrev broadcast : BroadcastParams
broadcast = record {
  cpo_country_code = "FR";
  cpo_party_id = "CPO";
  module_id = ModuleId.sessions;
  interface_role = InterfaceRole.receiver;
  http_method = HttpMethod.patch;
  routing_headers = none;
  url = none;
  body = some (object fields);
  paginated_params = none;
  other_params = none;
  path = some "/FR/CPO/tx";
  partner_filter = none;
  ocpi_to_country_code = Nullable.undefined;
  ocpi_to_party_id = Nullable.undefined;
}

broadcast_returns_example :
    ((rs : List (Option ℕ)) × ((broadcast_to_clients client schema broadcast start).0 ≡ ok rs)
      × (length rs ≤ length (keep (is_selected broadcast) (listed client schema broadcast))))
    × (broadcast_to_clients client schema broadcast start
        ≡ push_all client schema broadcast
            (keep (is_selected broadcast) (listed client schema broadcast))
            (after_listing client schema broadcast start))
broadcast_returns_example = broadcast_returns client schema broadcast start refl

gireve_fails :
    (request client schema (request_params client broadcast gireve) start).0 ≡ err timeout
unfolding request request_with resolve_partner base_url get_headers token_header load_client send
    fresh_uuid request_params
gireve_fails = refl

gireve_is_gireve : is_gireve_partner client.env.config gireve.country_code gireve.party_id ≡ true
unfolding is_gireve_partner
gireve_is_gireve = refl

named : filled (computed_resource_id client broadcast.body broadcast.path) ≡ some "tx"
unfolding computed_resource_id field
named = refl

failed_push_queued_example :
    (row : Row) × (find_gireve_retry_queue
        (failed_key ModuleId.sessions gireve ResourceType.session "tx")
        (push_partner client schema broadcast gireve start).1.outbox.table
      ≡ some row)
    × Awaits client schema broadcast
        (failed_key ModuleId.sessions gireve ResourceType.session "tx")
        timeout
        (request client schema (request_params client broadcast gireve) start).1.outbox
        row
failed_push_queued_example =
    failed_push_queued client schema broadcast gireve start timeout "tx" ResourceType.session
      gireve_fails retried_session gireve_is_gireve named refl refl

other_answers :
    (request client schema (request_params client broadcast (partner 8 "EMS")) answered).0
    ≡ ok (some 1000)
unfolding request request_with resolve_partner base_url get_headers token_header load_client send
    fresh_uuid request_params handle_response with_page
other_answers = refl

unqueued_push_example :
    (push_partner client schema broadcast (partner 8 "EMS") answered).1.outbox.table ≡ []
unqueued_push_example =
    unqueued_push client schema broadcast (partner 8 "EMS") answered
      (inr (some 1000, other_answers))

abbrev no_token : RequestParams
no_token = record (request_params client broadcast gireve) { partner_profile = some (profile none) }

unsent_without_token_example :
    ((e : Thrown) × ((request client schema no_token start).0 ≡ err e))
    × ((request client schema no_token start).1.sent ≡ [])
unsent_without_token_example =
    unsent_without_token client schema no_token (profile none) start refl refl

put_has_identity_example :
    let sent = request_params client broadcast gireve in
    (sent.http_method ≡ HttpMethod.put)
    × (full : List (String × Json)) × (sent.body ≡ some (object full))
    × (field "party_id" full ≡ some (Json.string "CPO"))
    × (field "country_code" full ≡ some (Json.string "FR"))
    × (field "id" full ≡ field "id" fields)
put_has_identity_example =
    put_has_identity client broadcast gireve fields "id" (inl refl) refl gireve_is_gireve refl
      (λ e. ground (arith, e, eq_iff "id" "party_id"))
      (λ e. ground (arith, e, eq_iff "id" "country_code"))
