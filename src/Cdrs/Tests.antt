-- ===== src/Cdrs/Tests.antt =====
-- Broadcasts of concrete CDRs.
use citrineos_ocpi.Prelude.{none, ℕ, ◌≤◌, ◌≡◌, refl, some, List, [], ◌∷◌, arith}
use citrineos_ocpi.Js.{Nullable}
use citrineos_ocpi.Exec.{ok}
use citrineos_ocpi.Model.{module_eq, role_eq, method_eq}
use citrineos_ocpi.Partner.{
  get_ocpi_to_from_authorization, should_broadcast_to_partner, serves, token_owner_partner_filter,
  handle_http_method_for_partner,
}
use citrineos_ocpi.Retry.World.{CdrRow, fresh_uuid, request as database_request}
use citrineos_ocpi.Client.Body.{Json}
use citrineos_ocpi.Client.Net.{Net}
use citrineos_ocpi.Client.Response.{handle_response, with_page}
use citrineos_ocpi.Client.Request.{
  request, request_with, resolve_partner, base_url, get_headers, token_header, load_client, send,
}
use citrineos_ocpi.Client.Broadcast.{
  BroadcastParams, broadcast_to_clients, push_all, push_partner, is_selected, request_params,
  effective_body,
}
use citrineos_ocpi.Client.Tests.Partners.{client, start, answered, schema}
use citrineos_ocpi.Cdrs.{
  MappedCdr, CdrTransaction, SentCdr, is_cdr_of, first, existing_cdr, cdr_params, deliver_cdr,
  broadcast_post_cdr,
}
use citrineos_ocpi.Cdrs.Once.{count, broadcast-AtMostOne, delivered_not_resent}
use citrineos_ocpi.Cdrs.Marked.{delivered_marked}

abbrev next_id : List CdrRow → ℕ
next_id rows = 41

abbrev cdr : MappedCdr
cdr = record {
  country_code = "FR";
  party_id = "CPO";
  id = "cdr-5";
  rest = ("currency", Json.string "EUR") ∷ [];
}

abbrev transaction : CdrTransaction
transaction = record { id = some 5; tenant_partner_id = some 7; authorization = Nullable.undefined }

broadcast-AtMostOne_example :
    count
      (is_cdr_of 5 7)
      (broadcast_post_cdr client next_id schema (ok (cdr ∷ [])) transaction start).1.outbox.cdrs
    ≤ 1
broadcast-AtMostOne_example =
    broadcast-AtMostOne client next_id 5 7 schema (ok (cdr ∷ [])) transaction start (omega arith)

-- The row of the transaction, under an older id.
abbrev delivered_row : CdrRow
delivered_row = record {
  id = 40;
  ocpi_cdr_id = "old-5";
  to_tenant_partner_id = 7;
  transaction_id = some 5;
  successfully_sent_at = some 99;
}

abbrev delivered : Net
delivered = record start { outbox = record start.outbox { cdrs = delivered_row ∷ [] } }

found : existing_cdr (some 5) "cdr-5" 7 delivered.outbox.cdrs ≡ some delivered_row
unfolding existing_cdr
found = refl

delivered_not_resent_example :
    let after =
      (broadcast_post_cdr client next_id schema (ok (cdr ∷ [])) transaction delivered).1 in
    (after.sent ≡ delivered.sent)
    × (after.outbox.cdrs ≡ delivered.outbox.cdrs)
    × (after.outbox.table ≡ delivered.outbox.table)
delivered_not_resent_example =
    delivered_not_resent client next_id schema cdr [] transaction 6 99 delivered_row delivered refl
      found refl

abbrev unsent_row : ℕ → CdrRow
unsent_row partner = record {
  id = 40;
  ocpi_cdr_id = "cdr-5";
  to_tenant_partner_id = partner;
  transaction_id = some 5;
  successfully_sent_at = none;
}

abbrev unsent : SentCdr
unsent = record { id = 40; ocpi_cdr_id = "cdr-5"; successfully_sent_at = none }

abbrev holding : ℕ → Net → Net
holding partner n = record n { outbox = record n.outbox { cdrs = unsent_row partner ∷ [] } }

abbrev params : ℕ → BroadcastParams
params partner = cdr_params client next_id cdr unsent partner Nullable.undefined

other_accepts :
    (broadcast_to_clients client schema (params 8) (holding 8 answered)).0 ≡ ok (some 1000 ∷ [])
unfolding cdr_params get_ocpi_to_from_authorization broadcast_to_clients push_all push_partner
    is_selected should_broadcast_to_partner serves token_owner_partner_filter request_params
    effective_body handle_http_method_for_partner request request_with resolve_partner base_url
    get_headers token_header load_client send fresh_uuid database_request handle_response with_page
    module_eq role_eq method_eq
other_accepts = refl

delivered_marked_example :
    (at : ℕ) × (first
        (is_cdr_of 5 8)
        (deliver_cdr client next_id schema cdr unsent 8 Nullable.undefined
          (holding 8 answered)).1.outbox.cdrs
      ≡ some (record (unsent_row 8) { successfully_sent_at = some at }))
delivered_marked_example =
    delivered_marked client next_id schema cdr unsent 8 Nullable.undefined (holding 8 answered) 5 8
      (unsent_row 8) refl refl other_accepts refl
