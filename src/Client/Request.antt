-- ===== src/Client/Request.antt =====
-- `request` and `getHeaders` of 00_Base/src/trigger/BaseClientApi.ts.
pub mod Keeps
pub mod Token
use text.Mathlib.Text.{find?}
use citrineos_ocpi.Prelude.{
  ℕ, zero, suc, ◌+◌, String, Bool, true, false, ◌||◌, Option, none, some, List, [], ◌∷◌, map,
  str_eq, if◌then◌else◌, ◌⧺◌, ◌++◌,
}
use citrineos_ocpi.Js.{Nullable, undefined, null, value, get_or, truthy, truthy_number}
use citrineos_ocpi.Exec.{Thrown, Result, ok, err, Exec, continue, ◌>>=◌, ◌>>◌, pure, throw}
use citrineos_ocpi.Model.{HttpMethod}
use citrineos_ocpi.Partner.{BroadcastPartner, PartnerProfile}
use citrineos_ocpi.Retry.World.{World, fresh_uuid, request as database_request}
use citrineos_ocpi.Client.Body.{Body, Payload, HttpResponse, set_entry}
use citrineos_ocpi.Client.Response.{filled, handle_response}
use citrineos_ocpi.Client.Net.{ClientEnv, Net, Sending, on_outbox, has_ink}

pub record PaginatedParams : Type 0 where
  pub offset : Option ℕ
  pub limit : Option ℕ
  pub date_from : Option ℕ
  pub date_to : Option ℕ

pub record RequestParams : Type 0 where
  pub from_country_code : String
  pub from_party_id : String
  pub to_country_code : String
  pub to_party_id : String
  pub http_method : HttpMethod
  pub partner_profile : Option PartnerProfile
  pub routing_headers : Bool
  pub url : Option String
  pub body : Option Body
  pub paginated_params : Option PaginatedParams
  pub other_params : Option (List (String × String))
  pub path : Option String
  pub aws_secret_certificate_arn : Nullable String
  pub roaming_partner_country_code : Nullable String
  pub roaming_partner_party_id : Nullable String

-- A numeric parameter is set unless it is missing or 0.
abbrev set_number :
    (ℕ → String) → String → Option ℕ → List (String × String) → List (String × String)
set_number print name none ps = ps
set_number print name (some zero) ps = ps
set_number print name (some (suc n)) ps = set_entry name (print (suc n)) ps

abbrev set_date : (ℕ → String) → String → Option ℕ → List (String × String) → List (String × String)
set_date print name none ps = ps
set_date print name (some t) ps = set_entry name (print t) ps

abbrev both_filled : Nullable String → Nullable String → Option (String × String)
both_filled (value c) (value p) = if str_eq c "" || str_eq p "" then none else some (c, p)
both_filled _ _ = none

-- The headers that route through a hub.
unfoldable pub routing : RequestParams → List (String × String)
routing r =
    let to =
      get_or (both_filled r.roaming_partner_country_code r.roaming_partner_party_id)
        (r.to_country_code, r.to_party_id) in
    if r.routing_headers
    then ("OCPI-from-country-code", r.from_country_code)
      ∷ ("OCPI-from-party-id", r.from_party_id)
      ∷ ("OCPI-to-country-code", to.0)
      ∷ ("OCPI-to-party-id", to.1)
      ∷ []
    else []

-- GET and DELETE leave the query to typed-rest-client, which applies it to no other method.
abbrev pub in_query : HttpMethod → Bool
in_query HttpMethod.get = true
in_query HttpMethod.delete = true
in_query _ = false

module _ (c : ClientEnv) where
  unfoldable pub token_header : PartnerProfile → Option String → Result (List (String × String))
  token_header profile none =
      let message : String = "TenantPartner missing server token: " ⧺ c.profile_json profile in
      err (Thrown.error (c.web.stack message) message)
  token_header profile (some token) = ok (("Authorization", "Token " ⧺ c.base64_encode token) ∷ [])

  abbrev pub from_result : {A : Type 0} → Result A → Exec Net A
  from_result r n = (r, n)

  unfoldable pub get_headers : PartnerProfile → Exec Net (List (String × String))
  get_headers profile = do
    request_id ← on_outbox (fresh_uuid c.env)
    correlation_id ← on_outbox (fresh_uuid c.env)
    token ← from_result (token_header profile (filled profile.token))
    pure (
        ("X-Request-ID", c.uuid_text request_id)
        ∷ ("X-Correlation-ID", c.uuid_text correlation_id)
        ∷ token)

  -- queryParameters.params
  unfoldable pub query_of : RequestParams → List (String × String)
  query_of r =
      let given = get_or r.other_params [] in
      elim r.paginated_params [
        | none ↦ given
        | some p ↦ set_date c.iso "date_to" p.date_to (
            set_date c.iso "date_from" p.date_from (
              set_number c.env.number_text "limit" p.limit
                (set_number c.env.number_text "offset" p.offset given)))
      ]

  abbrev joined : String → String
  joined url = elim (find? url "?") [ none ↦ "?" | some i ↦ "&" ]

  -- The query goes into the url of the methods for which the library drops it.
  unfoldable pub url_with_query : HttpMethod → String → List (String × String) → String
  url_with_query m url [] = url
  url_with_query m url (q ∷ qs) = if in_query m then url else url ⧺ (joined url ⧺ c.search (q ∷ qs))

  abbrev missing : {A : Type 0} → Result A
  missing =
      let message : String = "Tenant partner or partnerProfileOCPI not found" in
      err (Thrown.error (c.web.stack message) message)

  -- `partner.partnerProfileOCPI` throws where the list of partners is empty.
  unfoldable pub first_partner : List BroadcastPartner → Result BroadcastPartner
  first_partner [] =
      let message : String = "Cannot read properties of undefined (reading 'partnerProfileOCPI')" in
      err (Thrown.error (c.web.stack message) message)
  first_partner (p ∷ ps) = ok p

  unfoldable pub profile_of : Option PartnerProfile → Result PartnerProfile
  profile_of none = missing
  profile_of (some profile) = ok profile

  -- An undefined certificate is that of the partner, one that is null stays so.
  abbrev certificate_or : Nullable String → Nullable String → Nullable String
  certificate_or undefined found = found
  certificate_or given found = given

  unfoldable pub of_partner :
      RequestParams → BroadcastPartner → Exec Net (PartnerProfile × Nullable String)
  of_partner r partner = do
    profile ← from_result (profile_of partner.profile)
    pure (profile, certificate_or r.aws_secret_certificate_arn partner.aws_secret_certificate_arn)

  -- The profile and the certificate to use: those that were passed, or those of the database.
  unfoldable pub resolve_partner :
      RequestParams → Option PartnerProfile → Exec Net (PartnerProfile × Nullable String)
  resolve_partner r (some profile) = pure (profile, r.aws_secret_certificate_arn)
  resolve_partner r none = do
    partners ← on_outbox (
        database_request c.env λ w. (
          c.partners_by_identity r.from_country_code r.from_party_id r.to_country_code
              r.to_party_id,
          w,
        ))
    partner ← from_result (first_partner partners)
    of_partner r partner

  -- The secret whose mTLS client is used, if its name is not blank.
  abbrev pub certificate_of : Nullable String → Option String
  certificate_of (value arn) = if has_ink arn then some arn else none
  certificate_of _ = none

  unfoldable pub load_client : Option String → Exec Net (Unit {0})
  load_client none = pure tt
  load_client (some arn) =
      λ n. (elim (c.certificate_fault n.exchanges) [ none ↦ ok tt | some e ↦ err e ], n)

  unfoldable pub send : Sending → Exec Net HttpResponse
  send s n = (c.exchange n.exchanges, record n { sent = s ∷ n.sent; exchanges = n.exchanges + 1 })

  unfoldable pub base_url : Option String → PartnerProfile → Result String
  base_url none profile = c.get_url profile
  base_url (some url) profile = ok url

  module _ {A : Type 0} (parse : Option Payload → Option A) (r : RequestParams) where
    -- `request` once the profile and the certificate are known.
    unfoldable pub request_with : PartnerProfile × Nullable String → Exec Net A
    request_with (profile, arn) = do
      base ← from_result (base_url (filled r.url) profile)
      let url = base ⧺ get_or (filled r.path) ""
      identity ← get_headers profile
      let query = query_of r
      let certificate = certificate_of arn
      load_client certificate
      response ← send (record {
        method = r.http_method;
        url = url_with_query r.http_method url query;
        headers = identity ++ routing r;
        query = if in_query r.http_method then query else [];
        body = if in_query r.http_method then none else r.body;
        certificate = certificate;
      })
      from_result (handle_response c.web parse response)

    unfoldable pub request : Exec Net A
    request = do partner ← resolve_partner r r.partner_profile; request_with partner
