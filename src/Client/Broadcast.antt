-- ===== src/Client/Broadcast.antt =====
-- `broadcastToClients` of 00_Base/src/trigger/BaseClientApi.ts. Logging is left out.
pub mod Isolation
pub mod Identity
pub mod Keeps
use citrineos_ocpi.Prelude.{
  ℕ, String, Bool, true, false, ◌&&◌, ◌||◌, not, Option, none, some, List, [], ◌∷◌, str_eq,
  if◌then◌else◌, ◌⧺◌,
}
use citrineos_ocpi.Js.{Nullable, undefined, null, value, get_or}
use citrineos_ocpi.Exec.{
  Thrown, Result, ok, err, Exec, continue, ◌>>=◌, ◌>>◌, pure, throw, catch, parse_error,
}
use citrineos_ocpi.Model.{ModuleId, InterfaceRole, HttpMethod, module_eq, method_eq, module_text}
use citrineos_ocpi.Partner.{
  BroadcastPartner, should_broadcast_to_partner, handle_http_method_for_partner, is_gireve_partner,
}
use citrineos_ocpi.Retry.Queue.{Key, ResourceType}
use citrineos_ocpi.Retry.Outbox.{UpsertGireveRetryInput, upsert_on_failure}
use citrineos_ocpi.Retry.World.{request as database_request}
use citrineos_ocpi.Client.Body.{Json, Body, object, plain, Payload, field, set_entry}
use citrineos_ocpi.Client.Path.{last_segment}
use citrineos_ocpi.Client.Response.{filled}
use citrineos_ocpi.Client.Net.{ClientEnv, Net, on_outbox}
use citrineos_ocpi.Client.Request.{PaginatedParams, RequestParams, request}

-- A missing body and one that is null are both none.
pub record BroadcastParams : Type 0 where
  pub cpo_country_code : String
  pub cpo_party_id : String
  pub module_id : ModuleId
  pub interface_role : InterfaceRole
  pub http_method : HttpMethod
  pub routing_headers : Option Bool
  pub url : Option String
  pub body : Option Body
  pub paginated_params : Option PaginatedParams
  pub other_params : Option (List (String × String))
  pub path : Option String
  pub partner_filter : Option (BroadcastPartner → Bool)
  pub ocpi_to_country_code : Nullable String
  pub ocpi_to_party_id : Nullable String

abbrev pub role_text : InterfaceRole → String
role_text InterfaceRole.sender = "SENDER"
role_text InterfaceRole.receiver = "RECEIVER"

-- The partner passes the filter, if there is one, and the rules on its roles.
unfoldable pub is_selected : BroadcastParams → BroadcastPartner → Bool
is_selected b p =
    elim b.partner_filter [ none ↦ true | some f ↦ f p ]
    && should_broadcast_to_partner (some p) b.module_id

abbrev with_identity : BroadcastParams → Body → Body
with_identity b (object fields) = object (
    set_entry "country_code" (Json.string b.cpo_country_code)
      (set_entry "party_id" (Json.string b.cpo_party_id) fields))
with_identity b (plain json) = plain json

-- A PATCH that becomes a PUT gets the identity that a full object has.
unfoldable pub effective_body : BroadcastParams → HttpMethod → Option Body
effective_body b method = elim b.body [
  | none ↦ none
  | some body ↦ some (
      if not (method_eq b.http_method method)
        && method_eq method HttpMethod.put
        && (module_eq b.module_id ModuleId.tokens || module_eq b.module_id ModuleId.sessions)
      then with_identity b body
      else body)
]

abbrev pub is_retryable_module : ModuleId → Bool
is_retryable_module m =
    module_eq m ModuleId.sessions || module_eq m ModuleId.cdrs || module_eq m ModuleId.tariffs

abbrev pub resource_type : ModuleId → ResourceType
resource_type m =
    if module_eq m ModuleId.sessions
    then ResourceType.session
    else if module_eq m ModuleId.cdrs
    then ResourceType.cdr
    else ResourceType.tariff

-- partner.countryCode!: a selected partner has one.
abbrev asserted : Nullable String → String
asserted (value s) = s
asserted _ = ""

module _ (c : ClientEnv) where
  -- String(value), unless it is null
  abbrev printed : Json → Option String
  printed Json.null = none
  printed (Json.string s) = some s
  printed (Json.number n) = some (c.env.number_text n)
  printed (Json.other json s) = some s

  -- The printed `id` of a body that is an object and has one.
  abbrev pub body_id : Option Body → Option String
  body_id none = none
  body_id (some (plain json)) = none
  body_id (some (object fields)) = elim (field "id" fields) [ none ↦ none | some v ↦ printed v ]

  abbrev pub path_id : Option String → Option String
  path_id none = none
  path_id (some path) = last_segment path

  abbrev pub or_path_id : Option String → Option String → Option String
  or_path_id (some id) path = some id
  or_path_id none path = path_id (filled path)

  unfoldable pub computed_resource_id : Option Body → Option String → Option String
  computed_resource_id body path = or_path_id (body_id body) path

  unfoldable pub retry_input :
      BroadcastParams → BroadcastPartner → String → Thrown → UpsertGireveRetryInput
  retry_input b p resource_id e = record {
    key = record {
      module_id = b.module_id;
      partner_tenant_partner_id = p.id;
      resource_type = resource_type b.module_id;
      resource_id = resource_id;
    };
    cpo_country_code = b.cpo_country_code;
    cpo_party_id = b.cpo_party_id;
    interface_role = b.interface_role;
    http_method = handle_http_method_for_partner c.env.config b.http_method b.module_id p;
    ocpi_path = b.path;
    payload = elim b.body [ none ↦ none | some body ↦ some (c.body_json body) ];
    last_error = parse_error e;
  }

  -- What a failed push leaves for the retry worker: nothing without a resource id.
  unfoldable pub queue_resource :
      BroadcastParams → BroadcastPartner → Thrown → Option String → Exec Net (Unit {0})
  queue_resource b p e none = pure tt
  queue_resource b p e (some resource_id) =
      on_outbox (upsert_on_failure c.env (retry_input b p resource_id e))

  unfoldable pub queue_failure : BroadcastParams → BroadcastPartner → Thrown → Exec Net (Unit {0})
  queue_failure b p e =
      if is_retryable_module b.module_id && is_gireve_partner c.env.config p.country_code p.party_id
      then queue_resource b p e (filled (computed_resource_id b.body b.path))
      else pure tt

  unfoldable pub request_params : BroadcastParams → BroadcastPartner → RequestParams
  request_params b p =
      let method = handle_http_method_for_partner c.env.config b.http_method b.module_id p in
      record {
        from_country_code = b.cpo_country_code;
        from_party_id = b.cpo_party_id;
        to_country_code = asserted p.country_code;
        to_party_id = asserted p.party_id;
        http_method = method;
        partner_profile = p.profile;
        routing_headers = get_or b.routing_headers true;
        url = b.url;
        body = effective_body b method;
        paginated_params = b.paginated_params;
        other_params = b.other_params;
        path = b.path;
        aws_secret_certificate_arn = defined p.aws_secret_certificate_arn;
        roaming_partner_country_code = defined b.ocpi_to_country_code;
        roaming_partner_party_id = defined b.ocpi_to_party_id;
      }
    where
      -- x ?? undefined
      defined : Nullable String → Nullable String
      defined (value s) = value s
      defined _ = undefined

  module _ {A : Type 0} (parse : Option Payload → Option A) where
    -- One partner: the answer, or none after a failure, which is queued on a best-effort basis.
    unfoldable pub push_partner : BroadcastParams → BroadcastPartner → Exec Net (Option A)
    push_partner b p =
        catch (do response ← request c parse (request_params b p); pure (some response))
          (λ e. catch (queue_failure b p e) (λ _. pure tt) >> pure none)

    abbrev pub onto : Option A → List A → List A
    onto none rs = rs
    onto (some r) rs = r ∷ rs

    -- The loop over the partners.
    unfoldable pub push_all : BroadcastParams → List BroadcastPartner → Exec Net (List A)
    push_all b [] = pure []
    push_all b (p ∷ ps) =
        let rest = push_all b ps in
        if is_selected b p
        then (do response ← push_partner b p; responses ← rest; pure (onto response responses))
        else rest

    unfoldable pub broadcast_to_clients : BroadcastParams → Exec Net (List A)
    broadcast_to_clients b = do
      partners ← on_outbox (
          database_request c.env λ w. (
            c.partners_by_cpo b.cpo_country_code b.cpo_party_id
                (module_text b.module_id ⧺ ("_" ⧺ role_text b.interface_role)),
            w,
          ))
      push_all b partners
