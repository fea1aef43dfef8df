-- ===== src/Partner.antt =====
-- 00_Base/src/util/helpers.ts: which partner is sent what. Logging is left out.
pub mod Rules
mod Tests
use citrineos_ocpi.Prelude.{
  ℕ, String, Bool, true, false, ◌&&◌, ◌||◌, not, Option, none, some, List, [], ◌∷◌, str_eq, ◌==◌,
  if◌then◌else◌,
}
use citrineos_ocpi.Js.{Nullable, undefined, null, value, or_else, strict_eq, truthy}
use citrineos_ocpi.Config.{OcpiConfig, gireve_text}
use citrineos_ocpi.Model.{ModuleId, Role, HttpMethod, module_eq, role_eq, method_eq}

pub record Endpoint : Type 0 where
  pub identifier : String
  pub url : String

-- partnerProfileOCPI, the parts that are read: the roles, the endpoints, credentials?.token.
pub record PartnerProfile : Type 0 where
  pub roles : Option (List Role)
  pub endpoints : Option (List Endpoint)
  pub token : Option String

-- A row of LIST_TENANT_PARTNERS_BY_CPO.
pub record BroadcastPartner : Type 0 where
  pub id : ℕ
  pub country_code : Nullable String
  pub party_id : Nullable String
  pub profile : Option PartnerProfile
  pub aws_secret_certificate_arn : Nullable String

-- partnerProfileOCPI?.roles, with a missing list as an empty one: both end in `!roles?.length`.
abbrev pub roles_of : Option PartnerProfile → List Role
roles_of none = []
roles_of (some p) = elim p.roles [ none ↦ [] | some roles ↦ roles ]

abbrev pub required_role : ModuleId → Role
required_role m = if module_eq m ModuleId.tokens then Role.cpo else Role.emsp

-- roles.some(r => r.role === requiredRole || r.role === Role.HUB)
abbrev pub some_role : Role → List Role → Bool
some_role required [] = false
some_role required (r ∷ rs) = (role_eq r required || role_eq r Role.hub) || some_role required rs

-- The tests on the roles: there is one, and one of them serves.
unfoldable pub serves : ModuleId → List Role → Bool
serves m [] = false
serves m (r ∷ rs) = some_role (required_role m) (r ∷ rs)

unfoldable pub should_broadcast_to_partner : Option BroadcastPartner → ModuleId → Bool
should_broadcast_to_partner none m = false
should_broadcast_to_partner (some p) m =
    if not (truthy p.country_code) || not (truthy p.party_id)
    then false
    else serves m (roles_of p.profile)

module _ (config : OcpiConfig) where
  unfoldable pub is_gireve_partner : Nullable String → Nullable String → Bool
  is_gireve_partner country_code party_id =
      strict_eq country_code (gireve_text config (λ g. g.country_code))
      && strict_eq party_id (gireve_text config (λ g. g.party_id))

  unfoldable pub handle_http_method_for_partner :
      HttpMethod → ModuleId → BroadcastPartner → HttpMethod
  handle_http_method_for_partner method m p =
      if (module_eq m ModuleId.tokens || module_eq m ModuleId.sessions)
        && (method_eq method HttpMethod.patch && is_gireve_partner p.country_code p.party_id)
      then HttpMethod.put
      else method

unfoldable pub token_owner_partner_filter : ℕ → BroadcastPartner → Bool
token_owner_partner_filter owner p = p.id == owner

pub record TokenOwnerPartner : Type 0 where
  pub id : Nullable ℕ
  pub country_code : Nullable String
  pub party_id : Nullable String

pub record AuthWithPartners : Type 0 where
  pub roaming_partner : Nullable TokenOwnerPartner
  pub tenant_partner : Nullable TokenOwnerPartner

unfoldable pub get_token_owner_from_authorization : AuthWithPartners → Nullable TokenOwnerPartner
get_token_owner_from_authorization auth = or_else auth.roaming_partner auth.tenant_partner

-- `!owner?.countryCode || !owner?.partyId` on the owner that was found.
unfoldable pub ocpi_to_of_owner : Nullable TokenOwnerPartner → Option (String × String)
ocpi_to_of_owner undefined = none
ocpi_to_of_owner null = none
ocpi_to_of_owner (value o) = elim o.country_code [
  | value c ↦ elim o.party_id [
    | value p ↦ if str_eq c "" || str_eq p "" then none else some (c, p)
    | _ ↦ none
  ]
  | _ ↦ none
]

unfoldable pub get_ocpi_to_from_authorization : Nullable AuthWithPartners → Option (String × String)
get_ocpi_to_from_authorization (value auth) =
    ocpi_to_of_owner (get_token_owner_from_authorization auth)
get_ocpi_to_from_authorization _ = none

pub record RoamingPartner : Type 0 where
  pub id : ℕ
  pub country_code : String
  pub party_id : String

-- tenantPartner.roamingPartners?.find(…), which is null where there is no list.
unfoldable pub get_roaming_partner : List RoamingPartner → String → String → Option RoamingPartner
get_roaming_partner [] country_code party_id = none
get_roaming_partner (r ∷ rs) country_code party_id =
    if str_eq r.country_code country_code && str_eq r.party_id party_id
    then some r
    else get_roaming_partner rs country_code party_id
