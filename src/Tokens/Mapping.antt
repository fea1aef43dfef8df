-- ===== src/Tokens/Mapping.antt =====
-- 00_Base/src/mapper/TokensMapper.ts: tokens into rows of Authorizations and back.
use citrineos_ocpi.Prelude.{
  String, Bool, true, false, Option, none, some, List, [], ◌∷◌, str_eq, if◌then◌else◌,
}
use citrineos_ocpi.Js.{get_or}
use citrineos_ocpi.Exec.{Thrown, Result, ok, err, and_then}
use citrineos_ocpi.Tokens.Data.{
  TokenType, WhitelistType, IdTokenType, AuthorizationStatus, AdditionalInfo, Token, PartialToken,
  PartialAuthorization, Authorization, Joined,
}

abbrev pub map_ocpi_token_type_to_ocpp_id_token_type : TokenType → IdTokenType
map_ocpi_token_type_to_ocpp_id_token_type TokenType.rfid = IdTokenType.iso14443
map_ocpi_token_type_to_ocpp_id_token_type TokenType.ad_hoc_user = IdTokenType.local
map_ocpi_token_type_to_ocpp_id_token_type TokenType.app_user = IdTokenType.central
map_ocpi_token_type_to_ocpp_id_token_type TokenType.other = IdTokenType.other

abbrev unknown_token_type : Result TokenType
unknown_token_type = err (Thrown.error none "Unknown token type")

abbrev pub map_ocpp_id_token_type_to_ocpi_token_type : IdTokenType → Result TokenType
map_ocpp_id_token_type_to_ocpi_token_type IdTokenType.iso14443 = ok TokenType.rfid
map_ocpp_id_token_type_to_ocpi_token_type IdTokenType.local = ok TokenType.ad_hoc_user
map_ocpp_id_token_type_to_ocpi_token_type IdTokenType.central = ok TokenType.app_user
map_ocpp_id_token_type_to_ocpi_token_type IdTokenType.other = ok TokenType.other
map_ocpp_id_token_type_to_ocpi_token_type _ = unknown_token_type

-- A missing value is ALWAYS. The two enumerations have the same members.
abbrev pub map_real_time_enum_type : Option WhitelistType → WhitelistType
map_real_time_enum_type none = WhitelistType.always
map_real_time_enum_type (some w) = w

-- An entry of additionalInfo, where the token's field is there and not empty.
abbrev pub info_if : Option String → String → List AdditionalInfo → List AdditionalInfo
info_if none info_type rest = rest
info_if (some s) info_type rest =
    if str_eq s "" then rest else record { additional_id_token = s; info_type = info_type } ∷ rest

abbrev pub unless_empty : List AdditionalInfo → Option (List AdditionalInfo)
unless_empty [] = none
unless_empty (i ∷ is) = some (i ∷ is)

-- valid ? Accepted : Invalid; a missing one is falsy.
abbrev pub status_of : Option Bool → AuthorizationStatus
status_of (some true) = AuthorizationStatus.accepted
status_of (some false) = AuthorizationStatus.invalid
status_of none = AuthorizationStatus.invalid

abbrev type_of : Option TokenType → Option IdTokenType
type_of none = none
type_of (some t) = some (map_ocpi_token_type_to_ocpp_id_token_type t)

unfoldable pub map_ocpi_token_to_partial_ocpp_authorization : PartialToken → PartialAuthorization
map_ocpi_token_to_partial_ocpp_authorization t = record {
  id_token = t.uid;
  id_token_type = type_of t.token_type;
  additional_info = unless_empty (
      info_if t.contract_id "eMAID"
        (info_if t.visual_number "visual_number" (info_if t.issuer "issuer" [])));
  status = status_of t.valid;
  language1 = t.language;
  real_time_auth = t.whitelist;
}

-- additionalInfo!.find((info) => info.type === type)?.additionalIdToken
unfoldable pub info_named : String → List AdditionalInfo → Option String
info_named info_type [] = none
info_named info_type (i ∷ is) =
    if str_eq i.info_type info_type then some i.additional_id_token else info_named info_type is

-- !text
abbrev pub filled : Option String → Option String
filled none = none
filled (some s) = if str_eq s "" then none else some s

abbrev pub required : String → Option String → Result String
required message none = err (Thrown.error none message)
required message (some s) = ok s

-- additionalInfo! where there is none
abbrev pub infos : Option (List AdditionalInfo) → Result (List AdditionalInfo)
infos none = err (Thrown.error none "Cannot read properties of undefined (reading 'find')")
infos (some is) = ok is

unfoldable pub get_contract_id : Authorization → Result String
get_contract_id a = and_then (infos a.additional_info) (λ is.
    required
      "Contract ID not found in authorization additional info, authorization is incomplete for OCPI token mapping. Please add additional info with type eMAID."
      (filled (info_named "eMAID" is)))

unfoldable pub get_visual_number : Authorization → Result (Option String)
get_visual_number a =
    and_then (infos a.additional_info) (λ is. ok (filled (info_named "visual_number" is)))

unfoldable pub get_issuer : Authorization → Result String
get_issuer a = and_then (infos a.additional_info) (λ is.
    required
      "Issuer not found in authorization additional info, authorization is incomplete for OCPI token mapping. Please add additional info with type issuer."
      (filled (info_named "issuer" is)))

-- owner?.countryCode ?? tenant?.countryCode ?? ''
abbrev pub identity : Option String → Option String → String
identity (some s) tenant = s
identity none tenant = get_or tenant ""

abbrev pub is_accepted : AuthorizationStatus → Bool
is_accepted AuthorizationStatus.accepted = true
is_accepted _ = false

abbrev pub token_with : Authorization → Joined → TokenType → String → Option String → String → Token
token_with a j token_type contract_id visual_number issuer = record {
  country_code = identity j.owner_country_code j.tenant_country_code;
  party_id = identity j.owner_party_id j.tenant_party_id;
  uid = a.id_token;
  token_type = token_type;
  contract_id = contract_id;
  visual_number = visual_number;
  issuer = issuer;
  group_id = j.group_id_token;
  valid = is_accepted a.status;
  whitelist = map_real_time_enum_type a.real_time_auth;
  language = a.language1;
  last_updated = a.updated_at;
}

unfoldable pub to_dto : Authorization → Joined → Result Token
to_dto a j = and_then (map_ocpp_id_token_type_to_ocpi_token_type a.id_token_type) (λ token_type.
    and_then (get_contract_id a) (λ contract_id. and_then (get_visual_number a) (λ visual_number.
      and_then (get_issuer a)
        (λ issuer. ok (token_with a j token_type contract_id visual_number issuer)))))
