-- ===== src/Tokens/Data.antt =====
-- A token as OCPI has it (00_Base/src/model/DTO/TokenDTO.ts), and as the table Authorizations has it.
use citrineos_ocpi.Prelude.{ℕ, String, Bool, ◌==◌, Option, List}

pub data TokenType : Type 0 where
  rfid ad_hoc_user app_user other : TokenType

pub data WhitelistType : Type 0 where
  always allowed allowed_offline never : WhitelistType

-- IdTokenEnum
pub data IdTokenType : Type 0 where
  central e_maid iso14443 iso15693 key_code local mac_address no_authorization other : IdTokenType

-- AuthorizationStatusEnum
pub data AuthorizationStatus : Type 0 where
  accepted blocked concurrent_tx expired invalid no_credit : AuthorizationStatus
  not_allowed_type_evse not_at_this_location not_at_this_time unknown : AuthorizationStatus

abbrev id_type_index : IdTokenType → ℕ
id_type_index IdTokenType.central = 0
id_type_index IdTokenType.e_maid = 1
id_type_index IdTokenType.iso14443 = 2
id_type_index IdTokenType.iso15693 = 3
id_type_index IdTokenType.key_code = 4
id_type_index IdTokenType.local = 5
id_type_index IdTokenType.mac_address = 6
id_type_index IdTokenType.no_authorization = 7
id_type_index IdTokenType.other = 8

unfoldable pub id_type_eq : IdTokenType → IdTokenType → Bool
id_type_eq a b = id_type_index a == id_type_index b

-- An entry of additionalInfo.
pub record AdditionalInfo : Type 0 where
  pub additional_id_token : String
  pub info_type : String

pub record Token : Type 0 where
  pub country_code : String
  pub party_id : String
  pub uid : String
  pub token_type : TokenType
  pub contract_id : String
  pub visual_number : Option String
  pub issuer : String
  pub group_id : Option String
  pub valid : Bool
  pub whitelist : WhitelistType
  pub language : Option String
  pub last_updated : ℕ

-- Partial<TokenDTO>
pub record PartialToken : Type 0 where
  pub uid : Option String
  pub token_type : Option TokenType
  pub contract_id : Option String
  pub visual_number : Option String
  pub issuer : Option String
  pub group_id : Option String
  pub valid : Option Bool
  pub whitelist : Option WhitelistType
  pub language : Option String
  pub last_updated : Option ℕ

-- Partial<AuthorizationDto>, as the mapper fills it.
pub record PartialAuthorization : Type 0 where
  pub id_token : Option String
  pub id_token_type : Option IdTokenType
  pub additional_info : Option (List AdditionalInfo)
  pub status : AuthorizationStatus
  pub language1 : Option String
  pub real_time_auth : Option WhitelistType

-- A row of Authorizations.
pub record Authorization : Type 0 where
  pub id : ℕ
  pub tenant_id : ℕ
  pub tenant_partner_id : Option ℕ
  pub roaming_partner_id : Option ℕ
  pub id_token : String
  pub id_token_type : IdTokenType
  pub additional_info : Option (List AdditionalInfo)
  pub status : AuthorizationStatus
  pub language1 : Option String
  pub group_authorization_id : Option ℕ
  pub real_time_auth : Option WhitelistType
  pub cache_expiry_date_time : Option ℕ
  pub ocpi_auth_method : Option String
  pub ocpi_auth_reference : Option String
  pub created_at : ℕ
  pub updated_at : ℕ

-- What a query joins to a row: the identity of the token's owner and of the tenant, and the idToken
-- of the group.
pub record Joined : Type 0 where
  pub owner_country_code : Option String
  pub owner_party_id : Option String
  pub tenant_country_code : Option String
  pub tenant_party_id : Option String
  pub group_id_token : Option String
