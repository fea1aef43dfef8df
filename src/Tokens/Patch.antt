-- ===== src/Tokens/Patch.antt =====
-- How a stored token is changed and asked for: `patchToken`, `authorizeToken`, `getTokensPaginated` and
-- `mergeAdditionalInfo` of 00_Base/src/services/TokensService.ts.
pub mod Fields
use citrineos_ocpi.Prelude.{
  ℕ, String, ◌⧺◌, Option, none, some, List, [], ◌∷◌, str_eq, if◌then◌else◌,
}
use citrineos_ocpi.Exec.{Thrown, Result, ok, err, Exec, ◌>>=◌, pure, throw}
use citrineos_ocpi.Tokens.Data.{
  TokenType, AuthorizationStatus, AdditionalInfo, Token, PartialToken, Authorization, Joined,
}
use citrineos_ocpi.Tokens.Mapping.{
  map_ocpi_token_type_to_ocpp_id_token_type, map_ocpi_token_to_partial_ocpp_authorization, filled,
  to_dto,
}
use citrineos_ocpi.Tokens.Store.{
  Desk, TokenEnv, TokenKey, AuthorizationSet, get_authorization_by_token, update_token,
}
use citrineos_ocpi.Tokens.Upsert.{group_of, dto_of}

-- updatedAdditionalInfo?.additionalIdToken
unfoldable pub info_of_type : String → List AdditionalInfo → Option String
info_of_type info_type [] = none
info_of_type info_type (i ∷ is) =
    if str_eq i.info_type info_type then some i.additional_id_token else info_of_type info_type is

abbrev pub updated_info : Option String → AdditionalInfo → AdditionalInfo
updated_info none old = old
updated_info (some new) old = record old { additional_id_token = new }

-- The entries of the row, with the texts of those that the token has too.
unfoldable pub merge_additional_info :
    List AdditionalInfo → List AdditionalInfo → List AdditionalInfo
merge_additional_info new [] = []
merge_additional_info new (old ∷ olds) =
    updated_info (info_of_type old.info_type new) old ∷ merge_additional_info new olds

abbrev pub patched_info :
    Option (List AdditionalInfo) → Option (List AdditionalInfo) → Option (List AdditionalInfo)
patched_info none old = none
patched_info (some new) none = some new
patched_info (some new) (some old) = some (merge_additional_info new old)

unfoldable pub patch_set :
    PartialToken → ℕ → Option (List AdditionalInfo) → Option ℕ → AuthorizationSet
patch_set t at old_info group =
    let a = map_ocpi_token_to_partial_ocpp_authorization t in
    record {
      additional_info = patched_info a.additional_info old_info;
      status = some a.status;
      language1 = filled a.language1;
      group_authorization_id = group;
      roaming_partner_id = none;
      real_time_auth = a.real_time_auth;
      cache_expiry_date_time = none;
      ocpi_auth_method = none;
      ocpi_auth_reference = none;
      updated_at = at;
    }

abbrev missing_last_updated : Thrown
missing_last_updated = Thrown.error none "Tokens PATCH must contain last_updated."

-- The text of OCPI's token type
abbrev type_text : TokenType → String
type_text TokenType.rfid = "RFID"
type_text TokenType.ad_hoc_user = "AD_HOC_USER"
type_text TokenType.app_user = "APP_USER"
type_text TokenType.other = "OTHER"

-- The exceptions of patchToken and of authorizeToken.
abbrev pub unknown_token : String → TokenType → Thrown
unknown_token uid token_type =
    Thrown.error none ("Unknown token " ⧺ (uid ⧺ (":" ⧺ type_text token_type)))

abbrev unknown_token_uid : String → Thrown
unknown_token_uid uid = Thrown.error none ("Unknown Token " ⧺ uid)

abbrev pub patched_key : String → TokenType → ℕ → TokenKey
patched_key uid token_type partner = record {
  id_token = uid;
  id_token_type = map_ocpi_token_type_to_ocpp_id_token_type token_type;
  tenant_partner_id = partner;
}

-- AuthorizationInfoAllowed
pub data Allowed : Type 0 where
  allowed blocked expired no_credit not_allowed : Allowed

abbrev pub allowed_of : AuthorizationStatus → Allowed
allowed_of AuthorizationStatus.accepted = Allowed.allowed
allowed_of AuthorizationStatus.blocked = Allowed.blocked
allowed_of AuthorizationStatus.expired = Allowed.expired
allowed_of AuthorizationStatus.no_credit = Allowed.no_credit
allowed_of _ = Allowed.not_allowed

module _ (env : TokenEnv) where
  -- returning[0], which toDto reads though there may be none
  abbrev pub first_patched : List Authorization → Exec Desk Token
  first_patched (row ∷ rows) = dto_of env row
  first_patched [] =
      throw (Thrown.error none "Cannot read properties of undefined (reading 'tenants')")

  abbrev pub patch_found :
      TokenType → TokenKey → PartialToken → ℕ → ℕ → ℕ → List Authorization → Exec Desk Token
  patch_found token_type k t at tenant partner [] = throw (unknown_token k.id_token token_type)
  patch_found token_type k t at tenant partner (row ∷ rows) =
      group_of env t.group_id tenant partner >>= λ group.
      update_token env k (patch_set t at row.additional_info group) >>= first_patched

  abbrev pub patch_at : Option ℕ → TokenType → TokenKey → PartialToken → ℕ → ℕ → Exec Desk Token
  patch_at none token_type k t tenant partner = throw missing_last_updated
  patch_at (some at) token_type k t tenant partner =
      get_authorization_by_token env k >>= patch_found token_type k t at tenant partner

  unfoldable pub patch_token : String → TokenType → PartialToken → ℕ → ℕ → Exec Desk Token
  patch_token uid token_type t tenant partner =
      patch_at t.last_updated token_type (patched_key uid token_type partner) t tenant partner

  abbrev pub allowed_with : AuthorizationStatus → Token → Allowed × Token
  allowed_with status t = (allowed_of status, t)

  abbrev pub authorize_found : String → List Authorization → Exec Desk (Allowed × Token)
  authorize_found uid [] = throw (unknown_token_uid uid)
  authorize_found uid (row ∷ rows) = dto_of env row >>= λ t. pure (allowed_with row.status t)

  -- The answer's `allowed` and its token; its reference is a text of the clock.
  unfoldable pub authorize_token : String → TokenType → ℕ → Exec Desk (Allowed × Token)
  authorize_token uid token_type partner =
      get_authorization_by_token env (patched_key uid token_type partner) >>= authorize_found uid

abbrev pub push_mapped : Result Token → List Token → List Token
push_mapped (ok t) ts = t ∷ ts
push_mapped (err e) ts = ts

-- The rows of a page that can be mapped; the others are skipped. The mapping is toDtoSender.
unfoldable pub mapped_tokens : (Authorization → Joined) → List Authorization → List Token
mapped_tokens joined [] = []
mapped_tokens joined (row ∷ rows) =
    push_mapped (to_dto row (joined row)) (mapped_tokens joined rows)
