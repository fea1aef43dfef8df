-- ===== src/Tokens/Upsert.antt =====
-- How a token is stored: `upsertToken`, `persistRoamingAuthorization` and
-- `handleGroupAuthorization` of 00_Base/src/services/TokensService.ts.
pub mod Unique
pub mod RoundTrip
use citrineos_ocpi.Prelude.{
  ℕ, String, ◌⧺◌, Option, none, some, List, [], ◌∷◌, str_eq, if◌then◌else◌,
}
use citrineos_ocpi.Exec.{Thrown, ok, Exec, ◌>>=◌, pure, throw}
use citrineos_ocpi.Tokens.Data.{
  IdTokenType, AuthorizationStatus, Token, PartialToken, Authorization,
}
use citrineos_ocpi.Tokens.Mapping.{
  map_ocpi_token_type_to_ocpp_id_token_type, map_ocpi_token_to_partial_ocpp_authorization, to_dto,
}
use citrineos_ocpi.Tokens.Store.{
  Desk, TokenEnv, TokenKey, AuthorizationSet, get_authorization_by_token, update_token,
  create_authorization, get_group_authorization,
}

pub record UpsertTokenOptions : Type 0 where
  pub cache_expiry_date_time : Option ℕ
  pub ocpi_auth_method : Option String
  pub ocpi_auth_reference : Option String

-- options?.… where there are none
abbrev pub no_options : UpsertTokenOptions
no_options = record {
  cache_expiry_date_time = none;
  ocpi_auth_method = none;
  ocpi_auth_reference = none;
}

-- A whole token as a partial one.
abbrev pub partial : Token → PartialToken
partial t = record {
  uid = some t.uid;
  token_type = some t.token_type;
  contract_id = some t.contract_id;
  visual_number = t.visual_number;
  issuer = some t.issuer;
  group_id = t.group_id;
  valid = some t.valid;
  whitelist = some t.whitelist;
  language = t.language;
  last_updated = some t.last_updated;
}

abbrev pub key_of : Token → ℕ → TokenKey
key_of t partner = record {
  id_token = t.uid;
  id_token_type = map_ocpi_token_type_to_ocpp_id_token_type t.token_type;
  tenant_partner_id = partner;
}

-- The `set` of the update.
unfoldable pub upsert_set : Token → Option ℕ → Option ℕ → UpsertTokenOptions → AuthorizationSet
upsert_set t group roaming options =
    let a = map_ocpi_token_to_partial_ocpp_authorization (partial t) in
    record {
      additional_info = a.additional_info;
      status = some a.status;
      language1 = a.language1;
      group_authorization_id = group;
      roaming_partner_id = roaming;
      real_time_auth = a.real_time_auth;
      cache_expiry_date_time = options.cache_expiry_date_time;
      ocpi_auth_method = options.ocpi_auth_method;
      ocpi_auth_reference = options.ocpi_auth_reference;
      updated_at = t.last_updated;
    }

-- The variables of the creation, and the id that the table gives.
unfoldable pub created_row :
    Token → ℕ → ℕ → Option ℕ → Option ℕ → UpsertTokenOptions → ℕ → Authorization
created_row t tenant partner group roaming options id =
    let a = map_ocpi_token_to_partial_ocpp_authorization (partial t) in
    record {
      id = id;
      tenant_id = tenant;
      tenant_partner_id = some partner;
      roaming_partner_id = roaming;
      id_token = t.uid;
      id_token_type = map_ocpi_token_type_to_ocpp_id_token_type t.token_type;
      additional_info = a.additional_info;
      status = a.status;
      language1 = a.language1;
      group_authorization_id = group;
      real_time_auth = a.real_time_auth;
      cache_expiry_date_time = options.cache_expiry_date_time;
      ocpi_auth_method = options.ocpi_auth_method;
      ocpi_auth_reference = options.ocpi_auth_reference;
      created_at = t.last_updated;
      updated_at = t.last_updated;
    }

abbrev pub group_row : String → ℕ → ℕ → ℕ → ℕ → Authorization
group_row group_id tenant partner at id = record {
  id = id;
  tenant_id = tenant;
  tenant_partner_id = some partner;
  roaming_partner_id = none;
  id_token = group_id;
  id_token_type = IdTokenType.central;
  additional_info = none;
  status = AuthorizationStatus.invalid;
  language1 = none;
  group_authorization_id = none;
  real_time_auth = none;
  cache_expiry_date_time = none;
  ocpi_auth_method = none;
  ocpi_auth_reference = none;
  created_at = at;
  updated_at = at;
}

module _ (env : TokenEnv) where
  -- new Date(), at the request that follows
  abbrev now : Exec Desk ℕ
  now d = (ok (env.time d.requests), d)

  abbrev pub group_or_created : String → ℕ → ℕ → List Authorization → Exec Desk ℕ
  group_or_created group_id tenant partner (g ∷ gs) = pure g.id
  group_or_created group_id tenant partner [] = do
    at ← now
    g ← create_authorization env (group_row group_id tenant partner at)
    pure g.id

  unfoldable pub handle_group_authorization : String → ℕ → ℕ → Exec Desk ℕ
  handle_group_authorization group_id tenant partner =
      get_group_authorization env group_id partner >>= group_or_created group_id tenant partner

  -- if (token.group_id)
  unfoldable pub group_of : Option String → ℕ → ℕ → Exec Desk (Option ℕ)
  group_of none tenant partner = pure none
  group_of (some group_id) tenant partner =
      if str_eq group_id ""
      then pure none
      else handle_group_authorization group_id tenant partner >>= λ g. pure (some g)

  -- returning[0], or an error
  abbrev pub first_updated : String → List Authorization → Exec Desk Authorization
  first_updated uid (row ∷ rows) = pure row
  first_updated uid [] =
      throw (Thrown.error none ("Failed to update authorization for token " ⧺ uid))

  abbrev pub update_or_create :
      Token
      → ℕ
      → ℕ
      → Option ℕ
      → UpsertTokenOptions
      → List Authorization
      → Option ℕ
      → Exec Desk Authorization
  update_or_create t tenant partner roaming options (existing ∷ more) group =
      update_token env (key_of t partner) (upsert_set t group roaming options)
      >>= first_updated t.uid
  update_or_create t tenant partner roaming options [] group =
      create_authorization env (created_row t tenant partner group roaming options)

  unfoldable pub upsert_token_internal :
      Token → ℕ → ℕ → Option ℕ → UpsertTokenOptions → Exec Desk Authorization
  upsert_token_internal t tenant partner roaming options =
      get_authorization_by_token env (key_of t partner) >>= λ existing.
      group_of t.group_id tenant partner >>= λ group.
      update_or_create t tenant partner roaming options existing group

  -- The row with its relations, as a token.
  unfoldable pub dto_of : Authorization → Exec Desk Token
  dto_of row d = (to_dto row (env.joined d.rows row), d)

  unfoldable pub upsert_token : Token → ℕ → ℕ → UpsertTokenOptions → Exec Desk Token
  upsert_token t tenant partner options =
      upsert_token_internal t tenant partner none options >>= dto_of

  unfoldable pub persist_roaming_authorization :
      Token → ℕ → ℕ → Option ℕ → UpsertTokenOptions → Exec Desk Unit
  persist_roaming_authorization t tenant partner roaming options =
      upsert_token_internal t tenant partner roaming options >>= λ row. pure tt
