-- ===== src/Tokens/Store.antt =====
-- The table Authorizations: one function for each statement of
-- 00_Base/src/graphql/queries/token.queries.ts that the service sends. A request may fail before or
-- after it took effect.
pub mod Faults
pub mod Unique
use citrineos_ocpi.Prelude.{
  ℕ, ◌+◌, ◌==◌, String, Bool, false, ◌&&◌, Option, none, some, List, [], ◌∷◌, ◌++◌, map, keep,
  if◌then◌else◌,
}
use citrineos_ocpi.Exec.{Result, ok, err, Exec}
use citrineos_ocpi.Retry.World.{Fault, no_fault, before, after}
use citrineos_ocpi.Tokens.Data.{
  WhitelistType, IdTokenType, AuthorizationStatus, AdditionalInfo, Authorization, Joined,
  id_type_eq,
}

pub record Desk : Type 0 where
  pub rows : List Authorization
  pub requests : ℕ

-- What the program does not decide. The column idToken is of the type citext, whose equality ignores
-- case; `joined` is what the relations of a row give.
pub record TokenEnv : Type 0 where
  pub fault : ℕ → Fault
  pub next_id : List Authorization → ℕ
  pub citext_eq : String → String → Bool
  pub joined : List Authorization → Authorization → Joined
  -- the clock at a request
  pub time : ℕ → ℕ

-- The variables that name a token of a partner.
pub record TokenKey : Type 0 where
  pub id_token : String
  pub id_token_type : IdTokenType
  pub tenant_partner_id : ℕ

-- Authorizations_Set_Input: a missing column is left as it is.
pub record AuthorizationSet : Type 0 where
  pub additional_info : Option (List AdditionalInfo)
  pub status : Option AuthorizationStatus
  pub language1 : Option String
  pub group_authorization_id : Option ℕ
  pub roaming_partner_id : Option ℕ
  pub real_time_auth : Option WhitelistType
  pub cache_expiry_date_time : Option ℕ
  pub ocpi_auth_method : Option String
  pub ocpi_auth_reference : Option String
  pub updated_at : ℕ

abbrev pub set_or : {A : Type 0} → Option A → A → A
set_or none old = old
set_or (some new) old = new

abbrev pub set_some : {A : Type 0} → Option A → Option A → Option A
set_some none old = old
set_some (some new) old = some new

abbrev pub apply_set : AuthorizationSet → Authorization → Authorization
apply_set s a = record a {
  additional_info = set_some s.additional_info a.additional_info;
  status = set_or s.status a.status;
  language1 = set_some s.language1 a.language1;
  group_authorization_id = set_some s.group_authorization_id a.group_authorization_id;
  roaming_partner_id = set_some s.roaming_partner_id a.roaming_partner_id;
  real_time_auth = set_some s.real_time_auth a.real_time_auth;
  cache_expiry_date_time = set_some s.cache_expiry_date_time a.cache_expiry_date_time;
  ocpi_auth_method = set_some s.ocpi_auth_method a.ocpi_auth_method;
  ocpi_auth_reference = set_some s.ocpi_auth_reference a.ocpi_auth_reference;
  updated_at = s.updated_at;
}

abbrev pub same_rows : List Authorization → List Authorization
same_rows rows = rows

-- _eq: a missing value equals none.
abbrev pub is_of : Option ℕ → ℕ → Bool
is_of none partner = false
is_of (some p) partner = p == partner

module _ (env : TokenEnv) where
  abbrev pub answered : {A : Type 0} → Fault → A → List Authorization → Desk → Result A × Desk
  answered no_fault a rows d = (ok a, record d { rows = rows })
  answered (before e) a rows d = (err e, d)
  answered (after e) a rows d = (err e, record d { rows = rows })

  -- ocpiGraphqlClient.request: an answer and the rows after it.
  unfoldable pub request :
      {A : Type 0}
      → (List Authorization → A)
      → (List Authorization → List Authorization)
      → Exec Desk A
  request read write d =
      answered (env.fault d.requests) (read d.rows) (write d.rows)
        (record d { requests = d.requests + 1 })

  unfoldable pub has_key : TokenKey → Authorization → Bool
  has_key k a =
      env.citext_eq a.id_token k.id_token
      && id_type_eq a.id_token_type k.id_token_type
      && is_of a.tenant_partner_id k.tenant_partner_id

  -- GET_AUTHORIZATION_BY_TOKEN
  unfoldable pub get_authorization_by_token : TokenKey → Exec Desk (List Authorization)
  get_authorization_by_token k = request (keep (has_key k)) same_rows

  unfoldable pub set_where : TokenKey → AuthorizationSet → Authorization → Authorization
  set_where k s a = if has_key k a then apply_set s a else a

  -- UPDATE_TOKEN_MUTATION, with the rows that it returns
  unfoldable pub update_token : TokenKey → AuthorizationSet → Exec Desk (List Authorization)
  update_token k s =
      request (λ rows. map (apply_set s) (keep (has_key k) rows)) (map (set_where k s))

  -- CREATE_AUTHORIZATION_MUTATION, of a row without its id
  unfoldable pub create_authorization : (ℕ → Authorization) → Exec Desk Authorization
  create_authorization row =
      request (λ rows. row (env.next_id rows)) (λ rows. rows ++ row (env.next_id rows) ∷ [])

  unfoldable pub has_token : String → IdTokenType → Authorization → Bool
  has_token id_token id_token_type a =
      env.citext_eq a.id_token id_token && id_type_eq a.id_token_type id_token_type

  -- GET_AUTHORIZATION_OWNER
  unfoldable pub get_authorization_owner : String → IdTokenType → Exec Desk (List Authorization)
  get_authorization_owner id_token id_token_type =
      request (keep (has_token id_token id_token_type)) same_rows

  -- GET_GROUP_AUTHORIZATION
  unfoldable pub get_group_authorization : String → ℕ → Exec Desk (List Authorization)
  get_group_authorization group_id partner = get_authorization_by_token (record {
    id_token = group_id;
    id_token_type = IdTokenType.central;
    tenant_partner_id = partner;
  })
