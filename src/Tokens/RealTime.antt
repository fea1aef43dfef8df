-- ===== src/Tokens/RealTime.antt =====
-- The authorization of a token by its issuer while the driver waits: `realTimeAuthorization` of
-- 00_Base/src/services/TokensService.ts.
pub mod AllowedWins
use citrineos_ocpi.Prelude.{
  ℕ, ◌+◌, ◌==◌, ltb, String, ◌⧺◌, Bool, true, false, ◌||◌, not, Option, none, some, List, [], ◌∷◌,
  keep, str_eq, if◌then◌else◌,
}
use citrineos_ocpi.Exec.{Thrown, Result, ok, err, Exec, ◌>>=◌, pure, throw}
use citrineos_ocpi.Partner.{RoamingPartner, get_roaming_partner}
use citrineos_ocpi.Tokens.Data.{WhitelistType, Token, Authorization}
use citrineos_ocpi.Tokens.Mapping.{map_ocpi_token_type_to_ocpp_id_token_type}
use citrineos_ocpi.Tokens.Store.{Desk, TokenEnv, request, same_rows, get_authorization_owner}
use citrineos_ocpi.Tokens.Upsert.{UpsertTokenOptions, persist_roaming_authorization}
use citrineos_ocpi.Tokens.Select.{
  AuthPartner, AuthorizationInfo, AuthorizationInfoResponse, Answer,
  is_real_time_token_auth_partner, select_real_time_authorization_answer,
}

pub record RealTimeResponse : Type 0 where
  pub timestamp : ℕ
  pub allowed : String
  pub reason : Option String

-- What postToken to a partner comes to, and after how many milliseconds.
pub record Reply : Type 0 where
  pub elapsed : ℕ
  pub outcome : Result AuthorizationInfoResponse

pub record LocationReferences : Type 0 where
  pub location_id : String
  pub evse_uids : List String

-- The columns of a charging station that are read: the text of its location's id, and the uids that
-- UID_FORMAT gives its EVSEs.
pub record AuthStation : Type 0 where
  pub location_id : Option String
  pub evse_uids : List String

pub record AuthRequest : Type 0 where
  pub id_token : String
  pub tenant_partner_id : Option ℕ
  pub tenant_id : Option ℕ
  pub location_id : Option String
  pub station_id : Option String

-- The partners' servers and the tables that are only read.
pub record AuthEnv : Type 0 where
  pub tokens : TokenEnv
  pub partners : ℕ → List AuthPartner
  pub partner_by_id : ℕ → Option AuthPartner
  pub station : String → Option AuthStation
  pub reply : AuthPartner → AuthRequest → Option LocationReferences → Reply

abbrev pub real_time_auth_partner_timeout_ms : ℕ
real_time_auth_partner_timeout_ms = 10000

abbrev pub failed_to_authorize : AuthRequest → Thrown
failed_to_authorize r = Thrown.error none ("Failed to authorize token " ⧺ r.id_token)

-- data! where there is none
abbrev no_data : Thrown
no_data = Thrown.error none "Cannot read properties of undefined"

unfoldable pub to_real_time_authorization_response :
    AuthorizationInfoResponse → Exec Desk RealTimeResponse
to_real_time_authorization_response r = elim r.info [
  | none ↦ throw no_data
  | some i ↦ pure (record { timestamp = r.timestamp; allowed = i.allowed; reason = i.info_text })
]

-- A status code that is not GenericSuccessCode is an error.
abbrev pub checked :
    AuthRequest → Result AuthorizationInfoResponse → Result AuthorizationInfoResponse
checked r (ok response) =
    if response.status_code == 1000 then ok response else err (failed_to_authorize r)
checked r (err e) = err e

-- The promise of a partner, or the timeout that comes first.
abbrev pub with_timeout :
    ℕ → Result AuthorizationInfoResponse → ℕ → Result AuthorizationInfoResponse
with_timeout elapsed outcome timeout =
    if ltb elapsed timeout then outcome else err (Thrown.error none "timed out after 10000 ms")

-- The answers that came, in the order of the partners.
abbrev pub push_answer : AuthPartner → Result AuthorizationInfoResponse → List Answer → List Answer
push_answer p (ok response) answers = record { partner = p; response = response } ∷ answers
push_answer p (err e) answers = answers

abbrev not_cached : Exec Desk Unit
not_cached = pure tt

module _ (env : AuthEnv) where
  -- postRealTimeAuthorization
  unfoldable pub post_real_time_authorization :
      AuthPartner → AuthRequest → Option LocationReferences → Result AuthorizationInfoResponse
  post_real_time_authorization p r location = checked r (env.reply p r location).outcome

  unfoldable pub settled :
      AuthRequest → Option LocationReferences → AuthPartner → Result AuthorizationInfoResponse
  settled r location p =
      with_timeout (env.reply p r location).elapsed (post_real_time_authorization p r location)
        real_time_auth_partner_timeout_ms

  unfoldable pub answers_of :
      AuthRequest → Option LocationReferences → List AuthPartner → List Answer
  answers_of r location [] = []
  answers_of r location (p ∷ ps) = push_answer p (settled r location p) (answers_of r location ps)

  -- The request to the table of partners, and its filter.
  unfoldable pub real_time_partners : ℕ → Exec Desk (List AuthPartner)
  real_time_partners tenant =
      request env.tokens (λ rows. keep is_real_time_token_auth_partner (env.partners tenant))
        same_rows

  abbrev unknown_station : String → String → Thrown
  unknown_station location_id station_id =
      Thrown.error none ("Unknown charging station " ⧺ station_id ⧺ " at location " ⧺ location_id)

  abbrev pub same_location : String → Option String → Bool
  same_location location_id none = false
  same_location location_id (some s) = str_eq location_id s

  abbrev pub references_of :
      String → String → Option AuthStation → Exec Desk (Option LocationReferences)
  references_of location_id station_id none = throw (unknown_station location_id station_id)
  references_of location_id station_id (some s) =
      if same_location location_id s.location_id
      then pure (some (record { location_id = location_id; evse_uids = s.evse_uids }))
      else throw (unknown_station location_id station_id)

  abbrev pub find_references : Option String → Option String → Exec Desk (Option LocationReferences)
  find_references (some location_id) (some station_id) =
      if str_eq location_id "" || str_eq station_id ""
      then pure none
      else request env.tokens (λ rows. env.station station_id) same_rows
        >>= references_of location_id station_id
  find_references _ _ = pure none

  unfoldable pub get_location_references : AuthRequest → Exec Desk (Option LocationReferences)
  get_location_references r = find_references r.location_id r.station_id

  -- The options of the cached row: five minutes, and AUTH_REQUEST.
  abbrev pub cache_options : Option String → ℕ → UpsertTokenOptions
  cache_options reference now = record {
    cache_expiry_date_time = some (now + 300000);
    ocpi_auth_method = some "AUTH_REQUEST";
    ocpi_auth_reference = reference;
  }

  abbrev id_of : Option RoamingPartner → Option ℕ
  id_of none = none
  id_of (some r) = some r.id

  abbrev pub cache : AuthPartner → Token → Option String → Exec Desk Unit
  cache p t reference d =
      persist_roaming_authorization env.tokens t p.tenant_id p.id
        (id_of (get_roaming_partner p.roaming_partners t.country_code t.party_id))
        (cache_options reference (env.tokens.time d.requests)) d

  abbrev pub owned_by_other : AuthPartner → Option ℕ → Bool
  owned_by_other p none = true
  owned_by_other p (some owner) = not (owner == p.id)

  -- A token that another partner owns is not cached.
  abbrev pub cache_unless_owned :
      AuthPartner → Token → Option String → List Authorization → Exec Desk Unit
  cache_unless_owned p t reference [] = cache p t reference
  cache_unless_owned p t reference (owner ∷ owners) =
      if owned_by_other p owner.tenant_partner_id then not_cached else cache p t reference

  abbrev pub never_listed : Token → Token
  never_listed t = record t { whitelist = WhitelistType.never }

  abbrev pub persist_token : AuthPartner → Option String → Option Token → Exec Desk Unit
  persist_token p reference none = pure tt
  persist_token p reference (some t) =
      if p.tenant_id == 0 || p.id == 0
      then pure tt
      else get_authorization_owner env.tokens t.uid
          (map_ocpi_token_type_to_ocpp_id_token_type t.token_type)
        >>= cache_unless_owned p (never_listed t) reference

  abbrev pub persist_info : AuthPartner → Option AuthorizationInfo → Exec Desk Unit
  persist_info p none = throw no_data
  persist_info p (some i) = persist_token p i.authorization_reference i.token

  unfoldable pub persist_real_time_authorization :
      AuthPartner → AuthorizationInfoResponse → Exec Desk Unit
  persist_real_time_authorization p response = persist_info p response.info

  -- The selected answer is cached, and only it.
  abbrev pub answer_with : AuthRequest → Option Answer → Exec Desk RealTimeResponse
  answer_with r none = throw (failed_to_authorize r)
  answer_with r (some selected) =
      persist_real_time_authorization selected.partner selected.response >>= λ done.
      to_real_time_authorization_response selected.response

  abbrev no_partner : Thrown
  no_partner = Thrown.error none "No real-time auth partner"

  abbrev pub ask_all : AuthRequest → List AuthPartner → Exec Desk RealTimeResponse
  ask_all r [] = throw no_partner
  ask_all r (p ∷ ps) = get_location_references r >>= λ location.
      answer_with r (select_real_time_authorization_answer (answers_of r location (p ∷ ps)))

  unfoldable pub real_time_authorization_with_all_partners :
      AuthRequest → ℕ → Exec Desk RealTimeResponse
  real_time_authorization_with_all_partners r tenant = real_time_partners tenant >>= ask_all r

  abbrev pub answered_by :
      AuthPartner → Result AuthorizationInfoResponse → Exec Desk RealTimeResponse
  answered_by p (err e) = throw e
  answered_by p (ok response) = persist_real_time_authorization p response >>= λ done.
      to_real_time_authorization_response response

  abbrev unknown_partner : Thrown
  unknown_partner = Thrown.error none "Unknown tenant partner"

  abbrev pub ask_partner : AuthRequest → Option AuthPartner → Exec Desk RealTimeResponse
  ask_partner r none = throw unknown_partner
  ask_partner r (some p) = get_location_references r >>= λ location.
      answered_by p (post_real_time_authorization p r location)

  abbrev pub ask_tenant : AuthRequest → Option ℕ → Exec Desk RealTimeResponse
  ask_tenant r none = throw (Thrown.error none "tenantPartnerId or tenantId is required")
  ask_tenant r (some tenant) = real_time_authorization_with_all_partners r tenant

  abbrev pub ask_one_or_all : AuthRequest → Option ℕ → Exec Desk RealTimeResponse
  ask_one_or_all r (some partner) =
      request env.tokens (λ rows. env.partner_by_id partner) same_rows >>= ask_partner r
  ask_one_or_all r none = ask_tenant r r.tenant_id

  unfoldable pub real_time_authorization : AuthRequest → Exec Desk RealTimeResponse
  real_time_authorization r = ask_one_or_all r r.tenant_partner_id
