-- ===== src/Tokens/Select.antt =====
-- Which partner's answer decides: `isRealTimeTokenAuthPartner` and
-- `selectRealTimeAuthorizationAnswer` of 00_Base/src/services/TokensService.ts.
pub mod Best
use citrineos_ocpi.Prelude.{
  ℕ, ◌==◌, ltb, leb, String, Bool, false, ◌&&◌, ◌||◌, not, Option, none, some, List, [], ◌∷◌, keep,
  str_eq, if◌then◌else◌,
}
use citrineos_ocpi.Model.{Role, role_eq}
use citrineos_ocpi.Partner.{Endpoint, PartnerProfile, RoamingPartner, roles_of}
use citrineos_ocpi.Tokens.Data.{Token}

-- A tenant partner, with its tenant's id and the partners that roam through it.
pub record AuthPartner : Type 0 where
  pub id : ℕ
  pub tenant_id : ℕ
  pub profile : Option PartnerProfile
  pub roaming_partners : List RoamingPartner

-- AuthorizationInfo; `allowed` is the text of the enumeration's member.
pub record AuthorizationInfo : Type 0 where
  pub allowed : String
  pub token : Option Token
  pub authorization_reference : Option String
  pub info_text : Option String

pub record AuthorizationInfoResponse : Type 0 where
  pub status_code : ℕ
  pub timestamp : ℕ
  pub info : Option AuthorizationInfo

pub record Answer : Type 0 where
  pub partner : AuthPartner
  pub response : AuthorizationInfoResponse

abbrev some_has : Role → List Role → Bool
some_has role [] = false
some_has role (r ∷ rs) = role_eq r role || some_has role rs

unfoldable pub has_role : AuthPartner → Role → Bool
has_role p role = some_has role (roles_of p.profile)

abbrev some_endpoint : String → List Endpoint → Bool
some_endpoint identifier [] = false
some_endpoint identifier (e ∷ es) = str_eq e.identifier identifier || some_endpoint identifier es

abbrev has_endpoint : String → Option PartnerProfile → Bool
has_endpoint identifier none = false
has_endpoint identifier (some p) = elim p.endpoints [
  | none ↦ false
  | some es ↦ some_endpoint identifier es
]

unfoldable pub is_real_time_token_auth_partner : AuthPartner → Bool
is_real_time_token_auth_partner p =
    (has_role p Role.emsp || has_role p Role.hub) && has_endpoint "tokens_SENDER" p.profile

-- ALLOWED_PRIORITY.indexOf(allowed), or its length
abbrev pub rank_of : String → ℕ
rank_of s =
    if str_eq s "ALLOWED"
    then 0
    else if str_eq s "BLOCKED"
    then 1
    else if str_eq s "EXPIRED"
    then 2
    else if str_eq s "NO_CREDIT"
    then 3
    else if str_eq s "NOT_ALLOWED"
    then 4
    else 5

-- data?.allowed ?? ''
abbrev pub allowed_text : Option AuthorizationInfo → String
allowed_text none = ""
allowed_text (some i) = i.allowed

unfoldable pub allowed_rank : Answer → ℕ
allowed_rank a = rank_of (allowed_text a.response.info)

-- The answer has an `allowed`, and not the empty text.
unfoldable pub has_allowed : Answer → Bool
has_allowed a = not (str_eq (allowed_text a.response.info) "")

-- Number(hasRole(partner, EMSP))
unfoldable pub directness : Answer → ℕ
directness a = if has_role a.partner Role.emsp then 1 else 0

-- The comparison of the sort gives zero or less.
unfoldable pub comes_first : Answer → Answer → Bool
comes_first a b =
    if allowed_rank a == allowed_rank b
    then leb (directness b) (directness a)
    else ltb (allowed_rank a) (allowed_rank b)

unfoldable pub insert_answer : Answer → List Answer → List Answer
insert_answer a [] = a ∷ []
insert_answer a (b ∷ bs) = if comes_first a b then a ∷ b ∷ bs else b ∷ insert_answer a bs

-- The sort is stable.
unfoldable pub sort_answers : List Answer → List Answer
sort_answers [] = []
sort_answers (a ∷ rest) = insert_answer a (sort_answers rest)

abbrev pub head : List Answer → Option Answer
head [] = none
head (a ∷ rest) = some a

unfoldable pub select_real_time_authorization_answer : List Answer → Option Answer
select_real_time_authorization_answer answers = head (sort_answers (keep has_allowed answers))
