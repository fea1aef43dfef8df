-- ===== src/Tokens/Upsert/RoundTrip.antt =====
-- A token that is stored and read again is the same: 00_Base/src/mapper/TokensMapper.ts, there and
-- back.
use citrineos_ocpi.Prelude.{
  ℕ, String, ◌≡◌, refl, Bool, true, false, Option, none, some, List, [], str_eq, arith,
}
use citrineos_ocpi.Exec.{ok}
use citrineos_ocpi.Tokens.Data.{TokenType, AdditionalInfo, Token, Joined}
use citrineos_ocpi.Tokens.Mapping.{
  map_ocpi_token_type_to_ocpp_id_token_type, map_ocpp_id_token_type_to_ocpi_token_type,
  map_ocpi_token_to_partial_ocpp_authorization, info_if, unless_empty, info_named, filled,
  get_contract_id, get_visual_number, get_issuer, is_accepted, status_of, to_dto,
}
use citrineos_ocpi.Tokens.Upsert.{UpsertTokenOptions, created_row}

-- The contract and the issuer are named, and the visual number, if any, is not the empty text.
abbrev pub Filled : Token → Type 0
Filled t =
    (str_eq t.contract_id "" ≡ false)
    × (str_eq t.issuer "" ≡ false)
    × (filled t.visual_number ≡ t.visual_number)

-- The relations of a row that belongs to the token's owner and to the group with the token's
-- group_id.
abbrev pub own_joined : Token → Joined
own_joined t = record {
  owner_country_code = some t.country_code;
  owner_party_id = some t.party_id;
  tenant_country_code = none;
  tenant_party_id = none;
  group_id_token = t.group_id;
}

type_returns :
    (t : TokenType)
    → map_ocpp_id_token_type_to_ocpi_token_type (map_ocpi_token_type_to_ocpp_id_token_type t) ≡ ok t
type_returns TokenType.rfid = refl
type_returns TokenType.ad_hoc_user = refl
type_returns TokenType.app_user = refl
type_returns TokenType.other = refl

status_returns : (b : Bool) → is_accepted (status_of (some b)) ≡ b
status_returns true = refl
status_returns false = refl

filled-some : (v : String) → filled (some v) ≡ some v → str_eq v "" ≡ false
filled-some v h = ground arith

-- The entries of additionalInfo for a contract, a visual number and an issuer.
abbrev infos_of : String → Option String → String → List AdditionalInfo
infos_of c v i = info_if (some c) "eMAID" (info_if v "visual_number" (info_if (some i) "issuer" []))

module _ (c i : String) (hc : str_eq c "" ≡ false) (hi : str_eq i "" ≡ false) where
  infos_filled : (v : Option String) → unless_empty (infos_of c v i) ≡ some (infos_of c v i)
  infos_filled v = rw hc refl

  contract_in : (v : Option String) → filled (info_named "eMAID" (infos_of c v i)) ≡ some c
  unfolding info_named
  contract_in v = rw hc (rw hc refl)

  visual_in :
      (v : Option String) → filled v ≡ v → filled (info_named "visual_number" (infos_of c v i)) ≡ v
  unfolding info_named
  visual_in none h = rw (hc, hi) refl
  visual_in (some v) h = rw (hc, filled-some v h) (rw (filled-some v h) refl)

  issuer_in :
      (v : Option String) → filled v ≡ v → filled (info_named "issuer" (infos_of c v i)) ≡ some i
  unfolding info_named
  issuer_in none h = rw (hc, hi) (rw hi refl)
  issuer_in (some v) h = rw (hc, filled-some v h, hi) (rw hi refl)

-- A token whose contract and issuer are named is the same after it was stored in a new row and read
-- back with the relations of its owner and group.
pub token_returns :
    (t : Token) (tenant partner : ℕ) (group roaming : Option ℕ) (options : UpsertTokenOptions)
    → (id : ℕ) → Filled t
    → to_dto (created_row t tenant partner group roaming options id) (own_joined t) ≡ ok t
unfolding to_dto get_contract_id get_visual_number get_issuer created_row
    map_ocpi_token_to_partial_ocpp_authorization
token_returns t tenant partner group roaming options id f =
    rw
      (
        type_returns t.token_type,
        infos_filled t.contract_id t.issuer f.0 f.1 t.visual_number,
        contract_in t.contract_id t.issuer f.0 f.1 t.visual_number,
        visual_in t.contract_id t.issuer f.0 f.1 t.visual_number f.2,
        issuer_in t.contract_id t.issuer f.0 f.1 t.visual_number f.2,
        status_returns t.valid,
      )
      refl
