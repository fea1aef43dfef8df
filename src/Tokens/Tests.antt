-- ===== src/Tokens/Tests.antt =====
-- Runs of the token service on a small table, and uses of the theorems about it.
use mathlib.Core.List.{Memᴰ}
use citrineos_ocpi.Prelude.{
  ℕ, ◌≡◌, refl, String, true, none, some, List, [], ◌∷◌, str_eq, keep, drop, All, ◌==◌,
  if◌then◌else◌, arith, ◌≢◌,
}
use citrineos_ocpi.Exec.{Thrown, ok, err}
use citrineos_ocpi.Model.{Role}
use citrineos_ocpi.Partner.{PartnerProfile}
use citrineos_ocpi.Retry.World.{no_fault}
use citrineos_ocpi.Tokens.Data.{
  TokenType, WhitelistType, IdTokenType, AuthorizationStatus, Token, PartialToken, Authorization,
  id_type_eq,
}
use citrineos_ocpi.Tokens.Mapping.{to_dto}
use citrineos_ocpi.Tokens.Store.{Desk, TokenEnv, has_key}
use citrineos_ocpi.Tokens.Store.Unique.{Unique}
use citrineos_ocpi.Tokens.Upsert.{no_options, created_row, upsert_token_internal}
use citrineos_ocpi.Tokens.Upsert.Unique.{upsert-Unique}
use citrineos_ocpi.Tokens.Upsert.RoundTrip.{own_joined, token_returns}
use citrineos_ocpi.Tokens.Patch.{patched_key, merge_additional_info, info_of_type, patch_token}
use citrineos_ocpi.Tokens.Patch.Fields.{OfKey, patch-without_valid, patch_token-unknown}
use citrineos_ocpi.Tokens.Push.{PushEnv, nothing_pushed, push_batch, push_tokens_to_partner}
use citrineos_ocpi.Tokens.Push.Pages.{Accounted, push_tokens-all}
use citrineos_ocpi.Tokens.Select.{
  AuthPartner, AuthorizationInfoResponse, Answer, allowed_text,
  select_real_time_authorization_answer,
}
use citrineos_ocpi.Tokens.Select.Best.{IsBest, select-IsBest}
use citrineos_ocpi.Tokens.RealTime.{AuthEnv, AuthRequest, Reply, answers_of}
use citrineos_ocpi.Tokens.RealTime.AllowedWins.{allowed_wins}

abbrev token : Token
token = record {
  country_code = "FR";
  party_id = "EMS";
  uid = "u";
  token_type = TokenType.rfid;
  contract_id = "c";
  visual_number = some "v";
  issuer = "i";
  group_id = none;
  valid = true;
  whitelist = WhitelistType.never;
  language = some "fr";
  last_updated = 5;
}

abbrev row : Authorization
row = record {
  id = 1;
  tenant_id = 1;
  tenant_partner_id = some 2;
  roaming_partner_id = none;
  id_token = "u";
  id_token_type = IdTokenType.iso14443;
  additional_info = some (record { additional_id_token = "c"; info_type = "eMAID" } ∷ []);
  status = AuthorizationStatus.accepted;
  language1 = none;
  group_authorization_id = none;
  real_time_auth = none;
  cache_expiry_date_time = none;
  ocpi_auth_method = none;
  ocpi_auth_reference = none;
  created_at = 0;
  updated_at = 0;
}

abbrev env : TokenEnv
env = record {
  fault = λ n. no_fault;
  next_id = λ rows. 2;
  citext_eq = str_eq;
  joined = λ rows a. own_joined token;
  time = λ n. n;
}

abbrev desk : Desk
desk = record { rows = row ∷ []; requests = 0 }

abbrev empty_desk : Desk
empty_desk = record { rows = []; requests = 0 }

-- A PATCH of the language.
abbrev language_patch : PartialToken
language_patch = record {
  uid = none;
  token_type = none;
  contract_id = none;
  visual_number = none;
  issuer = none;
  group_id = none;
  valid = none;
  whitelist = none;
  language = some "en";
  last_updated = some 9;
}

token_returns_example :
    to_dto (created_row token 1 2 none none no_options 3) (own_joined token) ≡ ok token
token_returns_example = token_returns token 1 2 none none no_options 3 (refl, refl, refl)

no_group : (group_id : String) → none ≢ some group_id
no_group group_id e = ground arith

upsert-Unique_example : Unique env (upsert_token_internal env token 1 2 none no_options desk).1.rows
upsert-Unique_example =
    upsert-Unique env token 1 2 none no_options desk (λ group_id e. absurd (no_group group_id e))
      (tt, tt)

found_row : keep (has_key env (patched_key "u" TokenType.rfid 2)) (row ∷ []) ≡ row ∷ []
unfolding has_key id_type_eq
found_row = refl

patch-without_valid_example :
    All
      (OfKey env (patched_key "u" TokenType.rfid 2) (λ a. a.status ≡ AuthorizationStatus.invalid))
      (patch_token env "u" TokenType.rfid language_patch 1 2 desk).1.rows
patch-without_valid_example =
    patch-without_valid env "u" TokenType.rfid language_patch 1 2 9 desk row [] (λ n. refl) refl
      refl refl found_row

patch_token-unknown_example :
    ((patch_token env "u" TokenType.rfid language_patch 1 2 empty_desk).1.rows ≡ [])
    × ((e : Thrown) × ((patch_token env "u" TokenType.rfid language_patch 1 2 empty_desk).0
          ≡ err e))
patch_token-unknown_example =
    patch_token-unknown env "u" TokenType.rfid language_patch 1 2 empty_desk refl

-- A new kind of information does not get into a row that has others.
issuer_is_lost :
    merge_additional_info
      (record { additional_id_token = "i"; info_type = "issuer" } ∷ [])
      (record { additional_id_token = "c"; info_type = "eMAID" } ∷ [])
    ≡ record { additional_id_token = "c"; info_type = "eMAID" } ∷ []
unfolding merge_additional_info info_of_type
issuer_is_lost = refl

abbrev profile : Role → PartnerProfile
profile role = record {
  roles = some (role ∷ []);
  endpoints = some (record { identifier = "tokens_SENDER"; url = "/tokens" } ∷ []);
  token = none;
}

abbrev partner : ℕ → Role → AuthPartner
partner id role = record {
  id = id;
  tenant_id = 1;
  profile = some (profile role);
  roaming_partners = [];
}

abbrev response : String → AuthorizationInfoResponse
response allowed = record {
  status_code = 1000;
  timestamp = 0;
  info = some (record {
    allowed = allowed;
    token = none;
    authorization_reference = none;
    info_text = none;
  });
}

abbrev answers : List Answer
answers =
    record { partner = partner 1 Role.hub; response = response "BLOCKED" }
    ∷ record { partner = partner 2 Role.emsp; response = response "ALLOWED" }
    ∷ []

select-IsBest_example : IsBest answers (select_real_time_authorization_answer answers)
select-IsBest_example = select-IsBest answers

-- The second of two partners allows the token; the first fails.
abbrev reply_of : ℕ → Reply
reply_of id =
    if id == 1
    then record { elapsed = 0; outcome = err (Thrown.text "down") }
    else record { elapsed = 20; outcome = ok (response "ALLOWED") }

abbrev auth_env : AuthEnv
auth_env = record {
  tokens = env;
  partners = λ tenant. partner 1 Role.hub ∷ partner 2 Role.emsp ∷ [];
  partner_by_id = λ id. none;
  station = λ id. none;
  reply = λ p r location. reply_of p.id;
}

abbrev request : AuthRequest
request = record {
  id_token = "u";
  tenant_partner_id = none;
  tenant_id = some 1;
  location_id = none;
  station_id = none;
}

allowed_wins_example :
    (a : Answer) × (select_real_time_authorization_answer
        (answers_of auth_env request none (partner 1 Role.hub ∷ partner 2 Role.emsp ∷ []))
      ≡ some a)
    × (allowed_text a.response.info ≡ "ALLOWED")
allowed_wins_example =
    allowed_wins auth_env request none (partner 1 Role.hub ∷ partner 2 Role.emsp ∷ [])
      (partner 2 Role.emsp) (response "ALLOWED") (Memᴰ.tail (Memᴰ.head refl)) (omega arith) refl
      refl refl

abbrev push_env : PushEnv
push_env = record {
  tokens = env;
  selected = λ a. true;
  sender_joined = λ a. own_joined token;
  reply = λ t. ok (some 1000);
}

push_tokens-all_example :
    ((push_tokens_to_partner push_env 0 1 desk).0
      ≡ ok (some (push_batch push_env (drop 0 (keep push_env.selected desk.rows)) nothing_pushed)))
    × Accounted (push_batch push_env (drop 0 (keep push_env.selected desk.rows)) nothing_pushed)
push_tokens-all_example = push_tokens-all push_env 0 1 desk (λ m. refl) (omega arith)
