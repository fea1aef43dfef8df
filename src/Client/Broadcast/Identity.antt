-- ===== src/Client/Broadcast/Identity.antt =====
-- The body that a PATCH gets when it is sent as a PUT.
use citrineos_ocpi.Prelude.{
  String, ◌≡◌, refl, ◌≢◌, ◌∙◌, true, some, List, [], ◌∷◌, arith, eq_iff, str_eq, if◌then◌else◌, ◌⊎◌,
}
use citrineos_ocpi.Model.{ModuleId, HttpMethod, module_eq, method_eq}
use citrineos_ocpi.Partner.{BroadcastPartner, is_gireve_partner, handle_http_method_for_partner}
use citrineos_ocpi.Client.Body.{Json, object, field, set_entry}
use citrineos_ocpi.Client.Net.{ClientEnv}
use citrineos_ocpi.Client.Broadcast.{BroadcastParams, effective_body, request_params}

pub field-set_entry :
    (k j : String) (v : Json) (fs : List (String × Json))
    → field j (set_entry k v fs) ≡ (if str_eq k j then some v else field j fs)
unfolding field set_entry
field-set_entry k j v [] = refl
field-set_entry k j v ((i, w) ∷ fs) =
    ground (arith, eq_iff k j, eq_iff i k, eq_iff i j, field-set_entry k j v fs)

-- A PATCH of a session or a token to Gireve is sent as a PUT whose object has the operator's
-- party id and country code; every other field is the caller's.
pub put_has_identity :
    (c : ClientEnv) (b : BroadcastParams) (p : BroadcastPartner) (fields : List (String × Json))
    → (name : String) → (b.module_id ≡ ModuleId.sessions) ⊎ (b.module_id ≡ ModuleId.tokens)
    → b.http_method ≡ HttpMethod.patch
    → is_gireve_partner c.env.config p.country_code p.party_id ≡ true
    → b.body ≡ some (object fields)
    → name ≢ "party_id"
    → name ≢ "country_code"
    → let sent = request_params c b p in
      (sent.http_method ≡ HttpMethod.put)
      × (full : List (String × Json)) × (sent.body ≡ some (object full))
      × (field "party_id" full ≡ some (Json.string b.cpo_party_id))
      × (field "country_code" full ≡ some (Json.string b.cpo_country_code))
      × (field name full ≡ field name fields)
unfolding request_params effective_body handle_http_method_for_partner module_eq method_eq
put_has_identity c b p fields name m patch gireve body np nc =
    let first = set_entry "party_id" (Json.string b.cpo_party_id) fields in
    let full = set_entry "country_code" (Json.string b.cpo_country_code) first in
    let put : handle_http_method_for_partner c.env.config b.http_method b.module_id p
        ≡ HttpMethod.put =
      ground (arith, m, patch, gireve) in
    (
      put,
      full,
      ground (arith, put, body, m, patch),
      field-set_entry "country_code" "party_id" (Json.string b.cpo_country_code) first
          ∙ field-set_entry "party_id" "party_id" (Json.string b.cpo_party_id) fields,
      field-set_entry "country_code" "country_code" (Json.string b.cpo_country_code) first,
      ground (
        arith,
        field-set_entry "country_code" name (Json.string b.cpo_country_code) first,
        field-set_entry "party_id" name (Json.string b.cpo_party_id) fields,
        eq_iff "party_id" name,
        eq_iff "country_code" name,
        np,
        nc,
      ),
    )
