-- ===== src/Partner/Tests.antt =====
-- The selection of partners on concrete rows.
use citrineos_ocpi.Prelude.{◌≡◌, ◌↔◌, true, none, some, [], ◌∷◌}
use citrineos_ocpi.Js.{Nullable}
use citrineos_ocpi.Model.{ModuleId, Role}
use citrineos_ocpi.Partner.{BroadcastPartner, should_broadcast_to_partner}
use citrineos_ocpi.Partner.Rules.{IsEligible, should_broadcast_iff}

abbrev gireve : BroadcastPartner
gireve = record {
  id = 7;
  country_code = Nullable.value "FR";
  party_id = Nullable.value "107";
  profile =
      some (record { roles = some (Role.emsp ∷ []); endpoints = none; token = some "secret" });
  aws_secret_certificate_arn = Nullable.null;
}

should_broadcast_iff_example :
    (should_broadcast_to_partner (some gireve) ModuleId.sessions ≡ true)
    ↔ IsEligible gireve ModuleId.sessions
should_broadcast_iff_example = should_broadcast_iff gireve ModuleId.sessions
