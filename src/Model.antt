-- ===== src/Model.antt =====
-- The enumerations of the OCPI data model that the modelled components branch on
-- (00_Base/src/model), and the HTTP methods that `BaseClientApi.request` switches over.
use citrineos_ocpi.Prelude.{ℕ, String, Bool, ◌==◌, ◌≡◌, true, ◌↔◌, arith}

pub data ModuleId : Type 0 where
  cdrs charging_profiles commands credentials hubclientinfo locations : ModuleId
  sessions tariffs tokens versions : ModuleId

pub data InterfaceRole : Type 0 where
  sender receiver : InterfaceRole

pub data Role : Type 0 where
  cpo emsp hub nap nsp other scsp : Role

pub data HttpMethod : Type 0 where
  get post put patch delete : HttpMethod

-- The place of a member in its enumeration, by which `===` compares.
abbrev module_index : ModuleId → ℕ
module_index ModuleId.cdrs = 0
module_index ModuleId.charging_profiles = 1
module_index ModuleId.commands = 2
module_index ModuleId.credentials = 3
module_index ModuleId.hubclientinfo = 4
module_index ModuleId.locations = 5
module_index ModuleId.sessions = 6
module_index ModuleId.tariffs = 7
module_index ModuleId.tokens = 8
module_index ModuleId.versions = 9

-- The texts that the members stand for.
abbrev pub module_text : ModuleId → String
module_text ModuleId.cdrs = "cdrs"
module_text ModuleId.charging_profiles = "chargingprofiles"
module_text ModuleId.commands = "commands"
module_text ModuleId.credentials = "credentials"
module_text ModuleId.hubclientinfo = "hubclientinfo"
module_text ModuleId.locations = "locations"
module_text ModuleId.sessions = "sessions"
module_text ModuleId.tariffs = "tariffs"
module_text ModuleId.tokens = "tokens"
module_text ModuleId.versions = "versions"

abbrev role_index : Role → ℕ
role_index Role.cpo = 0
role_index Role.emsp = 1
role_index Role.hub = 2
role_index Role.nap = 3
role_index Role.nsp = 4
role_index Role.other = 5
role_index Role.scsp = 6

abbrev method_index : HttpMethod → ℕ
method_index HttpMethod.get = 0
method_index HttpMethod.post = 1
method_index HttpMethod.put = 2
method_index HttpMethod.patch = 3
method_index HttpMethod.delete = 4

unfoldable pub module_eq : ModuleId → ModuleId → Bool
module_eq a b = module_index a == module_index b

unfoldable pub role_eq : Role → Role → Bool
role_eq a b = role_index a == role_index b

unfoldable pub method_eq : HttpMethod → HttpMethod → Bool
method_eq a b = method_index a == method_index b

pub module_eq_iff : (a b : ModuleId) → (module_eq a b ≡ true) ↔ (a ≡ b)
unfolding module_eq
module_eq_iff a b = ground arith

pub role_eq_iff : (a b : Role) → (role_eq a b ≡ true) ↔ (a ≡ b)
unfolding role_eq
role_eq_iff a b = ground arith
