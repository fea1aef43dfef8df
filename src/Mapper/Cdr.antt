-- ===== src/Mapper/Cdr.antt =====
-- A session as a CDR: `mapSessionToCDR` of 00_Base/src/mapper/CdrMapper.ts.
pub mod Totals
use citrineos_ocpi.Prelude.{
  ℕ, String, ◌⧺◌, Bool, true, false, Option, none, some, List, [], ◌∷◌, str_eq, keep, map,
  if◌then◌else◌,
}
use citrineos_ocpi.Js.{get_or}
use citrineos_ocpi.Exec.{Thrown, Result, ok, err}
use citrineos_ocpi.Number.{Decimal, whole, sub, round_ocpi_number, to_rounded_hours}
use citrineos_ocpi.Number.Text.{to_text}
use citrineos_ocpi.Mapper.Periods.{DimensionType, CdrDimension, ChargingPeriod}
use citrineos_ocpi.Mapper.Data.{AuthMethod, Tariff, Connector, Evse, Location, CdrToken, Session}
use citrineos_ocpi.Mapper.Session.{calculate_total_cost}

pub record CdrLocation : Type 0 where
  pub id : String
  pub evse_uid : String
  pub evse_id : String
  pub connector_id : String
  pub connector_standard : String
  pub connector_format : String
  pub connector_power_type : String

pub record Cdr : Type 0 where
  pub country_code : String
  pub party_id : String
  pub id : String
  pub start_date_time : ℕ
  pub end_date_time : Option ℕ
  pub session_id : String
  pub cdr_token : CdrToken
  pub auth_method : AuthMethod
  pub authorization_reference : Option String
  pub cdr_location : CdrLocation
  pub currency : String
  pub tariff : Option String
  pub charging_periods : List ChargingPeriod
  pub total_cost : Decimal
  pub total_energy : Decimal
  pub total_time : Decimal
  pub last_updated : ℕ

-- !SESSION_ONLY_DIMENSIONS.has(type)
abbrev pub in_cdr : CdrDimension → Bool
in_cdr d = elim d.dimension_type [
  | DimensionType.current ↦ false
  | DimensionType.energy_import ↦ false
  | DimensionType.state_of_charge ↦ false
  | DimensionType.energy ↦ true
  | DimensionType.time ↦ true
]

abbrev pub cdr_period : ChargingPeriod → ChargingPeriod
cdr_period p = record p { dimensions = keep in_cdr p.dimensions }

abbrev pub has_dimensions : List CdrDimension → Bool
has_dimensions [] = false
has_dimensions (d ∷ ds) = true

unfoldable pub format_charging_periods_cdr : List ChargingPeriod → List ChargingPeriod
format_charging_periods_cdr periods =
    keep (λ p. has_dimensions p.dimensions) (map cdr_period periods)

unfoldable pub generate_cdr_id : Session → ℕ → Location → String
generate_cdr_id session transaction_db_id location =
    session.country_code
    ⧺ "*"
    ⧺ session.party_id
    ⧺ "*F"
    ⧺ to_text transaction_db_id
    ⧺ "*"
    ⧺ location.id

unfoldable pub find_evse : String → List Evse → Option Evse
find_evse uid [] = none
find_evse uid (e ∷ es) = if str_eq e.uid uid then some e else find_evse uid es

unfoldable pub find_connector : String → List Connector → Option Connector
find_connector id [] = none
find_connector id (c ∷ cs) = if str_eq c.id id then some c else find_connector id cs

abbrev connector_of : String → Option Evse → Option Connector
connector_of id none = none
connector_of id (some e) = find_connector id e.connectors

abbrev evse_id_of : Option Evse → String
evse_id_of none = ""
evse_id_of (some e) = get_or e.evse_id ""

-- A field of the connector, or the empty text.
abbrev connector_text : (Connector → String) → Option Connector → String
connector_text field none = ""
connector_text field (some c) = field c

unfoldable pub create_cdr_location : Location → Session → CdrLocation
create_cdr_location location session =
    let evse = find_evse session.evse_uid location.evses in
    let connector = connector_of session.connector_id evse in
    record {
      id = location.id;
      evse_uid = session.evse_uid;
      evse_id = evse_id_of evse;
      connector_id = session.connector_id;
      connector_standard = connector_text (λ c. c.standard) connector;
      connector_format = connector_text (λ c. c.format) connector;
      connector_power_type = connector_text (λ c. c.power_type) connector;
    }

unfoldable pub calculate_total_time : ℕ → Option ℕ → Decimal
calculate_total_time start none = whole 0
calculate_total_time start (some end) =
    round_ocpi_number (sub (to_rounded_hours end) (to_rounded_hours start))

unfoldable pub cdr_of : Session → Location → Tariff → Option String → ℕ → Cdr
cdr_of session location tariff ocpi_tariff transaction_db_id = record {
  country_code = session.country_code;
  party_id = session.party_id;
  id = generate_cdr_id session transaction_db_id location;
  start_date_time = session.start_date_time;
  end_date_time = session.end_date_time;
  session_id = session.id;
  cdr_token = session.cdr_token;
  auth_method = session.auth_method;
  authorization_reference = session.authorization_reference;
  cdr_location = create_cdr_location location session;
  currency = session.currency;
  tariff = ocpi_tariff;
  charging_periods = format_charging_periods_cdr session.charging_periods;
  total_cost = calculate_total_cost session.kwh tariff.elements;
  total_energy = session.kwh;
  total_time = calculate_total_time session.start_date_time session.end_date_time;
  last_updated = session.last_updated;
}

abbrev missing_id : Session → Thrown
missing_id session =
    Thrown.error none ("CDR " ⧺ session.id ⧺ ": missing Transactions.id, cannot build CDR id")

-- The location that the map lacks is read all the same.
abbrev location_undefined : Thrown
location_undefined = Thrown.error none "Cannot read properties of undefined (reading 'id')"

unfoldable pub map_session_to_cdr :
    Session → Option Location → Tariff → Option String → Option ℕ → Result Cdr
map_session_to_cdr session location tariff ocpi_tariff none = err (missing_id session)
map_session_to_cdr session none tariff ocpi_tariff (some db_id) = err location_undefined
map_session_to_cdr session (some location) tariff ocpi_tariff (some db_id) =
    ok (cdr_of session location tariff ocpi_tariff db_id)
