-- ===== src/Mapper/Session.antt =====
-- A transaction as an OCPI session: `mapTransactionsToSessionsHelper`,
-- `mapTransactionWithContextToSession` and `mapIncrementalSessionPatch` of
-- 00_Base/src/mapper/SessionMapper.ts, with `calculateTotalCost` of BaseTransactionMapper.ts.
use citrineos_ocpi.Prelude.{
  ℕ, ◌==◌, String, ◌⧺◌, Bool, false, ◌||◌, Option, none, some, List, [], ◌∷◌, str_eq, if◌then◌else◌,
}
use citrineos_ocpi.Js.{Nullable, value}
use citrineos_ocpi.Exec.{Thrown, Result, ok, err}
use citrineos_ocpi.Number.{Decimal, whole, less, multiply, is_zero, round_cents, round_ocpi_number}
use citrineos_ocpi.Number.Text.{to_text}
use citrineos_ocpi.Mapper.Data.{
  AuthMethod, SessionStatus, PriceComponent, Tariff, Station, StationEvse, Location, CdrToken,
  Transaction, Session, SessionPatch,
}
use citrineos_ocpi.Mapper.Periods.{
  ChargingPeriod, last_only, get_charging_periods, get_session_start, get_session_end,
}

-- totalKwh || 0
abbrev kwh_or_zero : Nullable Decimal → Decimal
kwh_or_zero (value x) = x
kwh_or_zero _ = whole 0

-- The kwh that is sent: roundOcpiNumber(transaction.totalKwh || 0).
unfoldable pub sent_kwh : Transaction → Decimal
sent_kwh t = round_ocpi_number (kwh_or_zero t.boundaries.total_kwh)

-- The price of the first component of type ENERGY, or 0.
unfoldable pub price_per_kwh : List PriceComponent → Decimal
price_per_kwh [] = whole 0
price_per_kwh (c ∷ cs) =
    if str_eq c.component_type "ENERGY"
    then elim c.price [ some price ↦ price | none ↦ whole 0 ]
    else price_per_kwh cs

-- The amount without VAT.
unfoldable pub cost_at : Decimal → Decimal → Decimal
cost_at total_kwh price =
    if less (whole 0) price || is_zero total_kwh
    then round_cents (multiply total_kwh price)
    else whole 0

unfoldable pub calculate_total_cost : Decimal → List (List PriceComponent) → Decimal
calculate_total_cost total_kwh [] = whole 0
calculate_total_cost total_kwh (element ∷ elements) = cost_at total_kwh (price_per_kwh element)

unfoldable pub resolve_auth_method : Option String → AuthMethod
resolve_auth_method none = AuthMethod.whitelist
resolve_auth_method (some m) =
    if str_eq m "AUTH_REQUEST"
    then AuthMethod.auth_request
    else if str_eq m "COMMAND"
    then AuthMethod.command
    else AuthMethod.whitelist

abbrev is_ev_connected : Option String → Bool
is_ev_connected none = false
is_ev_connected (some state) = str_eq state "EVConnected"

unfoldable pub get_transaction_status : Transaction → SessionStatus
get_transaction_status t =
    if is_ev_connected t.charging_state then SessionStatus.pending else elim t.boundaries.end_time [
      | some at ↦ SessionStatus.completed
      | none ↦ SessionStatus.active
    ]

unfoldable pub find_station : String → List Station → Option Station
find_station id [] = none
find_station id (s ∷ ss) = if str_eq s.id id then some s else find_station id ss

unfoldable pub find_evse_type : ℕ → List StationEvse → Option ℕ
find_evse_type id [] = none
find_evse_type id (e ∷ es) = if e.id == id then e.evse_type_id else find_evse_type id es

abbrev evse_type_in : ℕ → Option Station → Option ℕ
evse_type_in id none = none
evse_type_in id (some s) = find_evse_type id s.evses

unfoldable pub resolve_evse_type_id : Transaction → Option ℕ
resolve_evse_type_id t = evse_type_in t.evse_id (find_station t.station_id t.pool)

-- UID_FORMAT
abbrev pub uid_format : String → ℕ → String
uid_format station_id evse_type_id = station_id ⧺ "::" ⧺ to_text evse_type_id

unfoldable pub get_evse_uid : Transaction → Result String
get_evse_uid t = elim (resolve_evse_type_id t) [
  | some evse_type_id ↦ ok (uid_format t.station_id evse_type_id)
  | none ↦ err (Thrown.error none ("Cannot resolve evse_uid for transaction " ⧺ t.transaction_id))
]

-- The start of the session, or the creation of the transaction as a placeholder.
abbrev start_of : Option ℕ → ℕ → ℕ
start_of (some at) created_at = at
start_of none created_at = created_at

abbrev cost_if_ended : Option ℕ → Decimal → Option Decimal
cost_if_ended none cost = none
cost_if_ended (some at) cost = some cost

unfoldable pub session_of : Transaction → Location → CdrToken → Tariff → String → Session
session_of t location token tariff evse_uid = record {
  country_code = location.country_code;
  party_id = location.party_id;
  id = t.transaction_id;
  start_date_time = start_of t.boundaries.start_time t.created_at;
  end_date_time = t.boundaries.end_time;
  kwh = sent_kwh t;
  cdr_token = token;
  auth_method = resolve_auth_method t.ocpi_auth_method;
  location_id = location.id;
  evse_uid = evse_uid;
  connector_id = to_text t.connector_id;
  currency = tariff.currency;
  charging_periods =
      get_charging_periods t.meter_values tariff.ocpi_tariff_id (get_session_start t.boundaries)
        (get_session_end t.boundaries);
  status = get_transaction_status t;
  last_updated = t.updated_at;
  authorization_reference = t.ocpi_auth_reference;
  total_cost =
      cost_if_ended t.boundaries.end_time (calculate_total_cost (sent_kwh t) tariff.elements);
}

abbrev pub session_at : Transaction → Location → CdrToken → Tariff → Result String → Result Session
session_at t location token tariff (ok uid) = ok (session_of t location token tariff uid)
session_at t location token tariff (err e) = err e

unfoldable pub map_transaction_with_context :
    Transaction → Location → CdrToken → Tariff → Result Session
map_transaction_with_context t location token tariff =
    session_at t location token tariff (get_evse_uid t)

abbrev unless_empty : List ChargingPeriod → Option (List ChargingPeriod)
unless_empty [] = none
unless_empty (p ∷ ps) = some (p ∷ ps)

unfoldable pub patch_of : Transaction → Tariff → SessionPatch
patch_of t tariff = record {
  id = t.transaction_id;
  end_date_time = t.boundaries.end_time;
  kwh = sent_kwh t;
  status = get_transaction_status t;
  last_updated = t.updated_at;
  total_cost = calculate_total_cost (sent_kwh t) tariff.elements;
  charging_periods = unless_empty (
      last_only (
        get_charging_periods t.meter_values tariff.ocpi_tariff_id (get_session_start t.boundaries)
          (get_session_end t.boundaries)));
}

unfoldable pub map_incremental_session_patch : Transaction → Option Tariff → Result SessionPatch
map_incremental_session_patch t (some tariff) = ok (patch_of t tariff)
map_incremental_session_patch t none =
    err (Thrown.error none ("Tariff not found for transaction " ⧺ t.transaction_id))
