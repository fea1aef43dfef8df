-- ===== src/Mapper/Data.antt =====
-- The transactions, tariffs and locations that the mappers of 00_Base/src/mapper read, and the sessions
-- that they make (00_Base/src/model/Session.ts).
use citrineos_ocpi.Prelude.{ℕ, String, Option, List}
use citrineos_ocpi.Number.{Decimal}
use citrineos_ocpi.Mapper.Meter.{MeterValue}
use citrineos_ocpi.Mapper.Periods.{Boundaries, ChargingPeriod}

pub data AuthMethod : Type 0 where
  auth_request command whitelist : AuthMethod

pub data SessionStatus : Type 0 where
  active completed invalid pending reservation : SessionStatus

pub record PriceComponent : Type 0 where
  pub component_type : String
  pub price : Option Decimal

-- A tariff, of its elements those that `calculateTotalCost` reads: their components, if any.
pub record Tariff : Type 0 where
  pub ocpi_tariff_id : String
  pub currency : String
  pub elements : List (List PriceComponent)

pub record Connector : Type 0 where
  pub id : String
  pub standard : String
  pub format : String
  pub power_type : String

pub record Evse : Type 0 where
  pub uid : String
  pub evse_id : Option String
  pub connectors : List Connector

pub record Location : Type 0 where
  pub country_code : String
  pub party_id : String
  pub id : String
  pub evses : List Evse

pub record CdrToken : Type 0 where
  pub uid : String
  pub token_type : String
  pub contract_id : String
  pub country_code : String
  pub party_id : String

-- An EVSE of a charging station, as the database has it.
pub record StationEvse : Type 0 where
  pub id : ℕ
  pub evse_type_id : Option ℕ

pub record Station : Type 0 where
  pub id : String
  pub evses : List StationEvse

-- What the mappers read of a transaction. `pool` is transaction.location.chargingPool.
pub record Transaction : Type 0 where
  pub id : Option ℕ
  pub transaction_id : String
  pub boundaries : Boundaries
  pub created_at : ℕ
  pub updated_at : ℕ
  pub charging_state : Option String
  pub ocpi_auth_method : Option String
  pub ocpi_auth_reference : Option String
  pub pool : List Station
  pub station_id : String
  pub evse_id : ℕ
  pub connector_id : ℕ
  pub meter_values : List MeterValue

pub record Session : Type 0 where
  pub country_code : String
  pub party_id : String
  pub id : String
  pub start_date_time : ℕ
  pub end_date_time : Option ℕ
  pub kwh : Decimal
  pub cdr_token : CdrToken
  pub auth_method : AuthMethod
  pub location_id : String
  pub evse_uid : String
  pub connector_id : String
  pub currency : String
  pub charging_periods : List ChargingPeriod
  pub status : SessionStatus
  pub last_updated : ℕ
  pub authorization_reference : Option String
  pub total_cost : Option Decimal

-- The fields that mapIncrementalSessionPatch sets; without a new period that field is left out.
pub record SessionPatch : Type 0 where
  pub id : String
  pub end_date_time : Option ℕ
  pub kwh : Decimal
  pub status : SessionStatus
  pub last_updated : ℕ
  pub total_cost : Decimal
  pub charging_periods : Option (List ChargingPeriod)
