-- ===== src/Mapper/Tests.antt =====
-- Runs of the mappers on small transactions, and uses of the theorems about them.
use mathlib.Core.List.{Memᴰ}
use citrineos_ocpi.Prelude.{
  ℕ, ◌<◌, ◌≡◌, refl, Bool, true, false, String, none, some, List, [], ◌∷◌, ◌++◌, map, All, arith,
}
use citrineos_ocpi.Js.{undefined, value}
use citrineos_ocpi.Exec.{ok}
use citrineos_ocpi.Number.{
  Decimal, finite, whole, sub, add, ticks, round_ocpi_number, at_most, multiply, round_cents, less,
}
use citrineos_ocpi.Number.Integer.{pos, scale_ℤ, floor_div, ◌+ℤ◌, ◌-ℤ◌, ◌*ℤ◌}
use citrineos_ocpi.Mapper.Meter.{SampledValue, MeterValue, get_energy_kwh, to_kwh}
use citrineos_ocpi.Mapper.Readings.{
  merge_reading, merge_readings, insert_by_time, sort_by_time, merge_meter_values_by_timestamp,
}
use citrineos_ocpi.Mapper.Periods.{
  DimensionType, Boundaries, SessionStart, SessionEnd, get_charging_periods, get_trusted_start_kwh,
  trusted_number, first_kwh, not_above, closing_kwh, end_register, last_of, last_only,
}
use citrineos_ocpi.Mapper.Periods.Totals.{total_volume, HasEnergy}
use citrineos_ocpi.Mapper.Periods.Order.{StartsAscend, charging_periods_ascend}
use citrineos_ocpi.Mapper.Periods.Finished.{charging_periods-energy}
use citrineos_ocpi.Mapper.Periods.Patches.{patches_append}
use citrineos_ocpi.Mapper.Periods.Resent.{charging_periods_resent}
use citrineos_ocpi.Mapper.Data.{PriceComponent, Tariff, Location, CdrToken, Transaction}
use citrineos_ocpi.Mapper.Session.{
  session_of, get_evse_uid, resolve_evse_type_id, find_station, find_evse_type,
  calculate_total_cost, cost_at, price_per_kwh,
}
use citrineos_ocpi.Mapper.Lookups.{Loaders}
use citrineos_ocpi.Mapper.Cdr.{Cdr, cdr_of}
use citrineos_ocpi.Mapper.Cdr.Totals.{cdr-time}
use citrineos_ocpi.Mapper.Batch.{is_completed, get_completed_transactions, map_transactions_to_cdrs}
use citrineos_ocpi.Mapper.Batch.Completed.{Ready, completed_once}

-- A register of Wh, without a measurand.
abbrev register_wh : ℕ → SampledValue
register_wh n = record {
  amount = finite (whole n);
  measurand = undefined;
  phase = undefined;
  location = undefined;
  unit_of_measure = none;
}

abbrev reading : ℕ → ℕ → MeterValue
reading at wh = record { timestamp = at; sampled_value = register_wh wh ∷ [] }

-- 10 000 Wh at minute 10, and 12 500 Wh at minute 20.
abbrev readings : List MeterValue
readings = reading 600000 10000 ∷ reading 1200000 12500 ∷ []

-- From minute 0 at 9 kWh to minute 30.
abbrev start : SessionStart
start = record { timestamp = 0; energy_kwh = some (finite (whole 9)) }

abbrev finish : SessionEnd
finish = record { timestamp = 1800000; total_kwh = some (whole 4) }

-- 0.00005 kWh
abbrev tiny : Decimal
tiny = record { units = pos 5; scale = 5 }

kwh_of_wh : get_energy_kwh (reading 0 12500) ≡ some (record { units = pos 12500; scale = 3 })
unfolding get_energy_kwh to_kwh ◌-ℤ◌
kwh_of_wh = refl

charging_periods_ascend_example : StartsAscend (get_charging_periods readings "t" none none)
charging_periods_ascend_example = charging_periods_ascend readings "t" none none

charging_periods_resent_example :
    get_charging_periods (readings ++ reading 600000 10000 ∷ []) "t" (some start) none
    ≡ get_charging_periods readings "t" (some start) none
charging_periods_resent_example =
    charging_periods_resent readings (reading 600000 10000 ∷ []) "t" (some start) none
      (Memᴰ.head refl, tt)

trusted_before :
    get_trusted_start_kwh
      (merge_meter_values_by_timestamp (readings ++ reading 1800000 13000 ∷ []))
      (some start)
    ≡ get_trusted_start_kwh (merge_meter_values_by_timestamp readings) (some start)
unfolding merge_meter_values_by_timestamp merge_readings merge_reading sort_by_time insert_by_time
    get_trusted_start_kwh trusted_number first_kwh not_above get_energy_kwh to_kwh ◌-ℤ◌ scale_ℤ add
    less ◌+ℤ◌
trusted_before = refl

patches_append_example :
    get_charging_periods (readings ++ reading 1800000 13000 ∷ []) "t" (some start) none
    ≡ get_charging_periods readings "t" (some start) none
      ++ last_only
          (get_charging_periods (readings ++ reading 1800000 13000 ∷ []) "t" (some start) none)
patches_append_example =
    patches_append readings (reading 1800000 13000) "t" (some start)
      (omega arith, (omega arith, tt)) (omega arith) trusted_before

merged_readings : merge_meter_values_by_timestamp readings ≡ readings
unfolding merge_meter_values_by_timestamp merge_readings merge_reading sort_by_time insert_by_time
merged_readings = refl

abbrev first_register : Decimal
first_register = record { units = pos 10000; scale = 3 }

abbrev last_register : Decimal
last_register = record { units = pos 12500; scale = 3 }

registers : All HasEnergy readings
unfolding get_energy_kwh to_kwh ◌-ℤ◌
registers = ((first_register, refl), ((last_register, refl), tt))

last_before_end : (last_of (reading 600000 10000) (reading 1200000 12500 ∷ [])).timestamp < 1800000
unfolding last_of
last_before_end = omega arith

trusted_start : get_trusted_start_kwh readings (some start) ≡ some (whole 9)
unfolding get_trusted_start_kwh trusted_number first_kwh not_above get_energy_kwh to_kwh ◌-ℤ◌
    scale_ℤ add less ◌+ℤ◌
trusted_start = refl

closing_register :
    closing_kwh
      (end_register (some (whole 9)) (some (whole 4)))
      (get_energy_kwh (last_of (reading 600000 10000) (reading 1200000 12500 ∷ [])))
    ≡ some (whole 13)
unfolding closing_kwh end_register get_energy_kwh to_kwh ◌-ℤ◌ last_of scale_ℤ add sub less at_most
    ◌+ℤ◌
closing_register = refl

-- 13 kWh less 9 kWh.
charging_periods-energy_example :
    total_volume DimensionType.energy (get_charging_periods readings "t" (some start) (some finish))
    ≡ finite (round_ocpi_number (sub (round_ocpi_number (whole 13)) (round_ocpi_number (whole 9))))
charging_periods-energy_example =
    charging_periods-energy readings "t" start finish (reading 600000 10000)
      (reading 1200000 12500 ∷ []) (whole 9) (whole 13) merged_readings (omega arith)
      last_before_end registers trusted_start closing_register

-- The rounded registers at the two ends of a session may differ by other than its rounded energy: a
-- start at 0.00005 kWh and an energy of 0.00005 kWh.
rounded_apart :
    (round_ocpi_number (sub (round_ocpi_number (add tiny tiny)) (round_ocpi_number tiny))
      ≡ record { units = pos 0; scale = 4 })
    × (round_ocpi_number tiny ≡ record { units = pos 1; scale = 4 })
unfolding round_ocpi_number ticks sub add ◌-ℤ◌ ◌+ℤ◌ scale_ℤ floor_div
rounded_apart = (refl, refl)

abbrev price : PriceComponent
price = record { component_type = "ENERGY"; price = some (record { units = pos 25; scale = 2 }) }

abbrev tariff : Tariff
tariff = record { ocpi_tariff_id = "t"; currency = "EUR"; elements = (price ∷ []) ∷ [] }

abbrev location : Location
location = record { country_code = "FR"; party_id = "ZTA"; id = "1"; evses = [] }

abbrev token : CdrToken
token = record {
  uid = "u";
  token_type = "RFID";
  contract_id = "c";
  country_code = "FR";
  party_id = "EMS";
}

abbrev boundaries : Bool → Boundaries
boundaries active = record {
  start_time = some 0;
  end_time = some 1800000;
  meter_start = value (finite (whole 9));
  is_active = value active;
  total_kwh = value (whole 4);
}

abbrev transaction : String → Bool → Transaction
transaction id active = record {
  id = some 7;
  transaction_id = id;
  boundaries = boundaries active;
  created_at = 0;
  updated_at = 1800000;
  charging_state = none;
  ocpi_auth_method = none;
  ocpi_auth_reference = none;
  pool = record { id = "cs"; evses = record { id = 2; evse_type_id = some 1 } ∷ [] } ∷ [];
  station_id = "cs";
  evse_id = 2;
  connector_id = 12;
  meter_values = readings;
}

uid_of : get_evse_uid (transaction "x" false) ≡ ok "cs::1"
unfolding get_evse_uid resolve_evse_type_id find_station find_evse_type
uid_of = refl

-- 4 kWh at 0.25.
cost_of_energy :
    calculate_total_cost (whole 4) tariff.elements ≡ record { units = pos 100; scale = 2 }
unfolding calculate_total_cost cost_at price_per_kwh multiply less round_cents scale_ℤ ◌*ℤ◌ ◌+ℤ◌
    floor_div
cost_of_energy = refl

cdr-time_example :
    total_volume DimensionType.time
      (cdr_of
        (session_of (transaction "x" false) location token tariff "cs::1")
        location
        tariff
        none
        7).charging_periods
    ≡ finite
        (cdr_of
          (session_of (transaction "x" false) location token tariff "cs::1")
          location
          tariff
          none
          7).total_time
cdr-time_example =
    cdr-time (transaction "x" false) location token tariff "cs::1" none 7 0 1800000 refl refl refl
      (omega arith) ((omega arith, omega arith), ((omega arith, omega arith), tt))

abbrev loaders : Loaders
loaders = record {
  location = λ t. ok (some location);
  token = λ t. ok (some token);
  tariff = λ t. ok (some tariff);
  ocpi_tariff = λ s. ok none;
}

abbrev transactions : List Transaction
transactions = transaction "x" false ∷ transaction "y" true ∷ transaction "z" false ∷ []

ready : All (Ready loaders) (get_completed_transactions transactions)
unfolding get_completed_transactions is_completed get_evse_uid resolve_evse_type_id find_station
    find_evse_type
ready = (
  ((location, refl), (token, refl), (tariff, refl), ("cs::1", refl), (7, refl)),
  (((location, refl), (token, refl), (tariff, refl), ("cs::1", refl), (7, refl)), tt),
)

completed_once_example :
    (cdrs : List Cdr) × (map_transactions_to_cdrs loaders transactions ≡ ok cdrs)
    × (map (λ c. c.session_id) cdrs
        ≡ map (λ t. t.transaction_id) (get_completed_transactions transactions))
completed_once_example =
    completed_once loaders transactions
      ((some location, refl), ((some location, refl), ((some location, refl), tt))) ready
      (λ s. (none, refl))
