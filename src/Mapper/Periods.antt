-- ===== src/Mapper/Periods.antt =====
-- The charging periods of a session: `getChargingPeriods` and the methods that it calls, of
-- 00_Base/src/mapper/SessionMapper.ts.
pub mod Totals
pub mod Order
pub mod Finished
pub mod Patches
pub mod Resent
use citrineos_ocpi.Prelude.{
  ℕ, ltb, String, Bool, true, false, not, Option, none, some, List, [], ◌∷◌, ◌++◌, str_eq,
  if◌then◌else◌,
}
use citrineos_ocpi.Js.{Nullable, undefined, null, value}
use citrineos_ocpi.Number.{
  Decimal, JsNumber, nan, finite, whole, add, sub, less, at_most, round_ocpi_number, round_js,
  to_rounded_hours,
}
use citrineos_ocpi.Number.Integer.{pos}
use citrineos_ocpi.Mapper.Meter.{SampledValue, MeterValue, get_energy_kwh, to_boundary_reading}
use citrineos_ocpi.Mapper.Readings.{merge_meter_values_by_timestamp}

-- The members of CdrDimensionType that the mapper sends.
pub data DimensionType : Type 0 where
  current energy energy_import state_of_charge time : DimensionType

pub record CdrDimension : Type 0 where
  pub dimension_type : DimensionType
  pub volume : JsNumber

pub record ChargingPeriod : Type 0 where
  pub start_date_time : ℕ
  pub dimensions : List CdrDimension
  pub tariff_id : String

pub record SessionStart : Type 0 where
  pub timestamp : ℕ
  pub energy_kwh : Option JsNumber

pub record SessionEnd : Type 0 where
  pub timestamp : ℕ
  pub total_kwh : Option Decimal

-- The columns of a transaction that the session's boundaries are read from. A missing time is none.
pub record Boundaries : Type 0 where
  pub start_time : Option ℕ
  pub end_time : Option ℕ
  pub meter_start : Nullable JsNumber
  pub is_active : Nullable Bool
  pub total_kwh : Nullable Decimal

-- 1e-6
abbrev energy_tolerance_kwh : Decimal
energy_tolerance_kwh = record { units = pos 1; scale = 6 }

abbrev pub defined {ℓ} : {A : Type ℓ} → Nullable A → Option A
defined (value a) = some a
defined undefined = none
defined null = none

unfoldable pub get_session_start : Boundaries → Option SessionStart
get_session_start t = elim t.start_time [
  | none ↦ none
  | some at ↦ some (record { timestamp = at; energy_kwh = defined t.meter_start })
]

-- isActive !== false
abbrev pub may_be_active : Nullable Bool → Bool
may_be_active (value b) = b
may_be_active _ = true

unfoldable pub get_session_end : Boundaries → Option SessionEnd
get_session_end t = if may_be_active t.is_active then none else elim t.end_time [
  | none ↦ none
  | some at ↦ some (record { timestamp = at; total_kwh = defined t.total_kwh })
]

-- The first defined energy.
unfoldable pub first_kwh : List MeterValue → Option Decimal
first_kwh [] = none
first_kwh (r ∷ rs) = elim (get_energy_kwh r) [ some x ↦ some x | none ↦ first_kwh rs ]

unfoldable pub not_above : Decimal → Option Decimal → Option Decimal
not_above start none = some start
not_above start (some first) =
    if less (add first energy_tolerance_kwh) start then none else some start

unfoldable pub trusted_number : List MeterValue → Option JsNumber → Option Decimal
trusted_number readings none = none
trusted_number readings (some nan) = none
trusted_number readings (some (finite start)) =
    if less start (whole 0) then none else not_above start (first_kwh readings)

unfoldable pub get_trusted_start_kwh : List MeterValue → Option SessionStart → Option Decimal
get_trusted_start_kwh readings none = none
get_trusted_start_kwh readings (some start) = trusted_number readings start.energy_kwh

-- The session start as the first reading, where it is the earliest.
unfoldable pub unshift_start :
    List MeterValue → Option SessionStart → Option Decimal → List MeterValue
unshift_start readings none start_kwh = readings
unshift_start [] (some start) start_kwh = to_boundary_reading start.timestamp start_kwh ∷ []
unshift_start (r ∷ rs) (some start) start_kwh =
    if ltb start.timestamp r.timestamp
    then to_boundary_reading start.timestamp start_kwh ∷ r ∷ rs
    else r ∷ rs

unfoldable pub last_of : MeterValue → List MeterValue → MeterValue
last_of r [] = r
last_of r (next ∷ rs) = last_of next rs

unfoldable pub end_register : Option Decimal → Option Decimal → Option Decimal
end_register (some start) (some total) = some (add start total)
end_register (some start) none = none
end_register none total = none

-- Math.max
abbrev maximum : Decimal → Decimal → Decimal
maximum x y = if less x y then y else x

-- The register of the closing reading, from endKwh and lastKwh.
unfoldable pub closing_kwh : Option Decimal → Option Decimal → Option Decimal
closing_kwh none last = none
closing_kwh (some end) none = some end
closing_kwh (some end) (some last) =
    if at_most (sub last energy_tolerance_kwh) end then some (maximum end last) else none

-- The session end as the last reading, where it is the latest. Without a reading there is none.
unfoldable pub push_end : List MeterValue → Option SessionEnd → Option Decimal → List MeterValue
push_end [] end start_kwh = []
push_end (r ∷ rs) none start_kwh = r ∷ rs
push_end (r ∷ rs) (some end) start_kwh =
    let last = last_of r rs in
    if ltb last.timestamp end.timestamp
    then (r ∷ rs)
      ++ to_boundary_reading end.timestamp
          (closing_kwh (end_register start_kwh end.total_kwh) (get_energy_kwh last))
        ∷ []
    else r ∷ rs

unfoldable pub energy_import_dimension : Decimal → Option Decimal → List CdrDimension
energy_import_dimension x none = []
energy_import_dimension x (some start) =
    record {
      dimension_type = DimensionType.energy_import;
      volume = finite (round_ocpi_number (sub x start));
    }
    ∷ []

unfoldable pub energy_dimension : Decimal → Option Decimal → List CdrDimension
energy_dimension x none = []
energy_dimension x (some previous) =
    record {
      dimension_type = DimensionType.energy;
      volume = finite (round_ocpi_number (sub (round_ocpi_number x) (round_ocpi_number previous)));
    }
    ∷ []

unfoldable pub energy_dimensions :
    Option Decimal → Option Decimal → Option Decimal → List CdrDimension
energy_dimensions none previous start_kwh = []
energy_dimensions (some x) previous start_kwh =
    energy_import_dimension x start_kwh ++ energy_dimension x previous

abbrev is_neutral : Nullable String → Bool
is_neutral (value p) = str_eq p "N"
is_neutral _ = false

-- The `switch` over the measurand.
unfoldable pub sample_dimension : Nullable String → SampledValue → List CdrDimension
sample_dimension (value m) s =
    if str_eq m "Current.Import"
    then (if is_neutral s.phase
        then record { dimension_type = DimensionType.current; volume = round_js s.amount } ∷ []
        else [])
    else if str_eq m "SoC"
    then record { dimension_type = DimensionType.state_of_charge; volume = round_js s.amount } ∷ []
    else []
sample_dimension _ s = []

unfoldable pub sample_dimensions : List SampledValue → List CdrDimension
sample_dimensions [] = []
sample_dimensions (s ∷ ss) = sample_dimension s.measurand s ++ sample_dimensions ss

unfoldable pub get_time_elapsed_for_meter_value : MeterValue → MeterValue → Decimal
get_time_elapsed_for_meter_value v previous =
    round_ocpi_number (sub (to_rounded_hours v.timestamp) (to_rounded_hours previous.timestamp))

unfoldable pub get_cdr_dimensions : MeterValue → MeterValue → Option Decimal → List CdrDimension
get_cdr_dimensions v previous start_kwh =
    energy_dimensions (get_energy_kwh v) (get_energy_kwh previous) start_kwh
    ++ sample_dimensions v.sampled_value
    ++ record {
      dimension_type = DimensionType.time;
      volume = finite (get_time_elapsed_for_meter_value v previous);
    }
      ∷ []

-- readings.slice(0, -1).map(...): a period from each reading to the next.
unfoldable pub periods_of : String → Option Decimal → List MeterValue → List ChargingPeriod
periods_of tariff_id start_kwh [] = []
periods_of tariff_id start_kwh (r ∷ []) = []
periods_of tariff_id start_kwh (r ∷ next ∷ rs) =
    record {
      start_date_time = r.timestamp;
      dimensions = get_cdr_dimensions next r start_kwh;
      tariff_id = tariff_id;
    }
    ∷ periods_of tariff_id start_kwh (next ∷ rs)

-- The readings with the session's boundaries.
unfoldable pub bounded_readings :
    List MeterValue → Option SessionStart → Option SessionEnd → List MeterValue
bounded_readings readings start end =
    let start_kwh = get_trusted_start_kwh readings start in
    push_end (unshift_start readings start start_kwh) end start_kwh

unfoldable pub get_charging_periods :
    List MeterValue → String → Option SessionStart → Option SessionEnd → List ChargingPeriod
get_charging_periods meter_values tariff_id start end =
    let readings = merge_meter_values_by_timestamp meter_values in
    periods_of tariff_id (get_trusted_start_kwh readings start)
      (bounded_readings readings start end)

-- xs.slice(-1)
unfoldable pub last_only : List ChargingPeriod → List ChargingPeriod
last_only [] = []
last_only (p ∷ []) = p ∷ []
last_only (p ∷ q ∷ ps) = last_only (q ∷ ps)
