-- ===== src/Mapper/Readings.antt =====
-- The readings of a transaction, one for each timestamp and in their order:
-- `mergeMeterValuesByTimestamp` of 00_Base/src/mapper/SessionMapper.ts.
pub mod Merge
pub mod Resent
use citrineos_ocpi.Prelude.{
  ℕ, ◌==◌, leb, Bool, true, false, ◌&&◌, List, [], ◌∷◌, ◌++◌, if◌then◌else◌,
}
use citrineos_ocpi.Js.{strict_eq}
use citrineos_ocpi.Mapper.Meter.{SampledValue, MeterValue}

unfoldable pub same_sample : SampledValue → SampledValue → Bool
same_sample existing s =
    strict_eq existing.measurand s.measurand
    && strict_eq existing.phase s.phase
    && strict_eq existing.location s.location

-- merged.sampledValue.some(...)
unfoldable pub already_merged : List SampledValue → SampledValue → Bool
already_merged [] s = false
already_merged (existing ∷ rest) s = if same_sample existing s then true else already_merged rest s

unfoldable pub push_sample : List SampledValue → SampledValue → List SampledValue
push_sample merged s = if already_merged merged s then merged else merged ++ s ∷ []

unfoldable pub push_samples : List SampledValue → List SampledValue → List SampledValue
push_samples merged [] = merged
push_samples merged (s ∷ ss) = push_samples (push_sample merged s) ss

-- One round of the loop. The map from times to readings is the list of the readings, in the order
-- in which they were set.
unfoldable pub merge_reading : List MeterValue → MeterValue → List MeterValue
merge_reading [] v = v ∷ []
merge_reading (m ∷ ms) v =
    if m.timestamp == v.timestamp
    then record m { sampled_value = push_samples m.sampled_value v.sampled_value } ∷ ms
    else m ∷ merge_reading ms v

unfoldable pub merge_readings : List MeterValue → List MeterValue → List MeterValue
merge_readings merged [] = merged
merge_readings merged (v ∷ vs) = merge_readings (merge_reading merged v) vs

unfoldable pub insert_by_time : MeterValue → List MeterValue → List MeterValue
insert_by_time v [] = v ∷ []
insert_by_time v (m ∷ ms) =
    if leb v.timestamp m.timestamp then v ∷ m ∷ ms else m ∷ insert_by_time v ms

-- entries.sort(([a], [b]) => a - b)
unfoldable pub sort_by_time : List MeterValue → List MeterValue
sort_by_time [] = []
sort_by_time (v ∷ vs) = insert_by_time v (sort_by_time vs)

unfoldable pub merge_meter_values_by_timestamp : List MeterValue → List MeterValue
merge_meter_values_by_timestamp vs = sort_by_time (merge_readings [] vs)
