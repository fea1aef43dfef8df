-- ===== src/Mapper/Readings/Merge.antt =====
-- The merged readings of 00_Base/src/mapper/SessionMapper.ts have each timestamp once, in order.
use citrineos_ocpi.Prelude.{
  ℕ, ◌<◌, ◌==◌, leb, ◌≢◌, inl, inr, List, [], ◌∷◌, All, All-mono, arith, Bool-cases,
}
use citrineos_ocpi.Mapper.Meter.{MeterValue}
use citrineos_ocpi.Mapper.Readings.{
  merge_reading, merge_readings, insert_by_time, sort_by_time, merge_meter_values_by_timestamp,
}

-- Each reading is earlier than those after it.
abbrev pub Ascending : List MeterValue → Type 0
Ascending [] = Unit
Ascending (v ∷ vs) = All (λ w. v.timestamp < w.timestamp) vs × Ascending vs

abbrev Others : ℕ → List MeterValue → Type 0
Others t = All (λ m. m.timestamp ≢ t)

abbrev pub DistinctTimes : List MeterValue → Type 0
DistinctTimes [] = Unit
DistinctTimes (v ∷ vs) = Others v.timestamp vs × DistinctTimes vs

Others-merge_reading :
    (t : ℕ) (ms : List MeterValue) (v : MeterValue)
    → v.timestamp ≢ t
    → Others t ms
    → Others t (merge_reading ms v)
unfolding merge_reading
Others-merge_reading t [] v n h = (n, tt)
Others-merge_reading t (m ∷ ms) v n h = elim (Bool-cases (m.timestamp == v.timestamp)) [
  | inl e ↦ rw e h
  | inr e ↦ rw e (h.0, Others-merge_reading t ms v n h.1)
]

merge_reading-DistinctTimes :
    (ms : List MeterValue) (v : MeterValue) → DistinctTimes ms → DistinctTimes (merge_reading ms v)
unfolding merge_reading
merge_reading-DistinctTimes [] v h = (tt, tt)
merge_reading-DistinctTimes (m ∷ ms) v h = elim (Bool-cases (m.timestamp == v.timestamp)) [
  | inl e ↦ rw e h
  | inr e ↦ rw e (
    Others-merge_reading m.timestamp ms v (ground arith) h.0,
    merge_reading-DistinctTimes ms v h.1,
  )
]

merge_readings-DistinctTimes :
    (ms vs : List MeterValue) → DistinctTimes ms → DistinctTimes (merge_readings ms vs)
unfolding merge_readings
merge_readings-DistinctTimes ms [] h = h
merge_readings-DistinctTimes ms (v ∷ vs) h =
    merge_readings-DistinctTimes (merge_reading ms v) vs (merge_reading-DistinctTimes ms v h)

pub All-insert_by_time :
    (P : MeterValue → Type 0) (v : MeterValue) (ms : List MeterValue)
    → P v
    → All P ms
    → All P (insert_by_time v ms)
unfolding insert_by_time
All-insert_by_time P v [] p h = (p, tt)
All-insert_by_time P v (m ∷ ms) p h = elim (Bool-cases (leb v.timestamp m.timestamp)) [
  | inl e ↦ rw e (p, h)
  | inr e ↦ rw e (h.0, All-insert_by_time P v ms p h.1)
]

insert_by_time-Ascending :
    (v : MeterValue) (ms : List MeterValue)
    → Others v.timestamp ms
    → Ascending ms
    → Ascending (insert_by_time v ms)
unfolding insert_by_time
insert_by_time-Ascending v [] o h = (tt, tt)
insert_by_time-Ascending v (m ∷ ms) o h = elim (Bool-cases (leb v.timestamp m.timestamp)) [
  | inl e ↦ rw e (
    (
      ground arith,
      All-mono (λ w. m.timestamp < w.timestamp) (λ w. v.timestamp < w.timestamp) ms
          (λ w l. ground arith) h.0,
    ),
    h,
  )
  | inr e ↦ rw e (
    All-insert_by_time (λ w. m.timestamp < w.timestamp) v ms (ground arith) h.0,
    insert_by_time-Ascending v ms o.1 h.1,
  )
]

pub All-sort_by_time :
    (P : MeterValue → Type 0) (vs : List MeterValue) → All P vs → All P (sort_by_time vs)
unfolding sort_by_time
All-sort_by_time P [] h = tt
All-sort_by_time P (v ∷ vs) h =
    All-insert_by_time P v (sort_by_time vs) h.0 (All-sort_by_time P vs h.1)

sort_by_time-Ascending : (vs : List MeterValue) → DistinctTimes vs → Ascending (sort_by_time vs)
unfolding sort_by_time
sort_by_time-Ascending [] h = tt
sort_by_time-Ascending (v ∷ vs) h =
    insert_by_time-Ascending v (sort_by_time vs)
      (All-sort_by_time (λ m. m.timestamp ≢ v.timestamp) vs h.0) (sort_by_time-Ascending vs h.1)

-- The merged readings are in strictly ascending order of their timestamps.
pub merge_meter_values-Ascending :
    (vs : List MeterValue) → Ascending (merge_meter_values_by_timestamp vs)
unfolding merge_meter_values_by_timestamp
merge_meter_values-Ascending vs =
    sort_by_time-Ascending (merge_readings [] vs) (merge_readings-DistinctTimes [] vs tt)

-- What holds of the readings' timestamps holds of the merged readings' timestamps.
All-merge_reading :
    (P : ℕ → Type 0) (ms : List MeterValue) (v : MeterValue)
    → P v.timestamp
    → All (λ m. P m.timestamp) ms
    → All (λ m. P m.timestamp) (merge_reading ms v)
unfolding merge_reading
All-merge_reading P [] v p h = (p, tt)
All-merge_reading P (m ∷ ms) v p h = elim (Bool-cases (m.timestamp == v.timestamp)) [
  | inl e ↦ rw e h
  | inr e ↦ rw e (h.0, All-merge_reading P ms v p h.1)
]

pub All-merge_readings :
    (P : ℕ → Type 0) (ms vs : List MeterValue)
    → All (λ m. P m.timestamp) vs
    → All (λ m. P m.timestamp) ms
    → All (λ m. P m.timestamp) (merge_readings ms vs)
unfolding merge_readings
All-merge_readings P ms [] h k = k
All-merge_readings P ms (v ∷ vs) h k =
    All-merge_readings P (merge_reading ms v) vs h.1 (All-merge_reading P ms v h.0 k)

pub All-merge_meter_values :
    (P : ℕ → Type 0) (vs : List MeterValue)
    → All (λ m. P m.timestamp) vs
    → All (λ m. P m.timestamp) (merge_meter_values_by_timestamp vs)
unfolding merge_meter_values_by_timestamp
All-merge_meter_values P vs h =
    All-sort_by_time (λ m. P m.timestamp) (merge_readings [] vs) (All-merge_readings P [] vs h tt)
