-- ===== src/Mapper/Periods/Patches.antt =====
-- A session that is patched with the last charging period after each reading
-- (`mapIncrementalSessionPatch` of 00_Base/src/mapper/SessionMapper.ts) has the periods of a session
-- that is sent whole.
use citrineos_ocpi.Prelude.{
  ℕ, ◌<◌, ◌==◌, ltb, leb, ◌≡◌, inl, inr, refl, sym, ap, ◌∙◌, Option, none, some, String, List, [],
  ◌∷◌, ◌++◌, All, arith, Bool-cases,
}
use citrineos_ocpi.Number.{Decimal}
use citrineos_ocpi.Mapper.Meter.{MeterValue}
use citrineos_ocpi.Mapper.Readings.{
  merge_reading, merge_readings, insert_by_time, sort_by_time, merge_meter_values_by_timestamp,
}
use citrineos_ocpi.Mapper.Readings.Merge.{All-merge_readings}
use citrineos_ocpi.Mapper.Readings.Resent.{merge_readings-append}
use citrineos_ocpi.Mapper.Periods.{
  ChargingPeriod, SessionStart, get_trusted_start_kwh, unshift_start, push_end, periods_of,
  bounded_readings, get_charging_periods, get_cdr_dimensions, last_only,
}

abbrev Earlier : ℕ → List MeterValue → Type 0
Earlier t = All (λ m. m.timestamp < t)

merge_reading_later :
    (ms : List MeterValue) (v : MeterValue)
    → Earlier v.timestamp ms
    → merge_reading ms v ≡ ms ++ v ∷ []
unfolding merge_reading
merge_reading_later [] v h = refl
merge_reading_later (m ∷ ms) v h = elim (Bool-cases (m.timestamp == v.timestamp)) [
  | inl e ↦ absurd (ground (arith, h.0))
  | inr e ↦ rw (e, merge_reading_later ms v h.1) refl
]

insert_by_time-append :
    (w : MeterValue) (ms : List MeterValue) (v : MeterValue)
    → w.timestamp < v.timestamp
    → insert_by_time w (ms ++ v ∷ []) ≡ insert_by_time w ms ++ v ∷ []
unfolding insert_by_time
insert_by_time-append w [] v l = ground arith
insert_by_time-append w (m ∷ ms) v l = elim (Bool-cases (leb w.timestamp m.timestamp)) [
  | inl e ↦ rw e refl
  | inr e ↦ rw (e, insert_by_time-append w ms v l) refl
]

sort_by_time-append :
    (ms : List MeterValue) (v : MeterValue)
    → Earlier v.timestamp ms
    → sort_by_time (ms ++ v ∷ []) ≡ sort_by_time ms ++ v ∷ []
unfolding sort_by_time insert_by_time
sort_by_time-append [] v h = refl
sort_by_time-append (m ∷ ms) v h =
    ap (insert_by_time m) (sort_by_time-append ms v h.1)
    ∙ insert_by_time-append m (sort_by_time ms) v h.0

merge_meter_values_later :
    (vs : List MeterValue) (v : MeterValue)
    → Earlier v.timestamp vs
    → merge_meter_values_by_timestamp (vs ++ v ∷ []) ≡ merge_meter_values_by_timestamp vs ++ v ∷ []
unfolding merge_meter_values_by_timestamp merge_readings
merge_meter_values_later vs v h =
    let earlier = All-merge_readings (λ t. t < v.timestamp) [] vs h tt in
    ap sort_by_time
      (merge_readings-append [] vs (v ∷ []) ∙ merge_reading_later (merge_readings [] vs) v earlier)
    ∙ sort_by_time-append (merge_readings [] vs) v earlier

-- The session starts before the instant.
abbrev pub StartsBefore : ℕ → Option SessionStart → Type 0
StartsBefore t none = Unit
StartsBefore t (some s) = s.timestamp < t

unshift_start-append :
    (rs : List MeterValue) (start : Option SessionStart) (k : Option Decimal) (v : MeterValue)
    → StartsBefore v.timestamp start
    → unshift_start (rs ++ v ∷ []) start k ≡ unshift_start rs start k ++ v ∷ []
unfolding unshift_start
unshift_start-append rs none k v b = refl
unshift_start-append [] (some s) k v b = ground arith
unshift_start-append (r ∷ rs) (some s) k v b = elim (Bool-cases (ltb s.timestamp r.timestamp)) [
  | inl e ↦ rw e refl
  | inr e ↦ rw e refl
]

push_end-none : (rs : List MeterValue) (k : Option Decimal) → push_end rs none k ≡ rs
unfolding push_end
push_end-none [] k = refl
push_end-none (r ∷ rs) k = refl

periods_of-append :
    (tariff_id : String) (k : Option Decimal) (rs : List MeterValue) (v : MeterValue)
    → periods_of tariff_id k (rs ++ v ∷ [])
      ≡ periods_of tariff_id k rs ++ last_only (periods_of tariff_id k (rs ++ v ∷ []))
unfolding periods_of last_only
periods_of-append tariff_id k [] v = refl
periods_of-append tariff_id k (r ∷ []) v = refl
periods_of-append tariff_id k (r ∷ next ∷ []) v = refl
periods_of-append tariff_id k (r ∷ next ∷ after ∷ rs) v =
    ap {B = List ChargingPeriod}
      (λ ps.
        record {
          start_date_time = r.timestamp;
          dimensions = get_cdr_dimensions next r k;
          tariff_id = tariff_id;
        }
        ∷ ps)
      (periods_of-append tariff_id k (next ∷ after ∷ rs) v)

bounded_readings_later :
    (rs : List MeterValue) (start : Option SessionStart) (v : MeterValue)
    → StartsBefore v.timestamp start
    → get_trusted_start_kwh (rs ++ v ∷ []) start ≡ get_trusted_start_kwh rs start
    → bounded_readings (rs ++ v ∷ []) start none ≡ bounded_readings rs start none ++ v ∷ []
unfolding bounded_readings
bounded_readings_later rs start v b trust =
    push_end-none (unshift_start (rs ++ v ∷ []) start _) _
    ∙ ap (unshift_start (rs ++ v ∷ []) start) trust
    ∙ unshift_start-append rs start _ v b
    ∙ ap (λ xs. xs ++ v ∷ []) (sym (push_end-none (unshift_start rs start _) _))

-- A receiver that appends the last period of the transaction, as it is after a new reading, to the
-- periods that it had, has all of them. It is for a session under way, a reading later than the
-- session's start and than all before it, and a start register that the reading leaves as trusted as
-- it was.
pub patches_append :
    (vs : List MeterValue) (v : MeterValue) (tariff_id : String) (start : Option SessionStart)
    → All (λ m. m.timestamp < v.timestamp) vs
    → StartsBefore v.timestamp start
    → get_trusted_start_kwh (merge_meter_values_by_timestamp (vs ++ v ∷ [])) start
      ≡ get_trusted_start_kwh (merge_meter_values_by_timestamp vs) start
    → get_charging_periods (vs ++ v ∷ []) tariff_id start none
      ≡ get_charging_periods vs tariff_id start none
        ++ last_only (get_charging_periods (vs ++ v ∷ []) tariff_id start none)
unfolding get_charging_periods
patches_append vs v tariff_id start h b trust =
    let rs = merge_meter_values_by_timestamp vs in
    let later = merge_meter_values_later vs v h in
    let kept = ap (λ xs. get_trusted_start_kwh xs start) (sym later) ∙ trust in
    rw (later, kept, bounded_readings_later rs start v b kept)
      (periods_of-append tariff_id (get_trusted_start_kwh rs start) (bounded_readings rs start none)
        v)
