-- ===== src/Mapper/Periods/Order.antt =====
-- The order of the charging periods of 00_Base/src/mapper/SessionMapper.ts, and where the first
-- begins and the last ends.
use citrineos_ocpi.Prelude.{
  ℕ, ◌<◌, ltb, inl, inr, Option, none, some, String, List, [], ◌∷◌, ◌++◌, All, All-mono,
  All-append_one, arith, Bool-cases,
}
use citrineos_ocpi.Number.{Decimal}
use citrineos_ocpi.Mapper.Meter.{MeterValue, to_boundary_reading}
use citrineos_ocpi.Mapper.Readings.Merge.{Ascending, merge_meter_values-Ascending}
use citrineos_ocpi.Mapper.Periods.{
  ChargingPeriod, SessionStart, SessionEnd, unshift_start, push_end, last_of, periods_of,
  bounded_readings, get_charging_periods,
}

-- Each period starts before those after it.
abbrev pub StartsAscend : List ChargingPeriod → Type 0
StartsAscend [] = Unit
StartsAscend (p ∷ ps) = All (λ q. p.start_date_time < q.start_date_time) ps × StartsAscend ps

abbrev Before : ℕ → List MeterValue → Type 0
Before t = All (λ w. t < w.timestamp)

periods_of-later :
    (t : ℕ) (tariff_id : String) (k : Option Decimal) (rs : List MeterValue)
    → Before t rs
    → All (λ p. t < p.start_date_time) (periods_of tariff_id k rs)
unfolding periods_of
periods_of-later t tariff_id k [] h = tt
periods_of-later t tariff_id k (r ∷ []) h = tt
periods_of-later t tariff_id k (r ∷ next ∷ rs) h =
    (h.0, periods_of-later t tariff_id k (next ∷ rs) h.1)

periods_of-StartsAscend :
    (tariff_id : String) (k : Option Decimal) (rs : List MeterValue)
    → Ascending rs
    → StartsAscend (periods_of tariff_id k rs)
unfolding periods_of
periods_of-StartsAscend tariff_id k [] h = tt
periods_of-StartsAscend tariff_id k (r ∷ []) h = tt
periods_of-StartsAscend tariff_id k (r ∷ next ∷ rs) h = (
  periods_of-later r.timestamp tariff_id k (next ∷ rs) h.0,
  periods_of-StartsAscend tariff_id k (next ∷ rs) h.1,
)

Before-earlier : (s t : ℕ) (rs : List MeterValue) → s < t → Before t rs → Before s rs
Before-earlier s t rs l h =
    All-mono (λ w. t < w.timestamp) (λ w. s < w.timestamp) rs (λ w m. omega arith) h

unshift_start-Ascending :
    (rs : List MeterValue) (start : Option SessionStart) (k : Option Decimal)
    → Ascending rs
    → Ascending (unshift_start rs start k)
unfolding unshift_start to_boundary_reading
unshift_start-Ascending rs none k h = h
unshift_start-Ascending [] (some s) k h = (tt, tt)
unshift_start-Ascending (r ∷ rs) (some s) k h = elim (Bool-cases (ltb s.timestamp r.timestamp)) [
  | inl e ↦ rw e ((ground arith, Before-earlier s.timestamp r.timestamp rs (ground arith) h.0), h)
  | inr e ↦ rw e h
]

-- The last reading is the latest.
before_last :
    (t : ℕ) (r : MeterValue) (rs : List MeterValue)
    → Ascending (r ∷ rs)
    → (last_of r rs).timestamp < t
    → All (λ w. w.timestamp < t) (r ∷ rs)
unfolding last_of
before_last t r [] h l = (l, tt)
before_last t r (next ∷ rs) h l =
    let later = before_last t next rs h.1 l in (omega (arith, h.0.0, later.0), later)

Ascending-append_one :
    (rs : List MeterValue) (v : MeterValue)
    → Ascending rs
    → All (λ w. w.timestamp < v.timestamp) rs
    → Ascending (rs ++ v ∷ [])
Ascending-append_one [] v h l = (tt, tt)
Ascending-append_one (r ∷ rs) v h l = (
  All-append_one (λ w. r.timestamp < w.timestamp) rs v h.0 l.0,
  Ascending-append_one rs v h.1 l.1,
)

push_end-Ascending :
    (rs : List MeterValue) (end : Option SessionEnd) (k : Option Decimal)
    → Ascending rs
    → Ascending (push_end rs end k)
unfolding push_end to_boundary_reading
push_end-Ascending [] end k h = tt
push_end-Ascending (r ∷ rs) none k h = h
push_end-Ascending (r ∷ rs) (some e) k h =
    elim (Bool-cases (ltb (last_of r rs).timestamp e.timestamp)) [
      | inl l ↦
          rw l (Ascending-append_one (r ∷ rs) _ h (before_last e.timestamp r rs h (ground arith)))
      | inr l ↦ rw l h
    ]

bounded_readings-Ascending :
    (rs : List MeterValue) (start : Option SessionStart) (end : Option SessionEnd)
    → Ascending rs
    → Ascending (bounded_readings rs start end)
unfolding bounded_readings
bounded_readings-Ascending rs start end h =
    push_end-Ascending _ end _ (unshift_start-Ascending rs start _ h)

-- The charging periods of a transaction start at strictly ascending instants, whatever the order
-- and the repetitions of its meter values, and whatever the session's start and end.
pub charging_periods_ascend :
    (meter_values : List MeterValue) (tariff_id : String) (start : Option SessionStart)
    → (end : Option SessionEnd)
    → StartsAscend (get_charging_periods meter_values tariff_id start end)
unfolding get_charging_periods
charging_periods_ascend meter_values tariff_id start end =
    periods_of-StartsAscend tariff_id _ _
      (bounded_readings-Ascending _ start end (merge_meter_values-Ascending meter_values))
