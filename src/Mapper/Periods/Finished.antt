-- ===== src/Mapper/Periods/Finished.antt =====
-- What the charging periods of a finished session add up to: TIME to the time from its start to its
-- end, ENERGY to the difference of its first and last register (00_Base/src/mapper/SessionMapper.ts).
use citrineos_ocpi.Prelude.{
  ℕ, ◌<◌, ◌≤◌, ltb, ◌≡◌, inl, inr, refl, sym, ap, ◌∙◌, Option, some, String, List, [], ◌∷◌, ◌++◌,
  All, All-append_one, arith, Bool-cases, ltb-true,
}
use citrineos_ocpi.Js.{get_or}
use citrineos_ocpi.Number.{Decimal, whole, finite, sub, round_ocpi_number, to_rounded_hours}
use citrineos_ocpi.Number.Integer.{◌-ℤ◌, scale_ℤ-one}
use citrineos_ocpi.Mapper.Meter.{MeterValue, get_energy_kwh, to_boundary_reading, to_kwh}
use citrineos_ocpi.Mapper.Readings.{merge_meter_values_by_timestamp}
use citrineos_ocpi.Mapper.Readings.Merge.{All-merge_meter_values}
use citrineos_ocpi.Mapper.Periods.{
  DimensionType, SessionStart, SessionEnd, get_trusted_start_kwh, unshift_start, push_end, last_of,
  closing_kwh, end_register, periods_of, bounded_readings, get_charging_periods,
}
use citrineos_ocpi.Mapper.Periods.Totals.{
  total_volume, HasEnergy, register, time-telescopes, energy-telescopes,
}

abbrev FirstAt : ℕ → List MeterValue → Type 0
FirstAt t [] = ⊥
FirstAt t (r ∷ rs) = r.timestamp ≡ t

abbrev LastAt : ℕ → List MeterValue → Type 0
LastAt t [] = ⊥
LastAt t (r ∷ rs) = (last_of r rs).timestamp ≡ t

-- The reading lies within the session.
abbrev pub Within : ℕ → ℕ → MeterValue → Type 0
Within from to v = (from ≤ v.timestamp) × (v.timestamp ≤ to)

unshift_start-FirstAt :
    (rs : List MeterValue) (s : SessionStart) (k : Option Decimal) (to : ℕ)
    → All (Within s.timestamp to) rs
    → FirstAt s.timestamp (unshift_start rs (some s) k)
unfolding unshift_start to_boundary_reading
unshift_start-FirstAt [] s k to h = refl
unshift_start-FirstAt (r ∷ rs) s k to h = elim (Bool-cases (ltb s.timestamp r.timestamp)) [
  | inl l ↦ rw l refl
  | inr l ↦ rw l (ground (arith, h.0.0))
]

unshift_start-Within :
    (rs : List MeterValue) (s : SessionStart) (k : Option Decimal) (to : ℕ)
    → s.timestamp ≤ to
    → All (Within s.timestamp to) rs
    → All (Within s.timestamp to) (unshift_start rs (some s) k)
unfolding unshift_start to_boundary_reading
unshift_start-Within [] s k to b h = ((omega arith, b), tt)
unshift_start-Within (r ∷ rs) s k to b h = elim (Bool-cases (ltb s.timestamp r.timestamp)) [
  | inl l ↦ rw l ((omega arith, b), h)
  | inr l ↦ rw l h
]

last_of-append_one :
    (r : MeterValue) (rs : List MeterValue) (v : MeterValue) → last_of r (rs ++ v ∷ []) ≡ v
unfolding last_of
last_of-append_one r [] v = refl
last_of-append_one r (next ∷ rs) v = last_of-append_one next rs v

All-last_of :
    (P : MeterValue → Type 0) (r : MeterValue) (rs : List MeterValue)
    → P r
    → All P rs
    → P (last_of r rs)
unfolding last_of
All-last_of P r [] p h = p
All-last_of P r (next ∷ rs) p h = All-last_of P next rs h.0 h.1

push_end-FirstAt :
    (t : ℕ) (rs : List MeterValue) (e : SessionEnd) (k : Option Decimal)
    → FirstAt t rs
    → FirstAt t (push_end rs (some e) k)
unfolding push_end
push_end-FirstAt t [] e k h = absurd h
push_end-FirstAt t (r ∷ rs) e k h = elim (Bool-cases (ltb (last_of r rs).timestamp e.timestamp)) [
  | inl l ↦ rw l h
  | inr l ↦ rw l h
]

push_end-LastAt :
    (t from : ℕ) (rs : List MeterValue) (e : SessionEnd) (k : Option Decimal)
    → FirstAt t rs
    → All (Within from e.timestamp) rs
    → LastAt e.timestamp (push_end rs (some e) k)
unfolding push_end to_boundary_reading
push_end-LastAt t from [] e k f h = absurd f
push_end-LastAt t from (r ∷ rs) e k f h =
    elim (Bool-cases (ltb (last_of r rs).timestamp e.timestamp)) [
      | inl l ↦ rw l (ap (λ v. v.timestamp) (last_of-append_one r rs _))
      | inr l ↦ rw l (ground (arith, (All-last_of (Within from e.timestamp) r rs h.0 h.1).1))
    ]

total_time_of :
    (from to : ℕ) (tariff_id : String) (k : Option Decimal) (rs : List MeterValue)
    → FirstAt from rs
    → LastAt to rs
    → total_volume DimensionType.time (periods_of tariff_id k rs)
      ≡ finite (round_ocpi_number (sub (to_rounded_hours to) (to_rounded_hours from)))
total_time_of from to tariff_id k [] f l = absurd f
total_time_of from to tariff_id k (r ∷ rs) f l =
    rw (sym f, sym l) (time-telescopes tariff_id k r rs)

-- The TIME volumes of the charging periods of a finished session add up to the rounded time from
-- its start to its end, where all its readings lie between the two.
pub charging_periods-time :
    (meter_values : List MeterValue) (tariff_id : String) (s : SessionStart) (e : SessionEnd)
    → s.timestamp ≤ e.timestamp
    → All (Within s.timestamp e.timestamp) meter_values
    → total_volume DimensionType.time
        (get_charging_periods meter_values tariff_id (some s) (some e))
      ≡ finite
          (round_ocpi_number (sub (to_rounded_hours e.timestamp) (to_rounded_hours s.timestamp)))
unfolding get_charging_periods bounded_readings
charging_periods-time meter_values tariff_id s e b h =
    let readings = merge_meter_values_by_timestamp meter_values in
    let k = get_trusted_start_kwh readings (some s) in
    let within =
      All-merge_meter_values (λ t. (s.timestamp ≤ t) × (t ≤ e.timestamp)) meter_values h in
    let first = unshift_start-FirstAt readings s k e.timestamp within in
    total_time_of s.timestamp e.timestamp tariff_id k
      (push_end (unshift_start readings (some s) k) (some e) k)
      (push_end-FirstAt s.timestamp (unshift_start readings (some s) k) e k first)
      (push_end-LastAt s.timestamp s.timestamp (unshift_start readings (some s) k) e k first
        (unshift_start-Within readings s k e.timestamp b within))

-- A boundary reading has the energy that it was made from.
get_energy_kwh-boundary :
    (t : ℕ) (x : Decimal) → get_energy_kwh (to_boundary_reading t (some x)) ≡ some x
unfolding get_energy_kwh to_boundary_reading to_kwh ◌-ℤ◌
get_energy_kwh-boundary t x =
    ap (λ u. some (record { units = u; scale = x.scale })) (scale_ℤ-one x.units)

bounded-eq :
    (s : SessionStart) (e : SessionEnd) (r : MeterValue) (rs : List MeterValue) (from to : Decimal)
    → s.timestamp < r.timestamp
    → (last_of r rs).timestamp < e.timestamp
    → closing_kwh (end_register (some from) e.total_kwh) (get_energy_kwh (last_of r rs)) ≡ some to
    → push_end (unshift_start (r ∷ rs) (some s) (some from)) (some e) (some from)
      ≡ to_boundary_reading s.timestamp (some from)
        ∷ (r ∷ rs ++ to_boundary_reading e.timestamp (some to) ∷ [])
unfolding unshift_start push_end last_of
bounded-eq s e r rs from to before after close =
    rw
      (
        ltb-true s.timestamp r.timestamp before,
        ltb-true (last_of r rs).timestamp e.timestamp after,
        close,
      )
      refl

register-boundary : (t : ℕ) (x : Decimal) → register (to_boundary_reading t (some x)) ≡ x
register-boundary t x = ap (λ o. get_or o (whole 0)) (get_energy_kwh-boundary t x)

total_energy_of :
    (tariff_id : String) (k : Option Decimal) (start end : ℕ) (from to : Decimal)
    (rs : List MeterValue)
    → All HasEnergy rs
    → total_volume DimensionType.energy (
        periods_of tariff_id k
          (to_boundary_reading start (some from) ∷ (rs ++ to_boundary_reading end (some to) ∷ [])))
      ≡ finite (round_ocpi_number (sub (round_ocpi_number to) (round_ocpi_number from)))
total_energy_of tariff_id k start end from to rs h =
    let first = to_boundary_reading start (some from) in
    let last = to_boundary_reading end (some to) in
    energy-telescopes tariff_id k first (rs ++ last ∷ []) (from, get_energy_kwh-boundary start from)
      (All-append_one HasEnergy rs last h (to, get_energy_kwh-boundary end to))
    ∙ rw (last_of-append_one first rs last, register-boundary start from, register-boundary end to)
        refl

-- The ENERGY volumes of the charging periods of a finished session add up to the difference of the
-- rounded registers at its start and at its end. It is for a session with readings that all have an
-- energy and lie strictly between the two ends, whose start register `from` is trusted, and whose
-- end register `to` is not below the last reading.
pub charging_periods-energy :
    (meter_values : List MeterValue) (tariff_id : String) (s : SessionStart) (e : SessionEnd)
    → (r : MeterValue) (rs : List MeterValue) (from to : Decimal)
    → merge_meter_values_by_timestamp meter_values ≡ r ∷ rs
    → s.timestamp < r.timestamp
    → (last_of r rs).timestamp < e.timestamp
    → All HasEnergy (r ∷ rs)
    → get_trusted_start_kwh (r ∷ rs) (some s) ≡ some from
    → closing_kwh (end_register (some from) e.total_kwh) (get_energy_kwh (last_of r rs)) ≡ some to
    → total_volume DimensionType.energy
        (get_charging_periods meter_values tariff_id (some s) (some e))
      ≡ finite (round_ocpi_number (sub (round_ocpi_number to) (round_ocpi_number from)))
unfolding get_charging_periods bounded_readings
charging_periods-energy meter_values tariff_id s e r rs from to m before after h trust close =
    rw (m, trust, bounded-eq s e r rs from to before after close)
      (total_energy_of tariff_id (some from) s.timestamp e.timestamp from to (r ∷ rs) h)
