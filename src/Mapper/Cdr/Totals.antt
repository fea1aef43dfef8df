-- ===== src/Mapper/Cdr/Totals.antt =====
-- The charging periods of a CDR add up to its total time (00_Base/src/mapper/CdrMapper.ts).
use citrineos_ocpi.Prelude.{
  ℕ, ◌≤◌, ◌==◌, ◌≡◌, inl, inr, refl, sym, ap, ◌∙◌, false, Option, some, String, List, [], ◌∷◌, ◌++◌,
  keep, map, All, arith, Bool-cases,
}
use citrineos_ocpi.Js.{value}
use citrineos_ocpi.Number.{finite}
use citrineos_ocpi.Mapper.Periods.{
  DimensionType, CdrDimension, ChargingPeriod, get_session_start, get_session_end,
}
use citrineos_ocpi.Mapper.Periods.Totals.{type_index, sum_of, dimensions_of, total_volume}
use citrineos_ocpi.Mapper.Periods.Finished.{Within, charging_periods-time}
use citrineos_ocpi.Mapper.Data.{Tariff, Location, CdrToken, Transaction}
use citrineos_ocpi.Mapper.Session.{session_of}
use citrineos_ocpi.Mapper.Cdr.{
  in_cdr, cdr_period, has_dimensions, format_charging_periods_cdr, calculate_total_time, cdr_of,
}

-- The dimension stays in a CDR.
abbrev Stays : DimensionType → Type 0
Stays t =
    (d : CdrDimension) → in_cdr d ≡ false → (type_index d.dimension_type == type_index t) ≡ false

time_stays : Stays DimensionType.time
time_stays d h = ground arith

sum_of-keep :
    (t : DimensionType) (ds es fs : List CdrDimension)
    → Stays t
    → sum_of t es ≡ sum_of t fs
    → sum_of t (keep in_cdr ds ++ es) ≡ sum_of t (ds ++ fs)
unfolding sum_of
sum_of-keep t [] es fs s h = h
sum_of-keep t (d ∷ ds) es fs s h = elim (Bool-cases (in_cdr d)) [
  | inl e ↦ rw (e, sum_of-keep t ds es fs s h) refl
  | inr e ↦ rw (e, s d e) (sum_of-keep t ds es fs s h)
]

without_dimensions : (ds es : List CdrDimension) → has_dimensions ds ≡ false → ds ++ es ≡ es
without_dimensions [] es h = refl
without_dimensions (d ∷ ds) es h = ground arith

-- The periods of a CDR have the volumes of the session's periods, of each dimension that stays.
format_charging_periods-total :
    (t : DimensionType) (ps : List ChargingPeriod)
    → Stays t
    → total_volume t (format_charging_periods_cdr ps) ≡ total_volume t ps
unfolding total_volume format_charging_periods_cdr
format_charging_periods-total t [] s = refl
format_charging_periods-total t (p ∷ ps) s =
    let rest = keep (λ q. has_dimensions q.dimensions) (map cdr_period ps) in
    let same =
      sum_of-keep t p.dimensions (dimensions_of rest) (dimensions_of ps) s
        (format_charging_periods-total t ps s) in
    elim (Bool-cases (has_dimensions (keep in_cdr p.dimensions))) [
      | inl e ↦ rw e same
      | inr e ↦ rw e (
          ap (sum_of t) (sym (without_dimensions (keep in_cdr p.dimensions) (dimensions_of rest) e))
          ∙ same)
    ]

-- The TIME volumes of the charging periods of a finished transaction's CDR add up to the total_time
-- of the CDR, where the transaction's meter values lie between its start and its end.
pub cdr-time :
    (t : Transaction) (location : Location) (token : CdrToken) (tariff : Tariff) (uid : String)
    → (ocpi_tariff : Option String) (db_id start end : ℕ) → t.boundaries.start_time ≡ some start
    → t.boundaries.end_time ≡ some end
    → t.boundaries.is_active ≡ value false
    → start ≤ end
    → All (Within start end) t.meter_values
    → total_volume DimensionType.time
        (cdr_of
          (session_of t location token tariff uid)
          location
          tariff
          ocpi_tariff
          db_id).charging_periods
      ≡ finite
          (cdr_of
            (session_of t location token tariff uid)
            location
            tariff
            ocpi_tariff
            db_id).total_time
unfolding cdr_of session_of calculate_total_time get_session_start get_session_end
cdr-time t location token tariff uid ocpi_tariff db_id start end s e a l within =
    format_charging_periods-total DimensionType.time _ time_stays
    ∙ rw (s, e, a) (charging_periods-time t.meter_values tariff.ocpi_tariff_id _ _ l within)
