-- ===== src/Mapper/Periods/Totals.antt =====
-- What the volumes of one dimension add up to over the charging periods of
-- 00_Base/src/mapper/SessionMapper.ts.
use mathlib.Core.List.{append_assoc}
use citrineos_ocpi.Prelude.{
  ℕ, ◌==◌, ◌≡◌, refl, sym, ap, ◌∙◌, false, Option, none, some, String, List, [], ◌∷◌, ◌++◌,
  if◌then◌else◌, All, All-trivial, arith,
}
use citrineos_ocpi.Js.{Nullable, undefined, null, value, get_or}
use citrineos_ocpi.Number.{
  Decimal, JsNumber, nan, finite, whole, add, sub, ticks, round_ocpi_number, to_rounded_hours,
}
use citrineos_ocpi.Number.Integer.{ℤ, pos, ◌-ℤ◌, -ℤ_telescope, -ℤ_self}
use citrineos_ocpi.Number.Laws.{tick, sub-tick, add-tick, round_ocpi_number-scale}
use citrineos_ocpi.Mapper.Meter.{SampledValue, MeterValue, get_energy_kwh}
use citrineos_ocpi.Mapper.Periods.{
  DimensionType, CdrDimension, ChargingPeriod, energy_import_dimension, energy_dimension,
  energy_dimensions, sample_dimension, sample_dimensions, get_time_elapsed_for_meter_value,
  get_cdr_dimensions, periods_of, last_of,
}

abbrev pub type_index : DimensionType → ℕ
type_index DimensionType.current = 0
type_index DimensionType.energy = 1
type_index DimensionType.energy_import = 2
type_index DimensionType.state_of_charge = 3
type_index DimensionType.time = 4

abbrev pub add_js : JsNumber → JsNumber → JsNumber
add_js nan y = nan
add_js (finite x) nan = nan
add_js (finite x) (finite y) = finite (add x y)

abbrev pub dimensions_of : List ChargingPeriod → List CdrDimension
dimensions_of [] = []
dimensions_of (p ∷ ps) = p.dimensions ++ dimensions_of ps

unfoldable pub sum_of : DimensionType → List CdrDimension → JsNumber
sum_of t [] = finite (tick (pos 0))
sum_of t (d ∷ ds) =
    let rest = sum_of t ds in
    if type_index d.dimension_type == type_index t then add_js d.volume rest else rest

-- The volumes of a dimension over all periods, added up.
unfoldable pub total_volume : DimensionType → List ChargingPeriod → JsNumber
total_volume t periods = sum_of t (dimensions_of periods)

abbrev HasNo : DimensionType → List CdrDimension → Type 0
HasNo t = All (λ d. (type_index d.dimension_type == type_index t) ≡ false)

sum_of-append_skip :
    (t : DimensionType) (ds es : List CdrDimension) → HasNo t ds → sum_of t (ds ++ es) ≡ sum_of t es
unfolding sum_of
sum_of-append_skip t [] es h = refl
sum_of-append_skip t (d ∷ ds) es h = rw h.0 (sum_of-append_skip t ds es h.1)

HasNo-append :
    (t : DimensionType) (ds es : List CdrDimension) → HasNo t ds → HasNo t es → HasNo t (ds ++ es)
HasNo-append t [] es h k = k
HasNo-append t (d ∷ ds) es h k = (h.0, HasNo-append t ds es h.1 k)

-- Neither the current nor the state of charge.
abbrev IsMetered : DimensionType → Type 0
IsMetered t =
    ((type_index DimensionType.current == type_index t) ≡ false)
    × ((type_index DimensionType.state_of_charge == type_index t) ≡ false)

HasNo-sample :
    (t : DimensionType) (m : Nullable String) (s : SampledValue)
    → IsMetered t
    → HasNo t (sample_dimension m s)
unfolding sample_dimension
HasNo-sample t undefined s h = tt
HasNo-sample t null s h = tt
HasNo-sample t (value m) s h = ground arith

HasNo-samples :
    (t : DimensionType) (ss : List SampledValue) → IsMetered t → HasNo t (sample_dimensions ss)
unfolding sample_dimensions
HasNo-samples t [] h = tt
HasNo-samples t (s ∷ ss) h =
    HasNo-append t (sample_dimension s.measurand s) (sample_dimensions ss)
      (HasNo-sample t s.measurand s h) (HasNo-samples t ss h)

-- Between two readings the volume of the dimension is the difference of their registers.
abbrev Measures :
    DimensionType → Option Decimal → (MeterValue → ℤ) → MeterValue → MeterValue → Type 0
Measures t start_kwh g r next =
    (es : List CdrDimension)
    → sum_of t (get_cdr_dimensions next r start_kwh ++ es)
      ≡ add_js (finite (tick (g next -ℤ g r))) (sum_of t es)

telescope :
    (t : DimensionType) (tariff_id : String) (start_kwh : Option Decimal) (g : MeterValue → ℤ)
    → (P : MeterValue → Type 0)
    → ((r next : MeterValue) → P r → P next → Measures t start_kwh g r next)
    → (r : MeterValue) (rs : List MeterValue) → P r
    → All P rs
    → sum_of t (dimensions_of (periods_of tariff_id start_kwh (r ∷ rs)))
      ≡ finite (tick (g (last_of r rs) -ℤ g r))
unfolding sum_of periods_of last_of
telescope t tariff_id start_kwh g P step r [] p h = ap (λ u. finite (tick u)) (sym (-ℤ_self (g r)))
telescope t tariff_id start_kwh g P step r (next ∷ rs) p h =
    step r next p h.0 (dimensions_of (periods_of tariff_id start_kwh (next ∷ rs)))
    ∙ ap (add_js (finite (tick (g next -ℤ g r))))
        (telescope t tariff_id start_kwh g P step next rs h.0 h.1)
    ∙ ap finite (add-tick _ _ ∙ ap tick (-ℤ_telescope (g r) (g next) (g (last_of next rs))))

-- The hour of an instant, in ten-thousandths.
abbrev hour : MeterValue → ℤ
hour r = (to_rounded_hours r.timestamp).units

elapsed-tick :
    (r next : MeterValue) → get_time_elapsed_for_meter_value next r ≡ tick (hour next -ℤ hour r)
unfolding get_time_elapsed_for_meter_value to_rounded_hours
elapsed-tick r next =
    ap round_ocpi_number (sub-tick (hour next) (hour r)) ∙ round_ocpi_number-scale _

HasNo-energy :
    (now previous start_kwh : Option Decimal)
    → HasNo DimensionType.time (energy_dimensions now previous start_kwh)
unfolding energy_dimensions energy_dimension energy_import_dimension
HasNo-energy none previous start_kwh = tt
HasNo-energy (some x) none none = tt
HasNo-energy (some x) (some y) none = (refl, tt)
HasNo-energy (some x) none (some z) = (refl, tt)
HasNo-energy (some x) (some y) (some z) = (refl, (refl, tt))

-- The three parts of a period's dimensions, with more after them.
sum_of-parts :
    (t : DimensionType) (e ss : List CdrDimension) (d : CdrDimension) (es : List CdrDimension)
    → HasNo t ss
    → sum_of t (e ++ ss ++ d ∷ [] ++ es) ≡ sum_of t (e ++ d ∷ es)
unfolding sum_of
sum_of-parts t [] ss d es h =
    ap (sum_of t) (append_assoc ss (d ∷ []) es) ∙ sum_of-append_skip t ss (d ∷ es) h
sum_of-parts t (x ∷ e) ss d es h = rw (sum_of-parts t e ss d es h)

time_measured :
    (start_kwh : Option Decimal) (r next : MeterValue)
    → Measures DimensionType.time start_kwh hour r next
unfolding get_cdr_dimensions sum_of
time_measured start_kwh r next es =
    sum_of-parts DimensionType.time (energy_dimensions _ _ start_kwh)
      (sample_dimensions next.sampled_value) _ es
      (HasNo-samples DimensionType.time next.sampled_value (refl, refl))
    ∙ sum_of-append_skip DimensionType.time (energy_dimensions _ _ start_kwh) _
        (HasNo-energy _ _ start_kwh)
    ∙ ap (λ x. add_js (finite x) (sum_of DimensionType.time es)) (elapsed-tick r next)

-- The TIME volumes add up to the time from the first reading to the last.
pub time-telescopes :
    (tariff_id : String) (start_kwh : Option Decimal) (r : MeterValue) (rs : List MeterValue)
    → total_volume DimensionType.time (periods_of tariff_id start_kwh (r ∷ rs))
      ≡ finite (
          round_ocpi_number
            (sub (to_rounded_hours (last_of r rs).timestamp) (to_rounded_hours r.timestamp)))
unfolding total_volume get_time_elapsed_for_meter_value
time-telescopes tariff_id start_kwh r rs =
    telescope DimensionType.time tariff_id start_kwh hour (λ r. Unit)
      (λ r next p q. time_measured start_kwh r next) r rs tt (All-trivial rs)
    ∙ ap finite (sym (elapsed-tick r (last_of r rs)))

-- The register of the reading, rounded; it is read where the reading has one.
abbrev pub HasEnergy : MeterValue → Type 0
HasEnergy v = (x : Decimal) × (get_energy_kwh v ≡ some x)

abbrev pub register : MeterValue → Decimal
register v = get_or (get_energy_kwh v) (whole 0)

energy-tick :
    (x y : Decimal)
    → round_ocpi_number (sub (round_ocpi_number x) (round_ocpi_number y))
      ≡ tick (ticks x -ℤ ticks y)
unfolding round_ocpi_number
energy-tick x y = ap round_ocpi_number (sub-tick (ticks x) (ticks y)) ∙ round_ocpi_number-scale _

sum_of-energy :
    (x y : Decimal) (start_kwh : Option Decimal) (volume : JsNumber) (es : List CdrDimension)
    → sum_of DimensionType.energy (
        energy_dimensions (some x) (some y) start_kwh
        ++ record { dimension_type = DimensionType.time; volume = volume } ∷ es)
      ≡ add_js (finite (tick (ticks x -ℤ ticks y))) (sum_of DimensionType.energy es)
unfolding sum_of energy_dimensions energy_dimension energy_import_dimension
sum_of-energy x y none volume es =
    ap (λ z. add_js (finite z) (sum_of DimensionType.energy es)) (energy-tick x y)
sum_of-energy x y (some start) volume es =
    ap (λ z. add_js (finite z) (sum_of DimensionType.energy es)) (energy-tick x y)

energy_measured :
    (start_kwh : Option Decimal) (r next : MeterValue)
    → HasEnergy r
    → HasEnergy next
    → Measures DimensionType.energy start_kwh (λ v. ticks (register v)) r next
unfolding get_cdr_dimensions
energy_measured start_kwh r next h k es =
    sum_of-parts DimensionType.energy
      (energy_dimensions (get_energy_kwh next) (get_energy_kwh r) start_kwh)
      (sample_dimensions next.sampled_value) _ es
      (HasNo-samples DimensionType.energy next.sampled_value (refl, refl))
    ∙ rw (h.1, k.1) (sum_of-energy k.0 h.0 start_kwh _ es)

-- Where every reading has an energy, the ENERGY volumes of the periods add up to the difference of
-- the rounded registers of the last reading and the first.
pub energy-telescopes :
    (tariff_id : String) (start_kwh : Option Decimal) (r : MeterValue) (rs : List MeterValue)
    → HasEnergy r
    → All HasEnergy rs
    → total_volume DimensionType.energy (periods_of tariff_id start_kwh (r ∷ rs))
      ≡ finite (
          round_ocpi_number
            (sub (round_ocpi_number (register (last_of r rs))) (round_ocpi_number (register r))))
unfolding total_volume
energy-telescopes tariff_id start_kwh r rs h hs =
    telescope DimensionType.energy tariff_id start_kwh (λ v. ticks (register v)) HasEnergy
      (energy_measured start_kwh) r rs h hs
    ∙ ap finite (sym (energy-tick (register (last_of r rs)) (register r)))
