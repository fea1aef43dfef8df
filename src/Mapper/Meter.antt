-- ===== src/Mapper/Meter.antt =====
-- The energy register of a meter value: `getEnergyKwh` and `toKwh` of
-- 00_Base/src/mapper/SessionMapper.ts.
use Prim.Native.Char.{code}
use citrineos_ocpi.Prelude.{
  ℕ, ◌-◌, ◌==◌, leb, String, Bool, true, false, ◌&&◌, ◌||◌, not, Option, none, some, List, [], ◌∷◌,
  str_eq, if◌then◌else◌, keep,
}
use citrineos_ocpi.Js.{Nullable, undefined, value, get_or, strict_eq, truthy}
use citrineos_ocpi.Number.{Decimal, JsNumber, nan, finite, whole, add, times_power}
use citrineos_ocpi.Number.Integer.{ℤ, pos, ◌-ℤ◌}

pub record UnitOfMeasure : Type 0 where
  pub unit : Option String
  pub multiplier : Option ℤ

-- A sampled value; `amount` is what Number(value) makes of its value.
pub record SampledValue : Type 0 where
  pub amount : JsNumber
  pub measurand : Nullable String
  pub phase : Nullable String
  pub location : Nullable String
  pub unit_of_measure : Option UnitOfMeasure

-- A meter value, its timestamp as the instant that the text stands for.
pub record MeterValue : Type 0 where
  pub timestamp : ℕ
  pub sampled_value : List SampledValue

-- OCPP2_0_1.MeasurandEnumType.Energy_Active_Import_Register
abbrev pub energy_active_import_register : String
energy_active_import_register = "Energy.Active.Import.Register"

abbrev phase_groups : List (List String)
phase_groups = ("L1" ∷ "L2" ∷ "L3" ∷ []) ∷ ("L1-N" ∷ "L2-N" ∷ "L3-N" ∷ []) ∷ []

-- The code of c.toUpperCase(), for a letter of ASCII.
abbrev upper : ℕ → ℕ
upper n = if leb b'a' n && leb n b'z' then n - 32 else n

-- s.toUpperCase() === t
abbrev upper_is : String → String → Bool
upper_is String.[] String.[] = true
upper_is String.[] (String.◌∷◌ d t) = false
upper_is (String.◌∷◌ c s) String.[] = false
upper_is (String.◌∷◌ c s) (String.◌∷◌ d t) = upper (code c) == code d && upper_is s t

abbrev unit_of : Option UnitOfMeasure → Option String
unit_of none = none
unit_of (some u) = u.unit

abbrev multiplier_of : Option UnitOfMeasure → ℤ
multiplier_of none = pos 0
multiplier_of (some u) = get_or u.multiplier (pos 0)

-- The `switch` over the unit.
abbrev in_unit : Option String → Decimal → ℤ → Option Decimal
in_unit none x m = some (times_power x (m -ℤ pos 3))
in_unit (some unit) x m =
    if upper_is unit "KWH"
    then some (times_power x m)
    else if upper_is unit "WH"
    then some (times_power x (m -ℤ pos 3))
    else none

unfoldable pub to_kwh : SampledValue → Option Decimal
to_kwh s = elim s.amount [
  | nan ↦ none
  | finite x ↦ in_unit (unit_of s.unit_of_measure) x (multiplier_of s.unit_of_measure)
]

-- !measurand || measurand === Energy_Active_Import_Register
abbrev is_energy_register : SampledValue → Bool
is_energy_register s =
    not (truthy s.measurand) || strict_eq s.measurand (value energy_active_import_register)

-- phases.includes(phase ?? '')
abbrev includes : List String → String → Bool
includes [] p = false
includes (q ∷ qs) p = if str_eq q p then true else includes qs p

abbrev phase_text : Nullable String → String
phase_text (value p) = p
phase_text _ = ""

-- to_kwh of the first register without a phase
abbrev total_kwh : List SampledValue → Option Decimal
total_kwh [] = none
total_kwh (s ∷ ss) = if truthy s.phase then total_kwh ss else to_kwh s

abbrev push_defined : Option Decimal → List Decimal → List Decimal
push_defined none xs = xs
push_defined (some x) xs = x ∷ xs

-- The defined energies of the registers of a group of phases.
abbrev phase_kwh : List String → List SampledValue → List Decimal
phase_kwh phases [] = []
phase_kwh phases (s ∷ ss) =
    let rest = phase_kwh phases ss in
    if includes phases (phase_text s.phase) then push_defined (to_kwh s) rest else rest

-- xs.reduce((sum, kwh) => sum + kwh, sum)
abbrev sum_from : Decimal → List Decimal → Decimal
sum_from sum [] = sum
sum_from sum (x ∷ xs) = sum_from (add sum x) xs

abbrev first_group : List (List String) → List SampledValue → Option Decimal
first_group [] registers = none
first_group (phases ∷ groups) registers = elim (phase_kwh phases registers) [
  | [] ↦ first_group groups registers
  | x ∷ xs ↦ some (sum_from (whole 0) (x ∷ xs))
]

abbrev or_groups : Option Decimal → List SampledValue → Option Decimal
or_groups (some total) registers = some total
or_groups none registers = first_group phase_groups registers

unfoldable pub get_energy_kwh : MeterValue → Option Decimal
get_energy_kwh v =
    or_groups (total_kwh (keep is_energy_register v.sampled_value))
      (keep is_energy_register v.sampled_value)

abbrev boundary_samples : Option Decimal → List SampledValue
boundary_samples none = []
boundary_samples (some x) =
    record {
      amount = finite x;
      measurand = value energy_active_import_register;
      phase = undefined;
      location = undefined;
      unit_of_measure = some (record { unit = some "kWh"; multiplier = some (pos 0) });
    }
    ∷ []

unfoldable pub to_boundary_reading : ℕ → Option Decimal → MeterValue
to_boundary_reading timestamp energy = record {
  timestamp = timestamp;
  sampled_value = boundary_samples energy;
}
