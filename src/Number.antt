-- ===== src/Number.antt =====
-- The numbers of the mappers: `roundOcpiNumber` and `toRoundedHours` of 00_Base/src/util/Util.ts, on
-- exact decimals in place of doubles.
pub mod Integer
pub mod Laws
pub mod Text
use citrineos_ocpi.Prelude.{ℕ, suc, ◌+◌, ◌-◌, ◌*◌, ◌/◌, ◌^◌, ◌==◌, max, Bool, List, [], ◌∷◌}
use citrineos_ocpi.Number.Integer.{
  ℤ, pos, negsuc, pos_part, neg_part, scale_ℤ, floor_div, leb_ℤ, ltb_ℤ, ◌+ℤ◌, ◌-ℤ◌, ◌*ℤ◌,
}

-- The number units / 10 ^ scale.
pub record Decimal : Type 0 where
  pub units : ℤ
  pub scale : ℕ

-- What Number(x) returns.
pub data JsNumber : Type 0 where
  nan : JsNumber
  finite : Decimal → JsNumber

abbrev pub whole : ℕ → Decimal
whole n = record { units = pos n; scale = 0 }

-- The units at a scale that is at least the number's own.
abbrev pub units_at : ℕ → Decimal → ℤ
units_at n x = scale_ℤ x.units (10 ^ (n - x.scale))

unfoldable pub add : Decimal → Decimal → Decimal
add x y = record {
  units = units_at (max x.scale y.scale) x +ℤ units_at (max x.scale y.scale) y;
  scale = max x.scale y.scale;
}

unfoldable pub sub : Decimal → Decimal → Decimal
sub x y = record {
  units = units_at (max x.scale y.scale) x -ℤ units_at (max x.scale y.scale) y;
  scale = max x.scale y.scale;
}

unfoldable pub at_most : Decimal → Decimal → Bool
at_most x y = leb_ℤ (units_at (max x.scale y.scale) x) (units_at (max x.scale y.scale) y)

unfoldable pub less : Decimal → Decimal → Bool
less x y = ltb_ℤ (units_at (max x.scale y.scale) x) (units_at (max x.scale y.scale) y)

-- x * 10 ** n
abbrev pub times_power : Decimal → ℤ → Decimal
times_power x (pos n) = record { units = scale_ℤ x.units (10 ^ n); scale = x.scale }
times_power x (negsuc n) = record { units = x.units; scale = x.scale + suc n }

-- Math.round(x * 10_000): a half is rounded up.
unfoldable pub ticks : Decimal → ℤ
ticks x = floor_div (scale_ℤ x.units 20000 +ℤ pos (10 ^ x.scale)) (2 * 10 ^ x.scale)

unfoldable pub round_ocpi_number : Decimal → Decimal
round_ocpi_number x = record { units = ticks x; scale = 4 }

-- roundOcpiNumber, where the argument may be NaN.
abbrev pub round_js : JsNumber → JsNumber
round_js JsNumber.nan = JsNumber.nan
round_js (JsNumber.finite x) = JsNumber.finite (round_ocpi_number x)

-- date.getTime() / 3_600_000, rounded: 360 ms are a ten-thousandth of an hour.
unfoldable pub to_rounded_hours : ℕ → Decimal
to_rounded_hours ms = record { units = pos ((ms + 180) / 360); scale = 4 }

unfoldable pub multiply : Decimal → Decimal → Decimal
multiply x y = record { units = x.units *ℤ y.units; scale = x.scale + y.scale }

-- x === 0
abbrev pub is_zero : Decimal → Bool
is_zero x = pos_part x.units + neg_part x.units == 0

-- Math.round(x * 100) / 100
unfoldable pub round_cents : Decimal → Decimal
round_cents x = record {
  units = floor_div (scale_ℤ x.units 200 +ℤ pos (10 ^ x.scale)) (2 * 10 ^ x.scale);
  scale = 2;
}
