-- ===== src/Number/Laws.antt =====
-- Rounded numbers have four decimals, and their sums and differences are exact.
use citrineos_ocpi.Prelude.{◌≡◌, ap}
use citrineos_ocpi.Number.{Decimal, add, sub, ticks, round_ocpi_number}
use citrineos_ocpi.Number.Integer.{ℤ, ◌+ℤ◌, ◌-ℤ◌, scale_ℤ-one, floor_div-scale_ℤ}

-- A number of four decimals.
abbrev pub tick : ℤ → Decimal
tick u = record { units = u; scale = 4 }

pub round_ocpi_number-scale : (u : ℤ) → round_ocpi_number (tick u) ≡ tick u
unfolding round_ocpi_number ticks
round_ocpi_number-scale u = ap tick (floor_div-scale_ℤ u)

pub sub-tick : (a b : ℤ) → sub (tick a) (tick b) ≡ tick (a -ℤ b)
unfolding sub
sub-tick a b = rw (scale_ℤ-one a, scale_ℤ-one b)

pub add-tick : (a b : ℤ) → add (tick a) (tick b) ≡ tick (a +ℤ b)
unfolding add
add-tick a b = rw (scale_ℤ-one a, scale_ℤ-one b)
