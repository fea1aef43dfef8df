-- ===== src/Mapper/Periods/Resent.antt =====
-- Meter values that a station sends again do not change the charging periods of
-- 00_Base/src/mapper/SessionMapper.ts.
use mathlib.Core.List.{Memᴰ}
use citrineos_ocpi.Prelude.{◌≡◌, ap, String, Option, List, ◌++◌, All}
use citrineos_ocpi.Mapper.Meter.{MeterValue}
use citrineos_ocpi.Mapper.Readings.Resent.{resent_readings_ignored}
use citrineos_ocpi.Mapper.Periods.{
  SessionStart, SessionEnd, get_trusted_start_kwh, bounded_readings, periods_of,
  get_charging_periods,
}

-- Meter values that are sent again after the others, in any order and any number, leave the charging
-- periods as they were: each of them is one of those sent before.
pub charging_periods_resent :
    (vs ws : List MeterValue) (tariff_id : String) (start : Option SessionStart)
    → (end : Option SessionEnd) → All (λ w. Memᴰ w vs) ws
    → get_charging_periods (vs ++ ws) tariff_id start end
      ≡ get_charging_periods vs tariff_id start end
unfolding get_charging_periods
charging_periods_resent vs ws tariff_id start end h =
    ap (λ rs. periods_of tariff_id (get_trusted_start_kwh rs start) (bounded_readings rs start end))
      (resent_readings_ignored vs ws h)
