-- ===== src/Retry/Backoff.antt =====
-- 00_Base/src/services/gireveRetryBackoff.ts. Intervals are whole seconds, as the configuration's
-- schema has them, and so is the multiplier here; instants are milliseconds since the epoch.
pub mod Growth
use citrineos_ocpi.Prelude.{ℕ, zero, suc, ◌+◌, ◌*◌, ◌^◌, ◌≤◌, ◌<◌, min, max, ◌≡◌, Option, arith}
use citrineos_ocpi.Config.{OcpiConfig, gireve_number}

abbrev pub default_gireve_retry_interval_seconds : ℕ
default_gireve_retry_interval_seconds = 300

abbrev pub default_gireve_retry_backoff_multiplier : ℕ
default_gireve_retry_backoff_multiplier = 2

abbrev pub default_gireve_retry_max_interval_seconds : ℕ
default_gireve_retry_max_interval_seconds = 86400

pub record BackoffOptions : Type 0 where
  pub base_interval_seconds : ℕ
  pub multiplier : ℕ
  pub max_interval_seconds : ℕ

unfoldable pub get_gireve_retry_backoff_options : OcpiConfig → BackoffOptions
get_gireve_retry_backoff_options c = record {
  base_interval_seconds =
      gireve_number c (λ g. g.retry_interval_seconds) default_gireve_retry_interval_seconds;
  multiplier =
      gireve_number c (λ g. g.retry_backoff_multiplier) default_gireve_retry_backoff_multiplier;
  max_interval_seconds =
      gireve_number c (λ g. g.retry_max_interval_seconds) default_gireve_retry_max_interval_seconds;
}

unfoldable pub compute_gireve_retry_delay_seconds : ℕ → BackoffOptions → ℕ
compute_gireve_retry_delay_seconds attempt_count o =
    let exponent = max 0 attempt_count in
    let delay = o.base_interval_seconds * o.multiplier ^ exponent in
    min delay o.max_interval_seconds

unfoldable pub compute_gireve_next_retry_at : ℕ → BackoffOptions → ℕ → ℕ
compute_gireve_next_retry_at attempt_count o from =
    from + compute_gireve_retry_delay_seconds attempt_count o * 1000
