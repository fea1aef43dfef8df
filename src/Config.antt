-- ===== src/Config.antt =====
-- The part of the configuration that the modelled components read (00_Base/src/config/ocpi.types.ts).
use citrineos_ocpi.Prelude.{ℕ, String, Option, none, some}
use citrineos_ocpi.Js.{Nullable, get_or}

-- The object under the key `gireve`; every field is optional.
pub record GireveConfig : Type 0 where
  pub country_code : Nullable String
  pub party_id : Nullable String
  pub retry_interval_seconds : Option ℕ
  pub retry_backoff_multiplier : Option ℕ
  pub retry_max_interval_seconds : Option ℕ
  pub retry_batch_size : Option ℕ
  pub retry_stale_lock_seconds : Option ℕ

pub record OcpiConfig : Type 0 where
  pub gireve : Option GireveConfig

-- config.gireve?.field ?? d
abbrev pub gireve_number : OcpiConfig → (GireveConfig → Option ℕ) → ℕ → ℕ
gireve_number c field d = elim c.gireve [ none ↦ d | some g ↦ get_or (field g) d ]

-- config.gireve?.field
abbrev pub gireve_text : OcpiConfig → (GireveConfig → Nullable String) → Nullable String
gireve_text c field = elim c.gireve [ none ↦ Nullable.undefined | some g ↦ field g ]
