-- ===== src/Retry/Queue/Settled.antt =====
-- The rows that a run of the worker has let go.
use citrineos_ocpi.Prelude.{ℕ, ◌≡◌, false, All}
use citrineos_ocpi.Retry.Queue.{Row, Table, in_processing}

-- No row with this id is still claimed.
abbrev pub IsReleased : ℕ → Row → Type 0
IsReleased id r = in_processing id r ≡ false

abbrev pub Settled : ℕ → Table → Type 0
Settled id = All (IsReleased id)
