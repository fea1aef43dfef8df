-- ===== src/Retry/Outbox.antt =====
-- 00_Base/src/services/GireveBroadcastRetryOutbox.ts
pub mod Latest
pub mod Keyed
pub mod Race
pub mod Recovery
use citrineos_ocpi.Prelude.{
  ℕ, ◌-◌, ◌*◌, ◌+◌, String, Option, none, some, List, map, ◌==◌, if◌then◌else◌,
}
use citrineos_ocpi.Config.{OcpiConfig, gireve_number}
use citrineos_ocpi.Js.{get_or}
use citrineos_ocpi.Exec.{Result, ok, err, Exec, ◌>>=◌, ◌>>◌, continue, pure}
use citrineos_ocpi.Model.{InterfaceRole, HttpMethod}
use citrineos_ocpi.Retry.Backoff.{
  BackoffOptions, get_gireve_retry_backoff_options, compute_gireve_next_retry_at,
}
use citrineos_ocpi.Retry.Queue.{
  Key, Item, Row, Table, Status, sent, Refresh, status_eq, affected_rows, in_processing, is_stale,
  find_gireve_retry_queue, insert_gireve_retry_queue, update_gireve_retry_queue,
  mark_gireve_retry_sent, reschedule_gireve_retry, release_stale_gireve_retry_locks,
}
use citrineos_ocpi.Retry.World.{Env, World, read_clock, fresh_uuid, request}

pub record UpsertGireveRetryInput : Type 0 where
  pub key : Key
  pub cpo_country_code : String
  pub cpo_party_id : String
  pub interface_role : InterfaceRole
  pub http_method : HttpMethod
  pub ocpi_path : Option String
  pub payload : Option String
  pub last_error : String

unfoldable pub retry_batch_size : OcpiConfig → ℕ
retry_batch_size c = gireve_number c (λ g. g.retry_batch_size) 50

unfoldable pub retry_stale_lock_seconds : OcpiConfig → ℕ
retry_stale_lock_seconds c = gireve_number c (λ g. g.retry_stale_lock_seconds) 900

-- A statement that changes the queue, and what it returns.
abbrev pub on_table : {A : Type 0} → (Table → A × Table) → World → A × World
on_table f w = ((f w.table).0, record w { table = (f w.table).1 })

abbrev pub execute : (Table → Table) → World → Unit {0} × World
execute f = on_table (λ t. (tt, f t))

-- A pending row keeps its attempts, a row already sent starts again.
abbrev pub kept_attempts : Row → ℕ
kept_attempts row = if status_eq row.status sent then 0 else row.attempt_count

module _ (env : Env) where
  abbrev pub backoff_options : BackoffOptions
  backoff_options = get_gireve_retry_backoff_options env.config

  abbrev pub inserted_item : UpsertGireveRetryInput → ℕ → ℕ → Item
  inserted_item input id now = record {
    id = id;
    key = input.key;
    cpo_country_code = input.cpo_country_code;
    cpo_party_id = input.cpo_party_id;
    interface_role = input.interface_role;
    http_method = input.http_method;
    ocpi_path = input.ocpi_path;
    payload = get_or input.payload "{}";
    attempt_count = 0;
    next_retry_at = compute_gireve_next_retry_at 0 backoff_options now;
  }

  abbrev pub refresh_of : UpsertGireveRetryInput → Row → ℕ → Refresh
  refresh_of input row now = record {
    payload = get_or input.payload "{}";
    ocpi_path = input.ocpi_path;
    attempt_count = kept_attempts row;
    next_retry_at = compute_gireve_next_retry_at (kept_attempts row) backoff_options now;
    last_error = input.last_error;
    updated_at = now;
  }

  -- The two branches of `upsertOnFailure`, on the row that was found.
  unfoldable pub upsert_found : UpsertGireveRetryInput → ℕ → Option Row → Exec World (Unit {0})
  upsert_found input now none = do
    id ← fresh_uuid env
    request env
        (execute (insert_gireve_retry_queue (inserted_item input id now) input.last_error now))
  upsert_found input now (some row) =
      request env (execute (update_gireve_retry_queue row.id (refresh_of input row now)))

  unfoldable pub upsert_on_failure : UpsertGireveRetryInput → Exec World (Unit {0})
  upsert_on_failure input = do
    now ← read_clock env
    existing_row ← request env (on_table (λ t. (find_gireve_retry_queue input.key t, t)))
    upsert_found input now existing_row

  unfoldable pub release_stale_locks : Exec World ℕ
  release_stale_locks = do
    now ← read_clock env
    let stale_before = now - retry_stale_lock_seconds env.config * 1000
    request env (
        on_table λ t. (
          affected_rows (is_stale stale_before) t,
          release_stale_gireve_retry_locks stale_before t,
        ))

  -- The claim runs in the database, on its own clock.
  unfoldable pub claim_due_retries : ℕ → Exec World (List Item)
  claim_due_retries limit = do now ← read_clock env; request env (on_table (env.claim now limit))

  unfoldable pub mark_sent : ℕ → Exec World (Unit {0})
  mark_sent id = do now ← read_clock env; request env (execute (mark_gireve_retry_sent id now))

  unfoldable pub reschedule : ℕ → ℕ → ℕ → String → Exec World (Unit {0})
  reschedule id attempt_count next_retry_at last_error =
      request env (execute (reschedule_gireve_retry id attempt_count next_retry_at last_error))
