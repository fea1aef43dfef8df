-- ===== src/Retry/Tests.antt =====
-- The retry component on a concrete queue: a claim that meets what the worker relies on, and each
-- theorem at an input where its hypotheses hold.
pub mod Claim
pub mod Fixtures
mod Outbox
use citrineos_ocpi.Prelude.{
  ℕ, zero, suc, ◌+◌, ◌*◌, ◌≤◌, ◌<◌, ◌≡◌, refl, ◌≢◌, Bool, true, String, Option, none, some, List,
  [], ◌∷◌, arith, eq_iff, if◌then◌else◌, All, length, Distinct, min, ◌∙◌, sym, ltb,
}
use citrineos_ocpi.Config.{OcpiConfig, GireveConfig}
use citrineos_ocpi.Js.{Nullable}
use citrineos_ocpi.Exec.{Result, ok, err, Thrown, parse_error}
use citrineos_ocpi.Model.{ModuleId, InterfaceRole, HttpMethod, module_eq}
use citrineos_ocpi.Retry.Backoff.{
  BackoffOptions, compute_gireve_retry_delay_seconds, compute_gireve_next_retry_at,
  get_gireve_retry_backoff_options,
}
use citrineos_ocpi.Retry.Queue.{
  Key, Item, Row, Table, ResourceType, Status, Refresh, is_due, is_stale, status_eq, same_key,
  find_gireve_retry_queue, insert_gireve_retry_queue, update_gireve_retry_queue,
  mark_gireve_retry_sent, reschedule_gireve_retry, release_stale_gireve_retry_locks, refresh_row,
}
use citrineos_ocpi.Retry.Queue.Keys.{IsKeyed, ids}
use citrineos_ocpi.Retry.World.{
  Env, World, CdrRow, Fault, no_fault, Answer, replied, failed, RetryPartner, read_clock,
  fresh_uuid, request, push,
}
use citrineos_ocpi.Retry.Outbox.{
  UpsertGireveRetryInput, upsert_on_failure, upsert_found, release_stale_locks, claim_due_retries,
  mark_sent, reschedule, retry_batch_size, retry_stale_lock_seconds,
}
use citrineos_ocpi.Retry.Outbox.Latest.{Upserted, upsert_latest, upsert_others}
use citrineos_ocpi.Retry.Outbox.Keyed.{upsert-IsKeyed}
use citrineos_ocpi.Retry.Outbox.Race.{refresh_wins, Claimed, late_mark_sent}
use citrineos_ocpi.Retry.Outbox.Recovery.{release_recovers}
use citrineos_ocpi.Retry.Worker.{
  GireveRetryRunResult, retry_one, retry_with, retry_delivery, reschedule_failed, deliver,
  after_cdr_answer, mark_cdr_row_as_sent, find_sent_cdr_id, find_sent_cdr, mark_found_cdr,
  mark_cdr_as_sent, update_cdr_sent_status, retry_all, run_claimed, run_once,
}
use citrineos_ocpi.Retry.Worker.Delivery.{Succeeded}
use citrineos_ocpi.Retry.Worker.Outcome.{retry_one-true, next_attempt, next_attempt_at}
use citrineos_ocpi.Retry.Worker.Run.{Reported, run_once-Reported}
use citrineos_ocpi.Retry.Worker.Completes.{run_once_returns}
use citrineos_ocpi.Retry.Worker.Keyed.{Claims, run_once-IsKeyed}
use citrineos_ocpi.Retry.Tests.Claim.{claim_due, claim_due-Claims}
use citrineos_ocpi.Retry.Tests.Fixtures.{
  config, cdr_key, session_key, item_of, row_of, queued, crashed, cdr_row, env, world, later,
}

abbrev report : GireveRetryRunResult
report = record { processed = 2; succeeded = 1; failed = 1; stale_locks_released = 1 }

run_once-report : (run_once env none world).0 ≡ ok report
unfolding run_once run_claimed retry_all retry_one retry_with retry_delivery deliver
    reschedule_failed after_cdr_answer mark_cdr_row_as_sent find_sent_cdr_id mark_found_cdr
    mark_cdr_as_sent release_stale_locks claim_due_retries mark_sent reschedule request read_clock
    push claim_due is_due status_eq retry_batch_size find_sent_cdr update_cdr_sent_status
    release_stale_gireve_retry_locks retry_stale_lock_seconds mark_gireve_retry_sent
run_once-report = refl

run_once-Reported_example : Reported env none world report (run_once env none world).1
run_once-Reported_example = run_once-Reported env none world report run_once-report

run_once_returns_example : (r : GireveRetryRunResult) × ((run_once env none world).0 ≡ ok r)
run_once_returns_example = run_once_returns env (λ n. refl) none world

keys_differ : cdr_key ≢ session_key
keys_differ e = ground arith

world-IsKeyed : IsKeyed world.table
world-IsKeyed = record {
  one_per_key = ((λ e. keys_differ (sym e), tt), (tt, tt));
  one_per_id = ((omega arith, tt), (tt, tt));
}

run_once-IsKeyed_example : IsKeyed (run_once env none world).1.table
run_once-IsKeyed_example = run_once-IsKeyed env claim_due-Claims none world world-IsKeyed

-- The CDR's row is claimed, and the partner accepts the CDR.
abbrev claimed_cdr : World
claimed_cdr = record world { table = row_of 1 cdr_key Status.processing (some 2000000) ∷ [] }

retry_one_delivers : (retry_one env (item_of 1 cdr_key) claimed_cdr).0 ≡ ok true
unfolding retry_one retry_with retry_delivery deliver after_cdr_answer mark_cdr_row_as_sent
    find_sent_cdr_id mark_found_cdr mark_cdr_as_sent mark_sent request read_clock push find_sent_cdr
    update_cdr_sent_status mark_gireve_retry_sent status_eq
retry_one_delivers = refl

retry_one-true_example :
    Succeeded env
      (item_of 1 cdr_key)
      3
      (next_attempt_at env (item_of 1 cdr_key) claimed_cdr)
      claimed_cdr
      (retry_one env (item_of 1 cdr_key) claimed_cdr).1
retry_one-true_example = retry_one-true env (item_of 1 cdr_key) claimed_cdr retry_one_delivers

-- The next answer is a refusal.
abbrev claimed_later : World
claimed_later = record claimed_cdr { sends = 1 }
