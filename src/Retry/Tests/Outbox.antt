-- ===== src/Retry/Tests/Outbox.antt =====
-- The theorems about the outbox on the concrete queue.
use citrineos_ocpi.Prelude.{◌+◌, ◌*◌, ◌≡◌, refl, ◌≢◌, none, some, [], ◌∷◌, arith, sym, ltb}
use citrineos_ocpi.Model.{InterfaceRole, HttpMethod, module_eq}
use citrineos_ocpi.Retry.Queue.{
  Row, Status, Refresh, is_due, same_key, find_gireve_retry_queue, update_gireve_retry_queue,
  mark_gireve_retry_sent, refresh_row,
}
use citrineos_ocpi.Retry.Queue.Keys.{IsKeyed}
use citrineos_ocpi.Retry.Outbox.{
  UpsertGireveRetryInput, upsert_on_failure, release_stale_locks, retry_stale_lock_seconds,
}
use citrineos_ocpi.Retry.Outbox.Latest.{Upserted, upsert_latest, upsert_others}
use citrineos_ocpi.Retry.Outbox.Race.{refresh_wins, Claimed, late_mark_sent}
use citrineos_ocpi.Retry.Outbox.Recovery.{release_recovers}
use citrineos_ocpi.Retry.Tests.Fixtures.{config, cdr_key, session_key, crashed, env, world}

keys_differ : cdr_key ≢ session_key
keys_differ e = ground arith

world-IsKeyed : IsKeyed world.table
world-IsKeyed = record {
  one_per_key = ((λ e. keys_differ (sym e), tt), (tt, tt));
  one_per_id = ((omega arith, tt), (tt, tt));
}

abbrev input : UpsertGireveRetryInput
input = record {
  key = cdr_key;
  cpo_country_code = "FR";
  cpo_party_id = "ABC";
  interface_role = InterfaceRole.receiver;
  http_method = HttpMethod.post;
  ocpi_path = none;
  payload = some "{2}";
  last_error = "timeout";
}

upsert_latest_example : Upserted env input world (upsert_on_failure env input world)
upsert_latest_example = upsert_latest env input world refl refl

upsert_others_example :
    find_gireve_retry_queue session_key (upsert_on_failure env input world).1.table
    ≡ find_gireve_retry_queue session_key world.table
upsert_others_example =
    upsert_others env input world session_key (λ e. keys_differ (sym e)) world-IsKeyed.one_per_id

abbrev refresh_input : Refresh
refresh_input = record {
  payload = "{2}";
  ocpi_path = none;
  attempt_count = 2;
  next_retry_at = 2240000;
  last_error = "timeout";
  updated_at = 2000000;
}

refresh_wins_example :
    mark_gireve_retry_sent 2 2000001 (update_gireve_retry_queue 2 refresh_input world.table)
    ≡ update_gireve_retry_queue 2 refresh_input world.table
refresh_wins_example = (refresh_wins 2 2000001 3 2000500 "timeout" refresh_input world.table).0

-- The refreshed row, in the hands of a second run.
abbrev reclaimed_row : Row
reclaimed_row = record (refresh_row refresh_input crashed) {
  status = Status.processing;
  locked_at = some 2240000;
}

reclaimed :
    Claimed session_key
      (update_gireve_retry_queue 2 refresh_input (crashed ∷ []))
      (reclaimed_row ∷ [])
unfolding find_gireve_retry_queue update_gireve_retry_queue same_key module_eq
reclaimed = record {
  row = reclaimed_row;
  was = refresh_row refresh_input crashed;
  found_before = refl;
  found_after = refl;
  same_item = refl;
  taken = refl;
}

session_found : find_gireve_retry_queue session_key (crashed ∷ []) ≡ some crashed
unfolding find_gireve_retry_queue same_key module_eq
session_found = refl

late_mark_sent_example :
    (done : Row) × (find_gireve_retry_queue session_key
        (mark_gireve_retry_sent 2 2240001 (reclaimed_row ∷ []))
      ≡ some done)
    × (done.status ≡ Status.sent)
    × (done.payload ≡ "{2}")
late_mark_sent_example =
    late_mark_sent session_key crashed refresh_input 2240001 (crashed ∷ []) (reclaimed_row ∷ [])
      session_found reclaimed

crashed_found : find_gireve_retry_queue session_key world.table ≡ some crashed
unfolding find_gireve_retry_queue same_key module_eq
crashed_found = refl

release_recovers_example :
    (r : Row) × (find_gireve_retry_queue session_key (release_stale_locks env world).1.table
      ≡ some r)
    × (r.item ≡ crashed.item)
    × (is_due 2000000 r ≡ ltb (5000 + retry_stale_lock_seconds config * 1000) 2000000)
release_recovers_example =
    release_recovers env world session_key crashed 5000 refl crashed_found refl refl (omega arith)
