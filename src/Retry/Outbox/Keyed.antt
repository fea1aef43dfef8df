-- ===== src/Retry/Outbox/Keyed.antt =====
-- `upsertOnFailure` keeps one row for each dedupe key, and the release of stale locks makes a row
-- of a crashed run due again.
use citrineos_ocpi.Prelude.{ℕ, ◌+◌, ◌≡◌, refl, ◌≢◌, inl, inr, Option, none, some, All}
use citrineos_ocpi.Retry.Queue.{
  Row, Table, refresh_row, find_gireve_retry_queue, update_gireve_retry_queue,
}
use citrineos_ocpi.Retry.Queue.Keys.{IsKeyed, ids, insert-IsKeyed, update_where-IsKeyed}
use citrineos_ocpi.Retry.World.{Env, World, request, read_clock, fresh_uuid, Fault-cases}
use citrineos_ocpi.Retry.World.Keeps.{keeps_request_at}
use citrineos_ocpi.Retry.Outbox.{
  UpsertGireveRetryInput, upsert_found, upsert_on_failure, inserted_item, refresh_of,
}

updated-IsKeyed :
    (env : Env) (input : UpsertGireveRetryInput) (now : ℕ) (row : Row) (t : Table)
    → IsKeyed t
    → IsKeyed (update_gireve_retry_queue row.id (refresh_of env input row now) t)
unfolding update_gireve_retry_queue
updated-IsKeyed env input now row t =
    update_where-IsKeyed _ (refresh_row (refresh_of env input row now)) t (λ r. refl) (λ r. refl)

module _ (env : Env) (input : UpsertGireveRetryInput) where
  -- What the second half of the call keeps, on the row that the first half found.
  upsert_found-IsKeyed :
      (now : ℕ) (o : Option Row) (w : World)
      → find_gireve_retry_queue input.key w.table ≡ o
      → All (λ i. i ≢ env.uuid w.uuids) (ids w.table)
      → IsKeyed w.table
      → IsKeyed (upsert_found env input now o w).1.table
  unfolding upsert_found fresh_uuid
  upsert_found-IsKeyed now none w e new v =
      keeps_request_at (λ t rows. IsKeyed t) env _ (record w { uuids = w.uuids + 1 }) v
        (insert-IsKeyed (inserted_item env input (env.uuid w.uuids) now) input.last_error now
          w.table e new v)
  upsert_found-IsKeyed now (some row) w e new v =
      keeps_request_at (λ t rows. IsKeyed t) env _ w v (updated-IsKeyed env input now row w.table v)

  -- Where each dedupe key and each id has one row, and the next uuid is no row's id, it stays so
  -- after the call, whichever of its requests fails, before or after taking effect.
  pub upsert-IsKeyed :
      (w : World)
      → All (λ i. i ≢ env.uuid w.uuids) (ids w.table)
      → IsKeyed w.table
      → IsKeyed (upsert_on_failure env input w).1.table
  unfolding upsert_on_failure read_clock request
  upsert-IsKeyed w new v = elim (Fault-cases (env.fault w.requests)) [
    | inl f ↦ rw f (
        upsert_found-IsKeyed (env.time w.clock_reads) (find_gireve_retry_queue input.key w.table)
          (record w { clock_reads = w.clock_reads + 1; requests = w.requests + 1 }) refl new v)
    | inr (inl (e, f)) ↦ rw f v
    | inr (inr (e, f)) ↦ rw f v
  ]
