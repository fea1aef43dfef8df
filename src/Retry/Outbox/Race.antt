-- ===== src/Retry/Outbox/Race.antt =====
-- A live failure that refreshes a row while a run of the worker holds it.
use citrineos_ocpi.Prelude.{ℕ, ◌≡◌, refl, ◌∙◌, true, String, some, [], ◌∷◌, arith}
use citrineos_ocpi.Retry.Queue.{
  Key, Row, Table, Refresh, processing, sent, status_eq, refresh_row, find_gireve_retry_queue,
  mark_gireve_retry_sent, reschedule_gireve_retry, update_gireve_retry_queue, in_processing,
  sent_row,
}
use citrineos_ocpi.Retry.Queue.Keys.{find-update_where}
use citrineos_ocpi.Retry.Outbox.Latest.{find-update}

-- A refreshed row is out of the hands of the run that had claimed it: neither the `markSent` nor the
-- `reschedule` that this run issues afterwards changes the table, so the newer payload stays queued.
pub refresh_wins :
    (id now n at : ℕ) (e : String) (u : Refresh) (t : Table)
    → let refreshed = update_gireve_retry_queue id u t in
      (mark_gireve_retry_sent id now refreshed ≡ refreshed)
      × (reschedule_gireve_retry id n at e refreshed ≡ refreshed)
unfolding update_gireve_retry_queue mark_gireve_retry_sent reschedule_gireve_retry status_eq
refresh_wins id now n at e u [] = (refl, refl)
refresh_wins id now n at e u (r ∷ t) =
    let (m, s) = refresh_wins id now n at e u t in (ground (arith, m), ground (arith, s))

-- What a claim does to the row of a key, as far as a later statement can see: the row is in
-- processing, and the item is the one that was queued.
pub record Claimed (k : Key) (before after : Table) : Type 0 where
  pub row : Row
  pub was : Row
  pub found_before : find_gireve_retry_queue k before ≡ some was
  pub found_after : find_gireve_retry_queue k after ≡ some row
  pub same_item : row.item ≡ was.item
  pub taken : row.status ≡ processing

-- Once a second run has claimed the refreshed row, the `markSent` of the first run is accepted: the
-- row counts as sent with the newer payload, which the first run never pushed.
pub late_mark_sent :
    (k : Key) (row : Row) (u : Refresh) (now : ℕ) (t claimed : Table)
    → find_gireve_retry_queue k t ≡ some row
    → (c : Claimed k (update_gireve_retry_queue row.id u t) claimed)
    → (done : Row) × (find_gireve_retry_queue k (mark_gireve_retry_sent row.id now claimed)
        ≡ some done)
      × (done.status ≡ sent)
      × (done.payload ≡ u.payload)
unfolding mark_gireve_retry_sent status_eq
late_mark_sent k row u now t claimed h c =
    let wrote = find-update k u row t h in
    let was : c.was ≡ refresh_row u row = ground (arith, wrote, c.found_before) in
    let hit : in_processing row.id c.row ≡ true = ground (arith, was, c.same_item, c.taken) in
    (
      sent_row now c.row,
      find-update_where (in_processing row.id) (sent_row now) k claimed c.row (λ r. refl)
            c.found_after
          ∙ rw hit,
      refl,
      ground (arith, was, c.same_item),
    )
