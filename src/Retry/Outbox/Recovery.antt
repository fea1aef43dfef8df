-- ===== src/Retry/Outbox/Recovery.antt =====
-- What becomes of a row whose run crashed: the release of the stale locks makes it due again.
use citrineos_ocpi.Prelude.{ℕ, ◌+◌, ◌*◌, ◌-◌, ◌≤◌, ◌≡◌, refl, some, arith, ltb, if◌then◌else◌}
use citrineos_ocpi.Retry.Queue.{
  Key, Row, find_gireve_retry_queue, release_stale_gireve_retry_locks, is_due, is_stale, processing,
  released_row, status_eq,
}
use citrineos_ocpi.Retry.Queue.Keys.{find-update_where}
use citrineos_ocpi.Retry.World.{Env, World, no_fault, request, read_clock}
use citrineos_ocpi.Retry.Outbox.{release_stale_locks, retry_stale_lock_seconds}

module _ (env : Env) (w : World) (k : Key) (row : Row) (locked : ℕ) where
  abbrev now : ℕ
  now = env.time w.clock_reads

  -- The instant from which the lock of this row is stale.
  abbrev pub deadline : ℕ
  deadline = locked + retry_stale_lock_seconds env.config * 1000

  -- With a database that answers, after `releaseStaleLocks` the row of a key that was in processing
  -- under a lock, and whose retry time has come, is due exactly when the lock was older than the
  -- limit; its item is unchanged either way.
  pub release_recovers :
      env.fault w.requests ≡ no_fault
      → find_gireve_retry_queue k w.table ≡ some row
      → row.status ≡ processing
      → row.locked_at ≡ some locked
      → row.next_retry_at ≤ now
      → (r : Row) × (find_gireve_retry_queue k (release_stale_locks env w).1.table ≡ some r)
        × (r.item ≡ row.item)
        × (is_due now r ≡ ltb deadline now)
  unfolding release_stale_locks release_stale_gireve_retry_locks request read_clock is_due status_eq
  release_recovers f h s l d =
      let before = now - retry_stale_lock_seconds env.config * 1000 in
      (
        (if is_stale before row then released_row before row else row),
        rw f
            (find-update_where (is_stale before) (released_row before) k w.table row (λ r. refl) h),
        ground arith,
        ground arith,
      )
