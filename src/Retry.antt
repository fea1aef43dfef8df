-- ===== src/Retry.antt =====
-- The outbox of failed pushes to Gireve and the worker that retries them
-- (00_Base/src/services/GireveBroadcastRetryOutbox.ts, GireveBroadcastRetryWorker.ts).
pub mod Backoff
pub mod Queue
pub mod World
pub mod Outbox
pub mod Tests
pub mod Worker
