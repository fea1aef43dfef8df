-- ===== src/Mapper.antt =====
-- The mappers of 00_Base/src/mapper that turn a transaction into a session and a CDR: the energy of
-- a reading, the merged readings, and the charging periods between them.
pub mod Meter
pub mod Readings
pub mod Periods
pub mod Data
pub mod Session
pub mod Lookups
pub mod Cdr
pub mod Batch
mod Tests
