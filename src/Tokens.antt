-- ===== src/Tokens.antt =====
-- The tokens of roaming drivers: 00_Base/src/mapper/TokensMapper.ts and
-- 00_Base/src/services/TokensService.ts, over the table Authorizations.
pub mod Data
pub mod Mapping
pub mod Store
pub mod Upsert
pub mod Patch
pub mod Select
pub mod RealTime
pub mod Push
mod Tests
