-- ===== src/Client.antt =====
-- The clients that push to partners: 00_Base/src/trigger/BaseClientApi.ts.
pub mod Path
pub mod Body
pub mod Response
pub mod Net
pub mod Request
pub mod Broadcast
pub mod Tests
