-- ===== src/Sessions.antt =====
-- What is pushed to partners about charging sessions. The service that suppresses repeated pushes
-- of a session is Dedupe, and Tests holds its concrete runs.
pub mod Dedupe
pub mod Broadcaster
mod Tests
