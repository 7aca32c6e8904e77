-- ===== src/Server.antt =====
-- src/server.rs: the task server.
pub mod Queue
pub mod State
pub mod Start
pub mod Dispatch
pub mod Handlers
pub mod Loop
pub mod Relay
pub mod Schedule
pub mod Gate
pub mod Network
pub mod Invariant
pub mod Safety
pub mod Tests
