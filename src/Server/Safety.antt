-- ===== src/Server/Safety.antt =====
-- src/server.rs: what holds after every event, and which events the server survives.
pub mod Ensures
pub mod Dispatch
pub mod Release
pub mod Update
pub mod Ready
pub mod Submit
pub mod Paired
pub mod Dropped
pub mod Connect
pub mod Events
pub mod Reach
pub mod Guarantees
pub mod Running
