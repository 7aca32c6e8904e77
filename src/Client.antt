-- ===== src/Client.antt =====
-- src/client.rs: the wrapper that submits one command and collects what it produces.
pub mod CommandLine
pub mod Output
pub mod Connect
pub mod Run
mod Checks
mod Tests
