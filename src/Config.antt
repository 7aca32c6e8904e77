-- ===== src/Config.antt =====
-- src/config.rs: the executor options.
pub mod Files
pub mod Contact
pub mod PrivateKey
pub mod Options
pub mod Limits
mod Checks
mod Tests
use spraycc.Base.{ℕ, String, Option, none}

pub record ExecConfig : Type 0 where
  pub initial_count : ℕ
  pub max_count : ℕ
  pub keep_pending : ℕ
  pub release_delay : ℕ
  pub idle_shutdown_after : ℕ
  pub start_cmd : String
  pub alt_start_cmd : Option String

-- `ExecConfig::default`
abbrev pub default : ExecConfig
default = record {
  initial_count = 5;
  max_count = 1000;
  keep_pending = 5;
  release_delay = 30;
  idle_shutdown_after = 60;
  start_cmd = "spraycc";
  alt_start_cmd = none;
}
