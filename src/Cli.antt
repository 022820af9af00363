-- ===== src/Cli.antt =====
-- Commands of the command line tool (crates/segwire-cli/src/commands) that decide something by themselves.
pub mod Exec
pub mod Validate
