-- ===== src/Cli.antt =====
-- The command shell, cli.
pub mod Compare
pub mod Registry
pub mod Dispatch
pub mod Args
pub mod Complete
mod Tests
