-- ===== src/Config.antt =====
-- The configuration file component, config_store.
pub mod Files
pub mod Store
pub mod Ram
mod Tests
