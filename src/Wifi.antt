-- ===== src/Wifi.antt =====
-- The station and access point manager, wifi_manager.
pub mod State
pub mod Reconnect
pub mod Events
pub mod Control
mod Tests
