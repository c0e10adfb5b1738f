-- ===== src/Mqtt.antt =====
-- The MQTT client component, mqtt_manager.
pub mod Topic
pub mod Building
pub mod Client
mod Tests
