-- ===== src/Drivers.antt =====
-- The drivers of parts on an I2C bus.
pub mod Bus
pub mod Pins
pub mod Floats
pub mod Aw9523b
pub mod Pi4ioe5v6408
pub mod Rx8130ce
pub mod Nau7802
mod Tests
