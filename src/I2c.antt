-- ===== src/I2c.antt =====
-- crates/ue2-core/src/devices/i2c.rs: the I2C master and the monitor's EDID EEPROM on its first bus.
pub mod Edid
pub mod Master
pub mod ReadBlock
mod Tests
