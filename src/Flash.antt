-- ===== src/Flash.antt =====
-- crates/ue2-core/src/devices/flash.rs: the NOR flash chip and the SPI controller in front of it. The host
-- file that backs the array is left out; the range that a command changed is returned instead.
pub mod Chip
pub mod Controller
pub mod Changes
pub mod Frames
pub mod Program
pub mod Select
pub mod Dirty
mod Tests
