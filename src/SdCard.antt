-- ===== src/SdCard.antt =====
-- crates/ue2-core/src/devices/sdcard.rs: an SDHC card in SPI mode behind the firmware's SPI block. The
-- image file is a parameter, a record of its two operations.
pub mod Crc
pub mod Serial
pub mod Card
pub mod Host
pub mod Transfers
pub mod Frames
pub mod Read
pub mod Stream
pub mod Fill
pub mod Write
pub mod Blocks
pub mod Select
pub mod Errors
pub mod Checksum
pub mod Bytes
pub mod Invariant
mod Tests
