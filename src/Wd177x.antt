-- ===== src/Wd177x.antt =====
-- crates/c64-bridge/src/wd177x.rs: the floppy controller of a 1581, between the drive's processor,
-- the firmware, and the memory that sectors are moved to and from.
pub mod State
pub mod Transfer
pub mod Motion
pub mod Dma
pub mod Invariant
pub mod Stepper
mod Tests
