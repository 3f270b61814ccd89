-- ===== src/IecProc.antt =====
-- crates/c64-bridge/src/iec_proc.rs: the microcoded engine behind the serial bus and the register shell
-- that the firmware talks to. The device that couples it to the third-party bus is left out, but for
-- the conversion of cycles to microseconds.
pub mod State
pub mod Engine
pub mod Registers
pub mod Invariant
pub mod Fifos
pub mod Waits
pub mod EarlyExit
pub mod Restart
mod Tests
