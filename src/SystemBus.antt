-- ===== src/SystemBus.antt =====
-- crates/ue2-core/src/{bus,io,absent}.rs: the address map of the machine. IoMap is the decode of the I/O
-- window, Absent the blocks that are not built, Access the bus with its byte accesses, Wide the
-- accesses of 16 and 32 bits. The devices are a parameter, behind the interface that they share.
pub mod IoMap
pub mod Windows
pub mod Overlap
pub mod Absent
pub mod Access
pub mod Wide
pub mod Mirrors
pub mod Bytes
pub mod Stores
pub mod Loads
pub mod Halfwords
pub mod Ticks
pub mod Routes
pub mod Fetch
pub mod Stalls
pub mod Plain
mod Tests
