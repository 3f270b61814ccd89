-- ===== src/Rv32.antt =====
-- crates/rv32/src/lib.rs: the RV32IM interpreter with rvlite semantics.
pub mod Bus
pub mod State
pub mod Alu
pub mod Step
pub mod Csr
pub mod Arith
pub mod Widths
pub mod Invariant
pub mod Interrupts
pub mod LoadStore
mod Tests
