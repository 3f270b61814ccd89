-- ===== src/Lib.antt =====
-- Verification library of the emulator.
--
-- The program emulates an Ultimate 64 / Ultimate-II cartridge: a RISC-V soft core runs the vendor's
-- firmware over a memory-mapped set of devices, and a model of the Commodore 64 is bridged to them.
-- This library models parts of that core as functions on records, each translated from the Rust source,
-- and proves what makes the parts correct.
--
-- Parts, files and code:
--
--   Base        helpers: Boolean tests on native numbers, lists over them, words of 8, 16 and 32
--               bits and bitwise operations read bit by bit, signed numbers.
--   Rv32        crates/rv32/src/lib.rs, the processor. Bus is `trait Bus` as an interface with
--               an arbitrary state, and its composed accesses; State has `Exit`, `Csrs`, `Cpu`,
--               the control registers, `trap` and `mret`; Alu has the immediates, OP, OP-IMM,
--               branches and `mul_div`; Step has `Cpu::step` and `Cpu::system`, cut at the
--               instruction groups of the source's `match`. What the bus answers is a parameter.
--   Irq         crates/ue2-core/src/irq.rs, the interrupt core that drives the processor's line.
--   Itu         crates/ue2-core/src/devices/itu.rs, the timers and interrupt registers. It takes the
--               interrupt core as an argument and returns it, as the source borrows it.
--   Eeprom      crates/c64-bridge/src/cart_eeprom.rs, the serial EEPROM of a cartridge.
--   Wd177x      crates/c64-bridge/src/wd177x.rs, the floppy controller: State with the registers
--               of both sides, Transfer with the DMA, Motion with the stepper and time. The memory is
--               `trait DmaMem`, an interface here.
--   Clock       crates/c64-bridge/src/clock.rs, conversion between the cycles of the Commodore 64
--               and those of the emulator.
--   IecProc     crates/c64-bridge/src/iec_proc.rs, the microcoded engine on the serial bus: State,
--               Engine (`clock`, `decode`, `run_us`), Registers (the firmware's window). What the
--               other devices do to the lines is an argument, a bus with a state of its own.
--   Flash       crates/ue2-core/src/devices/flash.rs: Chip is the NOR chip (`Nor`), Controller the SPI
--               controller (`SpiFlash`) with the bookkeeping of the file behind the array.
--   I2c         crates/ue2-core/src/devices/i2c.rs: Edid builds the monitor's EDID, Master is the bus
--               master with the EEPROM behind it.
--   SdCard      crates/ue2-core/src/devices/sdcard.rs: Crc has the checksums, Card the card's command
--               machine, Host the SPI block with its registers. The image file is a parameter. Serial is
--               the checksum and the framing as the card's standard has them, to compare with.
--   SystemBus   crates/ue2-core/src/{bus,io,absent}.rs: IoMap decodes the I/O window, Absent has the
--               blocks that are not built, Access the bus with its byte accesses, Wide the wider ones
--               and the instruction fetch, Ticks the deadlines. `trait IoDevice` is an interface whose
--               state is a parameter; Irq is the interrupt core that devices are handed.
--   Usb         crates/ue2-core/src/devices/usb: Function is what devices share, Device the control
--               endpoint, Storage the mass storage device over a medium that is a parameter
--               (`BlockBackend`), Hub the hub, Keyboard the keyboard, Classes the descriptors and the
--               three as classes behind the control endpoint.
--
-- Conventions. A method with `&mut self` takes the record and returns it; further mutable arguments
-- are returned beside it. Integers are natural numbers, cut to their width where the source's type
-- wraps; times are 64-bit in the source and unbounded here unless a theorem says otherwise.
-- Functions that the source's tests or tools use only (Debug output, file names) are left out.
--
-- Fuel. The EEPROM's `settle` runs 8192 clocks as the source does, and the library shows that this
-- brings it to rest. The `loop` of the controller's `settle` has three rounds here; two are enough.
-- The catch-up loop of the timer is the closed form the source computes.
--
-- Not modelled: the devices not named above, the host side of USB (its pipes), the tree of devices behind
-- it and the mouse, the machine's loop, the loader, the Commodore 64 model (a
-- third-party emulator behind glue), networking, the virtual FAT volume and the application with
-- its window, sound and debug servers, which are mostly host input and output.

pub mod Base
pub mod Irq
pub mod Rv32
pub mod Clock
pub mod Itu
pub mod Eeprom
pub mod Wd177x
pub mod Flash
pub mod I2c
pub mod IecProc
pub mod SdCard
pub mod SystemBus
pub mod Usb
