-- ===== src/Usb.antt =====
-- crates/ue2-core/src/devices/usb: devices behind the USB port. Function has what they share, Device the
-- control endpoint, Storage the mass-storage class over a medium that is a parameter, Hub the hub's ports,
-- Keyboard the keyboard, Classes their descriptors. Exchange, Transfers, Blocks and Sense are about storage,
-- Control and Stages about the control endpoint, Ports about the hub, Keys and Reports about the keyboard.
pub mod Function
pub mod Storage
pub mod Exchange
pub mod Transfers
pub mod Blocks
pub mod Sense
pub mod Device
pub mod Control
pub mod Stages
pub mod Hub
pub mod Ports
pub mod Keyboard
pub mod Classes
pub mod Keys
pub mod Reports
mod Tests
