-- ===== src/Xhci.antt =====
-- kernel/src/xhci.rs: the driver of the USB host controller.
pub mod Machine
pub mod Regs
pub mod Rings
pub mod Wrappers
pub mod Events
pub mod Ports
pub mod Commands
pub mod Control
pub mod Init
pub mod Descriptors
pub mod Locking
pub mod Invariant
pub mod Laps
pub mod Memory
mod Tests
