-- ===== src/Hal.antt =====
-- The host HAL: the parts under hosthal/.
pub mod Context
pub mod Main
pub mod Signals
pub mod Syscalls
pub mod Trap
pub mod Protect
pub mod Vm
