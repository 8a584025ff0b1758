-- ===== src/Kernel.antt =====
-- The kernel: the parts under kernel/.
pub mod Align
pub mod Alloc
pub mod Args
pub mod Cpio
pub mod Elf
pub mod Exn
pub mod Init
pub mod Pool
pub mod Print
pub mod Process
pub mod PtrStack
pub mod Space
pub mod Start
pub mod Syscall
