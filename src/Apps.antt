-- ===== src/Apps.antt =====
-- The programs under apps/, over the system calls as they see them.
pub mod Main
pub mod Shell
pub mod Sigtest
