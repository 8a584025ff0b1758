-- ===== src/LibC.antt =====
-- libc/string.c over byte-addressed memory, and `vsnprintf` of libc/stdio.c. A loop that ends by
-- what it reads runs on fuel, which counts its rounds; a loop over a size recurs on it.
pub mod Scan
pub mod Copy
pub mod Token
pub mod Decimal
pub mod Format
pub mod Stdlib
