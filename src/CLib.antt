-- ===== src/CLib.antt =====
-- What the programs use of the C library: char buffers, `strncasecmp`, `strtol`, `%d`.
pub mod Buffer
pub mod Decimal
pub mod Strtol
