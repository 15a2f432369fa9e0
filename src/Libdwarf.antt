-- ===== src/Libdwarf.antt =====
-- libdwarf: the byte-level readers and writers of libdwarf/libdwarf_rw.c.
pub mod Fixed
pub mod Leb
pub mod Blocks
pub mod Grow
pub mod Lineno
