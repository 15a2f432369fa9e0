-- ===== src/Libelf.antt =====
-- libelf: the reader of ar(1) archives, and the layout of an ELF object that is written.
pub mod Ar
pub mod Extents
pub mod Layout
