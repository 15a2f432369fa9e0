-- ===== src/Libelf/Ar.antt =====
-- The ar(1) archives of libelf: libelf/libelf_ar_util.c, libelf/libelf_ar.c, libelf/elf_next.c,
-- libelf/elf_rand.c, libelf/elf_memory.c, libelf/libelf_memory.c, libelf/elf_hash.c and
-- libelf/elf_getarsym.c. The file is the list of its bytes, and a pointer into it is an offset.
pub mod Outcome
pub mod Samples
pub mod Number
pub mod Names
pub mod Open
pub mod Hash
pub mod Symtab
pub mod Memory
pub mod Member
