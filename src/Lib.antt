-- ===== src/Lib.antt =====
-- Verification of the ELF Tool Chain: libraries and tools for ELF objects and DWARF debugging data.
--
-- libdwarf reads and writes DWARF sections. Everything in it goes through the byte-level functions
-- of libdwarf/libdwarf_rw.c, which the modules below Libdwarf model whole:
--   Libdwarf/Fixed.antt    _dwarf_read_lsb, _dwarf_decode_lsb, _dwarf_write_lsb and the _msb twins
--   Libdwarf/Leb.antt      _dwarf_read_uleb128, _dwarf_decode_uleb128, _dwarf_write_uleb128 and the
--                          signed twins
--   Libdwarf/Blocks.antt   _dwarf_read_string, _dwarf_write_string, _dwarf_read_block,
--                          _dwarf_write_block, _dwarf_write_padding
--   Libdwarf/Grow.antt     the _dwarf_write_*_alloc functions, which enlarge a block by realloc()
-- Each has its theorems in child modules, and its runs on concrete inputs in a child Tests.
-- Base.antt passes on the shared names; Base/Bits.antt has the laws of `&`, `|` and shifts,
-- Base/Xor.antt those of `^` and of masks, and Base/Mem.antt a buffer as the list of its bytes with
-- loads and stores that fail outside of it.
--
-- Conventions. A uint64_t is a natural number, with its wrap-around written as `% 2 ^ 64`; an
-- int64_t is its bit pattern. A pointer into a buffer is an offset. `none` stands for undefined
-- behaviour of the C code: an access outside of a buffer, a shift that an `int` does not hold.
-- realloc() is a parameter: it may refuse a request, keeps the old bytes, and grants no 2 ^ 63 bytes
-- or more. The doubling loops take 65 rounds of fuel, which a positive size cannot use up; the
-- LEB128 writers recur on the room that is left, the readers on the bytes behind the offset.
--
-- libelf reads ar(1) archives. The modules below Libelf/Ar follow libelf/libelf_ar_util.c,
-- libelf/libelf_ar.c, libelf/elf_next.c, libelf/elf_rand.c, libelf/elf_memory.c,
-- libelf/libelf_memory.c, libelf/elf_getarsym.c and libelf/elf_hash.c:
--   Libelf/Ar/Outcome.antt the result of a call, the fields of an archive header
--   Libelf/Ar/Number.antt  _libelf_ar_get_number
--   Libelf/Ar/Names.antt   _libelf_ar_get_translated_name, _libelf_ar_get_raw_name
--   Libelf/Ar/Open.antt    _libelf_ar_open, which finds the symbol table and the string table
--   Libelf/Ar/Memory.antt  elf_memory, _libelf_memory: what kind of image a member is
--   Libelf/Ar/Hash.antt    elf_hash; Hash/Sysv.antt has the hash of the System V ABI on 32 bits
--   Libelf/Ar/Symtab.antt  _libelf_ar_process_svr4_symtab, _libelf_ar_process_bsd_symtab and
--                          elf_getarsym
--   Libelf/Ar/Member.antt  _libelf_ar_open_member, _libelf_ar_gethdr, elf_next, elf_rand; its
--                          children walk over an archive, and step through the descriptor's states
-- The state is the record Archive, the fields of an Elf descriptor that the archive reader uses.
-- An Outcome is a value, the code of the error that was set, or undefined behaviour. The whole file
-- is in memory, as the list of its bytes. malloc() of a string or a header is a parameter; that of
-- an Elf descriptor is taken to succeed. A walk takes as much fuel as the file has bytes, since each
-- member that is opened has a header of sixty bytes.
--
-- libelftc has helpers for the tools. Libelftc/StringTable.antt models the string tables of
-- libelftc/elftc_string_table.c, with the hash of libelftc/libelftc_hash.c: a pool of strings and
-- buckets of entries, a function from the index of a bucket to its list. Its children search a
-- bucket, follow an assignment through the buckets, insert and remove. Not modelled are the
-- compaction in elftc_string_table_image, elftc_string_table_from_section and the release.
--
-- elfcopy copies objects between formats. The modules below Elfcopy follow the text formats of
-- elfcopy/ascii.c, Motorola S-records and Intel Hex:
--   Elfcopy/Hex.antt     read_num, write_num and the hexadecimal digits
--   Elfcopy/Record.antt  the result of reading or writing a line, and the data of a record
--   Elfcopy/Image.antt   new_data_section, finalize_data_section, append_data: the sections that
--                        records are loaded into; Image/Segments.antt has the abstract contents
--   Elfcopy/Scn.antt     which sections of an object are written
--   Elfcopy/Srec.antt    srec_read and the srec_write functions; Srec/Create.antt has create_srec,
--                        Srec/Load.antt the loop of create_elf_from_srec
--   Elfcopy/Ihex.antt    ihex_read and the ihex_write functions; Ihex/Create.antt has create_ihex,
--                        Ihex/Load.antt the loop of create_elf_from_ihex
-- A file is the list of its lines, as fgets(3) returns them; what libelf gives for a section is the
-- record Scn. A Conversion is a value, the return of -1, a write behind a buffer, or a loop that is
-- out of fuel. srec_write_Sd and ihex_write_00 have one round more than bytes; the loop that doubles
-- a capacity has 64 rounds, which pass every size_t. Not modelled are the symbol table of the target
-- symbolsrec, and the headers and tables that are put around the loaded sections.
--
-- libdwarf builds the line table of a compilation unit by running its line number program, and the
-- producer writes such a program. Libdwarf/Lineno.antt has the table and the entries of files
-- (_dwarf_lineno_add_file and _dwarf_lineno_make_fullpath of libdwarf/libdwarf_lineno.c),
-- Lineno/Program.antt _dwarf_lineno_run_program, and Lineno/Generate.antt
-- _dwarf_lineno_gen_program with _dwarf_reloc_entry_add of libdwarf/libdwarf_reloc.c. malloc() is a
-- parameter that may refuse each request. A run has one round more than the program has bytes, since
-- every round moves on. Not modelled are the headers of the tables.
--
-- libelf lays an ELF object out as a list of extents in the order of their offsets.
-- Libelf/Extents.antt has _libelf_extent_is_unused and _libelf_insert_extent of
-- libelf/elf_update.c, with malloc() as a parameter that may refuse, and Libelf/Layout.antt
-- _libelf_compute_section_extents for an object that is created afresh, with _libelf_xlate_shtype of
-- libelf/libelf_data.c and _libelf_falign of libelf/libelf_align.c. The tables of sizes, which the
-- build generates, are parameters. Not modelled are the sections that stand in a file, the headers,
-- and the writing.
pub mod Base
pub mod Elfcopy
pub mod Libdwarf
pub mod Libelf
pub mod Libelftc
