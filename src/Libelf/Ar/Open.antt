-- ===== src/Libelf/Ar/Open.antt =====
-- _libelf_ar_open of libelf/libelf_ar_util.c: the special members in front of an archive.
pub mod Regions
mod Tests
use elftoolchain.Base.{
  ℕ, ◌+◌, ◌^◌, ◌-◌, Bool, true, false, ◌&&◌, not, ◌||◌, Option, none, some, [], ◌∷◌, Bytes, ◌>>=◌,
  ltb, ◌==◌, if◌then◌else◌, length, bit_and,
}
use elftoolchain.Libelf.Ar.Outcome.{is_at, ar_size, ar_fmag, hdr_size, sarmag}
use elftoolchain.Libelf.Ar.Number.{get_number}

-- The descriptor of an archive: e_rawfile, and of e_u.e_ar the offsets and sizes of the raw symbol
-- table and the raw string table (0 while they are NULL), e_next and e_nchildren; of e_flags the
-- flag LIBELF_F_AR_VARIANT_SVR4.
pub record Archive : Type 0 where
  pub rawfile : Bytes
  pub rawsymtab : ℕ
  pub rawsymtabsz : ℕ
  pub rawstrtab : ℕ
  pub rawstrtabsz : ℕ
  pub next : ℕ
  pub nchildren : ℕ
  pub svr4 : Bool

-- LIBELF_ADJUST_AR_SIZE, `((S) + 1U) & ~1U`: the mask is an unsigned int of 32 bits.
unfoldable pub adjust_size : ℕ → ℕ
adjust_size sz = bit_and (sz + 1) 0xffff_fffe

-- READ_AR_HEADER: the size of the header at `s`; `none` is `goto error`.
unfoldable pub read_header : Bytes → ℕ → Option ℕ
read_header f s =
    if ltb (length f) (s + hdr_size)
    then none
    else if not (is_at f (ar_fmag s) b'`') || not (is_at f (ar_fmag s + 1) b'\n')
    then none
    else get_number (ar_size f s) 10

-- "/ ", "// " and "__.SYMDEF", the names of the special members.
unfoldable pub is_symtab : Bytes → ℕ → Bool
is_symtab f s = is_at f (s + 1) b' '

unfoldable pub is_strtab : Bytes → ℕ → Bool
is_strtab f s = is_at f (s + 1) b'/' && is_at f (s + 2) b' '

unfoldable pub is_bsd_symtab : Bytes → ℕ → Bool
is_bsd_symtab f s =
    is_at f s b'_'
    && is_at f (s + 1) b'_'
    && is_at f (s + 2) b'.'
    && is_at f (s + 3) b'S'
    && is_at f (s + 4) b'Y'
    && is_at f (s + 5) b'M'
    && is_at f (s + 6) b'D'
    && is_at f (s + 7) b'E'
    && is_at f (s + 8) b'F'

-- The archive before the special members are looked for, at the first header.
unfoldable pub start : Bool → Bytes → Archive
start v f = record {
  rawfile = f;
  rawsymtab = 0;
  rawsymtabsz = 0;
  rawstrtab = 0;
  rawstrtabsz = 0;
  next = sarmag;
  nchildren = 0;
  svr4 = v;
}

-- The member at `s` is the symbol table or the string table: its data, and `s` moved behind it.
unfoldable pub with_symtab : Archive → ℕ → ℕ → Archive
with_symtab a s sz = record a {
  rawsymtab = s + hdr_size;
  rawsymtabsz = sz;
  next = s + hdr_size + adjust_size sz;
}

unfoldable pub with_strtab : Archive → ℕ → ℕ → Archive
with_strtab a s sz = record a {
  rawstrtab = s + hdr_size;
  rawstrtabsz = sz;
  next = s + hdr_size + adjust_size sz;
}

-- The string table behind the symbol table: the `scanahead`.
unfoldable pub scan_ahead : Archive → Option Archive
scan_ahead a = read_header a.rawfile a.next >>= λ sz. some (
    if is_at a.rawfile a.next b'/' && is_strtab a.rawfile a.next
    then with_strtab a a.next sz
    else a)

-- The special members of the SVR4 format.
unfoldable pub open_svr4 : Bytes → ℕ → Option Archive
open_svr4 f sz =
    if sz == 0
    then none
    else if is_symtab f sarmag
    then scan_ahead (with_symtab (start true f) sarmag sz)
    else if is_strtab f sarmag
    then some (with_strtab (start true f) sarmag sz)
    else some (start true f)

-- `none` is the label `error`: with `reporterror` LIBELF_SET_ERROR(ARCHIVE, 0) and NULL, without it
-- a descriptor of kind ELF_K_NONE.
unfoldable pub ar_open : Bytes → Option Archive
ar_open f = read_header f sarmag >>= λ sz.
    if is_at f sarmag b'/'
    then open_svr4 f sz
    else if is_bsd_symtab f sarmag
    then some (with_symtab (start false f) sarmag sz)
    else some (start false f)
