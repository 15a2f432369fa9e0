-- ===== src/Libelf/Ar/Memory.antt =====
-- elf_memory of libelf/elf_memory.c and _libelf_memory of libelf/libelf_memory.c: what an image in
-- memory is. LIBELF_PRIVATE(version) is set, and the malloc() of the descriptor succeeds.
pub mod Kinds
mod Tests
use elftoolchain.Base.{
  ℕ, Bool, true, false, ◌&&◌, ◌||◌, not, Option, none, some, Bytes, ltb, leb, ◌==◌, if◌then◌else◌,
  length, get_elem?, take,
}
use elftoolchain.Libelf.Ar.Outcome.{
  Outcome, ok, err, undefined, argument, version, header, ◌>>=◌, or_archive, is_at,
}
use elftoolchain.Libelf.Ar.Open.{Archive, ar_open}

-- e_kind: ELF_K_ELF with e_class, e_byteorder and e_version, ELF_K_AR, or ELF_K_NONE.
pub data Image : Type 0 where
  elf : ℕ → ℕ → ℕ → Image
  ar : Archive → Image
  unknown : Image

-- LIBELF_IS_ELF
unfoldable pub is_elf : Bytes → Bool
is_elf f = is_at f 0 0x7f && is_at f 1 b'E' && is_at f 2 b'L' && is_at f 3 b'F'

-- `strncmp(image, ARMAG, SARMAG) == 0`
unfoldable pub is_ar : Bytes → Bool
is_ar f =
    is_at f 0 b'!'
    && is_at f 1 b'<'
    && is_at f 2 b'a'
    && is_at f 3 b'r'
    && is_at f 4 b'c'
    && is_at f 5 b'h'
    && is_at f 6 b'>'
    && is_at f 7 b'\n'

-- The byte at `i` of an image that is long enough.
unfoldable pub byte_at : Bytes → ℕ → Outcome ℕ
byte_at f i = elim (get_elem? f i) [ none ↦ undefined | some b ↦ ok b ]

unfoldable pub check_ident : ℕ → ℕ → ℕ → Outcome Image
check_ident class byteorder v =
    if ltb 1 v
    then err version
    else if not (byteorder == 1) && not (byteorder == 2) || not (class == 1) && not (class == 2)
    then err header
    else ok (elf class byteorder v)

unfoldable pub elf_image : Bytes → Outcome Image
elf_image f = do
  byteorder ← byte_at f 5
  class ← byte_at f 4
  v ← byte_at f 6
  check_ident class byteorder v

-- The image stands at the front of `f`, and bytes of it behind the end of `f`, of which there are
-- some for a size that wrapped, are in no way special.
unfoldable pub libelf_memory : Bytes → ℕ → Outcome Image
libelf_memory f sz =
    if ltb 16 sz && is_elf f
    then elf_image f
    else if leb 8 sz && is_ar f
    then (or_archive (ar_open (take sz f)) >>= λ a. ok (ar a))
    else ok unknown

unfoldable pub elf_memory : Bytes → ℕ → Outcome Image
elf_memory f sz = if sz == 0 then err argument else libelf_memory f sz
