-- ===== src/Elfcopy/Scn.antt =====
-- The sections of the object that create_srec and create_ihex of elfcopy/ascii.c go through, and
-- which of them they write.
pub mod Layout
pub mod Samples
use elftoolchain.Base.{
  ℕ, Bool, ◌||◌, Option, none, some, [], ◌∷◌, Bytes, ltb, ◌==◌, if◌then◌else◌, bit_and,
}

pub record Shdr : Type 0 where
  pub sh_type : ℕ
  pub sh_flags : ℕ
  pub sh_addr : ℕ
  pub sh_size : ℕ

-- A section that elf_nextscn returns: what gelf_getshdr and elf_getdata give for it. `none` is
-- their failure; a data descriptor without a buffer has no bytes.
pub record Scn : Type 0 where
  pub shdr : Option Shdr
  pub data' : Option Bytes

-- SHF_ALLOC and SHT_NOBITS
unfoldable pub is_skipped : Shdr → Bool
is_skipped sh = bit_and sh.sh_flags 2 == 0 || sh.sh_type == 8 || sh.sh_size == 0

unfoldable pub with_bytes : ℕ → Bytes → Option (ℕ × Bytes)
with_bytes addr [] = none
with_bytes addr (b ∷ buf) = some (addr, b ∷ buf)

-- The data that are written for a section; `none` where the loop goes on to the next.
unfoldable pub to_write : Scn → Option (ℕ × Bytes)
to_write scn = elim (scn.shdr) [
  | none ↦ none
  | some sh ↦
      if is_skipped sh || ltb 0xffffffff sh.sh_addr
      then none
      else elim (scn.data') [ none ↦ none | some b ↦ with_bytes sh.sh_addr b ]
]
