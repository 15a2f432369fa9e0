-- ===== src/Elfcopy/Image.antt =====
-- The data sections that a text format is loaded into: new_data_section, finalize_data_section,
-- append_data, and the part of the loops of create_elf_from_srec and create_elf_from_ihex that
-- both have, of elfcopy/ascii.c. create_external_section of elfcopy/sections.c ends the program
-- where it fails, so new_data_section does not return NULL.
pub mod Segments
pub mod Pieces
pub mod View
pub mod Append
use elftoolchain.Base.{
  ℕ, zero, suc, ◌+◌, ◌*◌, ◌%◌, ◌^◌, Bool, true, false, ◌||◌, not, Option, none, some, List, [], ◌∷◌,
  ◌++◌, Bytes, ltb, ◌==◌, if◌then◌else◌, length,
}
use elftoolchain.Elfcopy.Record.{Conversion, ok, overflow, unfinished, ◌>>=◌}

-- The number in the name `.sec%d`, the address and the offset; `buf[0 .. sz)` and `cap`, which is
-- used once there is a buffer.
pub record Section : Type 0 where
  pub index : ℕ
  pub off : ℕ
  pub vma : ℕ
  pub buf : Option Bytes
  pub cap : ℕ

unfoldable pub new_data_section : ℕ → ℕ → ℕ → Section
new_data_section sec_index off addr = record {
  index = sec_index;
  off = off;
  vma = addr;
  buf = none;
  cap = 0;
}

-- The capacity after the loop that doubles it while `sz` bytes do not fit. The fuel is the first
-- argument.
unfoldable pub double_cap : ℕ → ℕ → ℕ → Conversion ℕ
double_cap zero sz c = unfinished
double_cap (suc n) sz c = elim (ltb c sz) [ true ↦ double_cap n sz (c * 2 % 2 ^ 64) | false ↦ ok c ]

-- _SEC_INIT_CAP
abbrev pub init_cap : ℕ
init_cap = 1024

unfoldable pub initial_buf : Section → Bytes
initial_buf s = elim (s.buf) [ none ↦ [] | some b ↦ b ]

unfoldable pub initial_cap : Section → ℕ
initial_cap s = elim (s.buf) [ none ↦ init_cap | some b ↦ s.cap ]

unfoldable pub append_data : Section → Bytes → Conversion Section
append_data s data' = double_cap 64 (length data' + length (initial_buf s)) (initial_cap s) >>= λ c.
    ok (record s { buf = some (initial_buf s ++ data'); cap = c })

-- The variables of the loops. `done` are the finalized sections, the latest first; what
-- finalize_data_section hands to libelf are the buffer and the size of the section.
pub record Image : Type 0 where
  pub s : Option Section
  pub done : List Section
  pub first : Bool
  pub sec_index : ℕ
  pub off : ℕ
  pub sec_addr : ℕ
  pub entry : ℕ

-- With the offset of the first section behind the header.
unfoldable pub empty_image : ℕ → Image
empty_image off = record {
  s = none;
  done = [];
  first = true;
  sec_index = 1;
  off = off;
  sec_addr = 0;
  entry = 0;
}

unfoldable pub finalize : Image → List Section
finalize img = elim (img.s) [ none ↦ img.done | some s ↦ s ∷ img.done ]

unfoldable pub start_section : Image → ℕ → Image
start_section img addr = record img {
  s = some (new_data_section img.sec_index img.off addr);
  done = finalize img;
  first = false;
  sec_index = img.sec_index + 1;
  sec_addr = addr;
}

-- append_data to the section `s`; there is none to append to only if NULL is dereferenced.
unfoldable pub append_to : Image → Bytes → Conversion Image
append_to img bytes = elim (img.s) [
  | none ↦ overflow
  | some s ↦ append_data s bytes >>= λ s'. ok (record img {
    s = some s';
    off = (img.off + length bytes) % 2 ^ 64;
    sec_addr = (img.sec_addr + length bytes) % 2 ^ 64;
  })
]

-- A data record at the address `addr`.
unfoldable pub add_data : Image → ℕ → Bytes → Conversion Image
add_data img addr [] = ok img
add_data img addr (b ∷ bytes) =
    if img.first || not (img.sec_addr == addr)
    then append_to (start_section img addr) (b ∷ bytes)
    else append_to img (b ∷ bytes)
