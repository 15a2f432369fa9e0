-- ===== src/Libdwarf/Blocks.antt =====
-- Strings, blocks and padding: _dwarf_read_string, _dwarf_write_string, _dwarf_read_block,
-- _dwarf_write_block and _dwarf_write_padding of libdwarf/libdwarf_rw.c. A C string is the list of
-- its bytes before the NUL. strcpy, memcpy and memset store bytes in a row.
pub mod Strings
mod Tests
use elftoolchain.Base.{
  ℕ, ◌+◌, Option, none, some, [], ◌∷◌, ◌++◌, ◌&&◌, not, Bytes, ◌>>=◌, ltb, ◌==◌, if◌then◌else◌,
  drop, length, replicate,
}
use elftoolchain.Base.Mem.{store_n}

-- `while (*src != '\0' && *offsetp < size)`: the byte at `src` and `*offsetp` behind the loop.
-- `*src` is read first.
scan_string : Bytes → ℕ → ℕ → Option (ℕ × ℕ)
scan_string [] size i = none
scan_string (b ∷ src) size i =
    let rest = scan_string src size (i + 1) in
    if not (b == 0) && ltb i size then rest else some (b, i)

-- The offset of the string, and the offset behind it.
pub read_string : Bytes → ℕ → ℕ → Option (ℕ × ℕ)
read_string m size i = scan_string (drop i m) size i >>= λ s.
    let (b, j) = s in some (i, if b == 0 && ltb j size then j + 1 else j)

pub write_string : Bytes → ℕ → Bytes → Option (Bytes × ℕ)
write_string m i s = store_n m i (s ++ 0 ∷ []) >>= λ m. some (m, i + (length s + 1))

-- The offset of the block, and the offset behind it. Nothing is read.
unfoldable pub read_block : ℕ → ℕ → ℕ × ℕ
read_block i len = (i, i + len)

-- The block is as long as `length` says: the caller's promise of memcpy.
pub write_block : Bytes → ℕ → Bytes → Option (Bytes × ℕ)
write_block m i blk = store_n m i blk >>= λ m. some (m, i + length blk)

pub write_padding : Bytes → ℕ → ℕ → ℕ → Option (Bytes × ℕ)
write_padding m i byte n = store_n m i (replicate n byte) >>= λ m. some (m, i + n)
