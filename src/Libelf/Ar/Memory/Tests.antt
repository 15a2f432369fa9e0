-- ===== src/Libelf/Ar/Memory/Tests.antt =====
-- Images in memory, and the theorem at one of them.
use elftoolchain.Base.{ℕ, ◌∷◌, Bytes, replicate}

-- The front of an ELF file of the given class, byte order and version.
abbrev image : ℕ → ℕ → ℕ → Bytes
image class byteorder v = 0x7f ∷ b'E' ∷ b'L' ∷ b'F' ∷ class ∷ byteorder ∷ v ∷ replicate 10 0

-- ELFCLASS64 and ELFDATA2LSB
abbrev class_64 : ℕ
class_64 = 2

abbrev lsb : ℕ
lsb = 1
