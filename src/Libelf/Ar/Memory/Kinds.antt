-- ===== src/Libelf/Ar/Memory/Kinds.antt =====
-- What elf_memory accepts, and what it recognises.
use elftoolchain.Base.{ℕ, ◌≤◌, ◌≡◌, Bytes, arith}
use elftoolchain.Libelf.Ar.Outcome.{ok}
use elftoolchain.Libelf.Ar.Memory.{Image, elf_memory}

pub elf_memory-size : (f : Bytes) (n : ℕ) (i : Image) → elf_memory f n ≡ ok i → 1 ≤ n
unfolding elf_memory
elf_memory-size f n i h = ground arith
