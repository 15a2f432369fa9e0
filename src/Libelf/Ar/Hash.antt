-- ===== src/Libelf/Ar/Hash.antt =====
-- elf_hash of libelf/elf_hash.c, with an unsigned long of 64 bits.
pub mod Sysv
mod Tests
use elftoolchain.Base.{
  ℕ, ◌+◌, ◌-◌, ◌*◌, ◌%◌, ◌^◌, [], ◌∷◌, Bytes, ◌==◌, if◌then◌else◌, bit_and, bit_xor,
}
use elftoolchain.Base.Bits.{shr}
use elftoolchain.Libelf.Ar.Outcome.{Outcome, ok, undefined}

-- `t = h & 0xF0000000UL`
abbrev pub top_bits : ℕ → ℕ
top_bits h = bit_and h 0xf000_0000

-- `if (t) h ^= t >> 24`, then `h = h & ~t`
unfoldable pub fold_top : ℕ → ℕ → ℕ
fold_top h t = bit_and (if t == 0 then h else bit_xor h (shr t 24)) (2 ^ 64 - 1 - t)

-- One round of the loop.
unfoldable pub hash_step : ℕ → ℕ → ℕ
hash_step h c = let h' = (h * 16 + c) % 2 ^ 64 in fold_top h' (top_bits h')

-- The loop, on the bytes from `s` to the end of the memory that may be read.
unfoldable pub hash_loop : ℕ → Bytes → Outcome ℕ
hash_loop h [] = undefined
hash_loop h (c ∷ s) =
    let rest : Outcome ℕ = hash_loop (hash_step h c) s in if c == 0 then ok h else rest

unfoldable pub elf_hash : Bytes → Outcome ℕ
elf_hash s = hash_loop 0 s
