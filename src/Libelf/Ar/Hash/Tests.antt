-- ===== src/Libelf/Ar/Hash/Tests.antt =====
-- Hashes of names.
use elftoolchain.Base.{ℕ, ◌%◌, ◌^◌, ◌<◌, ◌≡◌, refl, [], ◌∷◌, Bytes}
use elftoolchain.Libelf.Ar.Outcome.{ok, undefined}
use elftoolchain.Libelf.Ar.Hash.{elf_hash, hash_loop, hash_step, fold_top}
use elftoolchain.Libelf.Ar.Hash.Sysv.{sysv_loop, elf_hash-sysv_loop}

-- The third hash has more than 32 bits.
hash_runs :
    (elf_hash (b'p' ∷ b'r' ∷ b'i' ∷ b'n' ∷ b't' ∷ b'f' ∷ 0 ∷ []) ≡ ok 0x77905a6)
    × (elf_hash (b'a' ∷ []) ≡ undefined)
    × (elf_hash (0xff ∷ 0x0f ∷ 0x0f ∷ 0x0f ∷ 0x0f ∷ 0x0f ∷ 0x12 ∷ 0 ∷ []) ≡ ok 0x1_0000_0002)
unfolding elf_hash hash_loop hash_step fold_top
hash_runs = (refl, refl, refl)

abbrev long_hash : ℕ
long_hash = 0x1_0000_0002

abbrev odd_name : Bytes
odd_name = 0xff ∷ 0x0f ∷ 0x0f ∷ 0x0f ∷ 0x0f ∷ 0x0f ∷ 0x12 ∷ 0 ∷ []

elf_hash-sysv_loop_example :
    (sysv_loop 0 odd_name ≡ ok (long_hash % 2 ^ 32)) × (long_hash % 2 ^ 32 < 2 ^ 28)
elf_hash-sysv_loop_example = elf_hash-sysv_loop odd_name long_hash (hash_runs.2)
