-- ===== src/Libdwarf/Grow.antt =====
-- The writers that enlarge their block: the six functions _dwarf_write_*_alloc of
-- libdwarf/libdwarf_rw.c. realloc() is a parameter: it may refuse any request, and grants none of
-- 2 ^ 63 bytes or more, which no object can have.
pub mod Loop
pub mod Writers
pub mod Leb
mod Tests
use elftoolchain.Base.{
  ℕ, zero, suc, ◌+◌, ◌*◌, ◌%◌, ◌^◌, ◌<◌, ◌≡◌, Option, none, some, Bytes, length, ltb, ◌==◌,
  if◌then◌else◌,
}
use elftoolchain.Base.Mem.{load}
use elftoolchain.Libdwarf.Fixed.{write_lsb, write_msb}
use elftoolchain.Libdwarf.Leb.{write_uleb128, write_sleb128}
use elftoolchain.Libdwarf.Blocks.{write_string, write_block, write_padding}

-- realloc(): the block of the new size, with the old bytes in front.
pub record Allocator : Type 0 where
  pub realloc : Bytes → ℕ → Option Bytes
  pub realloc_size : (m : Bytes) (n : ℕ) {m' : Bytes} → realloc m n ≡ some m' → length m' ≡ n
  pub realloc_keeps :
      (m : Bytes) (n : ℕ) {m' : Bytes} (j : ℕ)
      → realloc m n ≡ some m'
      → j < length m
      → j < n
      → load m' j ≡ load m j
  pub realloc_limit : (m : Bytes) (n : ℕ) {m' : Bytes} → realloc m n ≡ some m' → n < 2 ^ 63

-- `*block`, `*size` and `*offsetp` of a caller.
pub record Buffer : Type 0 where
  pub block : Bytes
  pub size : ℕ
  pub offset : ℕ

-- The ends of a call: DW_DLE_NONE; DW_DLE_MEMORY, with `*block` NULL and `*size` doubled; the
-- failed `assert`; undefined behaviour. `stuck` is no end of the code: the fuel ran out.
pub data Result : Type 0 where
  ok : Buffer → Result
  no_memory : ℕ → Result
  aborted : Result
  undefined : Result
  stuck : Result

-- `*size *= 2`
abbrev pub double : ℕ → ℕ
double size = size * 2 % 2 ^ 64

module _ (a : Allocator) where
  open a use {realloc}

  -- The store behind the loop.
  pub finish : ℕ → Option (Bytes × ℕ) → Result
  finish size none = undefined
  finish size (some (m, i)) = ok (record { block = m; size = size; offset = i })

  -- `while (*offsetp + need > *size) { … }`, then the store.
  pub grow : ℕ → (Bytes → Option (Bytes × ℕ)) → ℕ → Bytes → ℕ → Result
  grow zero store need m size = stuck
  grow (suc fuel) store need m size =
      let next : Result = elim (realloc m (double size)) [
        | none ↦ no_memory (double size)
        | some m' ↦ grow fuel store need m' (double size)
      ] in
      if ltb size need then next else finish size (store m)

  -- Doubling a positive size 64 times passes every uint64_t.
  pub write_alloc : Buffer → ℕ → (Bytes → Option (Bytes × ℕ)) → Result
  write_alloc b n store =
      if b.size == 0 then aborted else grow 65 store ((b.offset + n) % 2 ^ 64) b.block b.size

  pub write_lsb_alloc : Buffer → ℕ → ℕ → Result
  write_lsb_alloc b value n = write_alloc b n (λ m. write_lsb m b.offset value n)

  pub write_msb_alloc : Buffer → ℕ → ℕ → Result
  write_msb_alloc b value n = write_alloc b n (λ m. write_msb m b.offset value n)

  pub write_string_alloc : Buffer → Bytes → Result
  write_string_alloc b s = write_alloc b (length s + 1) (λ m. write_string m b.offset s)

  pub write_block_alloc : Buffer → Bytes → Result
  write_block_alloc b blk = write_alloc b (length blk) (λ m. write_block m b.offset blk)

  pub write_padding_alloc : Buffer → ℕ → ℕ → Result
  write_padding_alloc b byte n = write_alloc b n (λ m. write_padding m b.offset byte n)

  -- `while ((len = write(*block + *offsetp, *block + *size, val)) < 0) { … }`
  pub grow_leb : ℕ → (Bytes → ℕ → Option (Bytes × Option ℕ)) → ℕ → Bytes → ℕ → Result
  grow_leb zero write i m size = stuck
  grow_leb (suc fuel) write i m size = elim (write m size) [
    | none ↦ undefined
    | some (m', some len) ↦ ok (record { block = m'; size = size; offset = i + len })
    | some (m', none) ↦ elim (realloc m' (double size)) [
      | none ↦ no_memory (double size)
      | some m'' ↦ grow_leb fuel write i m'' (double size)
    ]
  ]

  pub write_leb_alloc : (Bytes → ℕ → ℕ → ℕ → Option (Bytes × Option ℕ)) → Buffer → ℕ → Result
  write_leb_alloc write b val =
      if b.size == 0
      then aborted
      else grow_leb 65 (λ m size. write m b.offset size val) b.offset b.block b.size

  pub write_uleb128_alloc : Buffer → ℕ → Result
  write_uleb128_alloc = write_leb_alloc write_uleb128

  pub write_sleb128_alloc : Buffer → ℕ → Result
  write_sleb128_alloc = write_leb_alloc write_sleb128
