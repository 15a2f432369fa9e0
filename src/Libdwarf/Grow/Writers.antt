-- ===== src/Libdwarf/Grow/Writers.antt =====
-- What the enlarging writers do to a buffer.
use elftoolchain.Base.{
  ℕ, ◌+◌, ◌%◌, ◌^◌, ◌≤◌, ◌<◌, ◌≡◌, refl, ◌∙◌, Option, some, Bytes, length, ◌⊎◌, inl, inr, arith,
}
use elftoolchain.Base.Mem.{load, load_n}
use elftoolchain.Libdwarf.Fixed.{read_lsb, read_msb}
use elftoolchain.Libdwarf.Fixed.Write.{IsWriteWidth}
use elftoolchain.Libdwarf.Fixed.RoundTrip.{write_lsb-read_lsb, write_msb-read_msb}
use elftoolchain.Libdwarf.Blocks.{read_string, read_block}
use elftoolchain.Libdwarf.Blocks.Strings.{IsText, write_block_lem, read_string-write_string}
use elftoolchain.Libdwarf.Grow.{
  Allocator, Buffer, Result, ok, grow, finish, write_alloc, write_lsb_alloc, write_msb_alloc,
  write_block_alloc, write_string_alloc,
}
use elftoolchain.Libdwarf.Grow.Loop.{Refused, IsBlock, grow-Ends}

-- The invariant of a caller's block, size and offset.
pub record IsValid (b : Buffer) : Type 0 where
  pub held : IsBlock b.block b.size
  pub within : b.offset ≤ b.size

-- `b'` is `b` with `n` bytes appended at the offset: whatever stood before it is kept.
pub record Appended (b : Buffer) (n : ℕ) (b' : Buffer) : Type 0 where
  pub valid : IsValid b'
  pub advanced : b'.offset ≡ b.offset + n
  pub kept : (j : ℕ) → j < b.offset → load b'.block j ≡ load b.block j

module _ (a : Allocator) where
  write_alloc-grow :
      (b : Buffer) (n : ℕ) (store : Bytes → Option (Bytes × ℕ))
      → IsValid b
      → write_alloc a b n store ≡ grow a 65 store ((b.offset + n) % 2 ^ 64) b.block b.size
  unfolding write_alloc
  write_alloc-grow b n store v = ground (arith, v.held.positive)

  -- The loop and the store, for a store that succeeds wherever it has room.
  appends :
      (P : Bytes → Type 0) (b : Buffer) (n : ℕ) (store : Bytes → Option (Bytes × ℕ))
      → IsValid b
      → n < 2 ^ 63
      → ((m : Bytes)
          → b.offset + n ≤ length m
          → (m' : Bytes) × (store m ≡ some (m', b.offset + n))
            × P m'
            × (length m' ≡ length m)
            × ((j : ℕ) → j < b.offset → load m' j ≡ load m j))
      → Refused a (write_alloc a b n store)
        ⊎ ((b' : Buffer) × (write_alloc a b n store ≡ ok b') × Appended b n b' × P b'.block)
  unfolding finish
  appends P b n store v small stores =
      elim (grow-Ends a store ((b.offset + n) % 2 ^ 64) 64 b.block b.size v.held (omega arith)) [
        | inl (s, m, refused, e) ↦ inl (s, m, refused, write_alloc-grow b n store v ∙ e)
        | inr (m, size, e, larger, room) ↦
            let (m', se, p, len, keep) =
              stores m (omega (arith, larger.valid.holds, v.within, v.held.small)) in
            inr (
              record { block = m'; size = size; offset = b.offset + n },
              write_alloc-grow b n store v ∙ e ∙ rw se,
              record {
                valid = record {
                  held = record {
                    holds = omega (arith, larger.valid.holds);
                    positive = larger.valid.positive;
                    small = larger.valid.small;
                  };
                  within = omega (arith, v.within, v.held.small);
                };
                advanced = refl;
                kept = λ j h. keep j h ∙ larger.keeps j (omega (arith, v.within));
              },
              p,
            )
      ]

-- An enlarging write of `n` bytes ends in DW_DLE_MEMORY or appends, with `P` of the block it leaves.
abbrev pub AppendsOrFails : Allocator → (Bytes → Type 0) → Buffer → ℕ → Result → Type 0
AppendsOrFails a P b n r =
    Refused a r ⊎ ((b' : Buffer) × (r ≡ ok b') × Appended b n b' × P b'.block)

module _ (a : Allocator) where
  -- On a valid buffer `_dwarf_write_lsb_alloc` of 1, 2, 4 or 8 bytes ends: in DW_DLE_MEMORY,
  -- because realloc() refused a size, or in a valid buffer with the bytes before the offset as they
  -- were and the offset moved by the width, in which `_dwarf_read_lsb` finds the value cut to the
  -- width.
  pub write_lsb_alloc-appends :
      (b : Buffer) (value n : ℕ)
      → IsValid b
      → IsWriteWidth n
      → AppendsOrFails a
          (λ m. read_lsb m b.offset n ≡ some (value % 256 ^ n, b.offset + n))
          b
          n
          (write_lsb_alloc a b value n)
  unfolding write_lsb_alloc
  write_lsb_alloc-appends b value n v w = appends a _ b n _ v (omega arith) λ m room.
      let (m', e, (r, len, out)) = write_lsb-read_lsb m b.offset value n w room in
      (m', e, r, len, λ j h. out j (inl h))

  pub write_msb_alloc-appends :
      (b : Buffer) (value n : ℕ)
      → IsValid b
      → IsWriteWidth n
      → AppendsOrFails a
          (λ m. read_msb m b.offset n ≡ some (value % 256 ^ n, b.offset + n))
          b
          n
          (write_msb_alloc a b value n)
  unfolding write_msb_alloc
  write_msb_alloc-appends b value n v w = appends a _ b n _ v (omega arith) λ m room.
      let (m', e, (r, len, out)) = write_msb-read_msb m b.offset value n w room in
      (m', e, r, len, λ j h. out j (inl h))

  -- On a valid buffer `_dwarf_write_block_alloc` of a block ends: in DW_DLE_MEMORY, because
  -- realloc() refused a size, or in a valid buffer with the bytes before the offset as they were
  -- and the bytes of the block behind them.
  pub write_block_alloc-appends :
      (b : Buffer) (blk : Bytes)
      → IsValid b
      → length blk < 2 ^ 63
      → AppendsOrFails a
          (λ m. load_n m b.offset (length blk) ≡ some blk)
          b
          (length blk)
          (write_block_alloc a b blk)
  unfolding write_block_alloc read_block
  write_block_alloc-appends b blk v small = appends a _ b (length blk) _ v small λ m room.
      let (m', e, r, len, out) = write_block_lem m b.offset blk room in
      (m', e, r, len, λ j h. out j (inl h))

  -- On a valid buffer `_dwarf_write_string_alloc` of a string ends: in DW_DLE_MEMORY, because
  -- realloc() refused a size, or in a valid buffer with the bytes before the offset as they were
  -- and the offset moved behind the NUL, where `_dwarf_read_string` finds the string and the same
  -- end.
  pub write_string_alloc-appends :
      (b : Buffer) (s : Bytes)
      → IsValid b
      → IsText s
      → length s + 1 < 2 ^ 63
      → AppendsOrFails a
          (λ m. read_string m (length m) b.offset ≡ some (b.offset, b.offset + length s + 1))
          b
          (length s + 1)
          (write_string_alloc a b s)
  unfolding write_string_alloc
  write_string_alloc-appends b s v t small = appends a _ b (length s + 1) _ v small λ m room.
      let (m', e, r, len, out) = read_string-write_string m b.offset s t (omega arith) in
      (m', e, r, len, λ j h. out j (inl h))
