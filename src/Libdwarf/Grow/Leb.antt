-- ===== src/Libdwarf/Grow/Leb.antt =====
-- The enlarging writers of LEB128.
use elftoolchain.Base.{
  ℕ, zero, suc, ◌+◌, ◌*◌, ◌^◌, ◌≤◌, ◌<◌, ◌≡◌, refl, ◌∙◌, Option, none, some, Bytes, length, ◌⊎◌,
  inl, inr, arith, Option-cases,
}
use elftoolchain.Base.Mem.{load, load_n}
use elftoolchain.Libdwarf.Leb.{read_uleb128, read_sleb128, write_uleb128, write_sleb128}
use elftoolchain.Libdwarf.Leb.Cells.{Wrote}
use elftoolchain.Libdwarf.Leb.Unsigned.{
  IsUleb-total, uleb_result, write_uleb128-Wrote, write_uleb128_short, read_uleb128_form,
}
use elftoolchain.Libdwarf.Leb.Signed.{
  IsSleb-total, sleb_result, write_sleb128-Wrote, write_sleb128_short, read_sleb128_form,
}
use elftoolchain.Libdwarf.Grow.{
  Allocator, Buffer, Result, ok, no_memory, double, grow_leb, write_leb_alloc, write_uleb128_alloc,
  write_sleb128_alloc,
}
use elftoolchain.Libdwarf.Grow.Loop.{Refused, IsBlock, Enlarged-double, double-pow}
use elftoolchain.Libdwarf.Grow.Writers.{IsValid, AppendsOrFails}
use native.Mathlib.Decide.{dec_lt}

-- A writer of the bytes `bs` at `i`: with room it stores them, without it returns -1.
record Writes (write : Bytes → ℕ → Option (Bytes × Option ℕ)) (i : ℕ) (bs : Bytes) : Type 0 where
  stores :
      (m : Bytes) (size : ℕ)
      → length m ≡ size
      → i + length bs ≤ size
      → (m' : Bytes) × (write m size ≡ some (m', some (length bs))) × Wrote m i bs m'
  refuses :
      (m : Bytes) (size : ℕ)
      → length m ≡ size
      → i ≤ size
      → size < i + length bs
      → (m' : Bytes) × (write m size ≡ some (m', none))
        × (length m' ≡ length m)
        × ((j : ℕ) → (j < i) ⊎ (size ≤ j) → load m' j ≡ load m j)

module _ (a : Allocator) (write : Bytes → ℕ → Option (Bytes × Option ℕ)) (i : ℕ) (bs : Bytes)
    (w : Writes write i bs) where
  open a use {realloc}

  -- How the loop ends, from a block `m` of `size` bytes.
  abbrev Ends : Bytes → Result → Type 0
  Ends m r =
      Refused a r
      ⊎ ((m' : Bytes) × (size' : ℕ) × (r
            ≡ ok (record { block = m'; size = size'; offset = i + length bs }))
          × IsBlock m' size'
          × (i + length bs ≤ size')
          × (load_n m' i (length bs) ≡ some bs)
          × ((j : ℕ) → j < i → load m' j ≡ load m j))

  leb_stored :
      (fuel : ℕ) (m m' : Bytes) (size : ℕ)
      → write m size ≡ some (m', some (length bs))
      → grow_leb a (suc fuel) write i m size
        ≡ ok (record { block = m'; size = size; offset = i + length bs })
  unfolding grow_leb
  leb_stored fuel m m' size e = rw (e, grow_leb)

  leb_refused :
      (fuel : ℕ) (m m' : Bytes) (size : ℕ)
      → write m size ≡ some (m', none)
      → realloc m' (double size) ≡ none
      → grow_leb a (suc fuel) write i m size ≡ no_memory (double size)
  unfolding grow_leb
  leb_refused fuel m m' size e r = rw (e, r, grow_leb)

  leb_doubled :
      (fuel : ℕ) (m m' m'' : Bytes) (size : ℕ)
      → write m size ≡ some (m', none)
      → realloc m' (double size) ≡ some m''
      → grow_leb a (suc fuel) write i m size ≡ grow_leb a fuel write i m'' (double size)
  unfolding grow_leb
  leb_doubled fuel m m' m'' size e r = rw (e, r, grow_leb)

  Ends-trans :
      (m m' : Bytes) (r : Result) → ((j : ℕ) → j < i → load m' j ≡ load m j) → Ends m' r → Ends m r
  Ends-trans m m' r same (inl out) = inl out
  Ends-trans m m' r same (inr (m'', size, e, v, room, back, keep)) =
      inr (m'', size, e, v, room, back, λ j h. keep j h ∙ same j h)

  -- One round, from what the rounds behind it do.
  leb_round :
      (fuel : ℕ) (m : Bytes) (size : ℕ)
      → IsBlock m size
      → i ≤ size
      → (size < i + length bs
          → (m' : Bytes) → IsBlock m' (double size)
          → i ≤ double size
          → Ends m' (grow_leb a fuel write i m' (double size)))
      → Ends m (grow_leb a (suc fuel) write i m size)
  leb_round fuel m size v within onward = elim (dec_lt size (i + length bs)) [
    | no fits ↦
        let (m', e, wr) = w.stores m size v.holds (omega arith) in
        inr (
          m',
          size,
          leb_stored fuel m m' size e,
          record { holds = wr.size ∙ v.holds; positive = v.positive; small = v.small },
          omega arith,
          wr.back,
          λ j h. wr.elsewhere j (inl h),
        )
    | yes short ↦ doubled short (w.refuses m size v.holds within short)
  ]
    where
      doubled :
          size < i + length bs
          → ((m' : Bytes) × (write m size ≡ some (m', none))
              × (length m' ≡ length m)
              × ((j : ℕ) → (j < i) ⊎ (size ≤ j) → load m' j ≡ load m j))
          → Ends m (grow_leb a (suc fuel) write i m size)
      doubled short (m', e, len, out) = elim (Option-cases (realloc m' (double size))) [
        | inl r ↦ inl (double size, m', r, leb_refused fuel m m' size e r)
        | inr (m'', r) ↦
            let held : IsBlock m' size = record {
              holds = len ∙ v.holds;
              positive = v.positive;
              small = v.small;
            } in
            let larger = Enlarged-double a m' size held r in
            rw (leb_doubled fuel m m' m'' size e r) (
              Ends-trans m m'' _ (λ j h. larger.keeps j (omega (arith, within)) ∙ out j (inl h))
                (onward short m'' larger.valid (omega (arith, larger.larger))))
      ]

  leb-Ends :
      (fuel : ℕ) (m : Bytes) (size : ℕ)
      → IsBlock m size
      → i ≤ size
      → i + length bs ≤ size * 2 ^ fuel
      → Ends m (grow_leb a (suc fuel) write i m size)
  leb-Ends zero m size v within enough =
      leb_round zero m size v within (λ short m' u l. absurd (omega arith))
  leb-Ends (suc fuel) m size v within enough = leb_round (suc fuel) m size v within (λ short m' u l.
      leb-Ends fuel m' (double size) u l (omega (arith, double-pow size fuel v.small)))

module _ (a : Allocator) where
  write_leb_alloc-grow_leb :
      (write : Bytes → ℕ → ℕ → ℕ → Option (Bytes × Option ℕ)) (b : Buffer) (v : ℕ)
      → IsValid b
      → write_leb_alloc a write b v
        ≡ grow_leb a 65 (λ m size. write m b.offset size v) b.offset b.block b.size
  unfolding write_leb_alloc
  write_leb_alloc-grow_leb write b v valid = ground (arith, valid.held.positive)

  leb_appends :
      (P : Bytes → Type 0) (write : Bytes → ℕ → ℕ → ℕ → Option (Bytes × Option ℕ)) (b : Buffer)
      (v : ℕ) (bs : Bytes)
      → Writes (λ m size. write m b.offset size v) b.offset bs
      → IsValid b
      → length bs ≤ 10
      → ((m : Bytes) → load_n m b.offset (length bs) ≡ some bs → P m)
      → AppendsOrFails a P b (length bs) (write_leb_alloc a write b v)
  leb_appends P write b v bs w valid short reads =
      elim (leb-Ends a (λ m size. write m b.offset size v) b.offset bs w 64 b.block b.size
        valid.held valid.within
        (omega (arith, valid.held.positive, valid.held.small, valid.within))) [
          | inl (s, m, refused, e) ↦
              inl (s, m, refused, write_leb_alloc-grow_leb write b v valid ∙ e)
          | inr (m', size, e, u, room, back, keep) ↦ inr (
            record { block = m'; size = size; offset = b.offset + length bs },
            write_leb_alloc-grow_leb write b v valid ∙ e,
            record { valid = record { held = u; within = room }; advanced = refl; kept = keep },
            reads m' back,
          )
        ]

  -- On a valid buffer (the block has `*size` bytes, a positive number below 2 ^ 63, and the offset
  -- is within) `_dwarf_write_uleb128_alloc` of a uint64_t ends: in DW_DLE_MEMORY, because realloc()
  -- refused a size, or in a valid buffer with at most ten bytes appended and the bytes before the
  -- offset as they were, of which `_dwarf_read_uleb128` makes what `uleb_result` says of the value.
  pub write_uleb128_alloc-appends :
      (b : Buffer) (v : ℕ)
      → IsValid b
      → v < 2 ^ 64
      → (n : ℕ) × (n ≤ 10)
        × AppendsOrFails a
            (λ m. read_uleb128 m b.offset ≡ uleb_result v (b.offset + n))
            b
            n
            (write_uleb128_alloc a b v)
  unfolding write_uleb128_alloc
  write_uleb128_alloc-appends b v valid h =
      let (bs, u, short) = IsUleb-total 9 v (omega arith) in
      let w : Writes (λ m size. write_uleb128 m b.offset size v) b.offset bs = record {
        stores = λ m size e room. write_uleb128-Wrote m b.offset size bs v u room (omega arith);
        refuses = λ m size e i l. write_uleb128_short m b.offset size bs v u i l (omega arith);
      } in
      (
        length bs,
        short,
        leb_appends _ write_uleb128 b v bs w valid short
            (λ m l. (read_uleb128_form m b.offset bs v u l).0),
      )

  -- On a valid buffer `_dwarf_write_sleb128_alloc` of an int64_t ends: in DW_DLE_MEMORY, because
  -- realloc() refused a size, or in a valid buffer with at most ten bytes appended and the bytes
  -- before the offset as they were, of which `_dwarf_read_sleb128` makes what `sleb_result` says of
  -- the value.
  pub write_sleb128_alloc-appends :
      (b : Buffer) (v : ℕ)
      → IsValid b
      → v < 2 ^ 64
      → (n : ℕ) × (n ≤ 10)
        × AppendsOrFails a
            (λ m. read_sleb128 m b.offset ≡ sleb_result v (b.offset + n))
            b
            n
            (write_sleb128_alloc a b v)
  unfolding write_sleb128_alloc
  write_sleb128_alloc-appends b v valid h =
      let (bs, u, short) = IsSleb-total 9 v h (omega arith) in
      let w : Writes (λ m size. write_sleb128 m b.offset size v) b.offset bs = record {
        stores = λ m size e room. write_sleb128-Wrote m b.offset size bs v u room (omega arith);
        refuses = λ m size e i l. write_sleb128_short m b.offset size bs v u i l (omega arith);
      } in
      (
        length bs,
        short,
        leb_appends _ write_sleb128 b v bs w valid short
            (λ m l. (read_sleb128_form m b.offset bs v u l).0),
      )
