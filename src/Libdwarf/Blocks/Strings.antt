-- ===== src/Libdwarf/Blocks/Strings.antt =====
-- Reading and writing strings, blocks and padding.
use elftoolchain.Base.{
  ℕ, ◌+◌, ◌≤◌, ◌<◌, ◌≡◌, ◌≢◌, refl, ap, ◌⊎◌, none, some, [], ◌∷◌, ◌++◌, Bytes, length,
  length-append, length-drop, All, arith, drop, append_assoc,
}
use elftoolchain.Base.Mem.{
  load, load_n, store_n-total, load_n-store_n, load_n-drop, length-store_n, load-store_n_out,
}
use elftoolchain.Libdwarf.Blocks.{scan_string, read_string, write_string, write_block, read_block}

-- No byte is NUL.
abbrev pub IsText : Bytes → Type 0
IsText = All (λ b. b ≢ 0)

scan_string-IsText :
    (s rest : Bytes) (size i j : ℕ)
    → IsText s
    → j ≡ i + length s
    → j ≤ size
    → scan_string (s ++ rest) size i ≡ scan_string rest size j
unfolding scan_string
scan_string-IsText [] rest size i j t e h = ap (λ k. scan_string rest size k) (omega arith)
scan_string-IsText (b ∷ s) rest size i j t e h =
    ground (arith, t.0, scan_string-IsText s rest size (i + 1) j t.1)

-- A string that ends by a NUL below `size` is read whole, the offset moves behind the NUL.
pub read_string_whole :
    (m : Bytes) (size i : ℕ) (s : Bytes)
    → IsText s
    → i + length s < size
    → load_n m i (length (s ++ 0 ∷ [])) ≡ some (s ++ 0 ∷ [])
    → read_string m size i ≡ some (i, i + length s + 1)
unfolding read_string
read_string_whole m size i s t h l =
    rw (load_n-drop m i (s ++ 0 ∷ []) l, append_assoc)
      (ground (
        arith,
        scan_string-IsText s (0 ∷ drop (i + length (s ++ 0 ∷ [])) m) size i (i + length s) t refl,
        at_nul,
      ))
  where
    at_nul :
        scan_string (0 ∷ drop (i + length (s ++ 0 ∷ [])) m) size (i + length s)
        ≡ some (0, i + length s)
    at_nul = unfold scan_string in refl

scan_string-none :
    (s : Bytes) (size i : ℕ) → IsText s → i + length s ≤ size → scan_string s size i ≡ none
unfolding scan_string
scan_string-none [] size i t h = refl
scan_string-none (b ∷ s) size i t h = ground (arith, t.0, scan_string-none s size (i + 1) t.1)

-- Where no NUL stands from the offset to the end of a buffer of `size` bytes, `_dwarf_read_string`
-- reads the byte behind the buffer.
pub read_string_unterminated :
    (m : Bytes) (i : ℕ) → IsText (drop i m) → i ≤ length m → read_string m (length m) i ≡ none
unfolding read_string
read_string_unterminated m i t h =
    rw (scan_string-none (drop i m) (length m) i t (omega (arith, length-drop i m))) refl

-- Where a string and its NUL fit in the buffer, `_dwarf_write_string` stores them and moves the
-- offset behind the NUL; `_dwarf_read_string` then returns the offset of the string and the same
-- end; the size of the buffer and every byte outside are as before.
pub read_string-write_string :
    (m : Bytes) (i : ℕ) (s : Bytes)
    → IsText s
    → i + length s < length m
    → (m' : Bytes) × (write_string m i s ≡ some (m', i + (length s + 1)))
      × (read_string m' (length m') i ≡ some (i, i + length s + 1))
      × (length m' ≡ length m)
      × ((j : ℕ) → (j < i) ⊎ (i + length s < j) → load m' j ≡ load m j)
unfolding write_string
read_string-write_string m i s t h =
    let len : length (s ++ 0 ∷ []) ≡ length s + 1 = omega (arith, length-append s (0 ∷ [])) in
    let (m', e) = store_n-total m i (s ++ 0 ∷ []) (omega (arith, len)) in
    let size = length-store_n m i (s ++ 0 ∷ []) e in
    (
      m',
      rw e,
      read_string_whole m' (length m') i s t (omega (arith, size))
          (load_n-store_n m i (s ++ 0 ∷ []) e),
      size,
      λ j out. load-store_n_out m i (s ++ 0 ∷ []) j e (omega (arith, len)),
    )

-- A block is written where `_dwarf_read_block` finds it, behind the same offset.
pub write_block_lem :
    (m : Bytes) (i : ℕ) (blk : Bytes)
    → i + length blk ≤ length m
    → (m' : Bytes) × (write_block m i blk ≡ some (m', (read_block i (length blk)).1))
      × (load_n m' (read_block i (length blk)).0 (length blk) ≡ some blk)
      × (length m' ≡ length m)
      × ((j : ℕ) → (j < i) ⊎ (i + length blk ≤ j) → load m' j ≡ load m j)
unfolding write_block read_block
write_block_lem m i blk h =
    let (m', e) = store_n-total m i blk h in
    (
      m',
      rw e,
      load_n-store_n m i blk e,
      length-store_n m i blk e,
      λ j out. load-store_n_out m i blk j e out,
    )
