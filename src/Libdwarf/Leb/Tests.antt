-- ===== src/Libdwarf/Leb/Tests.antt =====
-- Runs of the readers and writers of LEB128, and their theorems at concrete inputs.
use elftoolchain.Base.{ℕ, ◌≡◌, ◌≤◌, refl, ◌+◌, ◌-◌, ◌^◌, some, none, [], ◌∷◌, Bytes, arith}
use elftoolchain.Base.Mem.{store}
use elftoolchain.Libdwarf.Leb.{
  scan, shl_int, read_uleb128, decode_uleb128, write_uleb128, write_uleb_loop, mark_more,
  read_sleb128, decode_sleb128, write_sleb128, write_sleb_loop, sar_7, sleb_done, sign_extend,
}
use elftoolchain.Libdwarf.Leb.Unsigned.{uleb_result, read_uleb128-write_uleb128}
use elftoolchain.Libdwarf.Leb.Signed.{sleb_result, read_sleb128-write_sleb128}

abbrev zeros : Bytes
zeros = 0 ∷ 0 ∷ 0 ∷ 0 ∷ 0 ∷ 0 ∷ 0 ∷ 0 ∷ 0 ∷ 0 ∷ 0 ∷ []

-- 624485, the example of the DWARF standard
uleb_runs :
    (write_uleb128 (0 ∷ 0 ∷ 0 ∷ 9 ∷ []) 0 3 624485 ≡ some (0xe5 ∷ 0x8e ∷ 0x26 ∷ 9 ∷ [], some 3))
    × (write_uleb128 (0 ∷ 0 ∷ []) 0 2 624485 ≡ some (0xe5 ∷ 0x8e ∷ [], none))
    × (read_uleb128 (7 ∷ 0xe5 ∷ 0x8e ∷ 0x26 ∷ []) 1 ≡ some (624485, 4))
    × (decode_uleb128 (0x80 ∷ []) 0 ≡ none)
    × (read_uleb128 (0xff ∷ 0xff ∷ 0xff ∷ 0xff ∷ 0x0f ∷ []) 0 ≡ none)
unfolding write_uleb128 write_uleb_loop mark_more store read_uleb128 decode_uleb128 scan shl_int
uleb_runs = (refl, refl, refl, refl, refl)

-- -123456
sleb_runs :
    (write_sleb128 (0 ∷ 0 ∷ 0 ∷ []) 0 3 (2 ^ 64 - 123456) ≡ some (0xc0 ∷ 0xbb ∷ 0x78 ∷ [], some 3))
    × (read_sleb128 (0xc0 ∷ 0xbb ∷ 0x78 ∷ []) 0 ≡ some (2 ^ 64 - 123456, 3))
    × (decode_sleb128 (0x3f ∷ []) 0 ≡ some (63, 1))
unfolding write_sleb128 write_sleb_loop mark_more sar_7 sleb_done store read_sleb128 decode_sleb128
    scan shl_int sign_extend
sleb_runs = (refl, refl, refl)

read_uleb128-write_uleb128_example :
    (m' : Bytes) × (n : ℕ) × (write_uleb128 zeros 1 11 624485 ≡ some (m', some n))
    × (n ≤ 10)
    × (read_uleb128 m' 1 ≡ uleb_result 624485 (1 + n))
    × (decode_uleb128 m' 1 ≡ uleb_result 624485 (1 + n))
read_uleb128-write_uleb128_example =
    read_uleb128-write_uleb128 zeros 1 11 624485 (omega arith) (omega arith) (omega arith)

read_sleb128-write_sleb128_example :
    (m' : Bytes) × (n : ℕ) × (write_sleb128 zeros 1 11 (2 ^ 64 - 123456) ≡ some (m', some n))
    × (n ≤ 10)
    × (read_sleb128 m' 1 ≡ sleb_result (2 ^ 64 - 123456) (1 + n))
    × (decode_sleb128 m' 1 ≡ sleb_result (2 ^ 64 - 123456) (1 + n))
read_sleb128-write_sleb128_example =
    read_sleb128-write_sleb128 zeros 1 11 (2 ^ 64 - 123456) (omega arith) (omega arith)
      (omega arith)
