-- ===== src/Libdwarf/Fixed/Tests.antt =====
-- Runs of the readers and writers of fixed-width integers, and their theorems at concrete inputs.
use elftoolchain.Base.{◌≡◌, refl, ◌+◌, some, none, [], ◌∷◌, Bytes, inl, inr, arith}
use elftoolchain.Base.Mem.{store}
use elftoolchain.Libdwarf.Fixed.{
  read_lsb, read_msb, decode_msb, write_lsb, write_msb, lsb_case_1, lsb_case_2, lsb_case_3,
  lsb_case_4, lsb_case_8, msb_case_2, msb_case_3, msb_case_4, msb_case_8, advance, put_lsb_1,
  put_lsb_2, put_lsb_4, put_msb_1, put_msb_2, written,
}
use elftoolchain.Libdwarf.Fixed.RoundTrip.{Roundtrips, write_lsb-read_lsb, write_msb-read_msb}

abbrev zeros : Bytes
zeros = 0 ∷ 0 ∷ 0 ∷ 0 ∷ 0 ∷ []

abbrev ramp : Bytes
ramp = 1 ∷ 2 ∷ 3 ∷ 4 ∷ 5 ∷ 6 ∷ 7 ∷ 8 ∷ 9 ∷ []

read_lsb_runs :
    (read_lsb ramp 1 4 ≡ some (0x0504_0302, 5))
    × (read_lsb ramp 1 8 ≡ some (0x0908_0706_0504_0302, 9))
    × (read_lsb ramp 2 8 ≡ none)
    × (read_lsb ramp 2 5 ≡ some (0, 2))
unfolding read_lsb lsb_case_1 lsb_case_2 lsb_case_3 lsb_case_4 lsb_case_8 advance
read_lsb_runs = (refl, refl, refl, refl)

read_msb_runs :
    (read_msb ramp 1 3 ≡ some (0x02_0304, 4))
    × (decode_msb ramp 1 8 ≡ some (0x0203_0405_0607_0809, 9))
unfolding read_msb decode_msb msb_case_2 msb_case_3 msb_case_4 msb_case_8 advance
read_msb_runs = (refl, refl)

write_runs :
    (write_lsb zeros 1 0x1_0203_0405 4 ≡ some (0 ∷ 5 ∷ 4 ∷ 3 ∷ 2 ∷ [], 5))
    × (write_msb zeros 1 0x1234 2 ≡ some (0 ∷ 0x12 ∷ 0x34 ∷ 0 ∷ 0 ∷ [], 3))
    × (write_lsb zeros 1 7 3 ≡ some (zeros, 1))
unfolding write_lsb write_msb put_lsb_1 put_lsb_2 put_lsb_4 put_msb_1 put_msb_2 written store
write_runs = (refl, refl, refl)

write_lsb-read_lsb_example :
    (m' : Bytes) × (write_lsb zeros 1 0x1_0203_0405 4 ≡ some (m', 1 + 4))
    × Roundtrips read_lsb zeros 1 0x1_0203_0405 4 m'
write_lsb-read_lsb_example =
    write_lsb-read_lsb zeros 1 0x1_0203_0405 4 (inr (inr (inl refl))) (omega arith)

write_msb-read_msb_example :
    (m' : Bytes) × (write_msb zeros 3 0xabcd 2 ≡ some (m', 3 + 2))
    × Roundtrips read_msb zeros 3 0xabcd 2 m'
write_msb-read_msb_example = write_msb-read_msb zeros 3 0xabcd 2 (inr (inl refl)) (omega arith)
