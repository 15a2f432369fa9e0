-- ===== src/Libdwarf/Fixed/Forward.antt =====
-- A decoder does not move its pointer back.
use elftoolchain.Base.{ℕ, ◌≤◌, ◌≡◌, Option, none, some, Bytes, arith}
use elftoolchain.Base.Mem.{load}
use elftoolchain.Libdwarf.Fixed.{
  lsb_case_1, lsb_case_2, lsb_case_3, lsb_case_4, lsb_case_8, msb_case_2, msb_case_3, msb_case_4,
  msb_case_8, advance, decode_lsb, decode_msb,
}

advance_forward : (p n : ℕ) (r : Option ℕ) (v q : ℕ) → advance p n r ≡ some (v, q) → p ≤ q
unfolding advance
advance_forward p n none v q h = ground (arith, h)
advance_forward p n (some x) v q h = ground (arith, h)

pub decode_lsb-forward : (m : Bytes) (p n v q : ℕ) → decode_lsb m p n ≡ some (v, q) → p ≤ q
unfolding decode_lsb
decode_lsb-forward m p n v q h = ground (
  arith,
  h,
  advance_forward p n (lsb_case_8 m p 0) v q,
  advance_forward p n (lsb_case_4 m p 0) v q,
  advance_forward p n (lsb_case_3 m p 0) v q,
  advance_forward p n (lsb_case_2 m p 0) v q,
  advance_forward p n (lsb_case_1 m p 0) v q,
)

pub decode_msb-forward : (m : Bytes) (p n v q : ℕ) → decode_msb m p n ≡ some (v, q) → p ≤ q
unfolding decode_msb
decode_msb-forward m p n v q h = ground (
  arith,
  h,
  advance_forward p n (msb_case_8 m p) v q,
  advance_forward p n (msb_case_4 m p) v q,
  advance_forward p n (msb_case_3 m p) v q,
  advance_forward p n (msb_case_2 m p) v q,
  advance_forward p n (load m p) v q,
)
