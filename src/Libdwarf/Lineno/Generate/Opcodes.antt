-- ===== src/Libdwarf/Lineno/Generate/Opcodes.antt =====
-- What _dwarf_lineno_run_program makes of a special opcode of _dwarf_lineno_gen_program.
use elftoolchain.Base.{
  ℕ, ◌+◌, ◌-◌, ◌*◌, ◌%◌, ◌^◌, ◌≤◌, ◌<◌, ◌≡◌, ◌⊎◌, refl, ap, ◌∙◌, Bool, true, false, Option, some,
  Bytes, ltb, ◌==◌, arith,
}
use native.Mathlib.Nat.{mod-eq_of_lt, add-mul-mod_self_right, add-mul-div_right, div-eq_of_lt}
use elftoolchain.Libdwarf.Lineno.{LineInfo}
use elftoolchain.Libdwarf.Lineno.Program.{
  Machine, line_delta, address_delta, append_row, special, opcode,
}
use elftoolchain.Libdwarf.Lineno.Generate.{signed_leb, special_opcode, is_special}

-- The header of a table: a line base from -128 to 0, a line range and an opcode base that are not 0.
abbrev pub IsHeader : LineInfo → Type 0
IsHeader li =
    ((li.lbase ≡ 0) ⊎ ((2 ^ 64 - 128 ≤ li.lbase) × (li.lbase < 2 ^ 64)))
    × ((0 < li.lrange) × (li.lrange < 256))
    × ((0 < li.opbase) × (li.opbase < 256))

-- The line change above the line base.
abbrev above : LineInfo → ℕ → ℕ
above li line0 = (line0 + 2 ^ 64 - li.lbase) % 2 ^ 64

in_range :
    (li : LineInfo) (line0 addr0 : ℕ)
    → IsHeader li
    → line0 < 2 ^ 64
    → is_special li line0 addr0 ≡ true
    → (above li line0 < li.lrange) × (special_opcode li line0 addr0 ≤ 255)
unfolding is_special signed_leb
in_range li line0 addr0 header word h = ground (arith, header, h)

delta_lines :
    (li : LineInfo) (line0 addr0 : ℕ)
    → IsHeader li
    → line0 < 2 ^ 64
    → li.lrange * addr0 < 2 ^ 63
    → is_special li line0 addr0 ≡ true
    → special_opcode li line0 addr0 ≡ above li line0 + addr0 * li.lrange + li.opbase
unfolding special_opcode
delta_lines li line0 addr0 header word small h =
    let (low, byte) = in_range li line0 addr0 header word h in
    mod-eq_of_lt (omega (arith, low, header.1.1, header.2.1, small))
    ∙ omega (arith, comm li.lrange addr0)
  where
    comm : (x y : ℕ) → x * y ≡ y * x
    comm x y = grind arith

back :
    (li : LineInfo) (line0 : ℕ)
    → IsHeader li
    → line0 < 2 ^ 64
    → (li.lbase + above li line0) % 2 ^ 64 ≡ line0
back li line0 header word = ground (arith, header)

line_delta-special_opcode :
    (li : LineInfo) (line0 addr0 : ℕ)
    → IsHeader li
    → line0 < 2 ^ 64
    → li.lrange * addr0 < 2 ^ 63
    → is_special li line0 addr0 ≡ true
    → line_delta li (special_opcode li line0 addr0) ≡ some line0
unfolding line_delta
line_delta-special_opcode li line0 addr0 header word small h =
    let low = (in_range li line0 addr0 header word h).0 in
    let rest : special_opcode li line0 addr0 - li.opbase ≡ above li line0 + addr0 * li.lrange =
      omega (arith, delta_lines li line0 addr0 header word small h) in
    let some_range : (li.lrange == 0) ≡ false = ground (arith, header.1.0) in
    rw
      (
        some_range,
        rest,
        add-mul-mod_self_right (above li line0) addr0 li.lrange,
        mod-eq_of_lt low,
        back li line0 header word,
      )
      refl

address_delta-special_opcode :
    (li : LineInfo) (line0 addr0 : ℕ)
    → IsHeader li
    → line0 < 2 ^ 64
    → li.lrange * addr0 < 2 ^ 63
    → is_special li line0 addr0 ≡ true
    → address_delta li (special_opcode li line0 addr0) ≡ some (addr0 * li.minlen)
unfolding address_delta
address_delta-special_opcode li line0 addr0 header word small h =
    let low = (in_range li line0 addr0 header word h).0 in
    let rest : special_opcode li line0 addr0 - li.opbase ≡ above li line0 + addr0 * li.lrange =
      omega (arith, delta_lines li line0 addr0 header word small h) in
    let some_range : (li.lrange == 0) ≡ false = ground (arith, header.1.0) in
    rw (some_range, rest, add-mul-div_right (above li line0) addr0 header.1.0, div-eq_of_lt low)
      (ap (λ (x : ℕ). some (x * li.minlen)) (zero_left addr0))
  where
    zero_left : (x : ℕ) → 0 + x ≡ x
    zero_left x = omega arith

-- For a header with a line base from -128 to 0 and a line range and opcode base that are not 0, a
-- change of line and address that `_dwarf_lineno_gen_program` writes as a special opcode, with the
-- address step times the line range below 2 ^ 63, is taken for a special opcode by
-- `_dwarf_lineno_run_program`, which adds the change to the line and the address, appends a row,
-- and resets the basic block.
pub opcode-special_opcode :
    (grants : ℕ → Bool) (big_endian : Bool) (pointer_size : ℕ) (li : LineInfo) (m : Bytes)
    (compdir : Option Bytes) (s : Machine) (line0 addr0 : ℕ)
    → IsHeader li
    → line0 < 2 ^ 64
    → li.lrange * addr0 < 2 ^ 63
    → is_special li line0 addr0 ≡ true
    → opcode grants big_endian pointer_size li m compdir s (special_opcode li line0 addr0)
      ≡ some (
          append_row grants big_endian pointer_size s.table
            (s.p + 1)
            (record s.regs {
              line = (s.regs.line + line0) % 2 ^ 64;
              address = (s.regs.address + addr0 * li.minlen) % 2 ^ 64;
            })
            (record s.regs {
              line = (s.regs.line + line0) % 2 ^ 64;
              address = (s.regs.address + addr0 * li.minlen) % 2 ^ 64;
              basic_block = 0;
            }))
unfolding opcode special
opcode-special_opcode grants big_endian pointer_size li m compdir s line0 addr0 header word small
      h =
    let whole = delta_lines li line0 addr0 header word small h in
    let op = special_opcode li line0 addr0 in
    let not_extended : (op == 0) ≡ false = ground (arith, whole, header.2.0) in
    let not_standard : ltb op li.opbase ≡ false = ground (arith, whole) in
    rw
      (
        not_extended,
        not_standard,
        line_delta-special_opcode li line0 addr0 header word small h,
        address_delta-special_opcode li line0 addr0 header word small h,
      )
      refl
