-- ===== src/Libdwarf/Lineno/Tests.antt =====
-- Runs of line number programs.
use elftoolchain.Base.{
  ℕ, ◌+◌, ◌-◌, ◌*◌, ◌^◌, ◌%◌, ◌≡◌, refl, inr, true, false, none, some, [], ◌∷◌, Bytes, arith,
}
use elftoolchain.Libdwarf.Lineno.{LineInfo, Line, Table}
use elftoolchain.Libdwarf.Lineno.Program.{
  Machine, reset_registers, append_row, opcode, lineno_run_program,
}
use elftoolchain.Libdwarf.Lineno.Ends.{IsRun, lineno_run_program-IsRun}
use elftoolchain.Libdwarf.Lineno.Generate.{
  value, uleb, sleb, signed_leb, special_opcode, is_special, address_writes, advance_writes,
  register_writes, row_writes, reset,
}
use elftoolchain.Libdwarf.Lineno.Generate.Opcodes.{opcode-special_opcode}

-- A header as the producer writes it: the line base -5, the line range 14 and the opcode base 10.
abbrev header : LineInfo
header = record {
  minlen = 1;
  defstmt = 1;
  lbase = 2 ^ 64 - 5;
  lrange = 14;
  opbase = 10;
  incdirs = [];
}

abbrev no_rows : Table
no_rows = record { lnlist = []; lnlen = 0; lflist = []; lflen = 0; mallocs = 0 }

-- DW_LNS_copy, a special opcode, DW_LNE_end_sequence
abbrev program : Bytes
program = 1 ∷ 30 ∷ 0 ∷ 1 ∷ 1 ∷ []

lineno_run_program-IsRun_example :
    IsRun
      (λ n. true)
      false
      8
      header
      5
      no_rows
      (lineno_run_program (λ n. true) false 8 header program 0 5 none no_rows)
lineno_run_program-IsRun_example =
    lineno_run_program-IsRun (λ n. true) false 8 header program 0 5 none no_rows (refl, refl, _)

abbrev start : Machine
unfolding reset_registers
start = record { p = 0; regs = reset_registers header; table = no_rows }

opcode-special_opcode_example :
    opcode (λ n. true) false 8 header program none start (special_opcode header 1 1)
    ≡ some (
        append_row
          (λ n. true)
          false
          8
          no_rows
          1
          (record start.regs {
            line = (start.regs.line + 1) % 2 ^ 64;
            address = (start.regs.address + 1 * 1) % 2 ^ 64;
          })
          (record start.regs {
            line = (start.regs.line + 1) % 2 ^ 64;
            address = (start.regs.address + 1 * 1) % 2 ^ 64;
            basic_block = 0;
          }))
unfolding is_special signed_leb special_opcode start
opcode-special_opcode_example =
    opcode-special_opcode (λ n. true) false 8 header program none start 1 1
      (inr (omega arith, omega arith), (omega arith, omega arith), (omega arith, omega arith))
      (omega arith) (omega arith) refl

abbrev row_at : ℕ → ℕ → Line
row_at addr lineno = record {
  addr = addr;
  fileno = 1;
  lineno = lineno;
  column = 0;
  bblock = 0;
  stmt = 1;
  endseq = 0;
}

-- A row for a new address 100 bytes on, on the same line, becomes DW_LNS_advance_pc alone: the row
-- is lost.
lost_row : (row_writes header (reset header) (row_at 100 1)).0 ≡ value 2 1 ∷ uleb 100 ∷ []
unfolding row_writes reset register_writes advance_writes address_writes is_special signed_leb
    special_opcode
lost_row = refl

-- A row 20 bytes and 100 lines on becomes DW_LNS_advance_line, DW_LNS_const_add_pc, a special opcode
-- and DW_LNS_copy: two rows.
double_row :
    (row_writes header (reset header) (row_at 20 101)).0
    ≡ value 3 1 ∷ sleb 100 ∷ value 8 1 ∷ value 57 1 ∷ value 1 1 ∷ []
unfolding row_writes reset register_writes advance_writes address_writes is_special signed_leb
    special_opcode
double_row = refl
