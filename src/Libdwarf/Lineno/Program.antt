-- ===== src/Libdwarf/Lineno/Program.antt =====
-- _dwarf_lineno_run_program of libdwarf/libdwarf_lineno.c. A pointer into the section is an offset,
-- and `none` is undefined behaviour: a read outside of the section, or a division by a line range
-- of 0.
use elftoolchain.Base.{
  ℕ, zero, suc, ◌+◌, ◌-◌, ◌*◌, ◌/◌, ◌%◌, ◌^◌, Bool, true, false, Option, none, some, [], ◌∷◌, ◌++◌,
  Bytes, ◌>>=◌, ltb, ◌==◌, if◌then◌else◌,
}
use elftoolchain.Base.Mem.{load}
use elftoolchain.Libdwarf.Fixed.{decode_lsb, decode_msb}
use elftoolchain.Libdwarf.Leb.{decode_uleb128, decode_sleb128}
use elftoolchain.Libdwarf.Lineno.{
  LineInfo, Line, Table, Error, no_memory, Added, added, refused, lineno_add_file,
}

pub record Registers : Type 0 where
  pub address : ℕ
  pub file : ℕ
  pub line : ℕ
  pub column : ℕ
  pub is_stmt : ℕ
  pub basic_block : ℕ
  pub end_sequence : ℕ

-- RESET_REGISTERS
unfoldable pub reset_registers : LineInfo → Registers
reset_registers li = record {
  address = 0;
  file = 1;
  line = 1;
  column = 0;
  is_stmt = li.defstmt;
  basic_block = 0;
  end_sequence = 0;
}

-- The state at the head of the loop.
pub record Machine : Type 0 where
  pub p : ℕ
  pub regs : Registers
  pub table : Table

-- One round goes on or ends in `prog_fail`.
pub data Round : Type 0 where
  going : Machine → Round
  failed : Error → Table → Round

-- `prog_fail` takes every row from the list; the count of rows stays.
unfoldable pub prog_fail : Table → Table
prog_fail t = record t { lnlist = [] }

unfoldable pub row : Registers → Line
row r = record {
  addr = r.address;
  fileno = r.file;
  lineno = r.line;
  column = r.column;
  bblock = r.basic_block;
  stmt = r.is_stmt;
  endseq = r.end_sequence;
}

unfoldable pub add_row : Registers → Table → Table
add_row r t = record t {
  lnlist = t.lnlist ++ row r ∷ [];
  lnlen = t.lnlen + 1;
  mallocs = suc t.mallocs;
}

-- LINE(x) and ADDRESS(x)
unfoldable pub line_delta : LineInfo → ℕ → Option ℕ
line_delta li x =
    if li.lrange == 0 then none else some ((li.lbase + (x - li.opbase) % li.lrange) % 2 ^ 64)

unfoldable pub address_delta : LineInfo → ℕ → Option ℕ
address_delta li x = if li.lrange == 0 then none else some ((x - li.opbase) / li.lrange * li.minlen)

-- `dbg->decode`
unfoldable pub decode : Bool → Bytes → ℕ → ℕ → Option (ℕ × ℕ)
decode true m p n = decode_msb m p n
decode false m p n = decode_lsb m p n

module _ (grants : ℕ → Bool) (big_endian : Bool) (pointer_size : ℕ) where
  -- APPEND_ROW for the registers `r`, then the registers `next`.
  unfoldable pub append_row : Table → ℕ → Registers → Registers → Round
  append_row t p r next =
      if grants t.mallocs
      then going (record { p = p; regs = next; table = add_row r t })
      else failed no_memory (prog_fail (record t { mallocs = suc t.mallocs }))

  unfoldable pub file_round : Registers → Added grants → Round
  file_round r (added t p) = going (record { p = p; regs = r; table = t })
  file_round r (refused e t) = failed e (prog_fail t)

  -- The opcode at `p`, behind the size `opsize`.
  unfoldable pub extended_opcode :
      LineInfo → Bytes → Option Bytes → Machine → ℕ → ℕ → ℕ → Option Round
  extended_opcode li m compdir s opsize p op =
      if op == 1
      then some
          (append_row s.table (p + 1) (record s.regs { end_sequence = 1 }) (reset_registers li))
      else if op == 2
      then (decode big_endian m (p + 1) pointer_size >>= λ a.
          some (going (record s { p = a.1; regs = record s.regs { address = a.0 } })))
      else if op == 3
      then (lineno_add_file grants li m compdir s.table (p + 1) >>= λ a. some (file_round s.regs a))
      else some (going (record s { p = p + opsize }))

  unfoldable pub extended : LineInfo → Bytes → Option Bytes → Machine → Option Round
  extended li m compdir s = decode_uleb128 m (s.p + 1) >>= λ opsize.
      load m opsize.1 >>= λ op. extended_opcode li m compdir s opsize.0 opsize.1 op

  -- The next state behind the operand `a` of an opcode.
  unfoldable pub with_operand : Machine → (ℕ → Registers) → Option (ℕ × ℕ) → Option Round
  with_operand s next a = a >>= λ v. some (going (record s { p = v.1; regs = next v.0 }))

  unfoldable pub without_operand : Machine → Registers → Round
  without_operand s next = going (record s { p = s.p + 1; regs = next })

  unfoldable pub const_add_pc : LineInfo → Machine → Option Round
  const_add_pc li s = address_delta li 255 >>= λ d.
      some (without_operand s (record s.regs { address = (s.regs.address + d) % 2 ^ 64 }))

  unfoldable pub standard : LineInfo → Bytes → Machine → ℕ → Option Round
  standard li m s op =
      let r = s.regs in
      let p = s.p + 1 in
      if op == 1
      then some (append_row s.table p r (record r { basic_block = 0 }))
      else if op == 2
      then with_operand s (λ v. record r { address = (r.address + v * li.minlen) % 2 ^ 64 })
          (decode_uleb128 m p)
      else if op == 3
      then with_operand s (λ v. record r { line = (r.line + v) % 2 ^ 64 }) (decode_sleb128 m p)
      else if op == 4
      then with_operand s (λ v. record r { file = v }) (decode_uleb128 m p)
      else if op == 5
      then with_operand s (λ v. record r { column = v }) (decode_uleb128 m p)
      else if op == 6
      then some (without_operand s (record r { is_stmt = if r.is_stmt == 0 then 1 else 0 }))
      else if op == 7
      then some (without_operand s (record r { basic_block = 1 }))
      else if op == 8
      then const_add_pc li s
      else if op == 9
      then with_operand s (λ v. record r { address = (r.address + v) % 2 ^ 64 })
          (decode big_endian m p 2)
      else if op == 12
      then with_operand s (λ v. r) (decode_uleb128 m p)
      else some (without_operand s r)

  unfoldable pub special : LineInfo → Machine → ℕ → Option Round
  special li s op = line_delta li op >>= λ l. address_delta li op >>= λ a.
      let r = record s.regs {
        line = (s.regs.line + l) % 2 ^ 64;
        address = (s.regs.address + a) % 2 ^ 64;
      } in
      some (append_row s.table (s.p + 1) r (record r { basic_block = 0 }))

  -- The round for the opcode at `p`.
  unfoldable pub opcode : LineInfo → Bytes → Option Bytes → Machine → ℕ → Option Round
  opcode li m compdir s op =
      if op == 0
      then extended li m compdir s
      else if ltb op li.opbase
      then standard li m s op
      else special li s op

  unfoldable pub round : LineInfo → Bytes → Option Bytes → Machine → Option Round
  round li m compdir s = load m s.p >>= λ op. opcode li m compdir s op

  -- The end of the program: DW_DLE_NONE, an error, or undefined behaviour. `unfinished` is no end of
  -- the code: the fuel ran out.
  pub data Run : Type 0 where
    finished : Machine → Run
    stopped : Error → Table → Run
    undefined : Run
    unfinished : Run

  unfoldable pub run_on : Option Round → (Machine → Run) → Run
  run_on none next = undefined
  run_on (some (going s)) next = next s
  run_on (some (failed e t)) next = stopped e t

  unfoldable pub run_loop : ℕ → LineInfo → Bytes → ℕ → Option Bytes → Machine → Run
  run_loop zero li m pe compdir s = unfinished
  run_loop (suc n) li m pe compdir s = elim (ltb s.p pe) [
    | true ↦ run_on (round li m compdir s) (λ s'. run_loop n li m pe compdir s')
    | false ↦ finished s
  ]

  -- Every round moves `p` on.
  unfoldable pub lineno_run_program : LineInfo → Bytes → ℕ → ℕ → Option Bytes → Table → Run
  lineno_run_program li m p pe compdir t =
      run_loop (suc (pe - p)) li m pe compdir
        (record { p = p; regs = reset_registers li; table = t })
