-- ===== src/Libdwarf/Lineno/Generate.antt =====
-- _dwarf_lineno_gen_program of libdwarf/libdwarf_lineno.c, and _dwarf_reloc_entry_add of
-- libdwarf/libdwarf_reloc.c. What is written does not depend on the writing: the writes of the rows
-- are a list, which is carried out up to the first that fails. An int64_t is its bit pattern.
pub mod Opcodes
use elftoolchain.Base.{
  ℕ, suc, ◌+◌, ◌-◌, ◌*◌, ◌/◌, ◌%◌, ◌^◌, Bool, true, false, ◌&&◌, not, Option, none, some, List, [],
  ◌∷◌, ◌++◌, Bytes, ◌>>=◌, ltb, leb, ◌==◌, if◌then◌else◌,
}
use elftoolchain.Libdwarf.Grow.{
  Allocator, Buffer, Result, ok, no_memory, aborted, undefined, stuck, write_lsb_alloc,
  write_msb_alloc, write_uleb128_alloc, write_sleb128_alloc,
}
use elftoolchain.Libdwarf.Lineno.{LineInfo, Line}

-- WRITE_VALUE, WRITE_ULEB128, WRITE_SLEB128, and the relocation of an address. A `fault` is no
-- write: a failed `assert`, or a division by 0.
pub data Write : Type 0 where
  value : ℕ → ℕ → Write
  uleb : ℕ → Write
  sleb : ℕ → Write
  reloc : ℕ → ℕ → Write
  fault : Result → Write

-- The variables of the loop. `ln_symndx` of a row stands beside the row.
pub record State : Type 0 where
  pub address : ℕ
  pub file : ℕ
  pub line : ℕ
  pub column : ℕ
  pub is_stmt : ℕ
  pub basic_block : ℕ

-- RESET_REGISTERS
unfoldable pub reset : LineInfo → State
reset li = record {
  address = 0;
  file = 1;
  line = 1;
  column = 0;
  is_stmt = li.defstmt;
  basic_block = 0;
}

-- `x <= y` of int64_t
unfoldable pub signed_leb : ℕ → ℕ → Bool
signed_leb x y = leb ((x + 2 ^ 63) % 2 ^ 64) ((y + 2 ^ 63) % 2 ^ 64)

-- `(line0 - li_lbase) + (li_lrange * addr0) + li_opbase`
unfoldable pub special_opcode : LineInfo → ℕ → ℕ → ℕ
special_opcode li line0 addr0 =
    ((line0 + 2 ^ 64 - li.lbase) % 2 ^ 64 + li.lrange * addr0 + li.opbase) % 2 ^ 64

unfoldable pub is_special : LineInfo → ℕ → ℕ → Bool
is_special li line0 addr0 =
    signed_leb li.lbase line0
    && signed_leb line0 ((li.lbase + li.lrange + 2 ^ 64 - 1) % 2 ^ 64)
    && leb (special_opcode li line0 addr0) 255

-- The opcodes for a new address, where the line does not change any more.
unfoldable pub address_writes : LineInfo → ℕ → List Write
address_writes li addr0 =
    let maddr = (255 - li.opbase) / li.lrange in
    let spc = special_opcode li 0 ((addr0 + 2 ^ 64 - maddr) % 2 ^ 64) in
    if addr0 == 0
    then []
    else if leb maddr addr0 && leb spc 255
    then value 8 1 ∷ value spc 1 ∷ []
    else value 2 1 ∷ uleb addr0 ∷ []

-- The opcodes for a change of the line and the address, and `basic_block`.
unfoldable pub advance_writes : LineInfo → ℕ → ℕ → ℕ → List Write × ℕ
advance_writes li line0 addr0 basic_block =
    let line_writes : List Write = if line0 == 0 then [] else value 3 1 ∷ sleb line0 ∷ [] in
    let need_copy = if line0 == 0 then basic_block else 1 in
    let copy : List Write = if need_copy == 0 then [] else value 1 1 ∷ [] in
    if is_special li line0 addr0 then (value (special_opcode li line0 addr0) 1 ∷ [], 0) else (
      line_writes ++ (address_writes li addr0 ++ copy),
      if need_copy == 0 then basic_block else 0,
    )

-- The standard opcodes for the file, the column, `is_stmt` and the basic block, and the state.
unfoldable pub register_writes : State → Line → List Write × State
register_writes s ln =
    let file : List Write = if ln.fileno == s.file then [] else value 4 1 ∷ uleb ln.fileno ∷ [] in
    let column : List Write =
      if ln.column == s.column then [] else value 5 1 ∷ uleb ln.column ∷ [] in
    let stmt : List Write = if ln.stmt == s.is_stmt then [] else value 6 1 ∷ [] in
    let starts = not (ln.bblock == 0) && s.basic_block == 0 in
    let block : List Write = if starts then value 7 1 ∷ [] else [] in
    (
      file ++ (column ++ (stmt ++ block)),
      record s {
        file = ln.fileno;
        column = ln.column;
        is_stmt = ln.stmt;
        basic_block = if starts then 1 else s.basic_block;
      },
    )

-- A row that is neither an address nor the end of a sequence.
unfoldable pub row_writes : LineInfo → State → Line → List Write × State
row_writes li s ln =
    let r = register_writes s ln in
    let addr0 = (ln.addr + 2 ^ 64 - s.address) % 2 ^ 64 / li.minlen in
    let line0 = (ln.lineno + 2 ^ 64 - s.line) % 2 ^ 64 in
    let a = advance_writes li line0 addr0 r.1.basic_block in
    let check : List Write = if signed_leb li.lbase 0 then [] else fault aborted ∷ [] in
    if addr0 == 0 && line0 == 0 then r else (
      r.0 ++ (check ++ a.0),
      record r.1 { basic_block = a.1; address = ln.addr; line = ln.lineno },
    )

-- DW_LNE_set_address, with its relocation.
unfoldable pub address_row : ℕ → State → ℕ → Line → List Write × State
address_row pointer_size s symndx ln = (
  value 0 1 ∷ uleb (pointer_size + 1) ∷ value 2 1 ∷ reloc symndx ln.addr ∷ [],
  record s { address = ln.addr },
)

-- DW_LNE_end_sequence
unfoldable pub end_row : LineInfo → State → Line → List Write × State
end_row li s ln =
    let addr0 = (ln.addr + 2 ^ 64 - s.address) % 2 ^ 64 / li.minlen in
    let advance : List Write = if addr0 == 0 then [] else value 2 1 ∷ uleb addr0 ∷ [] in
    (advance ++ value 0 1 ∷ uleb 1 ∷ value 1 1 ∷ [], reset li)

-- A row with its `ln_symndx`.
unfoldable pub line_writes : LineInfo → ℕ → State → ℕ × Line → List Write × State
line_writes li pointer_size s (symndx, ln) =
    if ltb 0 symndx
    then address_row pointer_size s symndx ln
    else if li.minlen == 0
    then (fault undefined ∷ [], s)
    else if ln.endseq == 0
    then row_writes li s ln
    else end_row li s ln

unfoldable pub all_writes : LineInfo → ℕ → State → List (ℕ × Line) → List Write
all_writes li pointer_size s [] = []
all_writes li pointer_size s (ln ∷ l) =
    let r = line_writes li pointer_size s ln in r.0 ++ all_writes li pointer_size r.1 l

-- A relocation entry: `dre_length`, `dre_offset`, `dre_symndx` and `dre_addend`.
pub record RelEntry : Type 0 where
  pub size : ℕ
  pub offset : ℕ
  pub symndx : ℕ
  pub addend : ℕ

-- The section and the relocation entries; or the end of a write that failed.
pub data Output : Type 0 where
  written : Buffer → List RelEntry → Output
  failed : Result → Output

-- `symbolic` is DW_DLC_SYMBOLIC_RELOCATIONS, or a section of relocations without addends.
module _ (a : Allocator) (big_endian symbolic : Bool) (pointer_size : ℕ) where
  unfoldable pub write_value : Buffer → ℕ → ℕ → Result
  write_value b v n = if big_endian then write_msb_alloc a b v n else write_lsb_alloc a b v n

  unfoldable pub wrote : List RelEntry → Result → Output
  wrote rels (ok b) = written b rels
  wrote rels (no_memory size) = failed (no_memory size)
  wrote rels aborted = failed aborted
  wrote rels undefined = failed undefined
  wrote rels stuck = failed stuck

  -- calloc() of the entry is taken to succeed.
  unfoldable pub reloc_entry_add : Buffer → List RelEntry → ℕ → ℕ → Output
  reloc_entry_add b rels symndx addend =
      wrote
        (rels
          ++ record { size = pointer_size; offset = b.offset; symndx = symndx; addend = addend }
            ∷ [])
        (write_value b (if symbolic then addend else 0) pointer_size)

  unfoldable pub write_one : Buffer → List RelEntry → Write → Output
  write_one b rels (value v n) = wrote rels (write_value b v n)
  write_one b rels (uleb v) = wrote rels (write_uleb128_alloc a b v)
  write_one b rels (sleb v) = wrote rels (write_sleb128_alloc a b v)
  write_one b rels (fault r) = failed r
  write_one b rels (reloc symndx addend) = reloc_entry_add b rels symndx addend

  unfoldable pub write_list : Output → List Write → Output
  write_list (failed r) l = failed r
  write_list (written b rels) [] = written b rels
  write_list (written b rels) (w ∷ l) = write_list (write_one b rels w) l

  -- `maddr` divides by the line range.
  unfoldable pub lineno_gen_program : LineInfo → List (ℕ × Line) → Buffer → List RelEntry → Output
  lineno_gen_program li lines b rels =
      if li.lrange == 0
      then failed undefined
      else write_list (written b rels) (all_writes li pointer_size (reset li) lines)
