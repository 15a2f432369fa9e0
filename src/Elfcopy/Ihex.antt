-- ===== src/Elfcopy/Ihex.antt =====
-- Intel Hex records: ihex_read and the ihex_write functions of elfcopy/ascii.c. The program ends
-- where more than 16 bytes are to be written, which is `invalid` here.
pub mod RoundTrip
pub mod Safe
pub mod Load
pub mod Create
use elftoolchain.Base.{
  ℕ, zero, suc, ◌+◌, ◌-◌, ◌/◌, ◌%◌, ◌^◌, Bool, true, false, ◌||◌, Option, none, some, List, [], ◌∷◌,
  ◌++◌, Bytes, ltb, leb, ◌==◌, if◌then◌else◌, length, take, drop,
}
use elftoolchain.Elfcopy.Hex.{read_num, Number, Text, write_num, write_bytes}
use elftoolchain.Elfcopy.Record.{
  Conversion, ok, invalid, overflow, unfinished, ◌>>=◌, or_invalid, line_end, Data, read_bytes,
}

-- `*type`, `*addr`, `*num` and `data[0 .. *sz)`. The caller uses the number of the types 4 and 5
-- only; it is 0 here for the types 0 and 1.
pub record Ihex : Type 0 where
  pub kind : ℕ
  pub addr : ℕ
  pub num : ℕ
  pub bytes : Bytes

-- Of a record behind its type: the rest of the line, the number, the data and the checksum.
pub record Body : Type 0 where
  pub rest : Bytes
  pub num : ℕ
  pub bytes : Bytes
  pub checksum : ℕ

-- The two characters of the type. A character behind the end of the line is NUL, and no type.
unfoldable pub read_type : Bytes → Option (ℕ × Bytes)
read_type [] = none
read_type (x ∷ []) = none
read_type (x ∷ kind ∷ line) = if x == b'0' then some (kind, line) else none

abbrev pub number_body : Number → Conversion Body
number_body r = ok (record { rest = r.rest; num = r.num; bytes = []; checksum = r.checksum })

abbrev pub data_body : Data → Conversion Body
data_body d = ok (record { rest = d.rest; num = 0; bytes = d.bytes; checksum = d.checksum })

unfoldable pub read_number : ℕ → ℕ → Bytes → ℕ → Conversion Body
read_number count n line checksum =
    if count == n then (or_invalid (read_num line n checksum) >>= number_body) else invalid

unfoldable pub read_body : ℕ → ℕ → Bytes → ℕ → Conversion Body
read_body kind count line checksum =
    if kind == b'0'
    then (read_bytes count 0 line checksum >>= data_body)
    else if kind == b'1'
    then read_number count 0 line checksum
    else if kind == b'2' || kind == b'4'
    then read_number count 2 line checksum
    else if kind == b'3' || kind == b'5'
    then read_number count 4 line checksum
    else invalid

-- The checksum of a type below '0', which the source lets fall, is not used: read_body refuses it.
unfoldable pub ihex_read : Bytes → Conversion Ihex
ihex_read line = or_invalid (read_num (drop 1 line) 1 0) >>= λ count.
    or_invalid (read_num count.rest 2 count.checksum) >>= λ addr.
    or_invalid (read_type addr.rest) >>= λ t.
    read_body t.0 count.num t.1 (addr.checksum + (t.0 - b'0')) >>= λ body.
    or_invalid (read_num body.rest 1 body.checksum) >>= λ sum.
    if sum.checksum % 256 == 0
    then ok (record { kind = t.0; addr = addr.num; num = body.num; bytes = body.bytes })
    else invalid

-- The bytes of `buf`, or where it is NULL those of `num`.
unfoldable pub write_payload : ℕ → Option Bytes → ℕ → ℕ → Text
write_payload num none sz checksum = write_num num sz checksum
write_payload num (some buf) sz checksum = write_bytes (take sz buf) checksum

-- The characters put in `line`.
unfoldable pub ihex_line : ℕ → ℕ → ℕ → Option Bytes → ℕ → Bytes
ihex_line kind addr num buf sz =
    let count = write_num sz 1 0 in
    let a = write_num addr 2 count.checksum in
    let t = write_num kind 1 a.checksum in
    let d = write_payload num buf sz t.checksum in
    b':'
    ∷ (count.text
        ++ (a.text
            ++ (t.text
                ++ (d.text ++ ((write_num ((256 - d.checksum) % 256) 1 0).text ++ line_end)))))

unfoldable pub ihex_write : ℕ → ℕ → ℕ → Option Bytes → ℕ → Conversion Bytes
ihex_write kind addr num buf sz = if ltb 16 sz then invalid else ok (ihex_line kind addr num buf sz)

unfoldable pub ihex_write_01 : Conversion Bytes
ihex_write_01 = ihex_write 1 0 0 none 0

unfoldable pub ihex_write_04 : ℕ → Conversion Bytes
ihex_write_04 addr = ihex_write 4 0 addr none 2

unfoldable pub ihex_write_05 : ℕ → Conversion (List Bytes)
ihex_write_05 e_entry =
    if ltb 0xffffffff e_entry
    then ok []
    else ihex_write 5 0 e_entry none 4 >>= λ line. ok (line ∷ [])

-- `(addr >> 16) & 0xFFFF`
abbrev pub high : ℕ → ℕ
high addr = addr / 2 ^ 16 % 2 ^ 16

-- The 04 record behind a data record, if the upper half of the address has changed.
unfoldable pub high_record : ℕ → ℕ → Conversion (List Bytes)
high_record addr_hi old_addr_hi =
    if addr_hi == old_addr_hi then ok [] else ihex_write_04 addr_hi >>= λ line. ok (line ∷ [])

-- What is left of the data, less than 16 bytes.
unfoldable pub ihex_write_last : ℕ → Bytes → Conversion (List Bytes)
ihex_write_last addr [] = ok []
ihex_write_last addr (b ∷ buf) =
    ihex_write 0 addr 0 (some (b ∷ buf)) (length (b ∷ buf)) >>= λ line. ok (line ∷ [])

-- The loop on `p`. The fuel is the first argument.
unfoldable pub ihex_write_loop : ℕ → ℕ → ℕ → Bytes → Conversion (List Bytes)
ihex_write_loop zero old_addr_hi addr buf = unfinished
ihex_write_loop (suc n) old_addr_hi addr buf =
    let next = (addr + 16) % 2 ^ 64 in
    elim (leb 16 (length buf)) [
      | true ↦ ihex_write 0 addr 0 (some (take 16 buf)) 16 >>= λ line.
          high_record (high next) old_addr_hi >>= λ hi.
          ihex_write_loop n (high next) next (drop 16 buf) >>= λ lines. ok (line ∷ hi ++ lines)
      | false ↦ ihex_write_last addr buf
    ]

unfoldable pub ihex_write_00 : ℕ → Bytes → Conversion (List Bytes)
ihex_write_00 addr buf = ihex_write_loop (suc (length buf)) (high addr) addr buf
