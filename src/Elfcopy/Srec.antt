-- ===== src/Elfcopy/Srec.antt =====
-- Motorola S-records: srec_read, srec_write, srec_write_S0, srec_write_Sd and srec_write_Se of
-- elfcopy/ascii.c. A written line is what the call of write(2) is given.
pub mod RoundTrip
pub mod Safe
pub mod Load
pub mod Create
use elftoolchain.Base.{
  ℕ, zero, suc, ◌+◌, ◌-◌, ◌%◌, ◌^◌, Bool, true, false, ◌||◌, ◌&&◌, Option, none, some, List, [],
  ◌∷◌, ◌++◌, Bytes, ltb, leb, ◌==◌, if◌then◌else◌, length, take, drop,
}
use elftoolchain.Elfcopy.Hex.{read_num, Number, write_num, write_bytes}
use elftoolchain.Elfcopy.Record.{
  Conversion, ok, invalid, overflow, unfinished, ◌>>=◌, or_invalid, line_size, line_end, char_at,
  Data, read_bytes,
}

-- `*type`, `*addr` and `data[0 .. *sz)`.
pub record Srec : Type 0 where
  pub kind : ℕ
  pub addr : ℕ
  pub bytes : Bytes

unfoldable pub read_addr_sz : ℕ → Option ℕ
read_addr_sz kind =
    if kind == b'0' || kind == b'1' || kind == b'5' || kind == b'9'
    then some 2
    else if kind == b'2' || kind == b'8'
    then some 3
    else if kind == b'3' || kind == b'7'
    then some 4
    else none

-- The data of a record of the type `kind` behind its address, with `count` as read.
unfoldable pub read_data : ℕ → ℕ → ℕ → Number → Conversion Data
read_data kind addr_sz count n = elim (leb b'0' kind && leb kind b'3') [
  | true ↦ read_bytes ((count + 2 ^ 64 - (addr_sz + 1)) % 2 ^ 64) 0 n.rest n.checksum
  | false ↦ ok (record { rest = n.rest; bytes = []; checksum = n.checksum })
]

unfoldable pub srec_read : Bytes → Conversion Srec
srec_read line = or_invalid (read_num (drop 2 line) 1 0) >>= λ count.
    or_invalid (read_addr_sz (char_at line 1)) >>= λ addr_sz.
    or_invalid (read_num count.rest addr_sz count.checksum) >>= λ addr.
    read_data (char_at line 1) addr_sz count.num addr >>= λ d.
    or_invalid (read_num d.rest 1 0) >>= λ sum.
    if sum.num == 255 - d.checksum
    then ok (record { kind = char_at line 1; addr = addr.num; bytes = d.bytes })
    else invalid

unfoldable pub write_addr_sz : ℕ → ℕ
write_addr_sz kind =
    if kind == b'0' || kind == b'1' || kind == b'5' || kind == b'9'
    then 2
    else if kind == b'2' || kind == b'8'
    then 3
    else 4

-- The characters put in `line`.
unfoldable pub srec_line : ℕ → ℕ → Bytes → Bytes
srec_line kind addr buf =
    let addr_sz = write_addr_sz kind in
    let count = write_num (addr_sz + length buf + 1) 1 0 in
    let a = write_num addr addr_sz count.checksum in
    let d = write_bytes buf a.checksum in
    b'S'
    ∷ kind
    ∷ (count.text ++ (a.text ++ (d.text ++ ((write_num (255 - d.checksum) 1 0).text ++ line_end))))

unfoldable pub srec_write : ℕ → ℕ → Bytes → Conversion Bytes
srec_write kind addr buf =
    let line = srec_line kind addr buf in if leb (length line) line_size then ok line else overflow

unfoldable pub srec_write_S0 : Bytes → Conversion Bytes
srec_write_S0 ofn = srec_write b'0' 0 ofn

-- What is left of the data, less than `rlen` bytes.
unfoldable pub srec_write_last : ℕ → ℕ → Bytes → Conversion (List Bytes)
srec_write_last dr addr [] = ok []
srec_write_last dr addr (b ∷ buf) = srec_write dr addr (b ∷ buf) >>= λ line. ok (line ∷ [])

-- `n >= (int) rlen`
unfoldable pub at_least : ℕ → ℕ → Bool
at_least n rlen = leb (2 ^ 31) (rlen % 2 ^ 32) || leb (rlen % 2 ^ 32) n

-- The record of the next `rlen` bytes, if there are as many.
unfoldable pub srec_write_next : ℕ → ℕ → Bytes → ℕ → Conversion Bytes
srec_write_next dr addr buf rlen =
    if ltb (length buf) rlen then overflow else srec_write dr addr (take rlen buf)

-- The loop on `p`, with the bytes from `p` to `pe`. The fuel is the first argument.
unfoldable pub srec_write_loop : ℕ → ℕ → ℕ → Bytes → ℕ → Conversion (List Bytes)
srec_write_loop zero dr addr buf rlen = unfinished
srec_write_loop (suc n) dr addr buf rlen = elim (at_least (length buf) rlen) [
  | true ↦ srec_write_next dr addr buf rlen >>= λ line.
      srec_write_loop n dr ((addr + rlen) % 2 ^ 64) (drop rlen buf) rlen >>= λ lines.
      ok (line ∷ lines)
  | false ↦ srec_write_last dr addr buf
]

unfoldable pub srec_write_Sd : ℕ → ℕ → Bytes → ℕ → Conversion (List Bytes)
srec_write_Sd dr addr buf rlen = srec_write_loop (suc (length buf)) dr addr buf rlen

unfoldable pub end_kind : ℕ → Bool → ℕ
end_kind e_entry forceS3 =
    if forceS3
    then b'7'
    else if leb e_entry 0xffff
    then b'9'
    else if leb e_entry 0xffffff
    then b'8'
    else b'7'

unfoldable pub srec_write_Se : ℕ → Bool → Conversion (List Bytes)
srec_write_Se e_entry forceS3 =
    if ltb 0xffffffff e_entry
    then ok []
    else srec_write (end_kind e_entry forceS3) e_entry [] >>= λ line. ok (line ∷ [])
