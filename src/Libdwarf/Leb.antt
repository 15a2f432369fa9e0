-- ===== src/Libdwarf/Leb.antt =====
-- LEB128: _dwarf_read_uleb128, _dwarf_decode_uleb128, _dwarf_write_uleb128 and their signed
-- counterparts of libdwarf/libdwarf_rw.c. An int64_t is its bit pattern, a number below 2 ^ 64.
-- `none` is undefined behaviour: an access outside of the buffer, or a left shift of an `int`
-- whose result an `int` does not hold.
pub mod Cells
pub mod Forward
pub mod Groups
pub mod Unsigned
pub mod Signed
mod Tests
use elftoolchain.Base.{
  ℕ, zero, suc, ◌+◌, ◌-◌, ◌*◌, ◌^◌, Option, none, some, [], ◌∷◌, Bool, true, false, ◌&&◌, ◌||◌, not,
  Bytes, ◌>>=◌, ltb, ◌==◌, if◌then◌else◌, bit_and, bit_or, drop,
}
use elftoolchain.Base.Bits.{shr, shl64}
use elftoolchain.Base.Mem.{load, store}

-- `(b & 0x7f) << shift` is computed in `int`, after the promotion of the uint8_t: C leaves it
-- undefined for a shift of 32 or more and where the product is 2 ^ 31 or more.
pub shl_int : ℕ → ℕ → Option ℕ
shl_int x shift =
    if ltb shift 32 && ltb (x * 2 ^ shift) (2 ^ 31) then some (x * 2 ^ shift) else none

-- What the loop of a reader leaves behind: `ret`, `shift`, the last byte and the bytes consumed.
pub record Scan : Type 0 where
  pub ret : ℕ
  pub shift : ℕ
  pub last : ℕ
  pub count : ℕ

-- `do … while ((b & 0x80) != 0)` over the bytes from `src` on.
pub scan : Bytes → ℕ → ℕ → ℕ → Option Scan
scan [] ret shift count = none
scan (b ∷ src) ret shift count = shl_int (bit_and b 0x7f) shift >>= λ g.
    let rest = scan src (bit_or ret g) (shift + 7) (count + 1) in
    if bit_and b 0x80 == 0
    then some (record { ret = bit_or ret g; shift = shift + 7; last = b; count = count + 1 })
    else rest

-- The value, and the offset (for the decoder, the pointer) behind the bytes read.
pub read_uleb128 : Bytes → ℕ → Option (ℕ × ℕ)
read_uleb128 m i = scan (drop i m) 0 0 0 >>= λ s. some (s.ret, i + s.count)

pub decode_uleb128 : Bytes → ℕ → Option (ℕ × ℕ)
decode_uleb128 m p = scan (drop p m) 0 0 0 >>= λ s. some (s.ret, p + s.count)

-- `if (shift < 64 && (b & 0x40) != 0) ret |= (~0UL << shift);`
sign_extend : Scan → ℕ
sign_extend s =
    if ltb s.shift 64 && not (bit_and s.last 0x40 == 0)
    then bit_or s.ret (shl64 (2 ^ 64 - 1) s.shift)
    else s.ret

pub read_sleb128 : Bytes → ℕ → Option (ℕ × ℕ)
read_sleb128 m i = scan (drop i m) 0 0 0 >>= λ s. some (sign_extend s, i + s.count)

pub decode_sleb128 : Bytes → ℕ → Option (ℕ × ℕ)
decode_sleb128 m p = scan (drop p m) 0 0 0 >>= λ s. some (sign_extend s, p + s.count)

-- `*p |= 0x80`
pub mark_more : Bytes → ℕ → Option Bytes
mark_more m p = load m p >>= λ b. store m p (bit_or b 0x80)

-- The loop of `_dwarf_write_uleb128`, with `room = end - p`: the buffer after it, and the count of
-- bytes written, or `none` for the return of -1.
write_uleb_loop : ℕ → Bytes → ℕ → ℕ → ℕ → Option (Bytes × Option ℕ)
write_uleb_loop zero m p count val = some (m, none)
write_uleb_loop (suc room) m p count val = do
  m ← store m p (bit_and val 0x7f)
  let val = shr val 7
  m ← if ltb 0 val then mark_more m p else some m
  let rest = write_uleb_loop room m (p + 1) (count + 1) val
  if ltb 0 val then rest else some (m, some (count + 1))

pub write_uleb128 : Bytes → ℕ → ℕ → ℕ → Option (Bytes × Option ℕ)
write_uleb128 m p end val = write_uleb_loop (end - p) m p 0 val

-- `val >> 7` of an int64_t by its bit pattern: the sign bit is copied into the upper seven bits.
pub sar_7 : ℕ → ℕ
sar_7 w = if ltb w (2 ^ 63) then shr w 7 else shr w 7 + (2 ^ 64 - 2 ^ 57)

-- `(val == 0 && (*p & 0x40) == 0) || (val == -1 && (*p & 0x40) != 0)`
pub sleb_done : ℕ → ℕ → Bool
sleb_done val b =
    (val == 0 && bit_and b 0x40 == 0) || (val == 2 ^ 64 - 1 && not (bit_and b 0x40 == 0))

write_sleb_loop : ℕ → Bytes → ℕ → ℕ → ℕ → Option (Bytes × Option ℕ)
write_sleb_loop zero m p count val = some (m, none)
write_sleb_loop (suc room) m p count val = do
  m ← store m p (bit_and val 0x7f)
  let val = sar_7 val
  b ← load m p
  m' ← if sleb_done val b then some m else mark_more m p
  let rest = write_sleb_loop room m' (p + 1) (count + 1) val
  if sleb_done val b then some (m, some (count + 1)) else rest

pub write_sleb128 : Bytes → ℕ → ℕ → ℕ → Option (Bytes × Option ℕ)
write_sleb128 m p end val = write_sleb_loop (end - p) m p 0 val
