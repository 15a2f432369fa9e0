-- ===== src/Libdwarf/Fixed.antt =====
-- Integers of a fixed width: _dwarf_read_lsb, _dwarf_decode_lsb, _dwarf_read_msb,
-- _dwarf_decode_msb, _dwarf_write_lsb and _dwarf_write_msb of libdwarf/libdwarf_rw.c.
-- A buffer is a list of bytes, `*offsetp` (for the decoders, the pointer) is an offset into it that
-- is returned beside the value, and `none` is an access outside of the buffer.
-- A label of a `switch` is a function, and falling through calls the next.
pub mod Read
pub mod Forward
pub mod Write
pub mod RoundTrip
mod Tests
use elftoolchain.Base.{ℕ, ◌+◌, Option, some, ◌>>=◌, Bytes, ◌==◌, if◌then◌else◌, bit_and, bit_or}
use elftoolchain.Base.Bits.{shl64, shr}
use elftoolchain.Base.Mem.{load, store}

-- `case 1:` to `case 8:` of `_dwarf_read_lsb`; `i` is the offset of `src`.
lsb_case_1 : Bytes → ℕ → ℕ → Option ℕ
lsb_case_1 m i ret = load m i >>= λ b. some (bit_or ret b)

lsb_case_2 : Bytes → ℕ → ℕ → Option ℕ
lsb_case_2 m i ret = load m (i + 1) >>= λ b. lsb_case_1 m i (bit_or ret (shl64 b 8))

lsb_case_3 : Bytes → ℕ → ℕ → Option ℕ
lsb_case_3 m i ret = load m (i + 2) >>= λ b. lsb_case_2 m i (bit_or ret (shl64 b 16))

lsb_case_4 : Bytes → ℕ → ℕ → Option ℕ
lsb_case_4 m i ret = load m (i + 3) >>= λ b. lsb_case_3 m i (bit_or ret (shl64 b 24))

lsb_case_8 : Bytes → ℕ → ℕ → Option ℕ
lsb_case_8 m i ret = do
  b4 ← load m (i + 4)
  b5 ← load m (i + 5)
  let ret = bit_or ret (bit_or (shl64 b4 32) (shl64 b5 40))
  b6 ← load m (i + 6)
  b7 ← load m (i + 7)
  lsb_case_4 m i (bit_or ret (bit_or (shl64 b6 48) (shl64 b7 56)))

-- The value, and the offset behind it; no offset is moved for a width without a case.
advance : ℕ → ℕ → Option ℕ → Option (ℕ × ℕ)
advance i n r = r >>= λ v. some (v, i + n)

pub read_lsb : Bytes → ℕ → ℕ → Option (ℕ × ℕ)
read_lsb m i n =
    if n == 8
    then advance i n (lsb_case_8 m i 0)
    else if n == 4
    then advance i n (lsb_case_4 m i 0)
    else if n == 3
    then advance i n (lsb_case_3 m i 0)
    else if n == 2
    then advance i n (lsb_case_2 m i 0)
    else if n == 1
    then advance i n (lsb_case_1 m i 0)
    else some (0, i)

-- `_dwarf_decode_lsb` is the same switch over `*data`, which it moves.
pub decode_lsb : Bytes → ℕ → ℕ → Option (ℕ × ℕ)
decode_lsb m p n =
    if n == 8
    then advance p n (lsb_case_8 m p 0)
    else if n == 4
    then advance p n (lsb_case_4 m p 0)
    else if n == 3
    then advance p n (lsb_case_3 m p 0)
    else if n == 2
    then advance p n (lsb_case_2 m p 0)
    else if n == 1
    then advance p n (lsb_case_1 m p 0)
    else some (0, p)

msb_case_2 : Bytes → ℕ → Option ℕ
msb_case_2 m i = do b1 ← load m (i + 1); b0 ← load m i; some (bit_or b1 (shl64 b0 8))

msb_case_3 : Bytes → ℕ → Option ℕ
msb_case_3 m i = do
  b2 ← load m (i + 2)
  b1 ← load m (i + 1)
  let ret = bit_or b2 (shl64 b1 8)
  b0 ← load m i
  some (bit_or ret (shl64 b0 16))

msb_case_4 : Bytes → ℕ → Option ℕ
msb_case_4 m i = do
  b3 ← load m (i + 3)
  b2 ← load m (i + 2)
  let ret = bit_or b3 (shl64 b2 8)
  b1 ← load m (i + 1)
  b0 ← load m i
  some (bit_or ret (bit_or (shl64 b1 16) (shl64 b0 24)))

msb_case_8 : Bytes → ℕ → Option ℕ
msb_case_8 m i = do
  b7 ← load m (i + 7)
  b6 ← load m (i + 6)
  let ret = bit_or b7 (shl64 b6 8)
  b5 ← load m (i + 5)
  b4 ← load m (i + 4)
  let ret = bit_or ret (bit_or (shl64 b5 16) (shl64 b4 24))
  b3 ← load m (i + 3)
  b2 ← load m (i + 2)
  let ret = bit_or ret (bit_or (shl64 b3 32) (shl64 b2 40))
  b1 ← load m (i + 1)
  b0 ← load m i
  some (bit_or ret (bit_or (shl64 b1 48) (shl64 b0 56)))

pub read_msb : Bytes → ℕ → ℕ → Option (ℕ × ℕ)
read_msb m i n =
    if n == 1
    then advance i n (load m i)
    else if n == 2
    then advance i n (msb_case_2 m i)
    else if n == 3
    then advance i n (msb_case_3 m i)
    else if n == 4
    then advance i n (msb_case_4 m i)
    else if n == 8
    then advance i n (msb_case_8 m i)
    else some (0, i)

pub decode_msb : Bytes → ℕ → ℕ → Option (ℕ × ℕ)
decode_msb m p n =
    if n == 1
    then advance p n (load m p)
    else if n == 2
    then advance p n (msb_case_2 m p)
    else if n == 3
    then advance p n (msb_case_3 m p)
    else if n == 4
    then advance p n (msb_case_4 m p)
    else if n == 8
    then advance p n (msb_case_8 m p)
    else some (0, p)

-- The byte of `value` from bit `k` on.
abbrev byte_at : ℕ → ℕ → ℕ
byte_at v k = bit_and (shr v k) 0xff

put_lsb_1 : Bytes → ℕ → ℕ → Option Bytes
put_lsb_1 m i v = store m i (bit_and v 0xff)

put_lsb_2 : Bytes → ℕ → ℕ → Option Bytes
put_lsb_2 m i v = store m (i + 1) (byte_at v 8) >>= λ m. put_lsb_1 m i v

put_lsb_4 : Bytes → ℕ → ℕ → Option Bytes
put_lsb_4 m i v = do
  m ← store m (i + 3) (byte_at v 24)
  m ← store m (i + 2) (byte_at v 16)
  put_lsb_2 m i v

put_lsb_8 : Bytes → ℕ → ℕ → Option Bytes
put_lsb_8 m i v = do
  m ← store m (i + 7) (byte_at v 56)
  m ← store m (i + 6) (byte_at v 48)
  m ← store m (i + 5) (byte_at v 40)
  m ← store m (i + 4) (byte_at v 32)
  put_lsb_4 m i v

-- The buffer after the write, and the offset behind it.
written : ℕ → ℕ → Option Bytes → Option (Bytes × ℕ)
written i n r = r >>= λ m. some (m, i + n)

pub write_lsb : Bytes → ℕ → ℕ → ℕ → Option (Bytes × ℕ)
write_lsb m i v n =
    if n == 8
    then written i n (put_lsb_8 m i v)
    else if n == 4
    then written i n (put_lsb_4 m i v)
    else if n == 2
    then written i n (put_lsb_2 m i v)
    else if n == 1
    then written i n (put_lsb_1 m i v)
    else some (m, i)

put_msb_1 : Bytes → ℕ → ℕ → Option Bytes
put_msb_1 m i v = store m i (bit_and v 0xff)

put_msb_2 : Bytes → ℕ → ℕ → Option Bytes
put_msb_2 m i v = store m (i + 1) (bit_and v 0xff) >>= λ m. put_msb_1 m i (shr v 8)

put_msb_4 : Bytes → ℕ → ℕ → Option Bytes
put_msb_4 m i v = do
  m ← store m (i + 3) (bit_and v 0xff)
  m ← store m (i + 2) (byte_at v 8)
  put_msb_2 m i (shr v 16)

put_msb_8 : Bytes → ℕ → ℕ → Option Bytes
put_msb_8 m i v = do
  m ← store m (i + 7) (bit_and v 0xff)
  m ← store m (i + 6) (byte_at v 8)
  m ← store m (i + 5) (byte_at v 16)
  m ← store m (i + 4) (byte_at v 24)
  put_msb_4 m i (shr v 32)

pub write_msb : Bytes → ℕ → ℕ → ℕ → Option (Bytes × ℕ)
write_msb m i v n =
    if n == 8
    then written i n (put_msb_8 m i v)
    else if n == 4
    then written i n (put_msb_4 m i v)
    else if n == 2
    then written i n (put_msb_2 m i v)
    else if n == 1
    then written i n (put_msb_1 m i v)
    else some (m, i)
