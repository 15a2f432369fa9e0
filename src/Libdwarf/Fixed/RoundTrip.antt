-- ===== src/Libdwarf/Fixed/RoundTrip.antt =====
-- Writing an integer of a fixed width and reading it back.
use elftoolchain.Base.{ℕ, ◌+◌, ◌%◌, ◌^◌, ◌≤◌, ◌<◌, ◌≡◌, ◌⊎◌, Option, some, arith, Bytes, length}
use elftoolchain.Base.Mem.{
  load, load_n, store_n, store_n-total, length-store_n, load-store_n_out, load_n-store_n,
}
use elftoolchain.Libdwarf.Fixed.{read_lsb, read_msb, write_lsb, write_msb}
use elftoolchain.Libdwarf.Fixed.Read.{IsWidth, read_lsb-le_value, read_msb-be_value}
use elftoolchain.Libdwarf.Fixed.Write.{
  IsWriteWidth, le_bytes, be_bytes, length-le_bytes, length-be_bytes, le_bytes-IsByte,
  be_bytes-IsByte, write_lsb-store_n, write_msb-store_n, le_value-le_bytes, be_value-be_bytes,
}

-- A write into room for it succeeds, moves the offset behind the bytes written, keeps the size of
-- the buffer and every byte outside of those, and the reader of the same byte order and width gets
-- the value back, cut to the width.
abbrev pub Roundtrips : (Bytes → ℕ → ℕ → Option (ℕ × ℕ)) → Bytes → ℕ → ℕ → ℕ → Bytes → Type 0
Roundtrips read m i v n m' =
    (read m' i n ≡ some (v % 256 ^ n, i + n))
    × (length m' ≡ length m)
    × ((j : ℕ) → (j < i) ⊎ (i + n ≤ j) → load m' j ≡ load m j)

IsWriteWidth-IsWidth : {n : ℕ} → IsWriteWidth n → IsWidth n
IsWriteWidth-IsWidth w = omega arith

-- The bytes `bs` of the number, written at `i`, are read back as they stand.
stored :
    (read : Bytes → ℕ → ℕ → Option (ℕ × ℕ)) (m : Bytes) (i v n : ℕ) (bs : Bytes)
    → length bs ≡ n
    → i + n ≤ length m
    → ((m' : Bytes) → load_n m' i (length bs) ≡ some bs → read m' i n ≡ some (v % 256 ^ n, i + n))
    → (m' : Bytes) × (store_n m i bs ≡ some m') × Roundtrips read m i v n m'
stored read m i v n bs len room back =
    let (m', e) = store_n-total m i bs (omega arith) in
    (
      m',
      e,
      (
        back m' (load_n-store_n m i bs e),
        length-store_n m i bs e,
        λ j out. load-store_n_out m i bs j e (omega arith),
      ),
    )

-- A write of 1, 2, 4 or 8 bytes by `_dwarf_write_lsb` into room for it succeeds and moves the
-- offset behind the bytes; `_dwarf_read_lsb` then returns the value cut to the width and the same
-- offset; the size of the buffer and every byte outside of those written are as before.
pub write_lsb-read_lsb :
    (m : Bytes) (i v n : ℕ)
    → IsWriteWidth n
    → i + n ≤ length m
    → (m' : Bytes) × (write_lsb m i v n ≡ some (m', i + n)) × Roundtrips read_lsb m i v n m'
write_lsb-read_lsb m i v n w room =
    let len = length-le_bytes n v in
    let (m', e, r) = stored read_lsb m i v n (le_bytes n v) len room back in
    (m', rw (write_lsb-store_n m i v n w, e), r)
  where
    back :
        (m' : Bytes)
        → load_n m' i (length (le_bytes n v)) ≡ some (le_bytes n v)
        → read_lsb m' i n ≡ some (v % 256 ^ n, i + n)
    back m' h =
        rw (length-le_bytes n v, le_value-le_bytes n v w) at
          (read_lsb-le_value m' i (le_bytes n v) (rw (length-le_bytes n v) (IsWriteWidth-IsWidth w))
            (le_bytes-IsByte n v) h).0

-- A write of 1, 2, 4 or 8 bytes by `_dwarf_write_msb` into room for it succeeds and moves the
-- offset behind the bytes; `_dwarf_read_msb` then returns the value cut to the width and the same
-- offset; the size of the buffer and every byte outside of those written are as before.
pub write_msb-read_msb :
    (m : Bytes) (i v n : ℕ)
    → IsWriteWidth n
    → i + n ≤ length m
    → (m' : Bytes) × (write_msb m i v n ≡ some (m', i + n)) × Roundtrips read_msb m i v n m'
write_msb-read_msb m i v n w room =
    let len = length-be_bytes n v in
    let (m', e, r) = stored read_msb m i v n (be_bytes n v) len room back in
    (m', rw (write_msb-store_n m i v n w, e), r)
  where
    back :
        (m' : Bytes)
        → load_n m' i (length (be_bytes n v)) ≡ some (be_bytes n v)
        → read_msb m' i n ≡ some (v % 256 ^ n, i + n)
    back m' h =
        rw (length-be_bytes n v, be_value-be_bytes n v w) at
          (read_msb-be_value m' i (be_bytes n v) (rw (length-be_bytes n v) (IsWriteWidth-IsWidth w))
            (be_bytes-IsByte n v) h).0
