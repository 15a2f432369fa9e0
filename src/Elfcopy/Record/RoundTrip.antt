-- ===== src/Elfcopy/Record/RoundTrip.antt =====
-- The bytes of a record are read back.
use elftoolchain.Base.{
  ℕ, ◌+◌, ◌^◌, ◌≤◌, ◌<◌, ◌≡◌, refl, false, [], ◌∷◌, ◌++◌, Bytes, leb, length, append_assoc, All,
  IsByte, arith,
}
use native.Mathlib.Nat.{mod-eq_of_lt}
use elftoolchain.Elfcopy.Hex.{write_num, write_bytes}
use elftoolchain.Elfcopy.Hex.RoundTrip.{read_num-write_num}
use elftoolchain.Elfcopy.Record.{ok, read_bytes}

pub read_bytes-write_bytes :
    (buf : Bytes) (i checksum : ℕ) (rest : Bytes)
    → All IsByte buf
    → i + length buf ≤ 256
    → read_bytes (length buf) i ((write_bytes buf checksum).text ++ rest) checksum
      ≡ ok (record { rest = rest; bytes = buf; checksum = (write_bytes buf checksum).checksum })
unfolding read_bytes write_bytes
read_bytes-write_bytes [] i checksum rest small fits = refl
read_bytes-write_bytes (b ∷ buf) i checksum rest small fits =
    let d = write_num b 1 checksum in
    let e : leb 256 i ≡ false = ground arith in
    rw
      (
        append_assoc,
        read_num-write_num 1 b checksum ((write_bytes buf d.checksum).text ++ rest) (omega arith),
        e,
      )
      (rw
        (
          read_bytes-write_bytes buf (i + 1) d.checksum rest small.1 (omega arith),
          mod-eq_of_lt (byte small.0),
        )
        refl)
  where
    byte : b < 256 → b < 256 ^ 1
    byte h = omega arith
