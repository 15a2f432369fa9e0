-- ===== src/Elfcopy/Srec/RoundTrip.antt =====
-- srec_read of what srec_write writes.
use elftoolchain.Base.{
  ℕ, ◌+◌, ◌-◌, ◌%◌, ◌^◌, ◌≤◌, ◌<◌, ◌≡◌, ◌⊎◌, inl, inr, refl, ap, ◌∙◌, Bool, true, false, ◌&&◌, some,
  [], ◌∷◌, ◌++◌, Bytes, leb, length, All, IsByte, arith, ==_self,
}
use native.Mathlib.Nat.{mod-eq_of_lt}
use elftoolchain.Elfcopy.Hex.{write_num, write_bytes}
use elftoolchain.Elfcopy.Hex.RoundTrip.{read_num-write_num, write_num_bound, write_bytes_bound}
use elftoolchain.Elfcopy.Record.{Conversion, ok, ok_some, line_end, char_at, Data, read_bytes}
use elftoolchain.Elfcopy.Record.RoundTrip.{read_bytes-write_bytes}
use elftoolchain.Elfcopy.Srec.{read_addr_sz, read_data, srec_read, write_addr_sz, srec_line}

-- The types that srec_read knows.
abbrev pub IsKind : ℕ → Type 0
IsKind kind = (b'0' ≤ kind × kind ≤ b'3') ⊎ (kind ≡ b'5') ⊎ (b'7' ≤ kind × kind ≤ b'9')

read_addr_sz-write_addr_sz :
    (kind : ℕ) → IsKind kind → read_addr_sz kind ≡ some (write_addr_sz kind)
unfolding read_addr_sz write_addr_sz
read_addr_sz-write_addr_sz kind h = ground arith

pub write_addr_sz_bound : (kind : ℕ) → (2 ≤ write_addr_sz kind) × (write_addr_sz kind ≤ 4)
unfolding write_addr_sz
write_addr_sz_bound kind = ground arith

drop_high : (kind : ℕ) → b'3' < kind → leb kind b'3' ≡ false
drop_high kind h = ground arith

and_false : (b : Bool) → (b && false) ≡ false
and_false b = ground (arith, b)

read_data-write_bytes :
    (kind addr_sz num checksum : ℕ) (buf rest : Bytes)
    → (b'0' ≤ kind × kind ≤ b'3') ⊎ ((b'3' < kind) × (buf ≡ []))
    → All IsByte buf
    → addr_sz + length buf + 1 < 256
    → read_data kind addr_sz
        (addr_sz + length buf + 1)
        (record { rest = (write_bytes buf checksum).text ++ rest; num = num; checksum = checksum })
      ≡ ok (record { rest = rest; bytes = buf; checksum = (write_bytes buf checksum).checksum })
unfolding read_data write_bytes
read_data-write_bytes kind addr_sz num checksum buf rest (inl h) small fits =
    let e : (leb b'0' kind && leb kind b'3') ≡ true = ground arith in
    let c : (addr_sz + length buf + 1 + 2 ^ 64 - (addr_sz + 1)) % 2 ^ 64 ≡ length buf =
      omega arith in
    rw (e, read_data, c) (read_bytes-write_bytes buf 0 checksum rest small (omega arith))
read_data-write_bytes kind addr_sz num checksum (b ∷ buf) rest (inr h) small fits =
    ground (arith, h)
read_data-write_bytes kind addr_sz num checksum [] rest (inr h) small fits =
    let e : (leb b'0' kind && leb kind b'3') ≡ false =
      rw (drop_high kind h.0) (and_false (leb b'0' kind)) in
    ap
      (λ (x : Bool). elim x as (λ y. Conversion Data) [
        | true ↦
            read_bytes ((addr_sz + 0 + 1 + 2 ^ 64 - (addr_sz + 1)) % 2 ^ 64) 0
              ((write_bytes [] checksum).text ++ rest) checksum
        | false ↦ ok (record { rest = rest; bytes = []; checksum = checksum })
      ])
      e

-- For the types 0 to 3, and without data 5 and 7 to 9, `srec_read` of the line of `srec_write`
-- returns the type, an address below the size of its field, and the data, if they are bytes and
-- their count, with the address and the checksum, is below 256.
pub srec_read-srec_line :
    (kind addr : ℕ) (buf : Bytes)
    → IsKind kind
    → (kind ≤ b'3') ⊎ (buf ≡ [])
    → addr < 256 ^ write_addr_sz kind
    → All IsByte buf
    → write_addr_sz kind + length buf + 1 < 256
    → srec_read (srec_line kind addr buf) ≡ ok (record { kind = kind; addr = addr; bytes = buf })
unfolding srec_read srec_line char_at
srec_read-srec_line kind addr buf known fit low small fits =
    let sz = write_addr_sz kind in
    let n = sz + length buf + 1 in
    let count = write_num n 1 0 in
    let a = write_num addr sz count.checksum in
    let d = write_bytes buf a.checksum in
    let sum = write_num (255 - d.checksum) 1 0 in
    let r0 = sum.text ++ line_end in
    let r1 = d.text ++ r0 in
    let r2 = a.text ++ r1 in
    let a_bound = write_num_bound sz addr count.checksum (write_num_bound 1 n 0 (omega arith)) in
    let d_bound = write_bytes_bound buf a.checksum a_bound in
    let n_eq : n % 256 ^ 1 ≡ n = mod-eq_of_lt (omega arith) in
    let s_eq : (255 - d.checksum) % 256 ^ 1 ≡ 255 - d.checksum = mod-eq_of_lt (omega arith) in
    let sz_bound = write_addr_sz_bound kind in
    ok_some _ (read_num-write_num 1 n 0 r2 (omega arith))
    ∙ ok_some _ (read_addr_sz-write_addr_sz kind known)
    ∙ ok_some _ (read_num-write_num sz addr count.checksum r1 (omega arith))
    ∙ rw
        (
          n_eq,
          mod-eq_of_lt low,
          read_data-write_bytes kind sz addr a.checksum buf r0 (data_kind known fit) small fits,
        )
        (ok_some _ (read_num-write_num 1 (255 - d.checksum) 0 line_end (omega arith))
          ∙ rw (s_eq, ==_self (255 - d.checksum)) refl)
  where
    data_kind :
        IsKind kind
        → (kind ≤ b'3') ⊎ (buf ≡ [])
        → (b'0' ≤ kind × kind ≤ b'3') ⊎ ((b'3' < kind) × (buf ≡ []))
    data_kind k e = ground arith
