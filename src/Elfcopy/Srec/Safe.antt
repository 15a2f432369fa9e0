-- ===== src/Elfcopy/Srec/Safe.antt =====
-- srec_read on any line: a record within its bounds.
use elftoolchain.Base.{
  when_true, when_false, ℕ, ◌+◌, ◌-◌, ◌%◌, ◌^◌, ◌≤◌, ◌<◌, ◌≡◌, inl, inr, ap, sym, ◌∙◌, Bool-cases,
  ◌&&◌, some, [], Bytes, leb, ◌==◌, length, drop, All, IsByte, arith,
}
use mathlib.Core.Path.{subst}
use native.Mathlib.Nat.{pow-le-pow_right}
use elftoolchain.Elfcopy.Hex.{Number, read_num}
use elftoolchain.Elfcopy.Record.{ok, or_invalid, char_at, Data, read_bytes}
use elftoolchain.Elfcopy.Record.Safe.{
  ok_injective, ok_bind, ok_read, read_num_bound, read_bytes-IsByte, read_bytes_room,
}
use elftoolchain.Elfcopy.Srec.{Srec, read_addr_sz, read_data, srec_read}

-- A record of a type that is read, within the bounds of its fields.
abbrev pub IsSrec : Srec → Type 0
IsSrec r =
    (b'0' ≤ r.kind)
    × (r.kind ≤ b'9')
    × (r.addr < 2 ^ 32)
    × All IsByte r.bytes
    × (length r.bytes ≤ 256)

read_addr_sz_bound :
    (kind sz : ℕ) → read_addr_sz kind ≡ some sz → (b'0' ≤ kind) × (kind ≤ b'9') × (sz ≤ 4)
unfolding read_addr_sz
read_addr_sz_bound kind sz e = ground (arith, e)

read_data-IsByte :
    (kind sz count : ℕ) (n : Number) (d : Data)
    → read_data kind sz count n ≡ ok d
    → All IsByte d.bytes × (length d.bytes ≤ 256)
unfolding read_data
read_data-IsByte kind sz count n d e =
    let m = (count + 2 ^ 64 - (sz + 1)) % 2 ^ 64 in
    elim (Bool-cases (leb b'0' kind && leb kind b'3')) [
      | inl some_data ↦
          let read : read_bytes m 0 n.rest n.checksum ≡ ok d = sym (when_true _ _ some_data) ∙ e in
          let (bytes, len) = read_bytes-IsByte m 0 n.rest n.checksum d read in
          (bytes, omega (arith, len, read_bytes_room m 0 n.rest n.checksum d (omega arith) read))
      | inr no_data ↦
          let empty : [] ≡ d.bytes =
            ap (λ (x : Data). x.bytes) (ok_injective _ d (sym (when_false _ _ no_data) ∙ e)) in
          subst (λ (x : Bytes). All IsByte x × (length x ≤ 256)) empty (_, omega arith)
    ]

-- A record that `srec_read` returns, whatever the line, has a type from 0 to 9, an address of 32
-- bits, and at most 256 data, all of them bytes.
pub srec_read-IsSrec : (line : Bytes) (r : Srec) → srec_read line ≡ ok r → IsSrec r
unfolding srec_read
srec_read-IsSrec line r e =
    let (count, e0, h0) = ok_bind (or_invalid (read_num (drop 2 line) 1 0)) _ r e in
    let (sz, e1, h1) = ok_bind (or_invalid (read_addr_sz (char_at line 1))) _ r h0 in
    let (addr, e2, h2) = ok_bind (or_invalid (read_num count.rest sz count.checksum)) _ r h1 in
    let (d, e3, h3) = ok_bind (read_data (char_at line 1) sz count.num addr) _ r h2 in
    let (sum, e4, h4) = ok_bind (or_invalid (read_num d.rest 1 0)) _ r h3 in
    let (least, most, short) =
      read_addr_sz_bound (char_at line 1) sz (ok_read (read_addr_sz (char_at line 1)) sz e1) in
    let low =
      read_num_bound sz count.rest count.checksum addr
        (ok_read (read_num count.rest sz count.checksum) addr e2) in
    let low' : addr.num < 2 ^ 32 =
      omega (arith, low, pow-le-pow_right {n = 256} (omega arith) {i = sz} {j = 4} short) in
    let (bytes, len) = read_data-IsByte (char_at line 1) sz count.num addr d e3 in
    elim (Bool-cases (sum.num == 255 - d.checksum)) [
      | inl right ↦ subst IsSrec (ok_injective _ r (rw right at h4)) (least, most, low', bytes, len)
      | inr wrong ↦ ground (arith, rw wrong at h4)
    ]
